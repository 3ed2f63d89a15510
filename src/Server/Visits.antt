-- ===== src/Server/Visits.antt =====
-- A client that comes and goes again.
use pywssocks.Base.{
  list_eq, nat_eq, ℕ, ◌≡◌, ◌≢◌, refl, ◌∙◌, ap, sym, subst, Bool, true, false, none, some, [], ◌∷◌,
  ◌++◌, ◌==◌, arith, eq_iff, eq_refl, Bool-cases, inl, inr,
}
use pywssocks.Base.Dict.{get, insert, get-insert}
use pywssocks.Text.{Str}
use pywssocks.Message.Types.{Uuid, AuthMessage}
use pywssocks.Server.State.{int_eq, ℤ, negsuc, Server}
use pywssocks.Server.Dispatch.{has_client}
use pywssocks.Server.Clients.{
  list_or_empty, add_client, may_manage, add_internal, own_token, join_reverse, register_reverse,
  register_connector, without, leave, Kind, register_client, leaving_token, uuid_text,
  reverse_client, forward_client, connector_client, unknown,
}
use pywssocks.Server.Membership.{
  clients_of, ensure-SameClients, leave-HasLeft, without-append, uuid_text_not_empty,
}

-- A client is in the maps: last in the list of a token, and with its connection among the clients.
pub record HasJoined (client_id : Uuid) (ws : ℕ) (token : Str) (s s' : Server) : Type 0 where
  pub listed : clients_of token s' ≡ clients_of token s ++ ((client_id, ws) ∷ [])
  pub known_id : get client_id s'.clients ≡ some ws
  pub other_tokens : (t : Str) → token ≢ t → get t s'.token_clients ≡ get t s.token_clients
  pub other_ids : (c : Uuid) → client_id ≢ c → get c s'.clients ≡ get c s.clients

-- Any server with these two maps.
maps-HasJoined :
    (client_id : Uuid) (ws : ℕ) (token : Str) (s s' : Server)
    → s'.token_clients ≡ insert token (clients_of token s ++ ((client_id, ws) ∷ [])) s.token_clients
    → s'.clients ≡ insert client_id ws s.clients
    → HasJoined client_id ws token s s'
maps-HasJoined client_id ws token s s' h g =
    let l = clients_of token s ++ ((client_id, ws) ∷ []) in
    record {
      listed =
          ap (λ d. list_or_empty (get token d)) h
          ∙ ground (arith, get-insert token token l s.token_clients, eq_refl token);
      known_id =
          ap (get client_id) g
          ∙ ground (arith, get-insert client_id client_id ws s.clients, eq_refl client_id);
      other_tokens = λ t other.
          ap (get t) h ∙ ground (arith, get-insert token t l s.token_clients, eq_iff token t);
      other_ids = λ c other.
          ap (get c) g ∙ ground (arith, get-insert client_id c ws s.clients, eq_iff client_id c);
    }

join_maps :
    (token : Str) (instance_id client_id : Uuid) (ws : ℕ) (s : Server)
    → let own = own_token token instance_id s in
      let s' = join_reverse token instance_id (client_id, ws) s in
      (s'.token_clients ≡ insert own (clients_of own s ++ ((client_id, ws) ∷ [])) s.token_clients)
      × (s'.clients ≡ s.clients)
      × (s'.forward_clients ≡ s.forward_clients)
      × (s'.pool ≡ s.pool)
unfolding join_reverse add_client add_internal
join_maps token instance_id client_id ws s =
    elim (Bool-cases (may_manage (get token s.token_options))) [
      | inl manages ↦ rw manages (refl, refl, refl, refl)
      | inr plain ↦ rw plain (refl, refl, refl, refl)
    ]

-- Clients of reverse tokens and of connector tokens; forward clients are kept elsewhere.
unfoldable pub is_listed : Kind → Bool
is_listed (reverse_client port) = true
is_listed forward_client = false
is_listed (connector_client reverse_token) = true
is_listed unknown = false

pub register-HasJoined :
    (m : AuthMessage) (client_id : Uuid) (ws : ℕ) (k : Kind) (s : Server)
    → is_listed k ≡ true
    → HasJoined client_id ws (leaving_token m k s) s (register_client m (client_id, ws) k s)
unfolding is_listed register_client register_reverse register_connector add_client
register-HasJoined m client_id ws (reverse_client port) s h =
    let (lists, ids, forward, pool) = join_maps m.token m.instance_id client_id ws s in
    let f =
      ensure-SameClients m.token port (join_reverse m.token m.instance_id (client_id, ws) s) in
    maps-HasJoined client_id ws (own_token m.token m.instance_id s) s _ (f.token_clients ∙ lists)
      (ap (insert client_id ws) (f.clients ∙ ids))
register-HasJoined m client_id ws (connector_client reverse_token) s h =
    maps-HasJoined client_id ws m.token s _ refl refl
register-HasJoined m client_id ws forward_client s h = cc
register-HasJoined m client_id ws unknown s h = cc

-- The clients under each token, and the connection of each client.
pub record SameMembers (s s' : Server) : Type 0 where
  pub lists : (t : Str) → clients_of t s' ≡ clients_of t s
  pub ids : (c : Uuid) → get c s'.clients ≡ get c s.clients

come_and_go :
    (client_id : Uuid) (ws : ℕ) (token : Str) (s s' : Server)
    → HasJoined client_id ws token s s'
    → token ≢ []
    → has_client client_id (clients_of token s) ≡ false
    → get client_id s.clients ≡ none
    → SameMembers s (leave client_id token s')
come_and_go client_id ws token s s' j full fresh new =
    let left = leave-HasLeft client_id token s' full in
    record {
      lists = λ t. elim (Bool-cases (token == t)) [
        | inl same ↦
            subst (λ (u : Str). clients_of u (leave client_id token s') ≡ clients_of u s)
              ((eq_iff token t).0 same)
              (left.others_listed
                ∙ ap (without client_id) j.listed
                ∙ without-append client_id ws (clients_of token s) fresh)
        | inr other ↦ ap list_or_empty (
            left.other_tokens t (different token t other)
            ∙ j.other_tokens t (different token t other))
      ];
      ids = λ c. elim (Bool-cases (client_id == c)) [
        | inl same ↦
            subst (λ (u : Uuid). get u (leave client_id token s').clients ≡ get u s.clients)
              ((eq_iff client_id c).0 same) (left.unknown_id ∙ sym new)
        | inr other ↦
            left.other_ids c (different client_id c other)
            ∙ j.other_ids c (different client_id c other)
      ];
    }
  where
    different : (a b : Str) → (a == b) ≡ false → a ≢ b
    different a b h e = ground (arith, eq_iff a b)

-- A reverse or connector client with a new id, of a token that is not empty, is in the maps once it is
-- registered: last under its token (a token of its own, if it may manage connectors), with its
-- connection. When it leaves, every token has the clients that it had before, and every client its
-- connection.
pub register-leave :
    (m : AuthMessage) (client_id : Uuid) (ws : ℕ) (k : Kind) (s : Server)
    → is_listed k ≡ true
    → leaving_token m k s ≢ []
    → has_client client_id (clients_of (leaving_token m k s) s) ≡ false
    → get client_id s.clients ≡ none
    → let s' = register_client m (client_id, ws) k s in
      HasJoined client_id ws (leaving_token m k s) s s'
      × SameMembers s (leave client_id (leaving_token m k s) s')
register-leave m client_id ws k s listed full fresh new =
    let j = register-HasJoined m client_id ws k s listed in
    (j, come_and_go client_id ws (leaving_token m k s) s _ j full fresh new)

-- A client that may manage connectors leaves its own token behind: when it has left, it is not among
-- the clients of the token, but the token still stands among the tokens, without a port.
pub internal_token_stays :
    (m : AuthMessage) (client_id : Uuid) (ws : ℕ) (port : ℤ) (s : Server)
    → may_manage (get m.token s.token_options) ≡ true
    → let own = uuid_text m.instance_id in
      let s' = leave client_id own (register_client m (client_id, ws) (reverse_client port) s) in
      (get own s'.tokens ≡ some (negsuc 0)) × (has_client client_id (clients_of own s') ≡ false)
unfolding register_client register_reverse join_reverse add_client add_internal
internal_token_stays m client_id ws port s manages =
    let own = uuid_text m.instance_id in
    let s' = register_client m (client_id, ws) (reverse_client port) s in
    let left = leave-HasLeft client_id own s' (uuid_text_not_empty m.instance_id) in
    let f =
      ensure-SameClients m.token port (join_reverse m.token m.instance_id (client_id, ws) s) in
    (
      ap (get own) (left.tokens_stay ∙ f.tokens)
          ∙ rw manages (ground (arith, get-insert own own (negsuc 0) s.tokens, eq_refl own)),
      left.not_listed,
    )
