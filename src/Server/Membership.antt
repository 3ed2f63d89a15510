-- ===== src/Server/Membership.antt =====
-- What the server's maps say of a client while it is connected and after it has left.
use pywssocks.Base.{
  list_eq, nat_eq, ℕ, ◌≡◌, ◌≢◌, refl, ◌∙◌, true, false, none, List, [], ◌∷◌, ◌++◌, arith, eq_iff,
  eq_refl, Bool-cases, Option-cases, inl, inr,
}
use pywssocks.Base.Dict.{get, contains, get-insert, get-erase}
use pywssocks.Text.{Str}
use pywssocks.Message.Types.{Uuid}
use pywssocks.Server.State.{int_eq, ℤ, Server}
use pywssocks.Server.Pending.{start_socks_server}
use pywssocks.Server.Dispatch.{has_client}
use pywssocks.Server.Clients.{
  list_or_empty, ensure_socks_server, is_positive, without, set_clients, leave, uuid_text,
}

-- The clients under a token.
abbrev pub clients_of : Str → Server → List (Uuid × ℕ)
clients_of token s = list_or_empty (get token s.token_clients)

-- Starting a SOCKS server touches neither clients nor tokens.
pub record SameClients (s s' : Server) : Type 0 where
  pub clients : s'.clients ≡ s.clients
  pub token_clients : s'.token_clients ≡ s.token_clients
  pub tokens : s'.tokens ≡ s.tokens
  pub token_locks : s'.token_locks ≡ s.token_locks
  pub forward_clients : s'.forward_clients ≡ s.forward_clients
  pub pool : s'.pool ≡ s.pool
  pub internal_tokens : s'.internal_tokens ≡ s.internal_tokens
  pub token_options : s'.token_options ≡ s.token_options
  pub connector_tokens : s'.connector_tokens ≡ s.connector_tokens

SameClients-refl : (s : Server) → SameClients s s
SameClients-refl s = record {
  clients = refl;
  token_clients = refl;
  tokens = refl;
  token_locks = refl;
  forward_clients = refl;
  pool = refl;
  internal_tokens = refl;
  token_options = refl;
  connector_tokens = refl;
}

pub ensure-SameClients :
    (token : Str) (port : ℤ) (s : Server) → SameClients s (ensure_socks_server token port s)
unfolding ensure_socks_server start_socks_server
ensure-SameClients token port s = elim (Bool-cases (is_positive port)) [
  | inl starts ↦ elim (Bool-cases (contains port s.socks_tasks)) [
    | inl runs ↦ rw (starts, runs) (SameClients-refl s)
    | inr new ↦
        rw (starts, new)
          (record {
            clients = refl;
            token_clients = refl;
            tokens = refl;
            token_locks = refl;
            forward_clients = refl;
            pool = refl;
            internal_tokens = refl;
            token_options = refl;
            connector_tokens = refl;
          })
  ]
  | inr not_ ↦ rw not_ (SameClients-refl s)
]

pub has_client-append :
    (c : Uuid) (ws : ℕ) (l : List (Uuid × ℕ)) → has_client c (l ++ ((c, ws) ∷ [])) ≡ true
has_client-append c ws [] = ground (arith, eq_refl c)
has_client-append c ws ((d, v) ∷ l) = ground (arith, has_client-append c ws l)

-- Leaving undoes joining, for a client that was not in the list.
pub without-append :
    (c : Uuid) (ws : ℕ) (l : List (Uuid × ℕ))
    → has_client c l ≡ false
    → without c (l ++ ((c, ws) ∷ [])) ≡ l
unfolding without
without-append c ws [] h = ground (arith, eq_refl c)
without-append c ws ((d, v) ∷ l) h = ground (arith, without-append c ws l)

has_client-without : (c : Uuid) (l : List (Uuid × ℕ)) → has_client c (without c l) ≡ false
unfolding without
has_client-without c [] = refl
has_client-without c ((d, v) ∷ l) = ground (arith, has_client-without c l)

-- After a client of a token has left, neither the token's list nor the clients have it; all else,
-- and every other client, is as it was.
pub record HasLeft (client_id : Uuid) (token : Str) (s s' : Server) : Type 0 where
  pub not_listed : has_client client_id (clients_of token s') ≡ false
  pub unknown_id : get client_id s'.clients ≡ none
  pub others_listed : clients_of token s' ≡ without client_id (clients_of token s)
  pub other_tokens : (t : Str) → token ≢ t → get t s'.token_clients ≡ get t s.token_clients
  pub other_ids : (c : Uuid) → client_id ≢ c → get c s'.clients ≡ get c s.clients
  pub tokens_stay : s'.tokens ≡ s.tokens
  pub forward_stays : s'.forward_clients ≡ s.forward_clients

set_clients-get :
    (token : Str) (l : List (Uuid × ℕ)) (s : Server) → clients_of token (set_clients token l s) ≡ l
set_clients-get token [] s = ground (arith, get-erase token token s.token_clients, eq_refl token)
set_clients-get token (c ∷ cs) s =
    ground (arith, get-insert token token (c ∷ cs) s.token_clients, eq_refl token)

set_clients-other :
    (token t : Str) (l : List (Uuid × ℕ)) (s : Server)
    → token ≢ t
    → get t (set_clients token l s).token_clients ≡ get t s.token_clients
set_clients-other token t [] s h = ground (arith, get-erase token t s.token_clients, eq_iff token t)
set_clients-other token t (c ∷ cs) s h =
    ground (arith, get-insert token t (c ∷ cs) s.token_clients, eq_iff token t)

record SetFrame (s s' : Server) : Type 0 where
  clients : s'.clients ≡ s.clients
  tokens : s'.tokens ≡ s.tokens
  forward_clients : s'.forward_clients ≡ s.forward_clients

set_clients-frame :
    (token : Str) (l : List (Uuid × ℕ)) (s : Server) → SetFrame s (set_clients token l s)
set_clients-frame token [] s = record { clients = refl; tokens = refl; forward_clients = refl }
set_clients-frame token (c ∷ cs) s = record {
  clients = refl;
  tokens = refl;
  forward_clients = refl;
}

-- `str(uuid)` has dashes.
pub uuid_text_not_empty : (u : Uuid) → uuid_text u ≢ []
unfolding uuid_text
uuid_text_not_empty u e = has_dash _ _ e
  where
    has_dash : (l r : Str) → l ++ (45 ∷ r) ≢ []
    has_dash [] r h = cc
    has_dash (c ∷ l) r h = cc

pub leave-HasLeft :
    (client_id : Uuid) (token : Str) (s : Server)
    → token ≢ []
    → HasLeft client_id token s (leave client_id token s)
unfolding leave
leave-HasLeft client_id [] s full = absurd (full refl)
leave-HasLeft client_id (x ∷ xs) s full = elim (Option-cases (get (x ∷ xs) s.token_clients)) [
  | inl absent ↦ rw absent (record {
    not_listed = rw absent refl;
    unknown_id = ground (arith, get-erase client_id client_id s.clients, eq_refl client_id);
    others_listed = unfold without in (rw absent refl);
    other_tokens = λ t h. refl;
    other_ids = λ c h. ground (arith, get-erase client_id c s.clients, eq_iff client_id c);
    tokens_stay = refl;
    forward_stays = refl;
  })
  | inr (l, found) ↦
      let rest = without client_id l in
      let f = set_clients-frame (x ∷ xs) rest s in
      rw found (record {
        not_listed = rw (set_clients-get (x ∷ xs) rest s) (has_client-without client_id l);
        unknown_id = ground (
          arith,
          get-erase client_id client_id (set_clients (x ∷ xs) rest s).clients,
          eq_refl client_id,
        );
        others_listed = set_clients-get (x ∷ xs) rest s ∙ rw found refl;
        other_tokens = λ t h. set_clients-other (x ∷ xs) t rest s h;
        other_ids = λ c h. ground (
          arith,
          get-erase client_id c (set_clients (x ∷ xs) rest s).clients,
          f.clients,
          eq_iff client_id c,
        );
        tokens_stay = f.tokens;
        forward_stays = f.forward_clients;
      })
]
