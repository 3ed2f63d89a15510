-- ===== src/Server/Authority.antt =====
-- Which messages of clients may change the tokens of the server, and how.
use pywssocks.Base.{
  list_eq, nat_eq, ℕ, ◌≡◌, ◌≢◌, refl, ◌∙◌, sym, ap, subst, Bool, true, false, Option, none, some,
  List, [], ◌∷◌, ◌==◌, ◌⊎◌, Bool-cases, inl, inr, Result, ok, err, eq_iff, arith,
}
use pywssocks.Base.Dict.{Dict, get, insert, contains}
use pywssocks.Base.Sets.{elem}
use pywssocks.Text.{Str}
use pywssocks.Message.Types.{Uuid, ConnectorMessage, add_operation, remove_operation}
use pywssocks.Server.State.{ℤ, Server}
use pywssocks.Server.Tokens.{add_connector_token, is_reverse}
use pywssocks.Server.Remove.{remove_token}
use pywssocks.Server.Removal.{IsGone, remove_token-IsGone}
use pywssocks.Server.Clients.{may_manage, list_or_empty}
use pywssocks.Server.Dispatch.{
  find_client_token, has_client, permitted, operate, manage, added, removed, agreement,
}

-- The look-up of the client's token finds one whose options let the client manage connectors.
pub record IsFoundManager (client_id : Uuid) (token : Str) (s : Server) : Type 0 where
  pub found : find_client_token client_id s.token_clients ≡ some token
  pub allowed : may_manage (get token s.token_options) ≡ true

abbrev pub IsIn : {A : Type 0} → A → List A → Type 0
IsIn x [] = ⊥
IsIn x (y ∷ l) = (y ≡ x) ⊎ IsIn x l

-- The client, with a connection, is in the list of clients of a token that is not empty, and the
-- options of this token let it manage connectors.
pub record IsManager (client_id : Uuid) (token : Str) (s : Server) : Type 0 where
  pub members : List (Uuid × ℕ)
  pub ws : ℕ
  pub entry : IsIn (token, members) s.token_clients
  pub member : IsIn (client_id, ws) members
  pub not_empty : token ≢ []
  pub manages : may_manage (get token s.token_options) ≡ true

has_client-IsIn :
    (client_id : Uuid) (l : List (Uuid × ℕ))
    → has_client client_id l ≡ true
    → (ws : ℕ) × IsIn (client_id, ws) l
has_client-IsIn client_id [] h = cc
has_client-IsIn client_id ((cid, ws) ∷ l) h = elim (Bool-cases (cid == client_id)) [
  | inl same ↦ (ws, inl (ap (λ (u : Uuid). (u, ws)) ((eq_iff cid client_id).0 same)))
  | inr other ↦
      let (v, there) = has_client-IsIn client_id l (ground (arith, other)) in (v, inr there)
]

-- What a look-up that finds a token tells.
abbrev IsFound : Uuid → Str → Dict Str (List (Uuid × ℕ)) → Type 0
IsFound client_id token d =
    (members : List (Uuid × ℕ)) × (ws : ℕ) × IsIn (token, members) d
    × IsIn (client_id, ws) members
    × (token ≢ [])

find_client_token-IsFound :
    (client_id : Uuid) (token : Str) (d : Dict Str (List (Uuid × ℕ)))
    → find_client_token client_id d ≡ some token
    → IsFound client_id token d
unfolding find_client_token
find_client_token-IsFound client_id token [] h = cc
find_client_token-IsFound client_id token (([], l) ∷ d) h =
    let (members, ws, entry, member, full) = find_client_token-IsFound client_id token d h in
    (members, ws, inr entry, member, full)
find_client_token-IsFound client_id token ((c ∷ t, l) ∷ d) h =
    elim (Bool-cases (has_client client_id l)) [
      | inl here ↦
          let (ws, member) = has_client-IsIn client_id l here in
          (l, ws, inl (ap (λ (u : Str). (u, l)) (same here)), member, full here)
      | inr later ↦
          let (members, ws, entry, member, full) =
            find_client_token-IsFound client_id token d (rw later at h) in
          (members, ws, inr entry, member, full)
    ]
  where
    same : has_client client_id l ≡ true → (c ∷ t) ≡ token
    same here = let e = rw here at h in cc

    full : has_client client_id l ≡ true → token ≢ []
    full here e = let e' = same here in cc

-- A connector token is added for the client's token, or the token of the message is removed.
abbrev pub IsManaged : Str → ConnectorMessage → Server → Server → Type 0
IsManaged token m s s' =
    (((m.operation == add_operation) ≡ true)
      × (contains m.connector_token s.connector_tokens ≡ false)
      × (s' ≡ record s { connector_tokens = insert m.connector_token token s.connector_tokens }))
    ⊎ (((m.operation == remove_operation) ≡ true) × (s' ≡ (remove_token m.connector_token s).0))

added-server : (c : Uuid) (r : Server × Option Str) → (added c r).0 ≡ r.0
added-server c (s, none) = refl
added-server c (s, some []) = refl
added-server c (s, some (k ∷ ks)) = refl

removed-server : (c : Uuid) (r : Server × Result Bool) → (removed c r).0 ≡ r.0
removed-server c (s, ok true) = refl
removed-server c (s, ok false) = refl
removed-server c (s, err e) = refl

adds-IsManaged :
    (c : ℕ) (t : Str) (m : ConnectorMessage) (s : Server)
    → (m.operation == add_operation) ≡ true
    → (add_connector_token [] (some m.connector_token) (some (c ∷ t)) s).0 ≢ s
    → IsManaged (c ∷ t) m s (add_connector_token [] (some m.connector_token) (some (c ∷ t)) s).0
unfolding add_connector_token
adds-IsManaged c t m s is_add changed = elim (Bool-cases (is_reverse (some (c ∷ t)) s)) [
  | inr no_ ↦ absurd (changed (rw no_ refl))
  | inl known ↦ elim (Bool-cases (contains m.connector_token s.connector_tokens)) [
    | inl there ↦ absurd (changed (rw (known, there) refl))
    | inr new ↦ inl (is_add, new, rw (known, new) refl)
  ]
]

operate_add :
    (token : Str) (m : ConnectorMessage) (s : Server)
    → (m.operation == add_operation) ≡ true
    → (operate token m s).0 ≡ (add_connector_token [] (some m.connector_token) (some token) s).0
unfolding operate
operate_add token m s adds =
    rw adds
      (added-server m.channel_id (add_connector_token [] (some m.connector_token) (some token) s))

operate_remove :
    (token : Str) (m : ConnectorMessage) (s : Server)
    → (m.operation == add_operation) ≡ false
    → (m.operation == remove_operation) ≡ true
    → (operate token m s).0 ≡ (remove_token m.connector_token s).0
unfolding operate
operate_remove token m s not_add removes =
    rw (not_add, removes) (removed-server m.channel_id (remove_token m.connector_token s))

operate-IsManaged :
    (c : ℕ) (t : Str) (m : ConnectorMessage) (s : Server)
    → (operate (c ∷ t) m s).0 ≢ s
    → IsManaged (c ∷ t) m s (operate (c ∷ t) m s).0
unfolding operate
operate-IsManaged c t m s changed = elim (Bool-cases (m.operation == add_operation)) [
  | inl adds ↦
      let same = operate_add (c ∷ t) m s adds in
      subst (λ (s' : Server). IsManaged (c ∷ t) m s s') (sym same)
        (adds-IsManaged c t m s adds (λ e. changed (same ∙ e)))
  | inr not_add ↦ elim (Bool-cases (m.operation == remove_operation)) [
    | inl removes ↦ inr (removes, operate_remove (c ∷ t) m s not_add removes)
    | inr not_remove ↦ absurd (changed (rw (not_add, not_remove) refl))
  ]
]

pub manage_operates :
    (client_id : Uuid) (token : Str) (m : ConnectorMessage) (s : Server)
    → IsFoundManager client_id token s
    → manage client_id m s ≡ operate token m s
unfolding manage
manage_operates client_id token m s i = rw (i.found, i.allowed) refl

permitted-IsFoundManager :
    (client_id : Uuid) (s : Server) (o : Option Str)
    → find_client_token client_id s.token_clients ≡ o
    → permitted o s ≡ true
    → (token : Str) × IsFoundManager client_id token s
permitted-IsFoundManager client_id s none f p = cc
permitted-IsFoundManager client_id s (some token) f p = (token, record { found = f; allowed = p })

found-IsManager :
    (client_id : Uuid) (token : Str) (s : Server)
    → IsFoundManager client_id token s
    → IsManager client_id token s
found-IsManager client_id token s i =
    let (members, ws, entry, member, full) =
      find_client_token-IsFound client_id token s.token_clients i.found in
    record {
      members = members;
      ws = ws;
      entry = entry;
      member = member;
      not_empty = full;
      manages = i.allowed;
    }

managed :
    (client_id : Uuid) (token : Str) (m : ConnectorMessage) (s : Server)
    → IsFoundManager client_id token s
    → (manage client_id m s).0 ≢ s
    → IsManaged token m s (manage client_id m s).0
managed client_id [] m s i changed = absurd ((found-IsManager client_id [] s i).not_empty refl)
managed client_id (c ∷ t) m s i changed =
    let e = manage_operates client_id (c ∷ t) m s i in
    rw e (operate-IsManaged c t m s (λ same. changed (rw e same)))

-- A connector message changes the server only where its client is in the list of clients of a token,
-- not empty, whose options let it manage connectors; and the change is one of two: the new connector
-- token of an add message stands for this token and all else is as it was, or the token of a remove
-- message has gone as remove_token takes it away.
pub manage_needs-IsManager :
    (client_id : Uuid) (m : ConnectorMessage) (s : Server)
    → (manage client_id m s).0 ≢ s
    → (token : Str) × IsManager client_id token s × IsManaged token m s (manage client_id m s).0
unfolding manage
manage_needs-IsManager client_id m s changed =
    elim (Bool-cases (permitted (find_client_token client_id s.token_clients) s)) [
      | inl yes_ ↦
          let (token, i) =
            permitted-IsFoundManager client_id s (find_client_token client_id s.token_clients) refl
              yes_ in
          (token, found-IsManager client_id token s i, managed client_id token m s i changed)
      | inr no_ ↦ absurd (changed (rw no_ refl))
    ]

-- The remove operation is not limited to connector tokens: a client that may manage connectors
-- removes by it any reverse token that is no connector token and not one of its own internal tokens,
-- with its port and its connector tokens, and is told that it succeeded.
pub manage_removes_any_token :
    (client_id : Uuid) (token : Str) (port : ℤ) (m : ConnectorMessage) (s : Server)
    → IsFoundManager client_id token s
    → (m.operation == add_operation) ≡ false
    → (m.operation == remove_operation) ≡ true
    → contains m.connector_token s.connector_tokens ≡ false
    → get m.connector_token s.tokens ≡ some port
    → elem m.connector_token (list_or_empty (get m.connector_token s.internal_tokens)) ≡ false
    → ((manage client_id m s).1 ≡ ok (agreement m.channel_id none))
      × IsGone m.connector_token port (manage client_id m s).0
unfolding operate
manage_removes_any_token client_id token port m s i not_add is_remove plain known outside =
    let (told, gone) = remove_token-IsGone m.connector_token port s plain known outside in
    rw (manage_operates client_id token m s i, not_add, is_remove)
      (removed_ok m.channel_id (remove_token m.connector_token s) refl told gone)
  where
    removed_ok :
        (channel_id : Uuid) (r : Server × Result Bool)
        → remove_token m.connector_token s ≡ r
        → (remove_token m.connector_token s).1 ≡ ok true
        → IsGone m.connector_token port (remove_token m.connector_token s).0
        → ((removed channel_id (remove_token m.connector_token s)).1
            ≡ ok (agreement channel_id none))
          × IsGone m.connector_token port (removed channel_id (remove_token m.connector_token s)).0
    removed_ok channel_id (s', ok true) e told gone =
        rw e (refl, subst (λ (p : Server × Result Bool). IsGone m.connector_token port p.0) e gone)
    removed_ok channel_id (s', ok false) e told gone = cc
    removed_ok channel_id (s', err x) e told gone = cc
