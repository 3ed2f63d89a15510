-- ===== src/Server/Dropped.antt =====
-- What the parts of `remove_token` leave of the reverse and the connector tokens.
use pywssocks.Base.{
  list_eq, nat_eq, ℕ, ◌≡◌, ◌≢◌, refl, ◌∙◌, ap, Bool, true, false, ◌&&◌, none, some, List, [], ◌∷◌,
  if◌then◌else◌, ◌==◌, arith, eq_iff, Option-cases, Option, inl, inr,
}
use pywssocks.Base.Dict.{get, get-erase}
use pywssocks.Base.Sets.{elem}
use pywssocks.Text.{Str}
use pywssocks.Message.Types.{Uuid}
use pywssocks.Server.State.{int_eq, Server, Task}
use pywssocks.Server.Tokens.{schedule}
use pywssocks.Server.Clients.{list_or_empty}
use pywssocks.Server.Ports.{before_forget}
use pywssocks.Server.Remove.{
  drop_clients, drop_token_clients, drop_connector, drop_internal, drop_internal_of,
  drop_connectors_of,
}

-- Dropping clients leaves the tokens alone.
pub record SameTokens (s s' : Server) : Type 0 where
  pub tokens : s'.tokens ≡ s.tokens
  pub connectors : s'.connector_tokens ≡ s.connector_tokens

drop_clients-SameTokens : (cs : List (Uuid × ℕ)) (s : Server) → SameTokens s (drop_clients cs s)
unfolding drop_clients
drop_clients-SameTokens [] s = record { tokens = refl; connectors = refl }
drop_clients-SameTokens ((client_id, ws) ∷ cs) s =
    let rest = drop_clients-SameTokens cs _ in
    record { tokens = rest.tokens; connectors = rest.connectors }

pub drop_token_clients-SameTokens :
    (token : Str) (s : Server) → SameTokens s (drop_token_clients token s)
unfolding drop_token_clients
drop_token_clients-SameTokens token s = elim (Option-cases (get token s.token_clients)) [
  | inl none_there ↦ rw none_there (record { tokens = refl; connectors = refl })
  | inr (cs, found) ↦ rw found (
      let rest = drop_clients-SameTokens cs s in
      record { tokens = rest.tokens; connectors = rest.connectors })
]

tokens-drop_internal :
    (internal : List Str) (s : Server) (u : Str)
    → elem u internal ≡ false
    → get u (drop_internal internal s).tokens ≡ get u s.tokens
unfolding drop_internal elem
tokens-drop_internal [] s u h = refl
tokens-drop_internal (token ∷ rest) s u h =
    let after = drop_token_clients token s in
    tokens-drop_internal rest _ u (ground arith)
    ∙ ground (arith, get-erase token u after.tokens, (drop_token_clients-SameTokens token s).tokens)

-- One connector token goes, and no reverse token.
connectors-drop_connector :
    (c d : Str) (s : Server)
    → get d (drop_connector c s).connector_tokens
      ≡ (if c == d then none else get d s.connector_tokens)
unfolding drop_connector
connectors-drop_connector c d s =
    let after = drop_token_clients c (schedule (Task.cleanup_token c) s) in
    ground (
      arith,
      get-erase c d after.connector_tokens,
      (drop_token_clients-SameTokens c (schedule (Task.cleanup_token c) s)).connectors,
    )

pub tokens-drop_connector : (c : Str) (s : Server) → (drop_connector c s).tokens ≡ s.tokens
unfolding drop_connector
tokens-drop_connector c s =
    (drop_token_clients-SameTokens c (schedule (Task.cleanup_token c) s)).tokens

tokens-drop_connectors_of :
    (token : Str) (l : List (Str × Str)) (s : Server)
    → (drop_connectors_of token l s).tokens ≡ s.tokens
unfolding drop_connectors_of
tokens-drop_connectors_of token [] s = refl
tokens-drop_connectors_of token ((c, rt) ∷ l) s =
    tokens-drop_connectors_of token l _ ∙ either (rt == token)
  where
    either : (b : Bool) → (if b then drop_connector c s else s).tokens ≡ s.tokens
    either true = tokens-drop_connector c s
    either false = refl

connectors_if :
    (b : Bool) (c d : Str) (s : Server)
    → get d (if b then drop_connector c s else s).connector_tokens
      ≡ (if b && (c == d) then none else get d s.connector_tokens)
connectors_if true c d s = connectors-drop_connector c d s
connectors_if false c d s = refl

-- What is left was there before, and stands for another token if the snapshot says so.
pub connectors-drop_connectors_of :
    (token : Str) (l : List (Str × Str)) (s : Server) (c rt : Str)
    → get c (drop_connectors_of token l s).connector_tokens ≡ some rt
    → (get c s.connector_tokens ≡ some rt) × (get c l ≢ some token)
unfolding drop_connectors_of get
connectors-drop_connectors_of token [] s c rt h = (h, λ e. cc)
connectors-drop_connectors_of token ((d, r) ∷ l) s c rt h =
    let (before, rest) = connectors-drop_connectors_of token l _ c rt h in
    let one = connectors_if (r == token) d c s in
    (ground (arith, before, one), λ e. ground (arith, before, one, rest, eq_iff r token))

tokens-drop_internal_of :
    (token : Str) (o : Option (List Str)) (s : Server) (u : Str)
    → elem u (list_or_empty o) ≡ false
    → get u (drop_internal_of token o s).tokens ≡ get u s.tokens
tokens-drop_internal_of token none s u h = refl
tokens-drop_internal_of token (some internal) s u h = tokens-drop_internal internal s u h

-- Only the internal tokens of the token go before it.
pub tokens-before_forget :
    (token : Str) (s : Server) (u : Str)
    → elem u (list_or_empty (get token s.internal_tokens)) ≡ false
    → get u (before_forget token s).tokens ≡ get u s.tokens
tokens-before_forget token s u outside =
    let s' = drop_internal_of token (get token s.internal_tokens) s in
    let s'' = drop_connectors_of token s'.connector_tokens s' in
    let t = schedule (Task.cleanup_token token) s'' in
    ap (get u) (
      (drop_token_clients-SameTokens token t).tokens
      ∙ tokens-drop_connectors_of token s'.connector_tokens s')
    ∙ tokens-drop_internal_of token (get token s.internal_tokens) s u outside
