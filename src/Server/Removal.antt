-- ===== src/Server/Removal.antt =====
-- What is left when a reverse or a forward token is removed.
use pywssocks.Base.{
  list_eq, nat_eq, ℕ, ◌≡◌, ◌≢◌, refl, ◌∙◌, ap, sym, true, false, none, some, List, [], ◌∷◌, ◌++◌,
  arith, eq_iff, eq_refl, append_assoc, append-nil, Bool-cases, Option, inl, inr, ok,
}
use pywssocks.Base.Dict.{get, contains, get-erase}
use pywssocks.Base.Sets.{elem, elem-discard}
use pywssocks.PortPool
use pywssocks.PortPool.{PortPool}
use pywssocks.Text.{Str}
use pywssocks.Message.Types.{Uuid}
use pywssocks.Server.State.{int_eq, ℤ, pos, negsuc, Server, Task}
use pywssocks.Server.Tokens.{schedule}
use pywssocks.Server.Clients.{list_or_empty}
use pywssocks.Server.Ports.{before_forget}
use pywssocks.Server.Dropped.{
  drop_token_clients-SameTokens, connectors-drop_connectors_of, tokens-before_forget,
  tokens-drop_connector,
}
use pywssocks.Server.Remove.{
  drop_token_clients, drop_internal_of, drop_connectors_of, forget_token, forget_listed,
  drop_reverse, close_forward, drop_forward, remove_other, remove_token, put_port,
}

-- What no longer stands in a server whose reverse token, with its port, is gone.
pub record IsGone (token : Str) (port : ℤ) (s : Server) : Type 0 where
  pub token_gone : get token s.tokens ≡ none
  lock_gone : elem token s.token_locks ≡ false
  index_gone : get token s.token_indexes ≡ none
  options_gone : get token s.token_options ≡ none
  task_gone : get port s.socks_tasks ≡ none
  port_free : (n : ℕ) → port ≡ pos n → elem n s.pool.used_ports ≡ false
  connectors_gone : (c : Str) → get c s.connector_tokens ≢ some token

port_is_free :
    (port : ℤ) (pool : PortPool) (n : ℕ)
    → port ≡ pos n
    → elem n (put_port port pool).used_ports ≡ false
unfolding PortPool.put
port_is_free (pos m) pool n h = ground (arith, elem-discard m n pool.used_ports, eq_iff m n)
port_is_free (negsuc m) pool n h = cc

forget-IsGone :
    (token : Str) (port : ℤ) (s : Server)
    → IsGone token port (forget_token token port (before_forget token s))
unfolding forget_token
forget-IsGone token port s =
    let s' = drop_internal_of token (get token s.internal_tokens) s in
    let s'' = drop_connectors_of token s'.connector_tokens s' in
    let t = schedule (Task.cleanup_token token) s'' in
    let u = drop_token_clients token t in
    record {
      token_gone = ground (arith, get-erase token token u.tokens, eq_refl token);
      lock_gone = ground (arith, elem-discard token token u.token_locks, eq_refl token);
      index_gone = ground (arith, get-erase token token u.token_indexes, eq_refl token);
      options_gone = ground (arith, get-erase token token u.token_options, eq_refl token);
      task_gone = ground (arith, get-erase port port u.socks_tasks, eq_refl port);
      port_free = port_is_free port u.pool;
      connectors_gone = λ c h.
          let (before, rest) =
            connectors-drop_connectors_of token s'.connector_tokens s' c token
              (sym (ap (λ d. get c d) (drop_token_clients-SameTokens token t).connectors) ∙ h) in
          rest before;
    }

-- `remove_token` of a reverse token returns True, and then nothing is left of it: it is not among
-- the tokens, it has no lock, index or options, its port has no SOCKS server and is free in the
-- pool, and no connector token refers to it. A token that is no connector token and not one of its
-- own internal tokens is meant.
pub remove_token-IsGone :
    (token : Str) (port : ℤ) (s : Server)
    → contains token s.connector_tokens ≡ false
    → get token s.tokens ≡ some port
    → elem token (list_or_empty (get token s.internal_tokens)) ≡ false
    → ((remove_token token s).1 ≡ ok true) × IsGone token port (remove_token token s).0
unfolding remove_token remove_other drop_reverse
remove_token-IsGone token port s c h outside =
    let kept = tokens-before_forget token s token outside ∙ h in
    rw (c, h, kept) (refl, forget-IsGone token port s)

-- The tasks that close the forward clients.
abbrev pub closings : List (Uuid × ℕ) → List Task
closings [] = []
closings ((client_id, ws) ∷ rest) = Task.close_client ws ∷ closings rest

close_forward-frame :
    (l : List (Uuid × ℕ)) (s : Server)
    → s.loop ≡ true
    → (close_forward l s).scheduled ≡ s.scheduled ++ closings l
unfolding close_forward
close_forward-frame [] s h = sym (append-nil s.scheduled)
close_forward-frame ((client_id, ws) ∷ l) s h =
    close_forward-frame l (schedule (Task.close_client ws) s) h
    ∙ simp h (append_assoc s.scheduled (Task.close_client ws ∷ []) (closings l))

tokens-close_forward : (l : List (Uuid × ℕ)) (s : Server) → (close_forward l s).tokens ≡ s.tokens
unfolding close_forward
tokens-close_forward [] s = refl
tokens-close_forward ((client_id, ws) ∷ l) s =
    tokens-close_forward l (schedule (Task.close_client ws) s)

listed_keeps :
    (token u : Str) (o : Option ℤ) (s : Server)
    → token ≢ u
    → get u (forget_listed token o s).0.tokens ≡ get u s.tokens
unfolding forget_token
listed_keeps token u none s different = refl
listed_keeps token u (some port) s different =
    ground (arith, get-erase token u s.tokens, eq_iff token u)

other_keeps :
    (token u : Str) (s : Server)
    → token ≢ u
    → elem u (list_or_empty (get token s.internal_tokens)) ≡ false
    → get u (remove_other token s).0.tokens ≡ get u s.tokens
unfolding remove_other drop_reverse drop_forward
other_keeps token u s different outside = elim (Bool-cases (contains token s.tokens)) [
  | inl reverse ↦ rw reverse (
      let left = before_forget token s in
      listed_keeps token u (get token left.tokens) left different
      ∙ tokens-before_forget token s u outside)
  | inr no_ ↦ elim (Bool-cases (elem token s.forward_tokens)) [
    | inl forward ↦ rw (no_, forward) (ap (get u) (tokens-close_forward s.forward_clients s))
    | inr nothing ↦ rw (no_, nothing) refl
  ]
]

-- Whatever token is removed, of any kind or none, and whether KeyError is raised or not: every other
-- token that is not one of its internal tokens keeps its port.
pub remove_token_keeps :
    (token u : Str) (s : Server)
    → token ≢ u
    → elem u (list_or_empty (get token s.internal_tokens)) ≡ false
    → get u (remove_token token s).0.tokens ≡ get u s.tokens
unfolding remove_token
remove_token_keeps token u s different outside =
    elim (Bool-cases (contains token s.connector_tokens)) [
      | inl connector ↦ rw connector (ap (get u) (tokens-drop_connector token s))
      | inr other ↦ rw other (other_keeps token u s different outside)
    ]

forward_tokens-close_forward :
    (l : List (Uuid × ℕ)) (s : Server) → (close_forward l s).forward_tokens ≡ s.forward_tokens
unfolding close_forward
forward_tokens-close_forward [] s = refl
forward_tokens-close_forward ((client_id, ws) ∷ l) s =
    forward_tokens-close_forward l (schedule (Task.close_client ws) s)

-- Removing a forward token that is neither a reverse nor a connector token, where the loop runs,
-- closes and forgets every forward client, also
-- those that came with another forward token, which stays valid.
pub remove_forward_token_closes_all :
    (token : Str) (s : Server)
    → contains token s.connector_tokens ≡ false
    → get token s.tokens ≡ none
    → elem token s.forward_tokens ≡ true
    → s.loop ≡ true
    → ((remove_token token s).0.scheduled ≡ s.scheduled ++ closings s.forward_clients)
      × ((remove_token token s).0.forward_clients ≡ [])
      × ((u : Str)
          → token ≢ u
          → elem u (remove_token token s).0.forward_tokens ≡ elem u s.forward_tokens)
unfolding remove_token remove_other drop_forward
remove_forward_token_closes_all token s c h f l =
    rw (c, h, f)
      (
        close_forward-frame s.forward_clients s l,
        refl,
        λ u different. ground (
          arith,
          elem-discard token u (close_forward s.forward_clients s).forward_tokens,
          eq_iff token u,
          forward_tokens-close_forward s.forward_clients s,
        ),
      )
