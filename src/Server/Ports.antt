-- ===== src/Server/Ports.antt =====
-- The SOCKS ports of the reverse tokens, under every method that changes tokens.
use pywssocks.Base.{
  list_eq, nat_eq, ℕ, ◌≡◌, ◌≢◌, refl, ◌∙◌, ap, true, Option, none, some, List, [], ◌∷◌, ◌==◌, arith,
  eq_iff, Bool-cases, Option-cases, inl, inr,
}
use pywssocks.Base.Dict.{get, erase, contains, get-erase}
use pywssocks.Base.Sets.{elem, elem-discard}
use pywssocks.PortPool
use pywssocks.PortPool.{PortPool}
use pywssocks.Text.{Str}
use pywssocks.Message.Types.{Uuid}
use pywssocks.Server.State.{ℤ, pos, negsuc, Server, Task}
use pywssocks.Server.Tokens.{schedule}
use pywssocks.Server.Remove.{
  drop_clients, drop_token_clients, drop_connector, drop_internal, drop_internal_of,
  drop_connectors_of, forget_token, forget_listed, drop_reverse, close_forward, drop_forward,
  remove_other, remove_token, put_port,
}

-- Every port of a token is held in the pool, no two tokens share one, and every token has its lock
-- and its options.
pub record IsValid (s : Server) : Type 0 where
  pub held : (t : Str) (n : ℕ) → get t s.tokens ≡ some (pos n) → elem n s.pool.used_ports ≡ true
  pub apart :
      (t u : Str) (n : ℕ) → get t s.tokens ≡ some (pos n) → get u s.tokens ≡ some (pos n) → t ≡ u
  pub locked : (t : Str) (p : ℤ) → get t s.tokens ≡ some p → elem t s.token_locks ≡ true

-- Tokens may be gone; the pool and the locks are as they were.
record Shrinks (s s' : Server) : Type 0 where
  fewer : (t : Str) (p : ℤ) → get t s'.tokens ≡ some p → get t s.tokens ≡ some p
  same_pool : s'.pool ≡ s.pool
  same_locks : s'.token_locks ≡ s.token_locks

Shrinks-refl : (s : Server) → Shrinks s s
Shrinks-refl s = record { fewer = λ t p h. h; same_pool = refl; same_locks = refl }

Shrinks-trans : {s t u : Server} → Shrinks s t → Shrinks t u → Shrinks s u
Shrinks-trans a b = record {
  fewer = λ t p h. a.fewer t p (b.fewer t p h);
  same_pool = b.same_pool ∙ a.same_pool;
  same_locks = b.same_locks ∙ a.same_locks;
}

drop_clients-Shrinks : (cs : List (Uuid × ℕ)) (s : Server) → Shrinks s (drop_clients cs s)
unfolding drop_clients
drop_clients-Shrinks [] s = Shrinks-refl s
drop_clients-Shrinks ((client_id, ws) ∷ cs) s =
    let rest = drop_clients-Shrinks cs _ in
    record { fewer = rest.fewer; same_pool = rest.same_pool; same_locks = rest.same_locks }

drop_token_clients-Shrinks : (token : Str) (s : Server) → Shrinks s (drop_token_clients token s)
unfolding drop_token_clients
drop_token_clients-Shrinks token s = elim (Option-cases (get token s.token_clients)) [
  | inl none_there ↦ rw none_there (Shrinks-refl s)
  | inr (cs, found) ↦ rw found (
      let rest = drop_clients-Shrinks cs s in
      record { fewer = rest.fewer; same_pool = rest.same_pool; same_locks = rest.same_locks })
]

drop_connector-Shrinks : (token : Str) (s : Server) → Shrinks s (drop_connector token s)
unfolding drop_connector
drop_connector-Shrinks token s =
    let rest = drop_token_clients-Shrinks token _ in
    record { fewer = rest.fewer; same_pool = rest.same_pool; same_locks = rest.same_locks }

drop_internal-Shrinks : (internal : List Str) (s : Server) → Shrinks s (drop_internal internal s)
unfolding drop_internal
drop_internal-Shrinks [] s = Shrinks-refl s
drop_internal-Shrinks (token ∷ rest) s =
    let after = drop_token_clients token s in
    let first = drop_token_clients-Shrinks token s in
    let later = drop_internal-Shrinks rest _ in
    record {
      fewer = λ t p h.
          first.fewer t p (ground (arith, later.fewer t p h, get-erase token t after.tokens));
      same_pool = later.same_pool ∙ first.same_pool;
      same_locks = later.same_locks ∙ first.same_locks;
    }

drop_internal_of-Shrinks :
    (token : Str) (o : Option (List Str)) (s : Server) → Shrinks s (drop_internal_of token o s)
drop_internal_of-Shrinks token none s = Shrinks-refl s
drop_internal_of-Shrinks token (some internal) s =
    let rest = drop_internal-Shrinks internal s in
    record { fewer = rest.fewer; same_pool = rest.same_pool; same_locks = rest.same_locks }

drop_connectors_of-Shrinks :
    (token : Str) (connectors : List (Str × Str)) (s : Server)
    → Shrinks s (drop_connectors_of token connectors s)
unfolding drop_connectors_of
drop_connectors_of-Shrinks token [] s = Shrinks-refl s
drop_connectors_of-Shrinks token ((c, rt) ∷ rest) s = elim (Bool-cases (rt == token)) [
  | inl mine ↦ rw mine (
      Shrinks-trans (drop_connector-Shrinks c s)
        (drop_connectors_of-Shrinks token rest (drop_connector c s)))
  | inr other ↦ rw other (drop_connectors_of-Shrinks token rest s)
]

close_forward-Shrinks : (cs : List (Uuid × ℕ)) (s : Server) → Shrinks s (close_forward cs s)
unfolding close_forward
close_forward-Shrinks [] s = Shrinks-refl s
close_forward-Shrinks ((client_id, ws) ∷ cs) s =
    let rest = close_forward-Shrinks cs _ in
    record { fewer = rest.fewer; same_pool = rest.same_pool; same_locks = rest.same_locks }

Shrinks-IsValid : {s s' : Server} → Shrinks s s' → IsValid s → IsValid s'
Shrinks-IsValid k v = record {
  held = λ t n h. ground (arith, k.same_pool, v.held t n (k.fewer t (pos n) h));
  apart = λ t u n h g. v.apart t u n (k.fewer t (pos n) h) (k.fewer u (pos n) g);
  locked = λ t p h. ground (arith, k.same_locks, v.locked t p (k.fewer t p h));
}

-- Before the token itself is forgotten.
abbrev pub before_forget : Str → Server → Server
before_forget token s =
    let s' = drop_internal_of token (get token s.internal_tokens) s in
    let s'' = drop_connectors_of token s'.connector_tokens s' in
    drop_token_clients token (schedule (Task.cleanup_token token) s'')

before_forget-Shrinks : (token : Str) (s : Server) → Shrinks s (before_forget token s)
before_forget-Shrinks token s =
    let s' = drop_internal_of token (get token s.internal_tokens) s in
    let s'' = drop_connectors_of token s'.connector_tokens s' in
    let first = drop_internal_of-Shrinks token (get token s.internal_tokens) s in
    let second = Shrinks-trans first (drop_connectors_of-Shrinks token s'.connector_tokens s') in
    let last = drop_token_clients-Shrinks token (schedule (Task.cleanup_token token) s'') in
    record {
      fewer = λ t p h. second.fewer t p (last.fewer t p h);
      same_pool = last.same_pool ∙ second.same_pool;
      same_locks = last.same_locks ∙ second.same_locks;
    }

elem-put_port :
    (n : ℕ) (port : ℤ) (pool : PortPool)
    → port ≢ pos n
    → elem n (put_port port pool).used_ports ≡ elem n pool.used_ports
unfolding PortPool.put
elem-put_port n (pos m) pool h = ground (arith, elem-discard m n pool.used_ports, eq_iff m n)
elem-put_port n (negsuc m) pool h = refl

-- `m` is what is left of `s` when the token goes.
forget-IsValid :
    (token : Str) (port : ℤ) (s m : Server)
    → IsValid s
    → Shrinks s m
    → get token s.tokens ≡ some port
    → IsValid (forget_token token port m)
unfolding forget_token
forget-IsValid token port s m v k own = record {
  held = λ t n h.
      let still = left t (pos n) h in
      let apart_ports : port ≢ pos n =
        λ e. still.1 (v.apart token t n (own ∙ ap some e) (k.fewer t (pos n) still.0)) in
      elem-put_port n port m.pool apart_ports ∙ (Shrinks-IsValid k v).held t n still.0;
  apart = λ t u n h g. (Shrinks-IsValid k v).apart t u n (left t (pos n) h).0 (left u (pos n) g).0;
  locked = λ t p h. ground (
    arith,
    left t p h,
    eq_iff token t,
    elem-discard token t m.token_locks,
    (Shrinks-IsValid k v).locked t p,
  );
}
  where
    left :
        (t : Str) (p : ℤ)
        → get t (erase token m.tokens) ≡ some p
        → (get t m.tokens ≡ some p) × (token ≢ t)
    left t p h = (
      ground (arith, get-erase token t m.tokens),
      λ e. ground (arith, get-erase token t m.tokens, eq_iff token t),
    )

drop_reverse-IsValid : (token : Str) (s : Server) → IsValid s → IsValid (drop_reverse token s).0
unfolding drop_reverse
drop_reverse-IsValid token s v = listed (get token (before_forget token s).tokens) refl
  where
    listed :
        (o : Option ℤ)
        → get token (before_forget token s).tokens ≡ o
        → IsValid (forget_listed token o (before_forget token s)).0
    listed none e = Shrinks-IsValid (before_forget-Shrinks token s) v
    listed (some port) e =
        forget-IsValid token port s (before_forget token s) v (before_forget-Shrinks token s)
          ((before_forget-Shrinks token s).fewer token port e)

remove_other-IsValid : (token : Str) (s : Server) → IsValid s → IsValid (remove_other token s).0
unfolding remove_other drop_forward
remove_other-IsValid token s v = elim (Bool-cases (contains token s.tokens)) [
  | inl reverse ↦ rw reverse (drop_reverse-IsValid token s v)
  | inr no_ ↦ elim (Bool-cases (elem token s.forward_tokens)) [
    | inl forward ↦
        rw (no_, forward)
          (let w = Shrinks-IsValid (close_forward-Shrinks s.forward_clients s) v in
            record { held = w.held; apart = w.apart; locked = w.locked })
    | inr nothing ↦ rw (no_, nothing) v
  ]
]

pub drop_connector-IsValid :
    (token : Str) (s : Server) → IsValid s → IsValid (drop_connector token s)
drop_connector-IsValid token s v = Shrinks-IsValid (drop_connector-Shrinks token s) v

-- Removing any token keeps the ports of the others held, apart and locked.
pub remove_token-IsValid : (token : Str) (s : Server) → IsValid s → IsValid (remove_token token s).0
unfolding remove_token
remove_token-IsValid token s v = elim (Bool-cases (contains token s.connector_tokens)) [
  | inl connector ↦ rw connector (Shrinks-IsValid (drop_connector-Shrinks token s) v)
  | inr other ↦ rw other (remove_other-IsValid token s v)
]
