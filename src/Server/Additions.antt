-- ===== src/Server/Additions.antt =====
-- The invariant of the ports, under the methods that add tokens and remove connector tokens.
use pywssocks.Base.{
  list_eq, nat_eq, ℕ, ◌≡◌, ◌≢◌, true, not, Option, none, some, List, ◌==◌, arith, eq_iff,
  Bool-cases, inl, inr,
}
use pywssocks.Base.Dict.{get, insert, contains, get-insert}
use pywssocks.Base.Sets.{elem, add, elem-add}
use pywssocks.PortPool
use pywssocks.PortPool.{PortPool}
use pywssocks.PortPool.Allocation.{IsChoice, IsGrant, Outcome, get-Outcome}
use pywssocks.Text.{Str}
use pywssocks.Server.State.{ℤ, pos, negsuc, Server, TokenOptions}
use pywssocks.Server.Tokens.{
  register, granted, add_new_token, or_made, is_reverse, add_connector_token, add_reverse_token,
}
use pywssocks.Server.Remove.{remove_connector_token}
use pywssocks.Server.Ports.{IsValid, drop_connector-IsValid}

-- A new token with a port that no token has and that is held, or with no port.
register-IsValid :
    (token : Str) (port : ℤ) (options : TokenOptions) (s : Server)
    → IsValid s
    → ((n : ℕ) → port ≡ pos n → elem n s.pool.used_ports ≡ true)
    → ((t : Str) (n : ℕ) → port ≡ pos n → get t s.tokens ≢ some (pos n))
    → IsValid (register token port options s)
unfolding register
register-IsValid token port options s v held new = elim (Bool-cases s.loop) [
  | inl runs ↦ rw runs (record { held = keeps; apart = parts; locked = locks })
  | inr waits ↦ rw waits (record { held = keeps; apart = parts; locked = locks })
]
  where
    keeps :
        (t : Str) (n : ℕ)
        → get t (insert token port s.tokens) ≡ some (pos n)
        → elem n s.pool.used_ports ≡ true
    keeps t n h = ground (arith, get-insert token t port s.tokens, held n, v.held t n)

    parts :
        (t u : Str) (n : ℕ)
        → get t (insert token port s.tokens) ≡ some (pos n)
        → get u (insert token port s.tokens) ≡ some (pos n)
        → t ≡ u
    parts t u n h g = ground (
      arith,
      get-insert token t port s.tokens,
      get-insert token u port s.tokens,
      eq_iff token t,
      eq_iff token u,
      new t n,
      new u n,
      v.apart t u n,
    )

    locks :
        (t : Str) (p : ℤ)
        → get t (insert token port s.tokens) ≡ some p
        → elem t (add token s.token_locks) ≡ true
    locks t p h =
        ground
          (arith, get-insert token t port s.tokens, elem-add token t s.token_locks, v.locked t p)

-- A pool in which more ports may be held.
pool-IsValid :
    (s : Server) (pool : PortPool)
    → IsValid s
    → ((n : ℕ) → elem n s.pool.used_ports ≡ true → elem n pool.used_ports ≡ true)
    → IsValid (record s { pool = pool })
pool-IsValid s pool v more = record {
  held = λ t n h. more n (v.held t n h);
  apart = v.apart;
  locked = v.locked;
}

IsGrant-grows :
    (p p' : PortPool) (port : ℕ)
    → IsGrant p p' port
    → (n : ℕ) → elem n p.used_ports ≡ true
    → elem n p'.used_ports ≡ true
IsGrant-grows p p' port g n h = ground (arith, g.was_free, g.is_held, g.others n)

given-IsValid :
    (port : ℕ) (pool : PortPool) (token : Str) (options : TokenOptions) (s : Server)
    → IsValid s
    → IsGrant s.pool pool port
    → IsValid (granted (pool, some port) token options s).0
given-IsValid port pool token options s v g = elim (Bool-cases (port == 0)) [
  | inl zero_port ↦ rw zero_port (pool-IsValid s pool v (IsGrant-grows s.pool pool port g))
  | inr real ↦ rw real (
      register-IsValid token (pos port) options (record s { pool = pool })
        (pool-IsValid s pool v (IsGrant-grows s.pool pool port g))
        (λ n e. ground (arith, g.is_held)) (λ t n e h. ground (arith, g.was_free, v.held t n h)))
]

granted-IsValid :
    (request : Option ℕ) (given : PortPool × Option ℕ) (token : Str) (options : TokenOptions)
    (s : Server)
    → IsValid s
    → Outcome s.pool request given
    → IsValid (granted given token options s).0
granted-IsValid (some r) (pool, none) token options s v o =
    pool-IsValid s pool v (λ n h. ground (arith, o.0))
granted-IsValid none (pool, none) token options s v o =
    pool-IsValid s pool v (λ n h. ground (arith, o.0))
granted-IsValid (some r) (pool, some port) token options s v o =
    given-IsValid port pool token options s v o.1
granted-IsValid none (pool, some port) token options s v o =
    given-IsValid port pool token options s v o.1

add_new_token-IsValid :
    (choice : List ℕ → ℕ) (token : Str) (port : Option ℕ) (options : TokenOptions) (s : Server)
    → IsChoice choice
    → IsValid s
    → IsValid (add_new_token choice token port options s).0
unfolding add_new_token
add_new_token-IsValid choice token port options s c v =
    elim (Bool-cases options.allow_manage_connector) [
      | inl manages ↦
          simp manages (register-IsValid token (negsuc 0) options s v (λ n e. cc) (λ t n e h. cc))
      | inr plain ↦ simp plain (
          granted-IsValid port (PortPool.get choice port s.pool) token options s v
            (get-Outcome choice port s.pool c))
    ]

pub add_reverse_token-IsValid :
    (choice : List ℕ → ℕ) (made : Str) (token : Option Str) (port : Option ℕ)
    (options : TokenOptions) (s : Server)
    → IsChoice choice
    → IsValid s
    → IsValid (add_reverse_token choice made token port options s).0
unfolding add_reverse_token
add_reverse_token-IsValid choice made token port options s c v =
    elim (Bool-cases (contains (or_made token made) s.tokens)) [
      | inl old ↦ rw old v
      | inr new ↦ rw new (add_new_token-IsValid choice (or_made token made) port options s c v)
    ]

pub add_connector_token-IsValid :
    (made : Str) (token reverse : Option Str) (s : Server)
    → IsValid s
    → IsValid (add_connector_token made token reverse s).0
unfolding add_connector_token
add_connector_token-IsValid made token reverse s v =
    elim (Bool-cases (not (is_reverse reverse s))) [
      | inl unknown ↦ rw unknown v
      | inr reverse_known ↦ elim (Bool-cases (contains (or_made token made) s.connector_tokens)) [
        | inl old ↦ rw (reverse_known, old) v
        | inr new ↦
            rw (reverse_known, new) (record { held = v.held; apart = v.apart; locked = v.locked })
      ]
    ]

pub remove_connector_token-IsValid :
    (token : Str) (s : Server) → IsValid s → IsValid (remove_connector_token token s).0
unfolding remove_connector_token
remove_connector_token-IsValid token s v = elim (Bool-cases (contains token s.connector_tokens)) [
  | inl there ↦ rw there (drop_connector-IsValid token s v)
  | inr absent ↦ rw absent v
]
