-- ===== src/Server/Stable.antt =====
-- The invariant of the ports, under the comings and goings of clients and under their messages.
use pywssocks.Base.{
  subst, false, list_eq, nat_eq, ℕ, ◌≡◌, refl, ◌∙◌, ap, sym, true, Option, none, some, List, [],
  ◌∷◌, arith, Bool, Bool-cases, Option-cases, inl, inr, Result, ok, err, key_error, ◌==◌,
}
use pywssocks.Base.Dict.{get, insert, contains, get-insert}
use pywssocks.Base.Sets.{elem, add, elem-add}
use pywssocks.Text.{Str}
use pywssocks.Message.Types.{Uuid, AuthMessage}
use pywssocks.Server.State.{int_eq, ℤ, pos, negsuc, Server}
use pywssocks.Server.Ports.{IsValid}
use pywssocks.Server.Pending.{
  start_socks_server, pending_port, handle_pending_token, after_pending, start_pending,
  start_serving,
}
use pywssocks.Server.Tokens.{next_of, get_next_websocket}
use pywssocks.Server.Clients.{
  Kind, register_client, register_reverse, register_forward, register_connector, add_client,
  add_internal, join_reverse, may_manage, uuid_text, leave, set_clients, without, reverse_client,
  forward_client, connector_client, unknown,
}
use pywssocks.Server.Membership.{ensure-SameClients}

-- The invariant speaks of the tokens, the pool and the locks only.
same-IsValid :
    (s s' : Server)
    → s'.tokens ≡ s.tokens
    → s'.pool ≡ s.pool
    → s'.token_locks ≡ s.token_locks
    → IsValid s
    → IsValid s'
same-IsValid s s' t p l v = record {
  held = λ u n h. rw p (v.held u n (sym (ap (get u) t) ∙ h));
  apart = λ u w n h g. v.apart u w n (sym (ap (get u) t) ∙ h) (sym (ap (get w) t) ∙ g);
  locked = λ u q h. rw l (v.locked u q (sym (ap (get u) t) ∙ h));
}

add_internal-IsValid :
    (token internal : Str) (s : Server) → IsValid s → IsValid (add_internal token internal s)
unfolding add_internal
add_internal-IsValid token internal s v = record { held = keeps; apart = parts; locked = locks }
  where
    keeps :
        (t : Str) (n : ℕ)
        → get t (insert internal (negsuc 0) s.tokens) ≡ some (pos n)
        → elem n s.pool.used_ports ≡ true
    keeps t n h = ground (arith, get-insert internal t (negsuc 0) s.tokens, v.held t n)

    parts :
        (t u : Str) (n : ℕ)
        → get t (insert internal (negsuc 0) s.tokens) ≡ some (pos n)
        → get u (insert internal (negsuc 0) s.tokens) ≡ some (pos n)
        → t ≡ u
    parts t u n h g = ground (
      arith,
      get-insert internal t (negsuc 0) s.tokens,
      get-insert internal u (negsuc 0) s.tokens,
      v.apart t u n,
    )

    locks :
        (t : Str) (q : ℤ)
        → get t (insert internal (negsuc 0) s.tokens) ≡ some q
        → elem t (add internal s.token_locks) ≡ true
    locks t q h = ground (
      arith,
      get-insert internal t (negsuc 0) s.tokens,
      elem-add internal t s.token_locks,
      v.locked t q,
    )

join_reverse-IsValid :
    (token : Str) (instance_id : Uuid) (client : Uuid × ℕ) (s : Server)
    → IsValid s
    → IsValid (join_reverse token instance_id client s)
unfolding join_reverse add_client
join_reverse-IsValid token instance_id client s v =
    elim (Bool-cases (may_manage (get token s.token_options))) [
      | inl manages ↦ rw manages (
          same-IsValid (add_internal token (uuid_text instance_id) s) _ refl refl refl
            (add_internal-IsValid token (uuid_text instance_id) s v))
      | inr plain ↦ rw plain (same-IsValid s _ refl refl refl v)
    ]

pub register_client-IsValid :
    (m : AuthMessage) (client : Uuid × ℕ) (k : Kind) (s : Server)
    → IsValid s
    → IsValid (register_client m client k s)
unfolding register_client register_reverse register_forward register_connector add_client
register_client-IsValid m (client_id, ws) (reverse_client port) s v =
    let joined = join_reverse m.token m.instance_id (client_id, ws) s in
    let f = ensure-SameClients m.token port joined in
    same-IsValid joined _ f.tokens f.pool f.token_locks
      (join_reverse-IsValid m.token m.instance_id (client_id, ws) s v)
register_client-IsValid m (client_id, ws) forward_client s v = same-IsValid s _ refl refl refl v
register_client-IsValid m (client_id, ws) (connector_client rt) s v =
    same-IsValid s _ refl refl refl v
register_client-IsValid m (client_id, ws) unknown s v = v

set_clients-IsValid :
    (token : Str) (l : List (Uuid × ℕ)) (s : Server) → IsValid s → IsValid (set_clients token l s)
set_clients-IsValid token [] s v = same-IsValid s _ refl refl refl v
set_clients-IsValid token (c ∷ cs) s v = same-IsValid s _ refl refl refl v

pub leave-IsValid :
    (client_id : Uuid) (token : Str) (s : Server) → IsValid s → IsValid (leave client_id token s)
unfolding leave
leave-IsValid client_id [] s v = v
leave-IsValid client_id (c ∷ t) s v = elim (Option-cases (get (c ∷ t) s.token_clients)) [
  | inl absent ↦ rw absent (same-IsValid s _ refl refl refl v)
  | inr (l, found) ↦ rw found (
      same-IsValid (set_clients (c ∷ t) (without client_id l) s) _ refl refl refl
        (set_clients-IsValid (c ∷ t) (without client_id l) s v))
]

pub next-IsValid : (token : Str) (s : Server) → IsValid s → IsValid (get_next_websocket token s).0
unfolding get_next_websocket
next-IsValid token s v = chosen (get token s.token_clients)
  where
    chosen : (o : Option (List (Uuid × ℕ))) → IsValid (next_of token o s).0
    chosen none = v
    chosen (some []) = v
    chosen (some (c ∷ cs)) = same-IsValid s _ refl refl refl v

start_socks_server-IsValid :
    (token : Str) (port : ℤ) (s : Server) → IsValid s → IsValid (start_socks_server token port s)
unfolding start_socks_server
start_socks_server-IsValid token port s v = elim (Bool-cases (contains port s.socks_tasks)) [
  | inl runs ↦ rw runs v
  | inr starts ↦ rw starts (same-IsValid s _ refl refl refl v)
]

-- A pending token that raises nothing.
pub handle_pending_token-IsValid :
    (wait : Bool) (token : Str) (s s' : Server)
    → IsValid s
    → handle_pending_token wait token s ≡ ok s'
    → IsValid s'
unfolding handle_pending_token pending_port
handle_pending_token-IsValid true token s s' v h = subst IsValid (same_server h) v
  where
    same_server : ok s ≡ ok s' → s ≡ s'
    same_server e = cc
handle_pending_token-IsValid false token s s' v h = with_port (get token s.tokens) h
  where
    same_server : (r : Server) → ok r ≡ ok s' → r ≡ s'
    same_server r e = cc

    with_port : (o : Option ℤ) → pending_port token o s ≡ ok s' → IsValid s'
    with_port none e = subst IsValid (same_server s e) v
    with_port (some port) e = elim (Bool-cases (port == pos 0)) [
      | inl zero_ ↦ subst IsValid (same_server s (rw zero_ at e)) v
      | inr nonzero ↦ elim (Bool-cases (elem token s.token_locks)) [
        | inl lock ↦
            subst IsValid (same_server (start_socks_server token port s) (rw (nonzero, lock) at e))
              (start_socks_server-IsValid token port s v)
        | inr no_lock ↦ absurd (raises (rw (nonzero, no_lock) at e))
      ]
    ]
      where
        raises : (err key_error) ≡ ok s' → ⊥
        raises x = cc

start_pending-IsValid :
    (wait : Bool) (tokens : List Str) (s : Server)
    → IsValid s
    → IsValid (start_pending wait tokens s).0
unfolding start_pending
start_pending-IsValid wait [] s v = same-IsValid s _ refl refl refl v
start_pending-IsValid wait (token ∷ tokens) s v =
    one (handle_pending_token wait token s) refl (λ s' w. start_pending-IsValid wait tokens s' w)
  where
    one :
        (r : Result Server)
        → handle_pending_token wait token s ≡ r
        → ((s' : Server) → IsValid s' → IsValid (start_pending wait tokens s').0)
        → IsValid (after_pending s r (start_pending wait tokens)).0
    one (ok s') e next = next s' (handle_pending_token-IsValid wait token s s' v e)
    one (err x) e next = v

pub start_serving-IsValid :
    (wait : Bool) (s : Server) → IsValid s → IsValid (start_serving wait s).0
unfolding start_serving
start_serving-IsValid wait s v =
    start_pending-IsValid wait s.pending_tokens (record s { loop = true })
      (same-IsValid s (record s { loop = true }) refl refl refl v)
