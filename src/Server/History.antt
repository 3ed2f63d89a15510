-- ===== src/Server/History.antt =====
-- Any sequence of calls of the token methods and of events of clients, from a new server.
use pywssocks.Base.{
  list_eq, nat_eq, ℕ, Bool, true, false, Option, none, some, List, [], ◌∷◌, ◌==◌, Bool-cases, inl,
  inr, Result, ok, err, ◌≡◌, refl,
}
use pywssocks.Base.Dict.{get}
use pywssocks.PortPool.{PortPool}
use pywssocks.PortPool.Allocation.{IsChoice}
use pywssocks.Text.{Str}
use pywssocks.Server.State.{Server, TokenOptions, init}
use pywssocks.Server.Tokens.{add_connector_token, add_reverse_token, add_forward_token}
use pywssocks.Server.Remove.{remove_connector_token, remove_token}
use pywssocks.Server.Ports.{IsValid, remove_token-IsValid}
use pywssocks.Message.Types.{Uuid, AuthMessage, ConnectorMessage, add_operation, remove_operation}
use pywssocks.Server.Tokens.{get_next_websocket}
use pywssocks.Server.Clients.{kind, register_client, leave}
use pywssocks.Server.Dispatch.{
  manage, operate, operate_as, added, removed, permitted, find_client_token,
}
use pywssocks.Server.Additions.{
  add_reverse_token-IsValid, add_connector_token-IsValid, remove_connector_token-IsValid,
}
use pywssocks.Server.Stable.{
  register_client-IsValid, leave-IsValid, next-IsValid, handle_pending_token-IsValid,
  start_serving-IsValid,
}
use pywssocks.Server.Pending.{handle_pending_token, start_serving}

operate-IsValid :
    (token : Str) (m : ConnectorMessage) (s : Server) → IsValid s → IsValid (operate token m s).0
unfolding operate
operate-IsValid token m s v = elim (Bool-cases (m.operation == add_operation)) [
  | inl adds ↦ rw adds (
      after_add (add_connector_token [] (some m.connector_token) (some token) s)
        (add_connector_token-IsValid [] (some m.connector_token) (some token) s v))
  | inr not_add ↦ elim (Bool-cases (m.operation == remove_operation)) [
    | inl removes ↦
        rw (not_add, removes)
          (after_remove (remove_token m.connector_token s)
            (remove_token-IsValid m.connector_token s v))
    | inr not_remove ↦ rw (not_add, not_remove) v
  ]
]
  where
    after_add : (r : Server × Option Str) → IsValid r.0 → IsValid (added m.channel_id r).0
    after_add (s', none) w = w
    after_add (s', some []) w = w
    after_add (s', some (c ∷ t)) w = w

    after_remove : (r : Server × Result Bool) → IsValid r.0 → IsValid (removed m.channel_id r).0
    after_remove (s', ok true) w = w
    after_remove (s', ok false) w = w
    after_remove (s', err e) w = w

manage-IsValid :
    (client_id : Uuid) (m : ConnectorMessage) (s : Server)
    → IsValid s
    → IsValid (manage client_id m s).0
unfolding manage
manage-IsValid client_id m s v =
    elim (Bool-cases (permitted (find_client_token client_id s.token_clients) s)) [
      | inl allowed ↦ rw allowed (as_client (find_client_token client_id s.token_clients))
      | inr refused ↦ rw refused v
    ]
  where
    as_client : (o : Option Str) → IsValid (operate_as o m s).0
    as_client none = v
    as_client (some token) = operate-IsValid token m s v

-- The calls of the token methods, each with what random choices gave, the start of `serve`, the task
-- for a pending token, and what clients cause: they come, go, send connector messages, and are chosen
-- for a request. An exception ends the call in the state that it has reached.
pub data Call : Type 0 where
  add_reverse : Str → Option Str → Option ℕ → TokenOptions → Call
  add_connector : Str → Option Str → Option Str → Call
  add_forward : Str → Option Str → Call
  remove : Str → Call
  remove_connector : Str → Call
  join : AuthMessage → Uuid → ℕ → Call
  part : Uuid → Str → Call
  begin : Bool → Call
  run_pending : Bool → Str → Call
  ask : Uuid → ConnectorMessage → Call
  choose_client : Str → Call

-- `_handle_pending_token` raises before it changes anything.
abbrev pub or_as_before : Server → Result Server → Server
or_as_before s (ok s') = s'
or_as_before s (err e) = s

unfoldable pub call : (List ℕ → ℕ) → Call → Server → Server
call choice (add_reverse made token port options) s =
    (add_reverse_token choice made token port options s).0
call choice (add_connector made token reverse) s = (add_connector_token made token reverse s).0
call choice (add_forward made token) s = (add_forward_token made token s).0
call choice (remove token) s = (remove_token token s).0
call choice (remove_connector token) s = (remove_connector_token token s).0
call choice (join m client_id ws) s = register_client m (client_id, ws) (kind m s) s
call choice (part client_id token) s = leave client_id token s
call choice (begin socks_wait_client) s = (start_serving socks_wait_client s).0
call choice (run_pending socks_wait_client token) s =
    or_as_before s (handle_pending_token socks_wait_client token s)
call choice (ask client_id m) s = (manage client_id m s).0
call choice (choose_client token) s = (get_next_websocket token s).0

unfoldable pub calls : (List ℕ → ℕ) → List Call → Server → Server
calls choice [] s = s
calls choice (c ∷ rest) s = calls choice rest (call choice c s)

call-IsValid :
    (choice : List ℕ → ℕ) (c : Call) (s : Server)
    → IsChoice choice
    → IsValid s
    → IsValid (call choice c s)
unfolding call add_forward_token
call-IsValid choice (add_reverse made token port options) s c v =
    add_reverse_token-IsValid choice made token port options s c v
call-IsValid choice (add_connector made token reverse) s c v =
    add_connector_token-IsValid made token reverse s v
call-IsValid choice (add_forward made token) s c v = record {
  held = v.held;
  apart = v.apart;
  locked = v.locked;
}
call-IsValid choice (remove token) s c v = remove_token-IsValid token s v
call-IsValid choice (remove_connector token) s c v = remove_connector_token-IsValid token s v
call-IsValid choice (join m client_id ws) s c v =
    register_client-IsValid m (client_id, ws) (kind m s) s v
call-IsValid choice (part client_id token) s c v = leave-IsValid client_id token s v
call-IsValid choice (begin wait) s c v = start_serving-IsValid wait s v
call-IsValid choice (run_pending wait token) s c v = run (handle_pending_token wait token s) refl
  where
    run : (r : Result Server) → handle_pending_token wait token s ≡ r → IsValid (or_as_before s r)
    run (ok s') e = handle_pending_token-IsValid wait token s s' v e
    run (err x) e = v
call-IsValid choice (ask client_id m) s c v = manage-IsValid client_id m s v
call-IsValid choice (choose_client token) s c v = next-IsValid token s v

calls_from-IsValid :
    (choice : List ℕ → ℕ) (cs : List Call) (s : Server)
    → IsChoice choice
    → IsValid s
    → IsValid (calls choice cs s)
unfolding calls
calls_from-IsValid choice [] s c v = v
calls_from-IsValid choice (x ∷ cs) s c v =
    calls_from-IsValid choice cs (call choice x s) c (call-IsValid choice x s c v)

-- After any calls that add and remove reverse, connector and forward tokens on a new server, in any
-- order with the start of serve, with pending tokens and with clients that come, go, are chosen for a
-- request or send connector messages, every SOCKS port of a reverse token is held in the pool, no two
-- tokens share a port, and every reverse token has its lock, whatever element `random.choice` picks,
-- also where a call ends with KeyError.
pub calls-IsValid :
    (choice : List ℕ → ℕ) (cs : List Call) (pool : PortPool)
    → IsChoice choice
    → IsValid (calls choice cs (init pool))
unfolding get
calls-IsValid choice cs pool c =
    calls_from-IsValid choice cs (init pool) c
      (record { held = λ t n h. cc; apart = λ t u n h g. cc; locked = λ t p h. cc })
