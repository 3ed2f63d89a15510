-- ===== src/Client/Connection.antt =====
-- `connect`, `_start_forward` and `_start_reverse` of `WSSocksClient`: a loop over the attempts to
-- connect.
use pywssocks.Base.{
  list_eq, nat_eq, ℕ, ◌+◌, Bool, true, false, not, ◌||◌, Option, none, some, List, [], ◌∷◌, ◌++◌,
  if◌then◌else◌, ◌==◌, Result, ok, err,
}
use pywssocks.Text.{Bytes, codes}
use pywssocks.Message.Types.{Uuid, Message}
use pywssocks.Message.Pack.{pack_message}
use pywssocks.Message.Parse.{parse_message}
use pywssocks.Server.Hub.{Wire}
use pywssocks.Client.State.{Client}
use pywssocks.Client.Dispatcher.{Received, binary, text, add_message_queue, message_dispatcher}

-- What an attempt meets: the instance id that it makes, the connection if there is one, what comes
-- first through it and what comes then, and the code with which the other side closed it, if a
-- close frame came.
pub record Attempt : Type 0 where
  pub instance_id : Uuid
  pub connection : Option ℕ
  pub answer : Option Received
  pub messages : List Received
  pub code : Option ℕ

-- How the body of the loop ended: it returned, came to its end, or raised ConnectionClosed or
-- another exception.
pub data Ending : Type 0 where
  returned finished closed raised : Ending

abbrev pub connected_with : (ℕ → Bool) → Wire → ℕ → List Received → Client → Client
connected_with is_done wire ws messages c =
    message_dispatcher wire.runtime is_done ws messages
      (record c { connected = true; disconnected = false })

-- The answer to the authentication.
abbrev pub on_auth_response :
    (ℕ → Bool) → Wire → ℕ → List Received → Result Message → Client → Client × Ending
on_auth_response is_done wire ws messages (ok (Message.auth_response m)) c =
    if m.success then (connected_with is_done wire ws messages c, finished) else (c, returned)
on_auth_response is_done wire ws messages (ok _) c = (c, raised)
on_auth_response is_done wire ws messages (err e) c = (c, raised)

unfoldable pub receive_auth :
    (ℕ → Bool) → Wire → ℕ → Attempt → Option Received → Client → Client × Ending
receive_auth is_done wire ws a none c = (c, closed)
receive_auth is_done wire ws a (some text) c = (c, raised)
receive_auth is_done wire ws a (some (binary b)) c =
    on_auth_response is_done wire ws a.messages (parse_message wire.runtime b) c

abbrev pub auth_request : Uuid → Client → Message
auth_request instance_id c =
    Message.auth (record { token = c.token; reverse = c.reverse; instance_id = instance_id })

unfoldable pub send_auth : (ℕ → Bool) → Wire → ℕ → Attempt → Result Bytes → Client → Client × Ending
unfolding receive_auth
send_auth is_done wire ws a (err e) c = (c, raised)
send_auth is_done wire ws a (ok b) c =
    if wire.is_open ws
    then receive_auth is_done wire ws a a.answer (record c { sent = c.sent ++ ((ws, b) ∷ []) })
    else (c, closed)

-- In forward mode a SOCKS server is started as a task.
abbrev pub start_socks : Bool → Client → Client
start_socks true c = record c { socks_tasks = c.socks_tasks + 1 }
start_socks false c = c

-- The body of the loop. Each method has its own, with `self._reverse` as `connect` has found it.
unfoldable pub attempt_on : (ℕ → Bool) → Wire → Attempt → Option ℕ → Client → Client × Ending
unfolding send_auth add_message_queue
attempt_on is_done wire a none c = (c, raised)
attempt_on is_done wire a (some ws) c =
    send_auth is_done wire ws a (pack_message wire.runtime (auth_request a.instance_id c)) (
      add_message_queue (codes "auth")
        (start_socks (not c.reverse) (record c { websocket = some ws })))

-- The `finally` of the loop.
unfoldable pub disconnect : Client → Client
disconnect c = record c { websocket = none; connected = false; disconnected = true }

-- "Code 1000: Normal closure", "Code 1008: Policy violation"
abbrev pub is_final : Option ℕ → Bool
is_final none = false
is_final (some code) = code == 1000 || code == 1008

-- Whether the loop goes on, and the wait before it does.
abbrev pub or_exit : Client → Client × Bool
or_exit c = if c.reconnect then (record c { sleeps = c.sleeps + 1 }, true) else (c, false)

unfoldable pub after_ending : Option ℕ → Client × Ending → Client × Bool
after_ending code (c, returned) = (c, false)
after_ending code (c, finished) = (c, true)
after_ending code (c, closed) = if is_final code then (c, false) else or_exit c
after_ending code (c, raised) = or_exit c

-- One turn, with whether the loop goes on.
unfoldable pub attempt : (ℕ → Bool) → Wire → Attempt → Client → Client × Bool
unfolding attempt_on after_ending disconnect
attempt is_done wire a c =
    let (c', again) = after_ending a.code (attempt_on is_done wire a a.connection c) in
    (disconnect c', again)

abbrev pub go_on : Client × Bool → (Client → Client × Bool) → Client × Bool
go_on (c, true) rest = rest c
go_on (c, false) rest = (c, false)

-- The loop, with whether it is still running when the attempts are through.
unfoldable pub attempts : (ℕ → Bool) → Wire → List Attempt → Client → Client × Bool
unfolding attempt
attempts is_done wire [] c = (c, true)
attempts is_done wire (a ∷ rest) c = go_on (attempt is_done wire a c) (attempts is_done wire rest)

unfoldable pub start_forward : (ℕ → Bool) → Wire → List Attempt → Client → Client × Bool
unfolding attempts
start_forward is_done wire l c = attempts is_done wire l (start_socks (not c.socks_wait_server) c)

unfoldable pub start_reverse : (ℕ → Bool) → Wire → List Attempt → Client → Client × Bool
unfolding attempts
start_reverse is_done wire l c = attempts is_done wire l c

unfoldable pub connect : (ℕ → Bool) → Wire → List Attempt → Client → Client × Bool
unfolding start_forward start_reverse
connect is_done wire l c =
    if c.reverse then start_reverse is_done wire l c else start_forward is_done wire l c
