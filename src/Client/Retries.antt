-- ===== src/Client/Retries.antt =====
-- What a client does that was accepted and has lost its connection.
use pywssocks.Base.{
  list_eq, nat_eq, ℕ, ◌≡◌, refl, ◌∙◌, ap, sym, Bool, true, false, not, Option, none, some, List, [],
  ◌∷◌, Result, ok, err,
}
use pywssocks.Base.Dict.{get}
use pywssocks.Server.Clients.{uuid_text}
use pywssocks.Text.{Str, Bytes, codes}
use pywssocks.Message.Types.{Message, AuthResponseMessage}
use pywssocks.Message.Pack.{pack_message}
use pywssocks.Message.Parse.{parse_message}
use pywssocks.Server.Hub.{Wire}
use pywssocks.Client.State.{Client}
use pywssocks.Client.Dispatcher.{
  Received, binary, text, message_dispatcher, add_message_queue, handle_message, handle_received,
  handle_parsed, put_at, put_message, accept_channel,
}
use pywssocks.Client.Connection.{
  Attempt, receive_auth, start_socks, auth_request, disconnect, after_ending, attempt, attempts,
  go_on, connected_with,
}
use pywssocks.Client.Lifecycle.{opened, attempt_on-receive_auth}

-- A connection that the server accepts: the answer to the authentication is a success.
pub record IsAccepted (wire : Wire) (c : Client) (a : Attempt) (ws : ℕ) (b : Bytes) : Type 0 where
  pub found : a.connection ≡ some ws
  pub packs : pack_message wire.runtime (auth_request a.instance_id c) ≡ ok b
  pub is_open : wire.is_open ws ≡ true
  pub answer : Bytes
  pub m : AuthResponseMessage
  pub got : a.answer ≡ some (binary answer)
  pub parses : parse_message wire.runtime answer ≡ ok (Message.auth_response m)
  pub succeeds : m.success ≡ true

put_at-sleeps : (o : Option ℕ) (m : Message) (c : Client) → (put_at o m c).sleeps ≡ c.sleeps
put_at-sleeps none m c = refl
put_at-sleeps (some queue) m c = refl

put_message-sleeps :
    (key : Str) (m : Message) (c : Client) → (put_message key m c).sleeps ≡ c.sleeps
unfolding put_message
put_message-sleeps key m c = put_at-sleeps (get key c.relay.message_queues) m c

-- Messages leave alone whether the client waits.
handle_message-sleeps :
    (is_done : ℕ → Bool) (ws : ℕ) (m : Message) (c : Client)
    → (handle_message is_done ws m c).sleeps ≡ c.sleeps
unfolding handle_message accept_channel add_message_queue
handle_message-sleeps is_done ws (Message.payload m) c =
    put_message-sleeps (uuid_text m.channel_id) (Message.payload m) c
handle_message-sleeps is_done ws (Message.connect m) c = refl
handle_message-sleeps is_done ws (Message.connect_response m) c =
    put_message-sleeps (uuid_text m.channel_id) (Message.connect_response m) c
handle_message-sleeps is_done ws (Message.auth_response m) c =
    put_message-sleeps (codes "auth") (Message.auth_response m) c
handle_message-sleeps is_done ws (Message.disconnect m) c = refl
handle_message-sleeps is_done ws (Message.connector_response m) c =
    put_message-sleeps (uuid_text m.channel_id) (Message.connector_response m) c
handle_message-sleeps is_done ws (Message.partners m) c = refl
handle_message-sleeps is_done ws (Message.auth m) c = refl
handle_message-sleeps is_done ws (Message.connector m) c = refl
handle_message-sleeps is_done ws (Message.log m) c = refl

message_dispatcher-sleeps :
    (wire : Wire) (is_done : ℕ → Bool) (ws : ℕ) (l : List Received) (c : Client)
    → (message_dispatcher wire.runtime is_done ws l c).sleeps ≡ c.sleeps
unfolding message_dispatcher
message_dispatcher-sleeps wire is_done ws [] c = refl
message_dispatcher-sleeps wire is_done ws (text ∷ l) c =
    message_dispatcher-sleeps wire is_done ws l c
message_dispatcher-sleeps wire is_done ws (binary b ∷ l) c =
    message_dispatcher-sleeps wire is_done ws l
      (handle_received wire.runtime is_done ws (binary b) c)
    ∙ parsed (parse_message wire.runtime b)
  where
    parsed : (r : Result Message) → (handle_parsed is_done ws r c).sleeps ≡ c.sleeps
    parsed (ok m) = handle_message-sleeps is_done ws m c
    parsed (err e) = refl

start_socks-sleeps : (b : Bool) (c : Client) → (start_socks b c).sleeps ≡ c.sleeps
start_socks-sleeps true c = refl
start_socks-sleeps false c = refl

accepted-finishes :
    (is_done : ℕ → Bool) (wire : Wire) (a : Attempt) (c : Client) (ws : ℕ) (b : Bytes)
    → IsAccepted wire c a ws b
    → attempt is_done wire a c
      ≡ (disconnect (connected_with is_done wire ws a.messages (opened ws b c)), true)
unfolding attempt receive_auth after_ending
accepted-finishes is_done wire a c ws b i =
    rw
      (
        attempt_on-receive_auth is_done wire a c ws b i.found i.packs i.is_open,
        i.got,
        i.parses,
        i.succeeds,
      )
      refl

accepted-sleeps :
    (is_done : ℕ → Bool) (wire : Wire) (l : List Received) (c : Client) (ws : ℕ) (b : Bytes)
    → (disconnect (connected_with is_done wire ws l (opened ws b c))).sleeps ≡ c.sleeps
unfolding disconnect add_message_queue
accepted-sleeps is_done wire l c ws b =
    message_dispatcher-sleeps wire is_done ws l
      (record (opened ws b c) { connected = true; disconnected = false })
    ∙ start_socks-sleeps (not c.reverse) (record c { websocket = some ws })

-- A client that was accepted and then loses the connection tries again at once, with no wait, even
-- if it is not to reconnect: the loop takes its next turn.
pub lost_connection_retries :
    (is_done : ℕ → Bool) (wire : Wire) (a : Attempt) (later : List Attempt) (c : Client) (ws : ℕ)
    (b : Bytes)
    → IsAccepted wire c a ws b
    → (attempts is_done wire (a ∷ later) c
        ≡ attempts is_done wire later (attempt is_done wire a c).0)
      × ((attempt is_done wire a c).0.sleeps ≡ c.sleeps)
unfolding attempts
lost_connection_retries is_done wire a later c ws b i =
    let done = accepted-finishes is_done wire a c ws b i in
    (
      ap (λ (r : Client × Bool). go_on r (attempts is_done wire later)) done
          ∙ ap (λ (r : Client × Bool). attempts is_done wire later r.0) (sym done),
      ap (λ (r : Client × Bool). r.0.sleeps) done ∙ accepted-sleeps is_done wire a.messages c ws b,
    )
