-- ===== src/Client/Dispatcher.antt =====
-- `_message_dispatcher` of `WSSocksClient`.
use pywssocks.Base.{
  list_eq, nat_eq, ℕ, ◌+◌, Bool, Option, none, some, List, [], ◌∷◌, ◌++◌, Result, ok, err,
}
use pywssocks.Base.Dict.{get, insert}
use pywssocks.Text.{Str, Bytes, codes}
use pywssocks.Message.Types.{Message, ConnectMessage, Runtime}
use pywssocks.Message.Parse.{parse_message}
use pywssocks.Relay.Channels.{disconnect_channel}
use pywssocks.Server.Clients.{uuid_text}
use pywssocks.Client.State.{Client}

-- `await self._message_queues[key].put(msg)`, where there is a queue.
abbrev pub put_at : Option ℕ → Message → Client → Client
put_at none msg c = c
put_at (some queue) msg c = record c { delivered = c.delivered ++ ((queue, msg) ∷ []) }

unfoldable pub put_message : Str → Message → Client → Client
put_message key msg c = put_at (get key c.relay.message_queues) msg c

-- A new queue under a key.
unfoldable pub add_message_queue : Str → Client → Client
add_message_queue key c = record c {
  relay = record c.relay { message_queues = insert key c.next_queue c.relay.message_queues };
  next_queue = c.next_queue + 1;
}

-- The queue of the channel, and the task that handles the message.
unfoldable pub accept_channel : ℕ → ConnectMessage → Client → Client
unfolding add_message_queue
accept_channel ws m c =
    let c' = add_message_queue (uuid_text m.channel_id) c in
    record c' { handlers = c'.handlers ++ ((ws, Message.connect m) ∷ []) }

-- One message. `is_done` tells which tasks are done; the delay of `disconnect_channel` is five
-- seconds.
unfoldable pub handle_message : (ℕ → Bool) → ℕ → Message → Client → Client
unfolding put_message accept_channel
handle_message is_done ws (Message.payload m) c =
    put_message (uuid_text m.channel_id) (Message.payload m) c
handle_message is_done ws (Message.connect m) c = accept_channel ws m c
handle_message is_done ws (Message.connect_response m) c =
    put_message (uuid_text m.channel_id) (Message.connect_response m) c
handle_message is_done ws (Message.auth_response m) c =
    put_message (codes "auth") (Message.auth_response m) c
handle_message is_done ws (Message.disconnect m) c = record c {
  relay = disconnect_channel is_done (uuid_text m.channel_id) 5 c.relay;
}
handle_message is_done ws (Message.connector_response m) c =
    put_message (uuid_text m.channel_id) (Message.connector_response m) c
handle_message is_done ws (Message.partners m) c = record c { num_partners = m.count }
handle_message is_done ws _ c = c

-- What `websocket.recv()` gives: bytes or a text; the end of the connection raises.
pub data Received : Type 0 where
  binary : Bytes → Received
  text : Received

-- A message that does not parse is passed over.
abbrev pub handle_parsed : (ℕ → Bool) → ℕ → Result Message → Client → Client
handle_parsed is_done ws (ok msg) c = handle_message is_done ws msg c
handle_parsed is_done ws (err e) c = c

abbrev pub handle_received : Runtime → (ℕ → Bool) → ℕ → Received → Client → Client
handle_received r is_done ws (binary b) c = handle_parsed is_done ws (parse_message r b) c
handle_received r is_done ws text c = c

-- The loop up to the end of the connection. ConnectionClosed is caught, so that it returns.
unfoldable pub message_dispatcher : Runtime → (ℕ → Bool) → ℕ → List Received → Client → Client
unfolding handle_message
message_dispatcher r is_done ws [] c = c
message_dispatcher r is_done ws (m ∷ ms) c =
    message_dispatcher r is_done ws ms (handle_received r is_done ws m c)
