-- ===== src/Client/Requests.antt =====
-- `add_connector` and `remove_connector` of `WSSocksClient`: what they do up to the wait for the
-- answer, and after it.
use pywssocks.Base.{
  list_eq, nat_eq, ℕ, not, Option, none, some, [], ◌∷◌, ◌++◌, if◌then◌else◌, Result, ok, err,
  value_error, runtime_error, connection_closed, Exception, String, ◌>>=◌,
}
use pywssocks.Base.Dict.{erase}
use pywssocks.Text.{Str, Bytes}
use pywssocks.Message.Types.{
  Uuid, Message, ConnectorMessage, ConnectorResponseMessage, add_operation, remove_operation,
}
use pywssocks.Message.Pack.{pack_message}
use pywssocks.Server.Clients.{uuid_text}
use pywssocks.Server.Hub.{Wire}
use pywssocks.Client.State.{Client}
use pywssocks.Client.Dispatcher.{add_message_queue}

-- The client with what a call has raised so far.
abbrev pub Raised : Type 0
Raised = Client × Option Exception

abbrev pub transmit_packed : Wire → ℕ → Result Bytes → Client → Raised
transmit_packed wire ws (err e) c = (c, some e)
transmit_packed wire ws (ok b) c =
    if wire.is_open ws
    then (record c { sent = c.sent ++ ((ws, b) ∷ []) }, none)
    else (c, some connection_closed)

-- `del self._message_queues[str(channel_id)]`, where it is there.
unfoldable pub drop_request : Uuid → Client → Client
drop_request channel_id c = record c {
  relay = record c.relay { message_queues = erase (uuid_text channel_id) c.relay.message_queues };
}

-- The `finally` of both methods, where the request could not be sent.
abbrev pub give_up : Uuid → Raised → Raised
give_up channel_id (c, none) = (c, none)
give_up channel_id (c, some e) = (drop_request channel_id c, some e)

abbrev pub request_on : Wire → Option ℕ → ConnectorMessage → Client → Raised
request_on wire none m c = (c, some (runtime_error "Client not connected"))
request_on wire (some ws) m c = give_up m.channel_id (
    transmit_packed wire ws (pack_message wire.runtime (Message.connector m))
      (add_message_queue (uuid_text m.channel_id) c))

-- Up to the wait. The text is that of the RuntimeError.
unfoldable pub send_request : Wire → String → ConnectorMessage → Client → Raised
unfolding drop_request
send_request wire refusal m c =
    if not c.reverse then (c, some (runtime_error refusal)) else request_on wire c.websocket m c

abbrev pub connector_request : Str → Uuid → Str → ConnectorMessage
connector_request operation channel_id token = record {
  channel_id = channel_id;
  connector_token = token;
  operation = operation;
}

unfoldable pub begin_add_connector : Wire → Uuid → Str → Client → Raised
unfolding send_request
begin_add_connector wire channel_id token c =
    send_request wire "Add connector is only available in reverse proxy mode"
      (connector_request add_operation channel_id token) c

unfoldable pub begin_remove_connector : Wire → Uuid → Str → Client → Raised
unfolding send_request
begin_remove_connector wire channel_id token c =
    send_request wire "Remove connector is only available in reverse proxy mode"
      (connector_request remove_operation channel_id token) c

-- What came out of the queue within ten seconds, if anything did.
abbrev pub accepted : Option Message → Result ConnectorResponseMessage
accepted none = err (value_error "Timeout waiting for connector response")
accepted (some (Message.connector_response r)) =
    if r.success then ok r else err (value_error "Connector request failed")
accepted (some _) = err (value_error "Unexpected message type for connector response")

-- `resp.connector_token or ""`
abbrev pub token_or_empty : Option Str → Str
token_or_empty none = []
token_or_empty (some t) = t

unfoldable pub finish_add_connector : Uuid → Option Message → Client → Client × Result Str
finish_add_connector channel_id answer c =
    (drop_request channel_id c, accepted answer >>= λ r. ok (token_or_empty r.connector_token))

unfoldable pub finish_remove_connector : Uuid → Option Message → Client → Client × Result (Unit {0})
finish_remove_connector channel_id answer c =
    (drop_request channel_id c, accepted answer >>= λ r. ok tt)
