-- ===== src/Server/Dispatch.antt =====
-- `_connector_message_dispatcher` and `_message_dispatcher` of `WSSocksServer`.
use pywssocks.Base.{
  list_eq, nat_eq, ℕ, ◌+◌, Bool, true, false, ◌||◌, Option, none, some, List, [], ◌∷◌, ◌++◌,
  if◌then◌else◌, ◌==◌, Result, ok, err,
}
use pywssocks.Base.Dict.{Dict, get, insert, contains}
use pywssocks.Base.Sets.{elem}
use pywssocks.Text.{Str, Bytes, codes}
use pywssocks.Message.Types.{
  Uuid, Message, ConnectMessage, ConnectorMessage, add_operation, remove_operation,
}
use pywssocks.Message.Parse.{parse_message}
use pywssocks.ConnectorCache.{
  ConnectorCache, add_channel, remove_channel, get_client, get_connector,
}
use pywssocks.Relay.Channels.{disconnect_channel}
use pywssocks.Server.State.{Server}
use pywssocks.Server.Tokens.{get_next_websocket, add_connector_token}
use pywssocks.Server.Remove.{remove_token}
use pywssocks.Server.Clients.{uuid_text, may_manage}
use pywssocks.Server.Hub.{Hub, Wire, Outcome, Step, after, ◌then_do◌, change, send, put}

abbrev on_cache : (ConnectorCache → ConnectorCache) → Hub → Hub
on_cache f h = record h { cache = f h.cache }

-- To a connection, if there is one.
abbrev pub send_to : Wire → Option ℕ → Message → Step
send_to wire none msg h = (h, Outcome.going)
send_to wire (some ws) msg h = send wire ws msg h

abbrev pub no_reverse_client : Uuid → Message
no_reverse_client channel_id = Message.connect_response (record {
  success = false;
  channel_id = channel_id;
  error = some (codes "no available reverse clients");
})

-- A connect request of a connector, with the connection that is next.
abbrev pub forward_connect : Wire → ℕ → Str → ConnectMessage → Server × Option ℕ → Step
forward_connect wire ws reverse_token m (s, none) h =
    send wire ws (no_reverse_client m.channel_id) (record h { server = s })
forward_connect wire ws reverse_token m (s, some reverse_ws) h =
    send wire reverse_ws (Message.connect m) (record h {
      server = s;
      cache = add_channel m.channel_id ws reverse_ws reverse_token h.cache;
    })

-- One message of a connector client on `ws`. A reverse token without a lock raises KeyError.
unfoldable pub connector_message : Wire → ℕ → Str → Message → Step
connector_message wire ws reverse_token (Message.connect m) h =
    if elem reverse_token h.server.token_locks
    then forward_connect wire ws reverse_token m (get_next_websocket reverse_token h.server) h
    else (h, Outcome.failed)
connector_message wire ws reverse_token (Message.payload m) h =
    send_to wire (get_client m.channel_id h.cache) (Message.payload m) h
connector_message wire ws reverse_token (Message.disconnect m) h =
    (send_to wire (get_client m.channel_id h.cache) (Message.disconnect m)
        then_do change (on_cache (remove_channel m.channel_id)))
      h
connector_message wire ws reverse_token _ h = (h, Outcome.going)

-- To the queue of the channel, or else to the connector of the channel.
abbrev pub deliver : Wire → Option ℕ → Uuid → Message → Step
deliver wire (some queue) channel_id msg h = (put queue msg h, Outcome.going)
deliver wire none channel_id msg h = send_to wire (get_connector channel_id h.cache) msg h

-- `self._message_queues[str(channel_id)] = asyncio.Queue()`, and the task that handles the message.
unfoldable pub accept_connect : ℕ → ConnectMessage → Hub → Hub
accept_connect ws m h = record h {
  relay = record h.relay {
    message_queues = insert (uuid_text m.channel_id) h.next_queue h.relay.message_queues;
  };
  next_queue = h.next_queue + 1;
  handlers = h.handlers ++ ((ws, Message.connect m) ∷ []);
}

abbrev pub has_client : Uuid → List (Uuid × ℕ) → Bool
has_client client_id [] = false
has_client client_id ((cid, ws) ∷ l) = cid == client_id || has_client client_id l

-- "Find the token for this client": an empty token counts for none.
unfoldable pub find_client_token : Uuid → Dict Str (List (Uuid × ℕ)) → Option Str
find_client_token client_id [] = none
find_client_token client_id (([], l) ∷ d) = find_client_token client_id d
find_client_token client_id ((c ∷ t, l) ∷ d) =
    let rest = find_client_token client_id d in
    if has_client client_id l then some (c ∷ t) else rest

-- "Check permissions"
abbrev pub permitted : Option Str → Server → Bool
permitted none s = false
permitted (some token) s = may_manage (get token s.token_options)

abbrev pub refusal : Uuid → Str → Message
refusal channel_id error = Message.connector_response (record {
  success = false;
  channel_id = channel_id;
  error = some error;
  connector_token = none;
})

abbrev pub agreement : Uuid → Option Str → Message
agreement channel_id token =
    Message.connector_response
      (record { success = true; channel_id = channel_id; error = none; connector_token = token })

-- `if new_token:` takes an empty token for a failure.
abbrev pub added : Uuid → Server × Option Str → Server × Result Message
added channel_id (s, none) = (s, ok (refusal channel_id (codes "Failed to add connector token")))
added channel_id (s, some []) = (s, ok (refusal channel_id (codes "Failed to add connector token")))
added channel_id (s, some (c ∷ t)) = (s, ok (agreement channel_id (some (c ∷ t))))

-- A KeyError of `remove_token` goes on.
abbrev pub removed : Uuid → Server × Result Bool → Server × Result Message
removed channel_id (s, ok true) = (s, ok (agreement channel_id none))
removed channel_id (s, ok false) =
    (s, ok (refusal channel_id (codes "Failed to remove connector token")))
removed channel_id (s, err e) = (s, err e)

-- The operation of a client that may manage connectors.
unfoldable pub operate : Str → ConnectorMessage → Server → Server × Result Message
operate client_token m s =
    if m.operation == add_operation
    then added m.channel_id (add_connector_token [] (some m.connector_token) (some client_token) s)
    else if m.operation == remove_operation
    then removed m.channel_id (remove_token m.connector_token s)
    else (s, ok (refusal m.channel_id (codes "Unknown connector operation: " ++ m.operation)))

abbrev pub operate_as : Option Str → ConnectorMessage → Server → Server × Result Message
operate_as none m s =
    (s, ok (refusal m.channel_id (codes "Unauthorized connector management attempt")))
operate_as (some client_token) m s = operate client_token m s

-- A connector message of a client: the server after it, and the answer or the exception.
unfoldable pub manage : Uuid → ConnectorMessage → Server → Server × Result Message
unfolding find_client_token operate
manage client_id m s =
    let client_token = find_client_token client_id s.token_clients in
    if permitted client_token s
    then operate_as client_token m s
    else (s, ok (refusal m.channel_id (codes "Unauthorized connector management attempt")))

abbrev pub answer_with : Wire → ℕ → Server × Result Message → Step
answer_with wire ws (s, ok response) h = send wire ws response (record h { server = s })
answer_with wire ws (s, err e) h = (record h { server = s }, Outcome.failed)

-- One message of a reverse or forward client on `ws`. `is_done` tells which tasks are done; the
-- delay of `disconnect_channel` is five seconds.
unfoldable pub client_message : Wire → (ℕ → Bool) → ℕ → Uuid → Message → Step
unfolding accept_connect manage
client_message wire is_done ws client_id (Message.payload m) h =
    deliver wire (get (uuid_text m.channel_id) h.relay.message_queues) m.channel_id
      (Message.payload m) h
client_message wire is_done ws client_id (Message.connect_response m) h =
    deliver wire (get (uuid_text m.channel_id) h.relay.message_queues) m.channel_id
      (Message.connect_response m) h
client_message wire is_done ws client_id (Message.connect m) h =
    if contains client_id h.server.forward_clients
    then (accept_connect ws m h, Outcome.going)
    else (h, Outcome.going)
client_message wire is_done ws client_id (Message.disconnect m) h = (
  record h { relay = disconnect_channel is_done (uuid_text m.channel_id) 5 h.relay },
  Outcome.going,
)
client_message wire is_done ws client_id (Message.connector m) h =
    answer_with wire ws (manage client_id m h.server) h
client_message wire is_done ws client_id _ h = (h, Outcome.going)

-- What `websocket.recv()` gives in a turn: bytes, a text, nothing for a minute (then a ping, which
-- fails or not), or the end of the connection.
pub data Incoming : Type 0 where
  bytes : Bytes → Incoming
  text : Incoming
  silence : Bool → Incoming
  ended : Incoming

-- A message that does not parse is passed over.
abbrev pub on_parsed : (Message → Step) → Result Message → Step
on_parsed step (ok msg) h = step msg h
on_parsed step (err e) h = (h, Outcome.going)

abbrev pub turn : Wire → (Message → Step) → Incoming → Step
turn wire step (bytes b) h = on_parsed step (parse_message wire.runtime b) h
turn wire step text h = (h, Outcome.going)
turn wire step (silence true) h = (h, Outcome.going)
turn wire step (silence false) h = (h, Outcome.connection_closed)
turn wire step ended h = (h, Outcome.connection_closed)

-- The loop of both dispatchers, which any exception ends. `_connector_message_dispatcher` is no more
-- than this; that `_message_dispatcher` then cancels its `handlers` is left out.
unfoldable pub dispatch : Wire → (Message → Step) → List Incoming → Step
dispatch wire step [] h = (h, Outcome.going)
dispatch wire step (i ∷ is) h = after (turn wire step i h) (dispatch wire step is)
