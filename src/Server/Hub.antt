-- ===== src/Server/Hub.antt =====
-- A `WSSocksServer` with what its handlers of connections work on besides the tokens: the cache of
-- the connectors, the maps of `Relay`, and what they have sent.
use pywssocks.Base.{
  list_eq, nat_eq, ℕ, ◌+◌, Bool, true, false, Option, List, [], ◌∷◌, ◌++◌, if◌then◌else◌, ◌==◌,
  Result, ok, err, length,
}
use pywssocks.Base.Dict.{Dict, get}
use pywssocks.Text.{Str, Bytes}
use pywssocks.Message.Types.{Uuid, Message, Runtime, Json}
use pywssocks.Message.Pack.{pack_message}
use pywssocks.ConnectorCache.{ConnectorCache}
use pywssocks.Relay.Channels.{Relay}
use pywssocks.Server.State.{Server}
use pywssocks.Server.Clients.{list_or_empty}

-- `sent` has what went through each connection, `delivered` what was put into each queue, `closed`
-- the connections that were closed with their codes, `handlers` the connect messages for which a
-- network connection is handled.
pub record Hub : Type 0 where
  pub server : Server
  pub cache : ConnectorCache
  pub relay : Relay
  pub sent : List (ℕ × Bytes)
  pub delivered : List (ℕ × Message)
  pub next_queue : ℕ
  pub closed : List (ℕ × ℕ)
  pub handlers : List (ℕ × Message)

-- What the handlers take from outside: gzip and json, and which connections still take messages.
pub record Wire : Type 0 where
  pub runtime : Runtime
  pub is_open : ℕ → Bool

-- How a step ended: the handler goes on, or ConnectionClosed or another exception was raised.
pub data Outcome : Type 0 where
  going connection_closed failed : Outcome

abbrev pub Step : Type 0
Step = Hub → Hub × Outcome

abbrev pub after : Hub × Outcome → Step → Hub × Outcome
after (h, Outcome.going) next = next h
after (h, Outcome.connection_closed) next = (h, Outcome.connection_closed)
after (h, Outcome.failed) next = (h, Outcome.failed)

infixl 5 ◌then_do◌
abbrev pub ◌then_do◌ : Step → Step → Step
◌then_do◌ first next h = after (first h) next

-- A step that changes the hub and cannot fail.
abbrev pub change : (Hub → Hub) → Step
change f h = (f h, Outcome.going)

abbrev pub on_server : (Server → Server) → Hub → Hub
on_server f h = record h { server = f h.server }

abbrev pub transmit : Bool → ℕ → Bytes → Hub → Hub × Outcome
transmit true ws b h = (record h { sent = h.sent ++ ((ws, b) ∷ []) }, Outcome.going)
transmit false ws b h = (h, Outcome.connection_closed)

abbrev pub send_packed : Wire → ℕ → Result Bytes → Hub → Hub × Outcome
send_packed wire ws (ok b) h = transmit (wire.is_open ws) ws b h
send_packed wire ws (err e) h = (h, Outcome.failed)

-- `await ws.send(pack_message(msg))`
unfoldable pub send : Wire → ℕ → Message → Step
send wire ws msg h = send_packed wire ws (pack_message wire.runtime msg) h

-- `await ws.close(code, reason)`
unfoldable pub close : ℕ → ℕ → Hub → Hub
close ws code h = record h { closed = h.closed ++ ((ws, code) ∷ []) }

-- `await self._message_queues[channel_id].put(msg)`
unfoldable pub put : ℕ → Message → Hub → Hub
put queue msg h = record h { delivered = h.delivered ++ ((queue, msg) ∷ []) }

abbrev pub auth_response : Bool → Option Str → Message
auth_response success error = Message.auth_response (record { success = success; error = error })

abbrev pub partners_message : ℕ → Message
partners_message n = Message.partners (record { count = Json.int n })

-- Each connection in turn; a message that cannot be sent is passed over.
unfoldable pub send_each : Wire → Message → List (Uuid × ℕ) → Hub → Hub
unfolding send
send_each wire msg [] h = h
send_each wire msg ((client_id, ws) ∷ rest) h = send_each wire msg rest (send wire ws msg h).0

-- The number of clients of the tokens in a list.
unfoldable pub count_clients : List Str → Dict Str (List (Uuid × ℕ)) → ℕ
count_clients [] clients = 0
count_clients (token ∷ tokens) clients =
    length (list_or_empty (get token clients)) + count_clients tokens clients

abbrev pub keys {ℓ κ} : {K : Type ℓ} {V : Type κ} → Dict K V → List K
keys [] = []
keys ((k, v) ∷ d) = k ∷ keys d

-- The number of reverse clients, as both places that send it count it.
unfoldable pub reverse_count : Server → ℕ
unfolding count_clients
reverse_count s = count_clients (keys s.tokens) s.token_clients

-- The loop over the connector tokens.
unfoldable pub send_to_tokens : Wire → Message → List Str → Hub → Hub
unfolding send_each
send_to_tokens wire msg [] h = h
send_to_tokens wire msg (token ∷ tokens) h =
    send_to_tokens wire msg tokens
      (send_each wire msg (list_or_empty (get token h.server.token_clients)) h)

unfoldable pub broadcast_partners_to_connectors : Wire → Hub → Hub
unfolding reverse_count send_to_tokens
broadcast_partners_to_connectors wire h =
    send_to_tokens wire (partners_message (reverse_count h.server)) (keys h.server.connector_tokens)
      h

-- The connector tokens of a reverse token.
unfoldable pub connectors_for : Str → Dict Str Str → List Str
connectors_for reverse_token [] = []
connectors_for reverse_token ((connector_token, rt) ∷ d) =
    let rest = connectors_for reverse_token d in
    if rt == reverse_token then connector_token ∷ rest else rest

unfoldable pub connector_count : Str → Server → ℕ
unfolding connectors_for count_clients
connector_count reverse_token s =
    count_clients (connectors_for reverse_token s.connector_tokens) s.token_clients

unfoldable pub broadcast_partners_to_reverse_clients : Wire → Str → Hub → Hub
unfolding connector_count send_each
broadcast_partners_to_reverse_clients wire reverse_token h =
    send_each wire (partners_message (connector_count reverse_token h.server))
      (list_or_empty (get reverse_token h.server.token_clients)) h
