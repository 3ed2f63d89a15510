-- ===== src/Server/Routing.antt =====
-- Where the messages of a connector's channel go, and who may change tokens through messages.
use pywssocks.Base.{
  list_eq, nat_eq, ℕ, ◌≡◌, ◌≢◌, refl, ap, Bool, true, false, none, some, List, [], ◌∷◌, ◌++◌, arith,
  eq_iff, eq_refl, ok,
}
use pywssocks.Base.Dict.{get}
use pywssocks.Base.Sets.{elem}
use pywssocks.Text.{Str, Bytes}
use pywssocks.Message.Types.{
  Uuid, Message, ConnectMessage, DataMessage, DisconnectMessage, ConnectResponseMessage,
}
use pywssocks.Message.Pack.{pack_message}
use pywssocks.Message.Parse.{parse_message}
use pywssocks.ConnectorCache.{
  ConnectorCache, add_channel, remove_channel, get_client, get_connector,
}
use pywssocks.ConnectorCache.Lookup.{ends, ends-add_channel, ends-remove_channel}
use pywssocks.Server.State.{Server}
use pywssocks.Server.Tokens.{get_next_websocket}
use pywssocks.Server.Clients.{uuid_text}
use pywssocks.Server.Hub.{Hub, Wire, Outcome, send}
use pywssocks.Server.Dispatch.{connector_message, client_message, Incoming, bytes, dispatch}

-- A message that is packed for an open connection.
send_open :
    (wire : Wire) (ws : ℕ) (msg : Message) (b : Bytes) (h : Hub)
    → pack_message wire.runtime msg ≡ ok b
    → wire.is_open ws ≡ true
    → send wire ws msg h ≡ (record h { sent = h.sent ++ ((ws, b) ∷ []) }, Outcome.going)
unfolding send
send_open wire ws msg b h packs open_ = rw (packs, open_) refl

-- What was looked up for a channel decides where its messages go.
connector_payload :
    (wire : Wire) (ws r : ℕ) (rt : Str) (m : DataMessage) (h : Hub)
    → get_client m.channel_id h.cache ≡ some r
    → connector_message wire ws rt (Message.payload m) h ≡ send wire r (Message.payload m) h
unfolding connector_message
connector_payload wire ws r rt m h e = rw e refl

client_payload :
    (wire : Wire) (is_done : ℕ → Bool) (ws c : ℕ) (client_id : Uuid) (m : DataMessage) (h : Hub)
    → get (uuid_text m.channel_id) h.relay.message_queues ≡ none
    → get_connector m.channel_id h.cache ≡ some c
    → client_message wire is_done ws client_id (Message.payload m) h
      ≡ send wire c (Message.payload m) h
unfolding client_message
client_payload wire is_done ws c client_id m h q e = rw (q, e) refl

client_response :
    (wire : Wire) (is_done : ℕ → Bool) (ws c : ℕ) (client_id : Uuid) (m : ConnectResponseMessage)
    (h : Hub)
    → get (uuid_text m.channel_id) h.relay.message_queues ≡ none
    → get_connector m.channel_id h.cache ≡ some c
    → client_message wire is_done ws client_id (Message.connect_response m) h
      ≡ send wire c (Message.connect_response m) h
unfolding client_message
client_response wire is_done ws c client_id m h q e = rw (q, e) refl

added_ends :
    (i : Uuid) (connector client : ℕ) (token : Str) (c : ConnectorCache)
    → ends i (add_channel i connector client token c) ≡ (some client, some connector)
added_ends i connector client token c =
    ground (arith, (ends-add_channel i i connector client token token c).0, eq_refl i)

module _ (wire : Wire) (is_done : ℕ → Bool) (ws : ℕ) (rt : Str) (m : ConnectMessage) (h : Hub) where
  -- A connect request of a connector that is handed on to the reverse client `r`, which is the next
  -- of the reverse token, joins the two for its channel: the request goes to `r`; from then on, what
  -- the connector sends on the channel goes to `r`, and what any client sends on it as data or as the
  -- answer goes to the connector, where the server itself has no queue for the channel.
  pub connector_message-joins :
      (s : Server) (r : ℕ) (b : Bytes)
      → elem rt h.server.token_locks ≡ true
      → get_next_websocket rt h.server ≡ (s, some r)
      → pack_message wire.runtime (Message.connect m) ≡ ok b
      → wire.is_open r ≡ true
      → (h' : Hub) × (connector_message wire ws rt (Message.connect m) h ≡ (h', Outcome.going))
        × (h'.sent ≡ h.sent ++ ((r, b) ∷ []))
        × ((d : DataMessage)
            → d.channel_id ≡ m.channel_id
            → connector_message wire ws rt (Message.payload d) h'
              ≡ send wire r (Message.payload d) h')
        × (get (uuid_text m.channel_id) h.relay.message_queues ≡ none
            → (client_id : Uuid) (from_ws : ℕ) (d : DataMessage) → d.channel_id ≡ m.channel_id
            → client_message wire is_done from_ws client_id (Message.payload d) h'
              ≡ send wire ws (Message.payload d) h')
        × (get (uuid_text m.channel_id) h.relay.message_queues ≡ none
            → (client_id : Uuid) (from_ws : ℕ) (a : ConnectResponseMessage)
            → a.channel_id ≡ m.channel_id
            → client_message wire is_done from_ws client_id (Message.connect_response a) h'
              ≡ send wire ws (Message.connect_response a) h')
  connector_message-joins s r b lock next packs open_ =
      let cache' = add_channel m.channel_id ws r rt h.cache in
      let h' = record h { server = s; cache = cache'; sent = h.sent ++ ((r, b) ∷ []) } in
      let both = added_ends m.channel_id ws r rt h.cache in
      (
        h',
        unfold connector_message in
            (rw (lock, next) (send_open wire r (Message.connect m) b _ packs open_)),
        refl,
        λ d e. connector_payload wire ws r rt d h' (rw e (ap (λ p. p.0) both)),
        λ q client_id from_ws d e.
            client_payload wire is_done from_ws ws client_id d h' (rw e q)
              (rw e (ap (λ p. p.1) both)),
        λ q client_id from_ws a e.
            client_response wire is_done from_ws ws client_id a h' (rw e q)
              (rw e (ap (λ p. p.1) both)),
      )

module _ (wire : Wire) (is_done : ℕ → Bool) (ws : ℕ) (rt : Str) (m : DisconnectMessage)
    (h : Hub) where
  -- A disconnect message of a connector, which can be packed, and whose channel goes to `r`, whose
  -- connection is open, is handed on to `r`, and then the channel is forgotten: further data on it is dropped, from either end, where the server has no
  -- queue for it; every other channel keeps its ends.
  pub connector_message-parts :
      (r : ℕ) (b : Bytes)
      → get_client m.channel_id h.cache ≡ some r
      → pack_message wire.runtime (Message.disconnect m) ≡ ok b
      → wire.is_open r ≡ true
      → (h' : Hub) × (connector_message wire ws rt (Message.disconnect m) h ≡ (h', Outcome.going))
        × (h'.sent ≡ h.sent ++ ((r, b) ∷ []))
        × ((d : DataMessage)
            → d.channel_id ≡ m.channel_id
            → connector_message wire ws rt (Message.payload d) h' ≡ (h', Outcome.going))
        × (get (uuid_text m.channel_id) h.relay.message_queues ≡ none
            → (client_id : Uuid) (from_ws : ℕ) (d : DataMessage) → d.channel_id ≡ m.channel_id
            → client_message wire is_done from_ws client_id (Message.payload d) h'
              ≡ (h', Outcome.going))
        × ((j : Uuid) → m.channel_id ≢ j → ends j h'.cache ≡ ends j h.cache)
  unfolding connector_message client_message
  connector_message-parts r b found packs open_ =
      let h' = record h {
        sent = h.sent ++ ((r, b) ∷ []);
        cache = remove_channel m.channel_id h.cache;
      } in
      let gone = ends_gone m.channel_id h.cache in
      (
        h',
        rw (found, send_open wire r (Message.disconnect m) b h packs open_) refl,
        refl,
        λ d e. rw (e, ap (λ p. p.0) gone) refl,
        λ q client_id from_ws d e. rw (e, q, ap (λ p. p.1) gone) refl,
        λ j other.
            ground (arith, ends-remove_channel m.channel_id j h.cache, eq_iff m.channel_id j),
      )
    where
      ends_gone : (i : Uuid) (c : ConnectorCache) → ends i (remove_channel i c) ≡ (none, none)
      ends_gone i c = ground (arith, ends-remove_channel i i c, eq_refl i)

-- A disconnect message of a reverse client is not handed on: nothing is sent, the cache of the
-- channels is as it was, and the connector's data still goes to the client `r` that has left the
-- channel.
pub disconnect_stays_here :
    (wire : Wire) (is_done : ℕ → Bool) (ws from_ws r : ℕ) (rt : Str) (client_id : Uuid)
    (m : DisconnectMessage) (d : DataMessage) (h : Hub)
    → get_client m.channel_id h.cache ≡ some r
    → d.channel_id ≡ m.channel_id
    → let h' = (client_message wire is_done from_ws client_id (Message.disconnect m) h).0 in
      (h'.sent ≡ h.sent)
      × (h'.cache ≡ h.cache)
      × (connector_message wire ws rt (Message.payload d) h' ≡ send wire r (Message.payload d) h')
unfolding client_message
disconnect_stays_here wire is_done ws from_ws r rt client_id m d h found same =
    (refl, refl, connector_payload wire ws r rt d _ (rw same found))

-- Data for a channel whose reverse client is no longer connected ends the connector's own loop: the
-- ConnectionClosed of the other connection is taken for that of the connector, and what the
-- connector sends after it is not handled.
pub dead_target_ends_loop :
    (wire : Wire) (ws r : ℕ) (rt : Str) (d : DataMessage) (b packed : Bytes) (rest : List Incoming)
    (h : Hub)
    → parse_message wire.runtime b ≡ ok (Message.payload d)
    → get_client d.channel_id h.cache ≡ some r
    → pack_message wire.runtime (Message.payload d) ≡ ok packed
    → wire.is_open r ≡ false
    → dispatch wire (connector_message wire ws rt) (bytes b ∷ rest) h
      ≡ (h, Outcome.connection_closed)
unfolding dispatch send
dead_target_ends_loop wire ws r rt d b packed rest h parses found packs shut =
    rw (parses, connector_payload wire ws r rt d h found, packs, shut) refl
