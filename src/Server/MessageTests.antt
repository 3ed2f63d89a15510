-- ===== src/Server/MessageTests.antt =====
-- Messages of clients, at a small server.
use pywssocks.Base.{
  ap, list_eq, nat_eq, ℕ, ◌≡◌, ◌≢◌, refl, true, none, some, [], ◌∷◌, ◌++◌, ok, sym, ◌∙◌,
}
use pywssocks.Base.Dict.{get, insert}
use pywssocks.Base.Sets.{elem}
use pywssocks.Text.{Str, Bytes, encode}
use pywssocks.Message.Types.{
  Uuid, Message, ConnectMessage, DataMessage, DisconnectMessage, ConnectorMessage,
  ConnectResponseMessage, tcp, remove_operation,
}
use pywssocks.Message.Pack.{
  pack_message, pack_body, pack_connect, pack_target, pack_text, pack_byte, pack_u16,
  protocol_to_bytes, pack_disconnect, pack_data, pack_u32,
}
use pywssocks.Message.Parse.{
  parse_message, parse_payload, parse_data, unpack_u32, bytes_to_protocol, decompressed,
}
use pywssocks.ConnectorCache.{get_client}
use pywssocks.ConnectorCache.Lookup.{ends}
use pywssocks.Server.State.{int_eq, pos, Server}
use pywssocks.Server.Tokens.{get_next_websocket}
use pywssocks.Server.Removal.{IsGone}
use pywssocks.Server.Clients.{uuid_text}
use pywssocks.Server.Hub.{Hub, Outcome, send}
use pywssocks.Server.Dispatch.{
  connector_message, client_message, manage, agreement, bytes, dispatch, find_client_token,
}
use pywssocks.Server.Routing.{
  connector_message-joins, connector_message-parts, disconnect_stays_here, dead_target_ends_loop,
}
use pywssocks.Server.Authority.{
  IsFoundManager, IsManager, IsManaged, manage_needs-IsManager, manage_removes_any_token,
}
use pywssocks.Server.Small.{a, b, server, five, hub, runtime, wire, broken}

abbrev request : ConnectMessage
request = record { protocol = tcp; channel_id = 6 ∷ []; address = some a; port = some 80 }

request_packs :
    pack_message runtime (Message.connect request) ≡ ok (1 ∷ 3 ∷ 1 ∷ 6 ∷ 1 ∷ 97 ∷ 0 ∷ 80 ∷ [])
unfolding pack_message pack_body pack_connect pack_target pack_text pack_byte encode pack_u16
    protocol_to_bytes
request_packs = refl

connector_message-joins_example :
    (h' : Hub) × (connector_message wire 9 a (Message.connect request) hub ≡ (h', Outcome.going))
    × (h'.sent ≡ (7, 1 ∷ 3 ∷ 1 ∷ 6 ∷ 1 ∷ 97 ∷ 0 ∷ 80 ∷ []) ∷ [])
    × ((d : DataMessage)
        → d.channel_id ≡ 6 ∷ []
        → connector_message wire 9 a (Message.payload d) h' ≡ send wire 7 (Message.payload d) h')
    × (get (uuid_text (6 ∷ [])) hub.relay.message_queues ≡ none
        → (client_id : Uuid) (from_ws : ℕ) (d : DataMessage) → d.channel_id ≡ 6 ∷ []
        → client_message wire (λ t. true) from_ws client_id (Message.payload d) h'
          ≡ send wire 9 (Message.payload d) h')
    × (get (uuid_text (6 ∷ [])) hub.relay.message_queues ≡ none
        → (client_id : Uuid) (from_ws : ℕ) (r : ConnectResponseMessage) → r.channel_id ≡ 6 ∷ []
        → client_message wire (λ t. true) from_ws client_id (Message.connect_response r) h'
          ≡ send wire 9 (Message.connect_response r) h')
unfolding get get_next_websocket elem insert
connector_message-joins_example =
    connector_message-joins wire (λ t. true) 9 a request hub (get_next_websocket a server).0 7
      (1 ∷ 3 ∷ 1 ∷ 6 ∷ 1 ∷ 97 ∷ 0 ∷ 80 ∷ []) refl refl request_packs refl

abbrev farewell : DisconnectMessage
farewell = record { channel_id = five; error = none }

abbrev more : DataMessage
more = record {
  protocol = tcp;
  channel_id = five;
  content = [];
  compression = 0;
  address = none;
  port = none;
  target_addr = none;
  target_port = none;
}

disconnect_stays_here_example :
    let h' = (client_message wire (λ t. true) 7 (1 ∷ []) (Message.disconnect farewell) hub).0 in
    (h'.sent ≡ [])
    × (h'.cache ≡ hub.cache)
    × (connector_message wire 9 a (Message.payload more) h' ≡ send wire 7 (Message.payload more) h')
unfolding get_client get
disconnect_stays_here_example =
    disconnect_stays_here wire (λ t. true) 9 7 7 a (1 ∷ []) farewell more hub refl refl

server-IsFoundManager : IsFoundManager (2 ∷ []) b server
unfolding find_client_token get
server-IsFoundManager = record { found = refl; allowed = refl }

abbrev removal : ConnectorMessage
removal = record { channel_id = 4 ∷ []; connector_token = a; operation = remove_operation }

manage_removes_any_token_example :
    ((manage (2 ∷ []) removal server).1 ≡ ok (agreement (4 ∷ []) none))
    × IsGone a (pos 1080) (manage (2 ∷ []) removal server).0
unfolding get elem
manage_removes_any_token_example =
    manage_removes_any_token (2 ∷ []) b (pos 1080) removal server server-IsFoundManager refl refl
      refl refl refl

manage_changes : (manage (2 ∷ []) removal server).0 ≢ server
unfolding get elem
manage_changes same = not_gone (
    sym (ap (λ (s : Server). get a s.tokens) same)
    ∙ (manage_removes_any_token (2 ∷ []) b (pos 1080) removal server server-IsFoundManager refl refl
        refl refl refl).1.token_gone)
  where
    not_gone : some (pos 1080) ≡ none → ⊥
    not_gone e = cc

manage_needs-IsManager_example :
    (token : Str) × IsManager (2 ∷ []) token server
    × IsManaged token removal server (manage (2 ∷ []) removal server).0
manage_needs-IsManager_example = manage_needs-IsManager (2 ∷ []) removal server manage_changes

farewell_packs : pack_message runtime (Message.disconnect farewell) ≡ ok (1 ∷ 6 ∷ five)
unfolding pack_message pack_body pack_disconnect
farewell_packs = refl

connector_message-parts_example :
    (h' : Hub) × (connector_message wire 9 a (Message.disconnect farewell) hub
      ≡ (h', Outcome.going))
    × (h'.sent ≡ (7, 1 ∷ 6 ∷ five) ∷ [])
    × ((d : DataMessage)
        → d.channel_id ≡ five
        → connector_message wire 9 a (Message.payload d) h' ≡ (h', Outcome.going))
    × (get (uuid_text five) hub.relay.message_queues ≡ none
        → (client_id : Uuid) (from_ws : ℕ) (d : DataMessage) → d.channel_id ≡ five
        → client_message wire (λ t. true) from_ws client_id (Message.payload d) h'
          ≡ (h', Outcome.going))
    × ((j : Uuid) → five ≢ j → ends j h'.cache ≡ ends j hub.cache)
unfolding get_client get
connector_message-parts_example =
    connector_message-parts wire (λ t. true) 9 a farewell hub 7 (1 ∷ 6 ∷ five) refl farewell_packs
      refl

-- The bytes of `more`.
abbrev more_bytes : Bytes
more_bytes = 1 ∷ 4 ∷ 1 ∷ (five ++ (0 ∷ 0 ∷ 0 ∷ 0 ∷ 0 ∷ []))

more_packs : pack_message runtime (Message.payload more) ≡ ok more_bytes
unfolding pack_message pack_body pack_data protocol_to_bytes pack_byte pack_u32
more_packs = refl

more_parses : parse_message runtime more_bytes ≡ ok (Message.payload more)
unfolding parse_message parse_payload parse_data unpack_u32 bytes_to_protocol decompressed
more_parses = refl

dead_target_ends_loop_example :
    dispatch broken (connector_message broken 9 a) (bytes more_bytes ∷ bytes more_bytes ∷ []) hub
    ≡ (hub, Outcome.connection_closed)
unfolding get_client get
dead_target_ends_loop_example =
    dead_target_ends_loop broken 9 7 a more more_bytes more_bytes (bytes more_bytes ∷ []) hub
      more_parses refl more_packs refl
