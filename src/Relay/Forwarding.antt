-- ===== src/Relay/Forwarding.antt =====
-- The loops of relay.py that move data between a remote socket and the WebSocket. Each takes what
-- it reads, in order, up to where it stops.
use pywssocks.Base.{ℕ, Option, none, some, List, [], ◌∷◌, ◌++◌, Result, ok, err, Exception}
use pywssocks.Text.{Str, Bytes}
use pywssocks.Message.Types.{Uuid, Message, DataMessage, Runtime, tcp, udp}
use pywssocks.Message.Pack.{pack_message}

abbrev pub tcp_message : Uuid → Bytes → DataMessage
tcp_message channel_id content = record {
  protocol = tcp;
  channel_id = channel_id;
  content = content;
  compression = 0;
  address = none;
  port = none;
  target_addr = none;
  target_port = none;
}

abbrev pub udp_message : Uuid → Bytes → Str × ℕ → DataMessage
udp_message channel_id content (address, port) = record {
  protocol = udp;
  channel_id = channel_id;
  content = content;
  compression = 0;
  address = some address;
  port = some port;
  target_addr = none;
  target_port = none;
}

-- A message that goes out before the others, or that cannot be packed and ends the loop.
abbrev pub sent_before :
    Result Bytes → List Bytes × Option Exception → List Bytes × Option Exception
sent_before (ok b) (rest, raised) = (b ∷ rest, raised)
sent_before (err e) rest = ([], some e)

-- `_tcp_to_websocket`: what goes through the WebSocket for the pieces that `sock_recv` gives, and
-- what the loop raises. An empty piece is the end of the connection.
unfoldable pub tcp_to_websocket : Runtime → Uuid → List Bytes → List Bytes × Option Exception
tcp_to_websocket r channel_id [] = ([], none)
tcp_to_websocket r channel_id ([] ∷ pieces) = ([], none)
tcp_to_websocket r channel_id ((c ∷ piece) ∷ pieces) =
    sent_before (pack_message r (Message.payload (tcp_message channel_id (c ∷ piece))))
      (tcp_to_websocket r channel_id pieces)

-- `_websocket_to_tcp`: the bytes that are written for the messages of the queue.
unfoldable pub websocket_to_tcp : List Message → Bytes
websocket_to_tcp [] = []
websocket_to_tcp (Message.payload m ∷ messages) = m.content ++ websocket_to_tcp messages
websocket_to_tcp (_ ∷ messages) = websocket_to_tcp messages

-- `_udp_to_websocket`, for the datagrams with where they came from.
unfoldable pub udp_to_websocket :
    Runtime → Uuid → List (Bytes × (Str × ℕ)) → List Bytes × Option Exception
udp_to_websocket r channel_id [] = ([], none)
udp_to_websocket r channel_id ((content, source) ∷ datagrams) =
    sent_before (pack_message r (Message.payload (udp_message channel_id content source)))
      (udp_to_websocket r channel_id datagrams)

-- `_websocket_to_udp`: the datagrams that are sent, with where they go.
unfoldable pub websocket_to_udp : List Message → List (Bytes × (Option Str × Option ℕ))
websocket_to_udp [] = []
websocket_to_udp (Message.payload m ∷ messages) =
    (m.content, (m.target_addr, m.target_port)) ∷ websocket_to_udp messages
websocket_to_udp (_ ∷ messages) = websocket_to_udp messages
