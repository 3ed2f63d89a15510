-- ===== src/Relay/Udp.antt =====
-- The headers of SOCKS5 UDP datagrams: `_socks_udp_to_websocket` and `_websocket_to_socks_udp`.
use pywssocks.Base.{
  list_eq, nat_eq, ℕ, ◌+◌, ◌*◌, ◌/◌, ◌%◌, [], ◌∷◌, ◌++◌, Option, none, some, if◌then◌else◌, ltb,
  ◌==◌, length, drop, Result, ok, err, os_error, overflow_error, unicode_encode_error, ◌>>=◌,
  or_raise,
}
use pywssocks.Text.{Str, Bytes, encode}
use pywssocks.Base.Dict.{Dict, get, insert}
use pywssocks.Message.Types.{DataMessage, Message, Uuid, udp, compression_gzip}
use pywssocks.Message.Pack.{pack_byte}
use pywssocks.Message.Parse.{index, slice, decoded}
use pywssocks.Relay.Inet.{Inet}

abbrev big_endian : ℕ → Bytes → ℕ
big_endian n [] = n
big_endian n (b ∷ bs) = big_endian (n * 256 + b) bs

-- `int.from_bytes(b, "big")`
abbrev pub from_bytes : Bytes → ℕ
from_bytes = big_endian 0

-- The message that carries a datagram to the other side.
abbrev pub data_message : Uuid → Str → ℕ → Bytes → DataMessage
data_message channel_id target_addr target_port payload = record {
  protocol = udp;
  channel_id = channel_id;
  content = payload;
  compression = compression_gzip;
  address = none;
  port = none;
  target_addr = some target_addr;
  target_port = some target_port;
}

abbrev pub ipv4_datagram : Inet → Uuid → Bytes → Result (Option DataMessage)
ipv4_datagram inet channel_id packet = do
  target_addr ← or_raise (inet.ntoa (slice packet 4 8)) os_error
  ok (some (data_message channel_id target_addr (from_bytes (slice packet 8 10)) (drop 10 packet)))

abbrev pub domain_datagram : Uuid → Bytes → Result (Option DataMessage)
domain_datagram channel_id packet = do
  addr_len ← index packet 4
  target_addr ← decoded (slice packet 5 (5 + addr_len))
  ok (
      some (
        data_message channel_id target_addr
          (from_bytes (slice packet (5 + addr_len) (7 + addr_len))) (drop (7 + addr_len) packet)))

abbrev pub by_type : Inet → Uuid → Bytes → ℕ → Result (Option DataMessage)
by_type inet channel_id packet atyp =
    if atyp == 0x01
    then ipv4_datagram inet channel_id packet
    else if atyp == 0x03
    then domain_datagram channel_id packet
    else ok none

-- One datagram of the SOCKS client: the message to send, or none where the datagram is skipped.
-- An exception ends the loop.
unfoldable pub datagram_to_message : Inet → Uuid → Bytes → Result (Option DataMessage)
datagram_to_message inet channel_id packet =
    if ltb 3 (length packet)
    then (do atyp ← index packet 3; by_type inet channel_id packet atyp)
    else ok none

-- `from_port.to_bytes(2, "big")`
unfoldable pub to_bytes : ℕ → Result Bytes
to_bytes n = if ltb n 65536 then ok ((n / 256) ∷ (n % 256) ∷ []) else err overflow_error

-- The type of the address and the address: four bytes, or else a domain name.
abbrev pub address_field : Str → Option Bytes → Result Bytes
address_field from_addr (some addr_bytes) = ok (0x01 ∷ addr_bytes)
address_field from_addr none = do
  domain_bytes ← or_raise (encode from_addr) unicode_encode_error
  n ← pack_byte (length domain_bytes)
  ok (0x03 ∷ n ++ domain_bytes)

unfoldable pub header_and_data : Inet → Str → ℕ → Bytes → Result Bytes
header_and_data inet from_addr from_port content = do
  address ← address_field from_addr (inet.aton from_addr)
  port ← to_bytes from_port
  ok (0 ∷ 0 ∷ 0 ∷ (address ++ (port ++ content)))

abbrev pub from_source : Inet → Option Str → Option ℕ → Bytes → Result (Option Bytes)
from_source inet (some from_addr) (some from_port) packet = do
  datagram ← header_and_data inet from_addr from_port packet
  ok (some datagram)
from_source inet none _ packet = ok none
from_source inet (some _) none packet = ok none

-- One message from the other side: the datagram for the SOCKS client, or none where the address is
-- missing. Whether the client's address is known comes after it.
unfoldable pub message_to_datagram : Inet → DataMessage → Result (Option Bytes)
unfolding header_and_data
message_to_datagram inet msg = from_source inet msg.address msg.port msg.content

-- `self._udp_client_addrs`: the host and port that the SOCKS client of a channel last sent from.
abbrev pub Addrs : Type 0
Addrs = Dict Uuid (Str × ℕ)

-- One turn of the loop of `_socks_udp_to_websocket`, for a datagram from `addr`.
unfoldable pub socks_udp_to_websocket :
    Inet → Uuid → Bytes → Str × ℕ → Addrs → Addrs × Result (Option DataMessage)
unfolding datagram_to_message
socks_udp_to_websocket inet channel_id packet addr addrs =
    (insert channel_id addr addrs, datagram_to_message inet channel_id packet)

-- Where a datagram goes; it is dropped where the address is not known.
abbrev pub to_client : Option Bytes → Option (Str × ℕ) → Option (Bytes × (Str × ℕ))
to_client none _ = none
to_client (some packet) none = none
to_client (some packet) (some addr) = some (packet, addr)

-- One turn of the loop of `_websocket_to_socks_udp`: what is sent, and where.
unfoldable pub websocket_to_socks_udp :
    Inet → Uuid → Message → Addrs → Result (Option (Bytes × (Str × ℕ)))
unfolding message_to_datagram
websocket_to_socks_udp inet channel_id (Message.payload msg) addrs = do
  packet ← message_to_datagram inet msg
  ok (to_client packet (get channel_id addrs))
websocket_to_socks_udp inet channel_id _ addrs = ok none
