-- ===== src/Relay/Echo.antt =====
-- The two directions of the SOCKS UDP header fit together.
use pywssocks.Base.{
  list_eq, nat_eq, ℕ, ◌+◌, ◌/◌, ◌%◌, ◌<◌, ◌≡◌, refl, ap, [], ◌∷◌, ◌++◌, Option, none, some, arith,
  eq_refl, lt→ltb, length, take, drop, ok, err, os_error, drop-append,
}
use pywssocks.Base.Dict.{get-insert}
use pywssocks.Text.{Str, Bytes}
use pywssocks.Message.Types.{DataMessage, Message, Uuid}
use pywssocks.Message.Pack.{pack_byte}
use pywssocks.Message.Parse.{index, slice}
use pywssocks.Message.Canonical.{IsText}
use pywssocks.Message.Fields.{encode_ascii, decoded-IsText, slice_field}
use pywssocks.Relay.Inet.{Inet, IsInet}
use pywssocks.Relay.Udp.{
  from_bytes, data_message, datagram_to_message, to_bytes, header_and_data, message_to_datagram,
  Addrs, socks_udp_to_websocket, websocket_to_socks_udp,
}

abbrev pub two : ℕ → Bytes
two n = (n / 256) ∷ (n % 256) ∷ []

pub from_bytes-two : (n : ℕ) → from_bytes (two n) ≡ n
from_bytes-two n = omega arith

pub to_bytes_lem : (n : ℕ) → n < 65536 → to_bytes n ≡ ok (two n)
unfolding to_bytes
to_bytes_lem n h = rw (lt→ltb _ _ h)

-- An address that the header can carry: the dotted text of four bytes, or an ASCII name of fewer
-- than 256 characters that does not stand for an IPv4 address.
pub data IsSource (inet : Inet) (s : Str) : Type 0 where
  ipv4 : (b : Bytes) → length b ≡ 4 → inet.ntoa b ≡ some s → inet.aton s ≡ some b → IsSource inet s
  domain : inet.aton s ≡ none → IsText s → IsSource inet s

module _ (inet : Inet) (channel_id : Uuid) (s : Str) (port : ℕ) (payload : Bytes) where
  ReturnsTo : Type 0
  ReturnsTo =
      (d : Bytes) × (header_and_data inet s port payload ≡ ok d)
      × (datagram_to_message inet channel_id d ≡ ok (some (data_message channel_id s port payload)))

  ipv4_returns :
      (b : Bytes)
      → length b ≡ 4
      → inet.ntoa b ≡ some s
      → inet.aton s ≡ some b
      → port < 65536
      → ReturnsTo
  unfolding ReturnsTo header_and_data datagram_to_message
  ipv4_returns (b0 ∷ b1 ∷ b2 ∷ b3 ∷ []) h n a small = (
    0 ∷ 0 ∷ 0 ∷ 1 ∷ b0 ∷ b1 ∷ b2 ∷ b3 ∷ (two port ++ payload),
    rw (a, to_bytes_lem port small) refl,
    rw
        (
          lt→ltb 3 (length (0 ∷ 0 ∷ 0 ∷ 1 ∷ b0 ∷ b1 ∷ b2 ∷ b3 ∷ (two port ++ payload)))
              (omega arith),
          n,
        )
        (ap (λ p. ok (some (data_message channel_id s p payload))) (from_bytes-two port)),
  )
  ipv4_returns [] h n a small = absurd (omega arith)
  ipv4_returns (b0 ∷ []) h n a small = absurd (omega arith)
  ipv4_returns (b0 ∷ b1 ∷ []) h n a small = absurd (omega arith)
  ipv4_returns (b0 ∷ b1 ∷ b2 ∷ []) h n a small = absurd (omega arith)
  ipv4_returns (b0 ∷ b1 ∷ b2 ∷ b3 ∷ b4 ∷ b) h n a small = absurd (omega arith)

  domain_packs :
      inet.aton s ≡ none
      → IsText s
      → port < 65536
      → header_and_data inet s port payload
        ≡ ok (0 ∷ 0 ∷ 0 ∷ 3 ∷ length s ∷ (s ++ (two port ++ payload)))
  unfolding header_and_data pack_byte
  domain_packs a t small =
      rw (a, encode_ascii s t.ascii, lt→ltb _ _ t.fits, to_bytes_lem port small) refl

  fields_read :
      (p : Bytes)
      → 3 < length p
      → index p 3 ≡ ok 3
      → index p 4 ≡ ok (length s)
      → slice p 5 (5 + length s) ≡ s
      → slice p (5 + length s) (7 + length s) ≡ two port
      → drop (7 + length s) p ≡ payload
      → IsText s
      → datagram_to_message inet channel_id p ≡ ok (some (data_message channel_id s port payload))
  unfolding datagram_to_message
  fields_read p long kind size name number rest t =
      rw (lt→ltb _ _ long, kind, size, name, decoded-IsText s t, number, rest)
        (ap (λ n. ok (some (data_message channel_id s n payload))) (from_bytes-two port))

  domain_reads :
      IsText s
      → datagram_to_message inet channel_id
          (0 ∷ 0 ∷ 0 ∷ 3 ∷ length s ∷ (s ++ (two port ++ payload)))
        ≡ ok (some (data_message channel_id s port payload))
  domain_reads t =
      let pre = 0 ∷ 0 ∷ 0 ∷ 3 ∷ length s ∷ [] in
      fields_read (0 ∷ 0 ∷ 0 ∷ 3 ∷ length s ∷ (s ++ (two port ++ payload))) (omega arith) refl refl
        (slice_field pre s (two port ++ payload) 5 (5 + length s) refl refl)
        (slice_field (pre ++ s) (two port) payload (5 + length s) (7 + length s) (omega arith)
          (omega arith))
        (drop-append (7 + length s) 2 (pre ++ s) (two port ++ payload) (omega arith)) t

  header-reads_back : IsSource inet s → port < 65536 → ReturnsTo
  header-reads_back (ipv4 b h n a) small = ipv4_returns b h n a small
  header-reads_back (domain a t) small =
      unfold ReturnsTo in (_, domain_packs a t small, domain_reads t)

-- A message of a UDP channel that comes from an address and a port.
abbrev pub datagram_from : Uuid → Str → ℕ → Bytes → DataMessage
datagram_from channel_id s port payload = record (data_message channel_id s port payload) {
  address = some s;
  port = some port;
  target_addr = none;
  target_port = none;
}

-- After any datagram of a SOCKS client that is read without an exception, a message of the channel from an address and a port is sent
-- to the place that the datagram came from, as a datagram that `_socks_udp_to_websocket` would read
-- as one to that address and port, with the same payload. The address is the dotted text of four
-- bytes, or an ASCII name of fewer than 256 characters that is no IPv4 address; the port is below
-- 65536.
pub reply-reaches_sender :
    (inet : Inet) (channel_id : Uuid) (s : Str) (port : ℕ) (payload packet : Bytes) (addr : Str × ℕ)
    (addrs : Addrs) (o : Option DataMessage)
    → (socks_udp_to_websocket inet channel_id packet addr addrs).1 ≡ ok o
    → IsSource inet s
    → port < 65536
    → (d : Bytes) × (websocket_to_socks_udp inet channel_id
          (Message.payload (datagram_from channel_id s port payload))
          (socks_udp_to_websocket inet channel_id packet addr addrs).0
        ≡ ok (some (d, addr)))
      × (datagram_to_message inet channel_id d ≡ ok (some (data_message channel_id s port payload)))
unfolding ReturnsTo socks_udp_to_websocket websocket_to_socks_udp message_to_datagram
reply-reaches_sender inet channel_id s port payload packet addr addrs o read source small =
    let (d, packs, reads) = header-reads_back inet channel_id s port payload source small in
    (d, rw (packs, get-insert channel_id channel_id addr addrs, eq_refl channel_id) refl, reads)

-- A datagram that is too short for the IPv4 address it announces is not ignored: inet_ntoa raises,
-- and the forwarding of the channel ends. This holds for 4 to 7 bytes.
pub short_ipv4_datagram_raises :
    (inet : Inet) (channel_id : Uuid) (r0 r1 r2 : ℕ) (rest : Bytes)
    → IsInet inet
    → length rest < 4
    → datagram_to_message inet channel_id (r0 ∷ r1 ∷ r2 ∷ 0x01 ∷ rest) ≡ err os_error
unfolding datagram_to_message
short_ipv4_datagram_raises inet channel_id r0 r1 r2 rest i short =
    rw
      (
        lt→ltb 3 (length (r0 ∷ r1 ∷ r2 ∷ 0x01 ∷ rest)) (omega arith),
        i.only_four (take 4 rest) (λ e. absurd (omega (arith, short_take rest short))),
      )
      refl
  where
    short_take : (xs : Bytes) → length xs < 4 → length (take 4 xs) < 4
    short_take [] h = h
    short_take (a ∷ []) h = h
    short_take (a ∷ b ∷ []) h = h
    short_take (a ∷ b ∷ c ∷ []) h = h
    short_take (a ∷ b ∷ c ∷ d ∷ xs) h = absurd (omega arith)
