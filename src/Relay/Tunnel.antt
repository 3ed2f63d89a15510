-- ===== src/Relay/Tunnel.antt =====
-- A connection through an upstream SOCKS5 proxy, and the request for it as a SOCKS server reads it.
use pywssocks.Base.{
  list_eq, nat_eq, ℕ, ◌+◌, ◌*◌, ◌/◌, ◌%◌, ◌<◌, ◌≡◌, refl, ◌∙◌, ap, false, ◌&&◌, Option, none, some,
  [], ◌∷◌, ◌++◌, length, arith, lt→ltb,
}
use pywssocks.Text.{Str, Bytes}
use pywssocks.Message.Types.{Uuid, tcp}
use pywssocks.Message.Pack.{pack_byte, truthy}
use pywssocks.Message.Parse.{unpack_u16}
use pywssocks.Message.Canonical.{IsText}
use pywssocks.Message.Fields.{encode_ascii, decode_ascii}
use pywssocks.Relay.Inet.{Inet}
use pywssocks.Relay.Echo.{IsSource, ipv4, domain, two, to_bytes_lem}
use pywssocks.Relay.Session.{Session, End, push, recv, sendall}
use pywssocks.Relay.Handshake.{recv_request, recv_address, recv_port, add_queue, connect_request}
use pywssocks.Relay.Established.{requested}
use pywssocks.Relay.Upstream.{
  greet, follow_method, request_target, await_reply, skip_bound, connect_via_socks5,
}

two_value : (n : ℕ) → n / 256 * 256 + n % 256 ≡ n
two_value n = omega arith

module _ (inet : Inet) (target : Str) (port : ℕ) where
  domain_sent :
      (s : Session)
      → inet.aton target ≡ none
      → inet.pton6 target ≡ none
      → IsText target
      → port < 65536
      → request_target inet target port s ≡ (
        record s {
          sent = s.sent ++ (0x05 ∷ 0x01 ∷ 0x00 ∷ 0x03 ∷ length target ∷ (target ++ two port));
        },
        End.done tt,
      )
  unfolding request_target sendall pack_byte
  domain_sent s a b t small =
      rw (a, b, encode_ascii target t.ascii, lt→ltb _ _ t.fits, to_bytes_lem port small) refl

  -- The request that `_connect_via_socks5` sends for a target is one that `_handle_socks_request`
  -- reads, where it comes in one piece, as a connect message for this target and port: the target is
  -- the dotted text of four bytes, or an ASCII name of fewer than 256 characters that is no IP
  -- address, and the port is below 65536.
  pub request_target-recv_request :
      (connect_id : Uuid) (s : Session)
      → IsSource inet target
      → inet.pton6 target ≡ none
      → port < 65536
      → (b : Bytes) × (request_target inet target port s
          ≡ (record s { sent = s.sent ++ b }, End.done tt))
        × ((t : Session)
            → t.incoming ≡ b ∷ []
            → (recv_request inet connect_id t).1
              ≡ End.done (connect_request tcp connect_id (some target) (some port)))
  request_target-recv_request connect_id s (ipv4 (b0 ∷ b1 ∷ b2 ∷ b3 ∷ []) h n a) p small = (
    0x05 ∷ 0x01 ∷ 0x00 ∷ 0x01 ∷ b0 ∷ b1 ∷ b2 ∷ b3 ∷ two port,
    unfold request_target sendall in (rw (a, to_bytes_lem port small) refl),
    λ t given.
        unfold recv_request recv_address recv_port recv add_queue unpack_u16 in
        (rw (given, n)
          (ap (λ q. End.done (connect_request tcp connect_id (some target) (some q)))
            (two_value port))),
  )
  request_target-recv_request connect_id s (ipv4 [] h n a) p small = absurd (omega arith)
  request_target-recv_request connect_id s (ipv4 (b0 ∷ []) h n a) p small = absurd (omega arith)
  request_target-recv_request connect_id s (ipv4 (b0 ∷ b1 ∷ []) h n a) p small =
      absurd (omega arith)
  request_target-recv_request connect_id s (ipv4 (b0 ∷ b1 ∷ b2 ∷ []) h n a) p small =
      absurd (omega arith)
  request_target-recv_request connect_id s (ipv4 (b0 ∷ b1 ∷ b2 ∷ b3 ∷ b4 ∷ b) h n a) p small =
      absurd (omega arith)
  request_target-recv_request connect_id s (domain a t) p small = (
    0x05 ∷ 0x01 ∷ 0x00 ∷ 0x03 ∷ length target ∷ (target ++ two port),
    domain_sent s a p t small,
    λ u given.
        ap (λ r. r.1)
          (requested inet connect_id 0x05 0x00 (length target) (port / 256) (port % 256) target
            target [] u refl (decode_ascii target t.ascii) given)
        ∙ ap (λ q. End.done (connect_request tcp connect_id (some target) (some q)))
            (two_value port),
  )

  -- Where the proxy takes the method 0 and answers in the next piece with a success and an IPv4
  -- address, the connection to a domain name stands: the proxy was sent an offer of the method 0 and
  -- the request, and what the proxy sends behind its answer is left to be read.
  pub connect_via_socks5-connects :
      (username password : Option Str) (r b0 b1 b2 b3 b4 b5 : ℕ) (rest : Bytes) (s : Session)
      → truthy username && truthy password ≡ false
      → inet.aton target ≡ none
      → inet.pton6 target ≡ none
      → IsText target
      → port < 65536
      → s.incoming
        ≡ (0x05 ∷ 0x00 ∷ []) ∷ (0x05 ∷ 0x00 ∷ r ∷ 0x01 ∷ b0 ∷ b1 ∷ b2 ∷ b3 ∷ b4 ∷ b5 ∷ rest) ∷ []
      → connect_via_socks5 inet username password target port s ≡ (
        record s {
          incoming = push rest [];
          sent =
              (s.sent ++ (0x05 ∷ 0x01 ∷ 0x00 ∷ []))
              ++ (0x05 ∷ 0x01 ∷ 0x00 ∷ 0x03 ∷ length target ∷ (target ++ two port));
        },
        End.done tt,
      )
  unfolding connect_via_socks5 greet follow_method await_reply skip_bound recv sendall
  connect_via_socks5-connects username password r b0 b1 b2 b3 b4 b5 rest s unset a p t small given =
      rw
        (
          given,
          unset,
          domain_sent
              (record s {
                incoming = (0x05 ∷ 0x00 ∷ r ∷ 0x01 ∷ b0 ∷ b1 ∷ b2 ∷ b3 ∷ b4 ∷ b5 ∷ rest) ∷ [];
                sent = s.sent ++ (0x05 ∷ 0x01 ∷ 0x00 ∷ []);
              })
              a p t small,
        )
        refl
