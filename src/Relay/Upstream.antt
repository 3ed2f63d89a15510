-- ===== src/Relay/Upstream.antt =====
-- `_connect_via_socks5` of relay.py, from where the connection to the upstream proxy stands. The
-- session's client is the proxy here.
use pywssocks.Base.{
  String, list_eq, nat_eq, ℕ, ◌+◌, Bool, true, false, not, ◌&&◌, ◌||◌, Option, none, some, [], ◌∷◌,
  ◌++◌, if◌then◌else◌, ltb, ◌==◌, length, Result, ok, err, failure, unicode_encode_error, or_raise,
}
use pywssocks.Text.{Str, Bytes, encode}
use pywssocks.Message.Pack.{pack_byte, pack_text, truthy, text_or_empty}
use pywssocks.Message.Parse.{index}
use pywssocks.Relay.Inet.{Inet}
use pywssocks.Relay.Udp.{to_bytes}
use pywssocks.Relay.Session.{Session, End, Act, ◌>>=◌, ◌>>◌, pure, attempt, recv, sendall}
use pywssocks.Relay.Handshake.{recv_byte}

abbrev pub fail {ℓ} : {A : Type ℓ} → String → Act A
fail text = attempt (err (failure text))

-- `if test: raise Exception(text)`
abbrev pub fail_if : Bool → String → Act (Unit {0})
fail_if true text = fail text
fail_if false text = pure tt

-- `b[i]` in a step.
abbrev pub byte_at : Bytes → ℕ → Act ℕ
byte_at b i = attempt (index b i)

-- The username and the password, each behind its number of characters.
unfoldable pub send_login : Option Str → Option Str → Act (Unit {0})
send_login username password = do
  name ← attempt (pack_text (text_or_empty username))
  word ← attempt (pack_text (text_or_empty password))
  sendall (0x01 ∷ (name ++ word))

-- "Handle authentication if required"
unfoldable pub log_in : Option Str → Option Str → Act (Unit {0})
unfolding send_login
log_in username password = do
  fail_if (not (truthy username) || not (truthy password))
      "Proxy requires authentication but no credentials provided"
  send_login username password
  auth_response ← recv 2
  fail_if (ltb (length auth_response) 2) "Auth response too short"
  version ← byte_at auth_response 0
  status ← byte_at auth_response 1
  fail_if (not (version == 0x01) || not (status == 0x00)) "Authentication failed"

unfoldable pub follow_method : Option Str → Option Str → ℕ → Act (Unit {0})
unfolding log_in
follow_method username password method =
    if method == 0x02
    then log_in username password
    else fail_if (not (method == 0x00)) "Unsupported auth method"

-- The method that is offered: 2 with credentials, else 0.
abbrev pub offer : Option Str → Option Str → Bytes
offer username password =
    if truthy username && truthy password then 0x05 ∷ 0x01 ∷ 0x02 ∷ [] else 0x05 ∷ 0x01 ∷ 0x00 ∷ []

-- "Initial handshake"
unfoldable pub greet : Option Str → Option Str → Act (Unit {0})
unfolding follow_method
greet username password = do
  sendall (offer username password)
  response ← recv 2
  fail_if (ltb (length response) 2) "Handshake response too short"
  version ← byte_at response 0
  fail_if (not (version == 0x05)) "Invalid SOCKS version"
  method ← byte_at response 1
  follow_method username password method

-- "Add address", with its type: IPv4, IPv6, or else a domain name.
abbrev pub target_field : Str → Option Bytes → Option Bytes → Result Bytes
target_field target_addr (some addr_bytes) _ = ok (0x01 ∷ addr_bytes)
target_field target_addr none (some addr_bytes) = ok (0x04 ∷ addr_bytes)
target_field target_addr none none =
    domain_field (or_raise (encode target_addr) unicode_encode_error)
  where
    counted : Bytes → Result Bytes → Result Bytes
    counted domain_bytes (ok n) = ok (0x03 ∷ (n ++ domain_bytes))
    counted domain_bytes (err e) = err e

    domain_field : Result Bytes → Result Bytes
    domain_field (ok domain_bytes) = counted domain_bytes (pack_byte (length domain_bytes))
    domain_field (err e) = err e

-- "Send connect request"
unfoldable pub request_target : Inet → Str → ℕ → Act (Unit {0})
request_target inet target_addr target_port = do
  field ← attempt (target_field target_addr (inet.aton target_addr) (inet.pton6 target_addr))
  port ← attempt (to_bytes target_port)
  sendall (0x05 ∷ 0x01 ∷ 0x00 ∷ (field ++ port))

-- "Skip the rest of the response (bound address and port)"
unfoldable pub skip_bound : ℕ → Act (Unit {0})
skip_bound atyp =
    if atyp == 0x01
    then (do b ← recv 6; pure tt)
    else if atyp == 0x03
    then (do domain_len ← recv_byte; b ← recv (domain_len + 2); pure tt)
    else if atyp == 0x04
    then (do b ← recv 18; pure tt)
    else pure tt

unfoldable pub await_reply : Act (Unit {0})
unfolding skip_bound
await_reply = do
  response ← recv 4
  fail_if (ltb (length response) 4) "Connect response too short"
  version ← byte_at response 0
  fail_if (not (version == 0x05)) "Invalid SOCKS version"
  status ← byte_at response 1
  fail_if (not (status == 0x00)) "Connection failed"
  atyp ← byte_at response 3
  skip_bound atyp

-- The `except`: the socket is closed, and the failure is raised under another text.
abbrev pub close_on_exception : Session × End (Unit {0}) → Session × End (Unit {0})
close_on_exception (s, End.raised e) =
    (record s { closed = true }, End.raised (failure "SOCKS5 connection failed"))
close_on_exception (s, End.done u) = (s, End.done u)
close_on_exception (s, End.returned) = (s, End.returned)

unfoldable pub connect_via_socks5 : Inet → Option Str → Option Str → Str → ℕ → Act (Unit {0})
unfolding greet request_target await_reply
connect_via_socks5 inet username password target_addr target_port s =
    close_on_exception
      ((do greet username password; request_target inet target_addr target_port; await_reply) s)
