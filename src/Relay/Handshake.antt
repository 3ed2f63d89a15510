-- ===== src/Relay/Handshake.antt =====
-- `_refuse_socks_request` and `_handle_socks_request` of relay.py, up to the forwarding of a
-- connection that is established.
use pywssocks.Base.{
  list_eq, nat_eq, ℕ, Bool, true, false, not, ◌&&◌, ◌||◌, Option, none, some, [], ◌∷◌, ◌++◌,
  if◌then◌else◌, ltb, ◌==◌, length, Result, ok, err, value_error, struct_error, os_error, or_raise,
}
use pywssocks.Base.Sets.{elem, discard}
use pywssocks.Text.{Str, Bytes}
use pywssocks.Message.Types.{Message, Uuid, Runtime, tcp, udp}
use pywssocks.Message.Pack.{pack_message, pack_u16, truthy, text_or_empty}
use pywssocks.Message.Parse.{decoded, index, unpack_u16}
use pywssocks.Relay.Inet.{Inet}
use pywssocks.Relay.Session.{
  Session, End, Act, ◌>>=◌, ◌>>◌, pure, return_early, attempt, recv, sendall, send,
}

-- A reply without an address, and its code.
abbrev pub reply : ℕ → Bytes
reply code = 0x05 ∷ code ∷ 0x00 ∷ 0x01 ∷ 0x00 ∷ 0x00 ∷ 0x00 ∷ 0x00 ∷ 0x00 ∷ 0x00 ∷ []

-- `not data or data[0] != 0x05`
abbrev pub is_not_socks5 : Bytes → Bool
is_not_socks5 [] = true
is_not_socks5 (version ∷ rest) = not (version == 0x05)

unfoldable pub refuse_socks_request : ℕ → Act (Unit {0})
refuse_socks_request reason = do
  greeting ← recv 1024
  if is_not_socks5 greeting then return_early else do
    sendall (0x05 ∷ 0x00 ∷ [])
    request ← recv 1024
    if ltb (length request) 7 then return_early else sendall (reply reason)

-- `struct.unpack("!BB", b)`
abbrev pub unpack_two : Bytes → Result (ℕ × ℕ)
unpack_two (a ∷ b ∷ []) = ok (a, b)
unpack_two _ = err struct_error

-- `struct.unpack("!BBBB", b)`, less the third byte.
abbrev pub unpack_four : Bytes → Result (ℕ × ℕ × ℕ)
unpack_four (a ∷ b ∷ c ∷ d ∷ []) = ok (a, b, d)
unpack_four _ = err struct_error

-- `(await loop.sock_recv(socks_socket, 1))[0]`
abbrev pub recv_byte : Act ℕ
recv_byte = do b ← recv 1; attempt (index b 0)

-- A text behind its length byte.
abbrev pub recv_text : Act Str
recv_text = do n ← recv_byte; b ← recv n; attempt (decoded b)

-- `username != socks_username or password != socks_password`
abbrev pub is_wrong : Option Str → Option Str → Str → Str → Bool
is_wrong socks_username socks_password username password =
    not (username == text_or_empty socks_username) || not (password == text_or_empty socks_password)

-- The subnegotiation, where a username and a password are set.
unfoldable pub check_password : Option Str → Option Str → Act (Unit {0})
unfolding recv
check_password socks_username socks_password = do
  auth_version ← recv_byte
  if not (auth_version == 0x01) then return_early else do
    username ← recv_text
    password ← recv_text
    if is_wrong socks_username socks_password username password
        then (do sendall (0x01 ∷ 0x01 ∷ []); return_early)
        else sendall (0x01 ∷ 0x00 ∷ [])

-- The answer to the methods that the client offers, and what it leads to.
unfoldable pub choose_method : Option Str → Option Str → Bytes → Act (Unit {0})
unfolding check_password
choose_method socks_username socks_password methods =
    if truthy socks_username && truthy socks_password
    then (if not (elem 0x02 methods)
        then (do sendall (0x05 ∷ 0xff ∷ []); return_early)
        else (do sendall (0x05 ∷ 0x02 ∷ []); check_password socks_username socks_password))
    else sendall (0x05 ∷ 0x00 ∷ [])

-- "Authentication negotiation"
unfoldable pub authenticate : Option Str → Option Str → Act (Unit {0})
unfolding choose_method
authenticate socks_username socks_password = do
  greeting ← recv 2
  versions ← attempt (unpack_two greeting)
  methods ← recv versions.1
  choose_method socks_username socks_password methods

-- "Parse target address"; the socket is closed at the end of the handler in any case.
unfoldable pub recv_address : Inet → ℕ → Act Str
unfolding recv
recv_address inet atyp =
    if atyp == 0x01
    then (do addr_bytes ← recv 4; attempt (or_raise (inet.ntoa addr_bytes) os_error))
    else if atyp == 0x03
    then recv_text
    else if atyp == 0x04
    then (do addr_bytes ← recv 16; attempt (or_raise (inet.ntop6 addr_bytes) os_error))
    else return_early

unfoldable pub recv_port : Act ℕ
recv_port = do port_bytes ← recv 2; attempt (unpack_u16 port_bytes)

-- The queue for the answer.
unfoldable pub add_queue : Uuid → Act (Unit {0})
add_queue connect_id s = (record s { queues = connect_id ∷ s.queues }, End.done tt)

abbrev pub connect_request : Str → Uuid → Option Str → Option ℕ → Message
connect_request protocol channel_id address port =
    Message.connect
      (record { protocol = protocol; channel_id = channel_id; address = address; port = port })

-- The request for the other side.
unfoldable pub recv_request : Inet → Uuid → Act Message
unfolding recv recv_address recv_port
recv_request inet connect_id = do
  header ← recv 4
  request ← attempt (unpack_four header)
  if request.1 == 0x01
      then (do
        add_queue connect_id
        target_addr ← recv_address inet request.2
        target_port ← recv_port
        pure (connect_request tcp connect_id (some target_addr) (some target_port)))
      else if request.1 == 0x03
      then (do add_queue connect_id; pure (connect_request udp connect_id none none))
      else return_early

abbrev pub is_tcp : Message → Bool
is_tcp (Message.connect m) = m.protocol == tcp
is_tcp _ = false

-- What the handler does with the message in the queue, or none after ten seconds. The channel is
-- handed to the forwarding; `bound_port` is the port of the UDP socket.
unfoldable pub answer_client : Bool → ℕ → Option Message → Act Uuid
unfolding sendall
answer_client tcp_request bound_port (some (Message.connect_response response)) =
    if not response.success
    then (do sendall (reply 0x04); return_early)
    else if tcp_request
    then (do sendall (reply 0x00); pure response.channel_id)
    else (do
      bind_port_bytes ← attempt (pack_u16 bound_port)
      sendall (0x05 ∷ 0x00 ∷ 0x00 ∷ 0x01 ∷ 127 ∷ 0 ∷ 0 ∷ 1 ∷ bind_port_bytes)
      pure response.channel_id)
answer_client tcp_request bound_port (some _) =
    attempt (err (value_error "Unexpected response message type"))
answer_client tcp_request bound_port none = do sendall (reply 0x04); return_early

-- The body of the `try`.
unfoldable pub serve_client :
    Runtime → Inet → Option Str → Option Str → Uuid → ℕ → Option Message → Act Uuid
unfolding authenticate recv_request answer_client
serve_client runtime inet socks_username socks_password connect_id bound_port answer = do
  authenticate socks_username socks_password
  request ← recv_request inet connect_id
  packed ← attempt (pack_message runtime request)
  send packed
  answer_client (is_tcp request) bound_port answer

-- The `except`: a general failure for the client.
abbrev pub on_exception : Session × End Uuid → Session × End Uuid
on_exception (s, End.raised e) = (record s { sent = s.sent ++ reply 0x01 }, End.raised e)
on_exception (s, End.done channel_id) = (s, End.done channel_id)
on_exception (s, End.returned) = (s, End.returned)

-- The `finally`.
abbrev pub clean_up : Uuid → Session × End Uuid → Session × End Uuid
clean_up connect_id (s, end) =
    (record s { closed = true; queues = discard connect_id s.queues }, end)

unfoldable pub handle_socks_request :
    Runtime → Inet → Option Str → Option Str → Uuid → ℕ → Option Message → Act Uuid
unfolding serve_client
handle_socks_request runtime inet socks_username socks_password connect_id bound_port answer s =
    clean_up connect_id (
      on_exception
        (serve_client runtime inet socks_username socks_password connect_id bound_port answer s))
