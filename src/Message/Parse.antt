-- ===== src/Message/Parse.antt =====
-- `parse_message` of message.py, one function for each branch.
use pywssocks.Base.{
  String, list_eq, nat_eq, ℕ, ◌+◌, ◌-◌, ◌*◌, Bool, not, ◌&&◌, [], ◌∷◌, none, some, if◌then◌else◌,
  ltb, ◌==◌, length, take, drop, get_elem?, Result, ok, err, value_error, value_error_of,
  struct_error, index_error, attribute_error, unicode_decode_error, gzip_error, json_error, ◌>>=◌,
  ◌>>◌, or_raise, raise_if,
}
use pywssocks.Text.{Str, Bytes, codes, decode}
use pywssocks.Message.Types.{
  BinaryType, type_code, protocol_version, protocol_tcp, protocol_udp, operation_add,
  operation_remove, compression_gzip, tcp, udp, add_operation, remove_operation, Json, json_get,
  Message, Runtime,
}

-- `b[i]`
abbrev pub index : Bytes → ℕ → Result ℕ
index b i = or_raise (get_elem? b i) index_error

-- `b[i:j]`, for i ≤ j
abbrev pub slice : Bytes → ℕ → ℕ → Bytes
slice b i j = take (j - i) (drop i b)

-- `b.decode()`
abbrev pub decoded : Bytes → Result Str
decoded b = or_raise (decode b) unicode_decode_error

-- `bool(n)`
abbrev pub bool_of : ℕ → Bool
bool_of n = not (n == 0)

-- `struct.unpack(">H", b)[0]`
unfoldable pub unpack_u16 : Bytes → Result ℕ
unpack_u16 (a ∷ b ∷ []) = ok (a * 256 + b)
unpack_u16 _ = err struct_error

-- `struct.unpack(">I", b)[0]`
unfoldable pub unpack_u32 : Bytes → Result ℕ
unpack_u32 (a ∷ b ∷ c ∷ d ∷ []) = ok (a * 16777216 + b * 65536 + c * 256 + d)
unpack_u32 _ = err struct_error

unfoldable pub bytes_to_protocol : ℕ → Str
bytes_to_protocol b = if b == protocol_tcp then tcp else if b == protocol_udp then udp else []

unfoldable pub bytes_to_operation : ℕ → Str
bytes_to_operation b =
    if b == operation_add
    then add_operation
    else if b == operation_remove
    then remove_operation
    else []

unfoldable pub parse_auth : Bytes → Result Message
parse_auth payload = do
  raise_if (ltb (length payload) 1) (value_error "Invalid auth message")
  token_len ← index payload 0
  raise_if (ltb (length payload) (1 + token_len + 1 + 16))
      (value_error "Invalid auth message length")
  token ← decoded (slice payload 1 (1 + token_len))
  reverse ← index payload (1 + token_len)
  ok (
      Message.auth (record {
        token = token;
        reverse = bool_of reverse;
        instance_id = slice payload (1 + token_len + 1) (1 + token_len + 1 + 16);
      }))

-- A length byte at `at` and the text behind it, with the message of the branch for a short one.
unfoldable pub parse_text : Bytes → ℕ → String → Result Str
parse_text payload at message = do
  n ← index payload at
  raise_if (ltb (length payload) (at + 1 + n)) (value_error message)
  decoded (slice payload (at + 1) (at + 1 + n))

unfoldable pub parse_auth_response : Bytes → Result Message
parse_auth_response payload = do
  raise_if (ltb (length payload) 1) (value_error "Invalid auth response message")
  flag ← index payload 0
  error ←
      if not (bool_of flag) && ltb 1 (length payload)
      then (do s ← parse_text payload 1 "Invalid auth response error length"; ok (some s))
      else ok none
  ok (Message.auth_response (record { success = bool_of flag; error = error }))

-- The address and port behind the channel of a tcp request.
unfoldable pub parse_target : Bytes → Result (Str × ℕ)
parse_target payload = do
  raise_if (ltb (length payload) 1) (value_error "Invalid tcp connect message")
  addr_len ← index payload 0
  raise_if (ltb (length payload) (1 + addr_len + 2))
      (value_error "Invalid tcp connect message length")
  address ← decoded (slice payload 1 (1 + addr_len))
  port ← unpack_u16 (slice payload (1 + addr_len) (1 + addr_len + 2))
  ok (address, port)

unfoldable pub parse_connect : Bytes → Result Message
parse_connect payload = do
  raise_if (ltb (length payload) 17) (value_error "Invalid connect message")
  b ← index payload 0
  let protocol = bytes_to_protocol b
  let channel_id = slice payload 1 17
  if protocol == tcp
      then (do
        (address, port) ← parse_target (drop 17 payload)
        ok (
            Message.connect (record {
              protocol = protocol;
              channel_id = channel_id;
              address = some address;
              port = some port;
            })))
      else ok (
          Message.connect
            (record { protocol = protocol; channel_id = channel_id; address = none; port = none }))

unfoldable pub parse_connect_response : Bytes → Result Message
parse_connect_response payload = do
  raise_if (ltb (length payload) 17) (value_error "Invalid connect response message")
  flag ← index payload 0
  let channel_id = slice payload 1 17
  error ← if bool_of flag then ok none else (do
    raise_if (ltb (length payload) 18) (value_error "Invalid connect response error length")
    s ← parse_text payload 17 "Invalid connect response message length"
    ok (some s))
  ok (
      Message.connect_response
        (record { success = bool_of flag; channel_id = channel_id; error = error }))

-- The two addresses and ports behind the data of a udp message.
unfoldable pub parse_endpoints : Bytes → Result (Str × ℕ × Str × ℕ)
parse_endpoints payload = do
  raise_if (ltb (length payload) 1) (value_error "Invalid udp data message")
  addr_len ← index payload 0
  raise_if (ltb (length payload) (1 + addr_len + 2 + 1))
      (value_error "Invalid udp data message length")
  address ← decoded (slice payload 1 (1 + addr_len))
  port ← unpack_u16 (slice payload (1 + addr_len) (1 + addr_len + 2))
  let rest = drop (1 + addr_len + 2) payload
  target_addr_len ← index rest 0
  raise_if (ltb (length rest) (1 + target_addr_len + 2))
      (value_error "Invalid udp data message target address")
  target_addr ← decoded (slice rest 1 (1 + target_addr_len))
  target_port ← unpack_u16 (slice rest (1 + target_addr_len) (1 + target_addr_len + 2))
  ok (address, port, target_addr, target_port)

unfoldable pub decompressed : Runtime → ℕ → Bytes → Result Bytes
decompressed r compression raw =
    if compression == compression_gzip then or_raise (r.decompress raw) gzip_error else ok raw

unfoldable pub parse_data : Runtime → Bytes → Result Message
parse_data r payload = do
  raise_if (ltb (length payload) 22) (value_error "Invalid data message")
  b ← index payload 0
  let protocol = bytes_to_protocol b
  let channel_id = slice payload 1 17
  compression ← index payload 17
  data_len ← unpack_u32 (slice payload 18 22)
  raise_if (ltb (length payload) (22 + data_len)) (value_error "Invalid data message length")
  content ← decompressed r compression (slice payload 22 (22 + data_len))
  if protocol == udp
      then (do
        (address, port, target_addr, target_port) ← parse_endpoints (drop (22 + data_len) payload)
        ok (
            Message.payload (record {
              protocol = protocol;
              channel_id = channel_id;
              content = content;
              compression = compression;
              address = some address;
              port = some port;
              target_addr = some target_addr;
              target_port = some target_port;
            })))
      else ok (
          Message.payload (record {
            protocol = protocol;
            channel_id = channel_id;
            content = content;
            compression = compression;
            address = none;
            port = none;
            target_addr = none;
            target_port = none;
          }))

unfoldable pub parse_disconnect : Bytes → Result Message
parse_disconnect payload = do
  raise_if (ltb (length payload) 16) (value_error "Invalid disconnect message")
  error ←
      if ltb 16 (length payload)
      then (do
        err_len ← index payload 16
        raise_if (ltb (length payload) (17 + err_len))
            (value_error "Invalid disconnect message error length")
        if ltb 0 err_len
            then (do s ← decoded (slice payload 17 (17 + err_len)); ok (some s))
            else ok none)
      else ok none
  ok (Message.disconnect (record { channel_id = take 16 payload; error = error }))

unfoldable pub parse_connector : Bytes → Result Message
parse_connector whole = do
  raise_if (ltb (length whole) 16) (value_error "Invalid connector message")
  let channel_id = take 16 whole
  let payload = drop 16 whole
  raise_if (ltb (length payload) 1) (value_error "Invalid connector message length")
  token_len ← index payload 0
  raise_if (ltb (length payload) (1 + token_len + 1))
      (value_error "Invalid connector message length")
  token ← decoded (slice payload 1 (1 + token_len))
  b ← index payload (1 + token_len)
  let operation = bytes_to_operation b
  raise_if (operation == []) (value_error "Invalid operation type")
  ok (
      Message.connector
        (record { channel_id = channel_id; connector_token = token; operation = operation }))

unfoldable pub parse_connector_response : Bytes → Result Message
parse_connector_response payload = do
  raise_if (ltb (length payload) 17) (value_error "Invalid connector response message")
  let channel_id = take 16 payload
  flag ← index payload 16
  (error, connector_token) ←
      if not (bool_of flag)
      then (do
        raise_if (ltb (length payload) 18) (value_error "Invalid connector response error length")
        s ← parse_text payload 17 "Invalid connector response message length"
        ok (some s, none))
      else if ltb 17 (length payload)
      then (do
        s ← parse_text payload 17 "Invalid connector response token length"
        ok (none, some s))
      else ok (none, none)
  ok (
      Message.connector_response (record {
        success = bool_of flag;
        channel_id = channel_id;
        error = error;
        connector_token = connector_token;
      }))

-- The JSON value behind its size.
unfoldable pub parse_json : Runtime → Bytes → String → String → Result Json
parse_json r payload short_message length_message = do
  raise_if (ltb (length payload) 4) (value_error short_message)
  data_len ← unpack_u32 (take 4 payload)
  raise_if (ltb (length payload) (4 + data_len)) (value_error length_message)
  text ← decoded (slice payload 4 (4 + data_len))
  or_raise (r.loads text) json_error

unfoldable pub parse_log : Runtime → Bytes → Result Message
parse_log r payload = do
  parsed ← parse_json r payload "Invalid log message" "Invalid log message length"
  level ← or_raise (json_get (codes "level") parsed (Json.str [])) attribute_error
  msg ← or_raise (json_get (codes "msg") parsed (Json.str [])) attribute_error
  ok (Message.log (record { level = level; msg = msg }))

unfoldable pub parse_partners : Runtime → Bytes → Result Message
parse_partners r payload = do
  parsed ← parse_json r payload "Invalid partners message" "Invalid partners message length"
  count ← or_raise (json_get (codes "count") parsed (Json.int 0)) attribute_error
  ok (Message.partners (record { count = count }))

-- The branch that a message type takes.
unfoldable pub parse_payload : Runtime → ℕ → Bytes → Result Message
parse_payload r msg_type payload =
    if msg_type == type_code BinaryType.auth
    then parse_auth payload
    else if msg_type == type_code BinaryType.auth_response
    then parse_auth_response payload
    else if msg_type == type_code BinaryType.connect
    then parse_connect payload
    else if msg_type == type_code BinaryType.connect_response
    then parse_connect_response payload
    else if msg_type == type_code BinaryType.payload
    then parse_data r payload
    else if msg_type == type_code BinaryType.disconnect
    then parse_disconnect payload
    else if msg_type == type_code BinaryType.connector
    then parse_connector payload
    else if msg_type == type_code BinaryType.connector_response
    then parse_connector_response payload
    else if msg_type == type_code BinaryType.log
    then parse_log r payload
    else if msg_type == type_code BinaryType.partners
    then parse_partners r payload
    else err (value_error_of "Unknown binary message type" msg_type)

unfoldable pub parse_message : Runtime → Bytes → Result Message
parse_message r b = do
  raise_if (ltb (length b) 2) (value_error "Message too short")
  version ← index b 0
  raise_if (not (version == protocol_version))
      (value_error_of "Unsupported protocol version" version)
  msg_type ← index b 1
  parse_payload r msg_type (drop 2 b)
