-- ===== src/Message/Pack.antt =====
-- `pack_message` of message.py, one function for each branch.
use pywssocks.Base.{
  list_eq, nat_eq, ℕ, ◌/◌, ◌%◌, Bool, true, false, not, ◌&&◌, [], ◌∷◌, ◌++◌, Option, none, some,
  if◌then◌else◌, ltb, ◌==◌, length, Result, ok, err, value_error, struct_error,
  unicode_encode_error, ◌>>=◌, or_raise,
}
use pywssocks.Text.{Str, Bytes, codes, encode}
use pywssocks.Message.Types.{
  BinaryType, type_code, protocol_version, protocol_tcp, protocol_udp, operation_add,
  operation_remove, compression_gzip, tcp, udp, add_operation, remove_operation, Json, Fields,
  AuthMessage, AuthResponseMessage, ConnectMessage, ConnectResponseMessage, DataMessage,
  DisconnectMessage, ConnectorMessage, ConnectorResponseMessage, LogMessage, PartnersMessage,
  Message, Runtime,
}

-- `result.append(n)` of a bytearray.
unfoldable pub pack_byte : ℕ → Result Bytes
pack_byte n = if ltb n 256 then ok (n ∷ []) else err (value_error "byte must be in range(0, 256)")

-- `struct.pack(">H", n)`
unfoldable pub pack_u16 : ℕ → Result Bytes
pack_u16 n = if ltb n 65536 then ok ((n / 256) ∷ (n % 256) ∷ []) else err struct_error

-- `struct.pack(">I", n)`
unfoldable pub pack_u32 : ℕ → Result Bytes
pack_u32 n =
    if ltb n 4294967296
    then ok ((n / 16777216) ∷ (n / 65536 % 256) ∷ (n / 256 % 256) ∷ (n % 256) ∷ [])
    else err struct_error

-- A text behind one byte with `len` of the text, which counts characters.
unfoldable pub pack_text : Str → Result Bytes
pack_text s = do n ← pack_byte (length s); b ← or_raise (encode s) unicode_encode_error; ok (n ++ b)

abbrev pub bool_byte : Bool → ℕ
bool_byte true = 1
bool_byte false = 0

-- `if text:`
abbrev pub truthy : Option Str → Bool
truthy none = false
truthy (some []) = false
truthy (some (c ∷ s)) = true

abbrev pub text_or_empty : Option Str → Str
text_or_empty none = []
text_or_empty (some s) = s

abbrev pub number_or_zero : Option ℕ → ℕ
number_or_zero none = 0
number_or_zero (some n) = n

unfoldable pub protocol_to_bytes : Str → ℕ
protocol_to_bytes p = if p == tcp then protocol_tcp else if p == udp then protocol_udp else 0

unfoldable pub operation_to_bytes : Str → ℕ
operation_to_bytes o =
    if o == add_operation
    then operation_add
    else if o == remove_operation
    then operation_remove
    else 0

unfoldable pub pack_auth : AuthMessage → Result Bytes
pack_auth m = do
  token ← pack_text m.token
  ok (type_code BinaryType.auth ∷ (token ++ (bool_byte m.reverse ∷ m.instance_id)))

unfoldable pub pack_auth_response : AuthResponseMessage → Result Bytes
pack_auth_response m = do
  error ← if not m.success && truthy m.error then pack_text (text_or_empty m.error) else ok []
  ok (type_code BinaryType.auth_response ∷ bool_byte m.success ∷ error)

-- The address and port of a tcp request.
unfoldable pub pack_target : Option Str → Option ℕ → Result Bytes
pack_target none _ = err (value_error "TCP connect message requires address and port")
pack_target (some a) none = err (value_error "TCP connect message requires address and port")
pack_target (some a) (some p) = do address ← pack_text a; port ← pack_u16 p; ok (address ++ port)

unfoldable pub pack_connect : ConnectMessage → Result Bytes
pack_connect m = do
  target ← if m.protocol == tcp then pack_target m.address m.port else ok []
  ok (type_code BinaryType.connect ∷ protocol_to_bytes m.protocol ∷ (m.channel_id ++ target))

abbrev pub is_given {ℓ} : {A : Type ℓ} → Option A → Bool
is_given none = false
is_given (some _) = true

unfoldable pub pack_connect_response : ConnectResponseMessage → Result Bytes
pack_connect_response m = do
  error ← if not m.success && is_given m.error then pack_text (text_or_empty m.error) else ok []
  ok (type_code BinaryType.connect_response ∷ bool_byte m.success ∷ (m.channel_id ++ error))

-- `len(a) if a else 0`, then `a.encode()` if there is one, then the port or 0.
unfoldable pub pack_endpoint : Option Str → Option ℕ → Result Bytes
pack_endpoint a p = do
  address ← pack_text (text_or_empty a)
  port ← pack_u16 (number_or_zero p)
  ok (address ++ port)

unfoldable pub pack_endpoints : DataMessage → Result Bytes
pack_endpoints m = do
  source ← pack_endpoint m.address m.port
  target ← pack_endpoint m.target_addr m.target_port
  ok (source ++ target)

unfoldable pub pack_data : Runtime → DataMessage → Result Bytes
pack_data r m = do
  let content = if m.compression == compression_gzip then r.compress m.content else m.content
  compression ← pack_byte m.compression
  size ← pack_u32 (length content)
  endpoints ← if m.protocol == udp then pack_endpoints m else ok []
  ok (
      type_code BinaryType.payload
      ∷ protocol_to_bytes m.protocol
      ∷ (m.channel_id ++ (compression ++ (size ++ (content ++ endpoints)))))

unfoldable pub pack_disconnect : DisconnectMessage → Result Bytes
pack_disconnect m = do
  error ← if truthy m.error then pack_text (text_or_empty m.error) else ok []
  ok (type_code BinaryType.disconnect ∷ (m.channel_id ++ error))

unfoldable pub pack_connector : ConnectorMessage → Result Bytes
pack_connector m = do
  token ← pack_text m.connector_token
  ok (
      type_code BinaryType.connector
      ∷ (m.channel_id ++ (token ++ (operation_to_bytes m.operation ∷ []))))

unfoldable pub pack_connector_response : ConnectorResponseMessage → Result Bytes
pack_connector_response m = do
  tail ←
      if not m.success && truthy m.error
      then pack_text (text_or_empty m.error)
      else if m.success && truthy m.connector_token
      then pack_text (text_or_empty m.connector_token)
      else ok []
  ok (type_code BinaryType.connector_response ∷ (m.channel_id ++ (bool_byte m.success ∷ tail)))

-- A JSON text behind its size.
unfoldable pub pack_json : Runtime → Json → Result Bytes
pack_json r j = do
  json_data ← or_raise (encode (r.dumps j)) unicode_encode_error
  size ← pack_u32 (length json_data)
  ok (size ++ json_data)

abbrev pub log_object : Json → Json → Json
log_object level msg =
    Json.obj (Fields.field (codes "level") level (Fields.field (codes "msg") msg Fields.end))

abbrev pub partners_object : Json → Json
partners_object count = Json.obj (Fields.field (codes "count") count Fields.end)

unfoldable pub pack_log : Runtime → LogMessage → Result Bytes
pack_log r m = do
  body ← pack_json r (log_object m.level m.msg)
  ok (type_code BinaryType.log ∷ body)

unfoldable pub pack_partners : Runtime → PartnersMessage → Result Bytes
pack_partners r m = do
  body ← pack_json r (partners_object m.count)
  ok (type_code BinaryType.partners ∷ body)

-- Each message behind its type; the version comes first of all.
unfoldable pub pack_body : Runtime → Message → Result Bytes
pack_body r (Message.auth m) = pack_auth m
pack_body r (Message.auth_response m) = pack_auth_response m
pack_body r (Message.connect m) = pack_connect m
pack_body r (Message.connect_response m) = pack_connect_response m
pack_body r (Message.payload m) = pack_data r m
pack_body r (Message.disconnect m) = pack_disconnect m
pack_body r (Message.connector m) = pack_connector m
pack_body r (Message.connector_response m) = pack_connector_response m
pack_body r (Message.log m) = pack_log r m
pack_body r (Message.partners m) = pack_partners r m

unfoldable pub pack_message : Runtime → Message → Result Bytes
pack_message r m = do body ← pack_body r m; ok (protocol_version ∷ body)
