-- ===== src/Message/Canonical.antt =====
-- Which messages the format can carry, and what the reader makes of each.
use pywssocks.Base.{
  list_eq, nat_eq, ℕ, ◌<◌, ◌≡◌, ◌⊎◌, Bool, true, false, not, ◌&&◌, Option, none, some, [], All,
  length, if◌then◌else◌, ◌==◌,
}
use pywssocks.Text.{Str, IsAscii, IsScalar}
use pywssocks.Message.Types.{
  compression_gzip, tcp, udp, add_operation, remove_operation, Json, Uuid, DataMessage, Message,
  Runtime,
}
use pywssocks.Message.Pack.{truthy, text_or_empty, number_or_zero, log_object, partners_object}

-- A text that one length byte can stand before: ASCII, so that it has as many bytes as
-- characters, and shorter than 256.
pub record IsText (s : Str) : Type 0 where
  pub ascii : All IsAscii s
  pub fits : length s < 256

abbrev pub IsUuid : Uuid → Type 0
IsUuid u = length u ≡ 16

-- What the format relies on in gzip and json. JSON texts are ASCII (`ensure_ascii`).
pub record IsLawful (r : Runtime) : Type 0 where
  pub decompress-compress : (b : Str) → r.decompress (r.compress b) ≡ some b
  pub dumps_ascii : (j : Json) → All IsAscii (r.dumps j)
  pub loads-log :
      (l m : Str)
      → All IsScalar l
      → All IsScalar m
      → r.loads (r.dumps (log_object (Json.str l) (Json.str m)))
        ≡ some (log_object (Json.str l) (Json.str m))
  pub loads-partners :
      (n : ℕ)
      → r.loads (r.dumps (partners_object (Json.int n))) ≡ some (partners_object (Json.int n))

-- The address and port that a tcp request needs, by whether it is one.
abbrev pub IsTarget : Bool → Option Str → Option ℕ → Type 0
IsTarget false _ _ = Unit
IsTarget true none _ = ⊥
IsTarget true (some a) none = ⊥
IsTarget true (some a) (some p) = IsText a × (p < 65536)

-- A failure has to give a reason, by whether the request succeeded.
abbrev pub IsReason : Bool → Option Str → Type 0
IsReason true _ = Unit
IsReason false none = ⊥
IsReason false (some s) = IsText s

abbrev pub IsEndpoint : Option Str → Option ℕ → Type 0
IsEndpoint a p = IsText (text_or_empty a) × (number_or_zero p < 65536)

abbrev pub stored : Runtime → DataMessage → Str
stored r m = if m.compression == compression_gzip then r.compress m.content else m.content

abbrev pub IsPackable : Runtime → Message → Type 0
IsPackable r (Message.auth m) = IsText m.token × IsUuid m.instance_id
IsPackable r (Message.auth_response m) = IsText (text_or_empty m.error)
IsPackable r (Message.connect m) =
    IsUuid m.channel_id × IsTarget (m.protocol == tcp) m.address m.port
IsPackable r (Message.connect_response m) = IsUuid m.channel_id × IsReason m.success m.error
IsPackable r (Message.payload m) =
    IsUuid m.channel_id
    × (m.compression < 256)
    × (length (stored r m) < 4294967296)
    × IsEndpoint m.address m.port
    × IsEndpoint m.target_addr m.target_port
IsPackable r (Message.disconnect m) = IsUuid m.channel_id × IsText (text_or_empty m.error)
IsPackable r (Message.connector m) =
    IsUuid m.channel_id
    × IsText m.connector_token
    × ((m.operation ≡ add_operation) ⊎ (m.operation ≡ remove_operation))
IsPackable r (Message.connector_response m) =
    IsUuid m.channel_id
    × IsText (text_or_empty m.error)
    × IsText (text_or_empty m.connector_token)
    × ((m.success ≡ true) ⊎ (truthy m.error ≡ true))
IsPackable r (Message.log m) =
    (l : Str) × (s : Str) × (m.level ≡ Json.str l)
    × (m.msg ≡ Json.str s)
    × All IsScalar l
    × All IsScalar s
    × (length (r.dumps (log_object m.level m.msg)) < 4294967296)
IsPackable r (Message.partners m) =
    (n : ℕ) × (m.count ≡ Json.int n) × (length (r.dumps (partners_object m.count)) < 4294967296)

abbrev pub kept_if {ℓ} : {A : Type ℓ} → Bool → Option A → Option A
kept_if true o = o
kept_if false o = none

-- An unknown protocol is read as the empty text.
abbrev pub known_protocol : Str → Str
known_protocol p = if p == tcp then tcp else if p == udp then udp else []

-- What is read back: the fields that the format drops are `none`, and the addresses and ports
-- that it fills in for udp are given.
abbrev pub canonical : Message → Message
canonical (Message.auth m) = Message.auth m
canonical (Message.auth_response m) =
    Message.auth_response (record m { error = kept_if (not m.success && truthy m.error) m.error })
canonical (Message.connect m) = Message.connect (record m {
  protocol = known_protocol m.protocol;
  address = kept_if (m.protocol == tcp) m.address;
  port = kept_if (m.protocol == tcp) m.port;
})
canonical (Message.connect_response m) =
    Message.connect_response (record m { error = kept_if (not m.success) m.error })
canonical (Message.payload m) = Message.payload (record m {
  protocol = known_protocol m.protocol;
  address = kept_if (m.protocol == udp) (some (text_or_empty m.address));
  port = kept_if (m.protocol == udp) (some (number_or_zero m.port));
  target_addr = kept_if (m.protocol == udp) (some (text_or_empty m.target_addr));
  target_port = kept_if (m.protocol == udp) (some (number_or_zero m.target_port));
})
canonical (Message.disconnect m) =
    Message.disconnect (record m { error = kept_if (truthy m.error) m.error })
canonical (Message.connector m) = Message.connector m
canonical (Message.connector_response m) = Message.connector_response (record m {
  error = kept_if (not m.success) m.error;
  connector_token = kept_if (m.success && truthy m.connector_token) m.connector_token;
})
canonical (Message.log m) = Message.log m
canonical (Message.partners m) = Message.partners m
