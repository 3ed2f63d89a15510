-- ===== src/Message/Types.antt =====
-- The message classes and the constants of message.py, and what the module takes from Python's
-- gzip and json.
use pywssocks.Base.{list_eq, ℕ, Bool, Option, none, some, if◌then◌else◌, ◌==◌}
use pywssocks.Text.{Str, Bytes, codes}

abbrev pub protocol_version : ℕ
protocol_version = 0x01

pub data BinaryType : Type 0 where
  auth auth_response connect payload connect_response disconnect connector : BinaryType
  connector_response log partners : BinaryType

-- The value of each member; `DATA` is `payload` here.
abbrev pub type_code : BinaryType → ℕ
type_code BinaryType.auth = 0x01
type_code BinaryType.auth_response = 0x02
type_code BinaryType.connect = 0x03
type_code BinaryType.payload = 0x04
type_code BinaryType.connect_response = 0x05
type_code BinaryType.disconnect = 0x06
type_code BinaryType.connector = 0x07
type_code BinaryType.connector_response = 0x08
type_code BinaryType.log = 0x09
type_code BinaryType.partners = 0x0a

abbrev pub protocol_tcp : ℕ
protocol_tcp = 0x01

abbrev pub protocol_udp : ℕ
protocol_udp = 0x02

abbrev pub operation_add : ℕ
operation_add = 0x01

abbrev pub operation_remove : ℕ
operation_remove = 0x02

abbrev pub compression_none : ℕ
compression_none = 0x00

abbrev pub compression_gzip : ℕ
compression_gzip = 0x01

-- The texts that the code compares protocols and operations with.
abbrev pub tcp : Str
tcp = codes "tcp"

abbrev pub udp : Str
udp = codes "udp"

abbrev pub add_operation : Str
add_operation = codes "add"

abbrev pub remove_operation : Str
remove_operation = codes "remove"

-- `uuid.UUID` by its 16 bytes.
abbrev pub Uuid : Type 0
Uuid = Bytes

-- What `json.loads` may return: a number that is no natural number is kept as its literal.
mutual
  pub data Json : Type 0 where
    null : Json
    bool : Bool → Json
    int : ℕ → Json
    number : Str → Json
    str : Str → Json
    arr : Items → Json
    obj : Fields → Json

  pub data Items : Type 0 where
    nil : Items
    cons : Json → Items → Items

  pub data Fields : Type 0 where
    end : Fields
    field : Str → Json → Fields → Fields

-- `d.get(key, default)` on the fields of a dict.
abbrev pub field_or : Str → Fields → Json → Json
field_or key end default = default
field_or key (field k v fs) default = if k == key then v else field_or key fs default

-- `parsed.get(key, default)`; only a dict has the method.
abbrev pub json_get : Str → Json → Json → Option Json
json_get key (obj fs) default = some (field_or key fs default)
json_get key _ default = none

pub record AuthMessage : Type 0 where
  pub token : Str
  pub reverse : Bool
  pub instance_id : Uuid

pub record AuthResponseMessage : Type 0 where
  pub success : Bool
  pub error : Option Str

pub record ConnectMessage : Type 0 where
  pub protocol : Str
  pub channel_id : Uuid
  pub address : Option Str
  pub port : Option ℕ

pub record ConnectResponseMessage : Type 0 where
  pub success : Bool
  pub channel_id : Uuid
  pub error : Option Str

pub record DataMessage : Type 0 where
  pub protocol : Str
  pub channel_id : Uuid
  pub content : Bytes
  pub compression : ℕ
  pub address : Option Str
  pub port : Option ℕ
  pub target_addr : Option Str
  pub target_port : Option ℕ

pub record DisconnectMessage : Type 0 where
  pub channel_id : Uuid
  pub error : Option Str

pub record ConnectorMessage : Type 0 where
  pub channel_id : Uuid
  pub connector_token : Str
  pub operation : Str

pub record ConnectorResponseMessage : Type 0 where
  pub success : Bool
  pub channel_id : Uuid
  pub error : Option Str
  pub connector_token : Option Str

-- The dataclasses do not check their annotations: these hold whatever `json.loads` gave.
pub record LogMessage : Type 0 where
  pub level : Json
  pub msg : Json

pub record PartnersMessage : Type 0 where
  pub count : Json

pub data Message : Type 0 where
  auth : AuthMessage → Message
  auth_response : AuthResponseMessage → Message
  connect : ConnectMessage → Message
  connect_response : ConnectResponseMessage → Message
  payload : DataMessage → Message
  disconnect : DisconnectMessage → Message
  connector : ConnectorMessage → Message
  connector_response : ConnectorResponseMessage → Message
  log : LogMessage → Message
  partners : PartnersMessage → Message

-- `get_type` of each class.
unfoldable pub get_type : Message → Str
get_type (Message.auth _) = codes "auth"
get_type (Message.auth_response _) = codes "auth_response"
get_type (Message.connect _) = codes "connect"
get_type (Message.connect_response _) = codes "connect_response"
get_type (Message.payload _) = codes "data"
get_type (Message.disconnect _) = codes "disconnect"
get_type (Message.connector _) = codes "connector"
get_type (Message.connector_response _) = codes "connector_response"
get_type (Message.log _) = codes "log"
get_type (Message.partners _) = codes "partners"

-- gzip.GzipFile over a buffer, and json.dumps and json.loads: parameters of the model.
pub record Runtime : Type 0 where
  pub compress : Bytes → Bytes
  pub decompress : Bytes → Option Bytes
  pub dumps : Json → Str
  pub loads : Str → Option Json
