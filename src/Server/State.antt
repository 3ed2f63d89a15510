-- ===== src/Server/State.antt =====
-- What a `WSSocksServer` keeps. Connections are numbered. A task that the event loop is given is
-- recorded in `scheduled`, a SOCKS server task that is cancelled in `cancelled`.
use pywssocks.Base.{ℕ, ◌≡◌, ◌↔◌, Bool, true, false, Option, List, [], arith, nat_beq, Eq}
use pywssocks.Base.Dict.{Dict}
use pywssocks.Text.{Str}
use pywssocks.Message.Types.{Uuid}
use pywssocks.PortPool.{PortPool}

-- Python's `int`, for ports: -1 stands for no SOCKS port. `negsuc n` is -(n + 1).
pub data ℤ : Type 0 where
  pos : ℕ → ℤ
  negsuc : ℕ → ℤ

abbrev pub int_beq : ℤ → ℤ → Bool
int_beq (pos a) (pos b) = nat_beq a b
int_beq (pos a) (negsuc b) = false
int_beq (negsuc a) (pos b) = false
int_beq (negsuc a) (negsuc b) = nat_beq a b

pub int_beq_iff : (a b : ℤ) → (int_beq a b ≡ true) ↔ (a ≡ b)
int_beq_iff (pos a) (pos b) = ground arith
int_beq_iff (pos a) (negsuc b) = ground arith
int_beq_iff (negsuc a) (pos b) = ground arith
int_beq_iff (negsuc a) (negsuc b) = ground arith

instance abbrev pub int_eq : Eq ℤ
int_eq = record { same = int_beq; same_iff = int_beq_iff }

pub record TokenOptions : Type 0 where
  pub username : Option Str
  pub password : Option Str
  pub allow_manage_connector : Bool

-- What `self._loop.create_task` is given.
pub data Task : Type 0 where
  cleanup_token : Str → Task
  close_client : ℕ → Task
  pending_token : Str → Task

-- A client is its id and its connection. `loop` tells whether the event loop runs yet.
pub record Server : Type 0 where
  pub loop : Bool
  pub pool : PortPool
  pub pending_tokens : List Str
  pub clients : Dict Uuid ℕ
  pub token_locks : List Str
  pub token_clients : Dict Str (List (Uuid × ℕ))
  pub token_indexes : Dict Str ℕ
  pub tokens : Dict Str ℤ
  pub socks_tasks : Dict ℤ Str
  pub forward_tokens : List Str
  pub forward_clients : Dict Uuid ℕ
  pub connector_tokens : Dict Str Str
  pub internal_tokens : Dict Str (List Str)
  pub token_options : Dict Str TokenOptions
  pub scheduled : List Task
  pub cancelled : List ℤ

abbrev pub init : PortPool → Server
init pool = record {
  loop = false;
  pool = pool;
  pending_tokens = [];
  clients = [];
  token_locks = [];
  token_clients = [];
  token_indexes = [];
  tokens = [];
  socks_tasks = [];
  forward_tokens = [];
  forward_clients = [];
  connector_tokens = [];
  internal_tokens = [];
  token_options = [];
  scheduled = [];
  cancelled = [];
}
