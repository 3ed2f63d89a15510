-- ===== src/Server/Small.antt =====
-- A small server with clients.
use pywssocks.Base.{arith, list_eq, nat_eq, ℕ, ◌≡◌, true, false, none, some, [], ◌∷◌}
use pywssocks.Base.Dict.{get}
use pywssocks.Base.Sets.{elem}
use pywssocks.PortPool.{PortPool}
use pywssocks.Text.{Str, codes}
use pywssocks.Message.Types.{Uuid, Runtime}
use pywssocks.Relay.Channels.{Relay}
use pywssocks.Server.State.{int_eq, pos, negsuc, Server, TokenOptions, init}
use pywssocks.Server.Ports.{IsValid}
use pywssocks.Server.Hub.{Hub, Wire}

abbrev pub a : Str
a = codes "a"

abbrev pub b : Str
b = codes "b"

abbrev pub ports : PortPool
ports = record { port_pool = 1080 ∷ 1081 ∷ []; used_ports = 1080 ∷ [] }

abbrev pub managing : TokenOptions
managing = record { username = none; password = none; allow_manage_connector = true }

-- A reverse token with a port and one that may manage connectors, each with a client, and a
-- connector token of the first.
abbrev pub server : Server
server = record (init ports) {
  loop = true;
  tokens = (a, pos 1080) ∷ (b, negsuc 0) ∷ [];
  token_locks = a ∷ b ∷ [];
  token_options = (b, managing) ∷ [];
  token_clients = (a, (1 ∷ [], 7) ∷ []) ∷ (b, (2 ∷ [], 8) ∷ []) ∷ [];
  clients = (1 ∷ [], 7) ∷ (2 ∷ [], 8) ∷ [];
  connector_tokens = (codes "c", a) ∷ [];
}

pub server-IsValid : IsValid server
unfolding get elem
server-IsValid = record { held = held; apart = apart; locked = λ t p h. ground arith }
  where
    held : (t : Str) (n : ℕ) → get t server.tokens ≡ some (pos n) → elem n ports.used_ports ≡ true
    held t n h = ground arith

    apart :
        (t u : Str) (n : ℕ)
        → get t server.tokens ≡ some (pos n)
        → get u server.tokens ≡ some (pos n)
        → t ≡ u
    apart t u n h g = ground arith

abbrev pub relay : Relay
relay = record {
  message_queues = [];
  udp_client_addrs = [];
  tcp_tasks = [];
  udp_tasks = [];
  connection_success_map = [];
  cancelled = [];
  cleanups = [];
}

abbrev pub five : Uuid
five = 0 ∷ 0 ∷ 0 ∷ 0 ∷ 0 ∷ 0 ∷ 0 ∷ 0 ∷ 0 ∷ 0 ∷ 0 ∷ 0 ∷ 0 ∷ 0 ∷ 0 ∷ 5 ∷ []

-- The channel `five` goes from the connector on 9 to the reverse client on 7.
abbrev pub hub : Hub
hub = record {
  server = server;
  cache = record {
    channel_id_to_client = (five, 7) ∷ [];
    channel_id_to_connector = (five, 9) ∷ [];
    token_cache = [];
  };
  relay = relay;
  sent = [];
  delivered = [];
  next_queue = 0;
  closed = [];
  handlers = [];
}

abbrev pub runtime : Runtime
runtime = record { compress = λ c. c; decompress = some; dumps = λ j. []; loads = λ s. none }

abbrev pub wire : Wire
wire = record { runtime = runtime; is_open = λ ws. true }

-- The client on 7 is gone.
abbrev pub broken : Wire
broken = record { runtime = runtime; is_open = λ ws. false }
