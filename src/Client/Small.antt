-- ===== src/Client/Small.antt =====
-- A small client, and a server that knows it.
use pywssocks.Base.{list_eq, nat_eq, true, false, none, some, [], ◌∷◌}
use pywssocks.Text.{codes}
use pywssocks.Message.Types.{Uuid, Json}
use pywssocks.Relay.Channels.{Relay}
use pywssocks.Server.State.{int_eq, pos, negsuc, Server, TokenOptions, init}
use pywssocks.Server.Hub.{Wire}
use pywssocks.Client.State.{Client}

abbrev pub relay : Relay
relay = record {
  message_queues = [];
  udp_client_addrs = [];
  tcp_tasks = [];
  udp_tasks = [];
  connection_success_map = [];
  cancelled = [];
  cleanups = [];
}

abbrev pub client : Client
client = record {
  ws_url = [];
  token = codes "b";
  reverse = true;
  reconnect = false;
  socks_wait_server = true;
  websocket = some 8;
  connected = true;
  disconnected = false;
  num_partners = Json.int 0;
  relay = relay;
  socks_tasks = 0;
  sleeps = 0;
  next_queue = 0;
  sent = [];
  delivered = [];
  handlers = [];
}

abbrev pub managing : TokenOptions
managing = record { username = none; password = none; allow_manage_connector = true }

abbrev pub server : Server
server = record (init (record { port_pool = []; used_ports = [] })) {
  tokens = (codes "a", pos 1080) ∷ (codes "b", negsuc 0) ∷ [];
  token_options = (codes "b", managing) ∷ [];
  token_clients = (codes "b", (2 ∷ [], 8) ∷ []) ∷ [];
}

abbrev pub wire : Wire
wire = record {
  runtime = record { compress = λ c. c; decompress = some; dumps = λ j. []; loads = λ s. none };
  is_open = λ ws. true;
}

abbrev pub first_id : Uuid
first_id = 1 ∷ []
