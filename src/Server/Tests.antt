-- ===== src/Server/Tests.antt =====
-- The token methods at small servers.
use pywssocks.Base.{
  arith, ok, ap, list_eq, nat_eq, ℕ, ◌<◌, ◌≡◌, ◌≢◌, refl, true, false, none, some, List, [], ◌∷◌,
  get_elem?, ◌++◌, err, key_error,
}
use pywssocks.Base.Dict.{contains, get, insert, erase}
use pywssocks.Base.Sets.{elem, add, discard, difference, elem_head}
use pywssocks.PortPool
use pywssocks.PortPool.{PortPool}
use pywssocks.PortPool.Allocation.{IsChoice}
use pywssocks.Text.{Str}
use pywssocks.Message.Types.{Uuid}
use pywssocks.Server.State.{int_eq, ℤ, pos, negsuc, Server, close_client, TokenOptions, init}
use pywssocks.Server.Tokens.{add_reverse_token, get_next_websocket}
use pywssocks.Server.Remove.{remove_token}
use pywssocks.Server.Clients.{uuid_text, register_client, add_internal, add_client, kind}
use pywssocks.Server.Pending.{start_serving, handle_pending_token, handle_pending_token-starts_once}
use pywssocks.Server.Ports.{IsValid}
use pywssocks.Server.History.{
  Call, call, add_reverse, remove, begin, run_pending, join, calls, calls-IsValid,
}
use pywssocks.Server.Socks.{handle_request, serve}
use pywssocks.Server.Service.{IsAmong, IsOwn, handle_request-IsOwn}
use pywssocks.SocketManager
use pywssocks.SocketManager.{SocketManager}
use pywssocks.SocketManager.Sharing.{refs_of}
use pywssocks.Server.SocksServer.{client, socket_closed, run_socks_server, run_socks_server-refs_of}
use pywssocks.Server.RoundRobin.{after_calls, each_is_served, get_next_websocket_in_range}
use pywssocks.Server.Removal.{
  IsGone, remove_token-IsGone, remove_token_keeps, remove_forward_token_closes_all,
}

abbrev choose : List ℕ → ℕ
choose [] = 0
choose (x ∷ xs) = x

choose-IsChoice : IsChoice choose
choose-IsChoice x xs = elem_head x xs

abbrev a : Str
a = 97 ∷ []

abbrev b : Str
b = 98 ∷ []

a≢b : a ≢ b
a≢b e = ground arith

abbrev plain : TokenOptions
plain = record { username = none; password = none; allow_manage_connector = false }

abbrev ports : PortPool
ports = record { port_pool = 1080 ∷ 1081 ∷ []; used_ports = [] }

-- Two clients of the token a, whose port is held, and a connector token of it.
abbrev server : Server
server = record (init ports) {
  loop = true;
  pool = record ports { used_ports = 1080 ∷ [] };
  tokens = (a, pos 1080) ∷ (b, pos 1081) ∷ [];
  token_clients = (a, (1 ∷ [], 7) ∷ (2 ∷ [], 8) ∷ []) ∷ [];
  clients = (1 ∷ [], 7) ∷ (2 ∷ [], 8) ∷ [];
  connector_tokens = (100 ∷ [], a) ∷ [];
  forward_tokens = (102 ∷ []) ∷ (103 ∷ []) ∷ [];
  forward_clients = (3 ∷ [], 9) ∷ [];
}

abbrev history : List Call
history =
    add_reverse a none none plain
    ∷ add_reverse b none (some 1080) plain
    ∷ remove a
    ∷ add_reverse b (some b) (some 1080) plain
    ∷ []

-- A client that may manage connectors comes twice, the second time with the token of its own that it
-- got the first time, which is then one of its own internal tokens, and removes it.
abbrev wanderer : Uuid
wanderer = 16 ∷ []

abbrev inner : Str
inner = uuid_text wanderer

abbrev managing : TokenOptions
managing = record plain { allow_manage_connector = true }

abbrev busy : List Call
busy =
    add_reverse a none (some 1080) plain
    ∷ begin false
    ∷ add_reverse b none none managing
    ∷ run_pending false b
    ∷ join (record { token = b; reverse = true; instance_id = wanderer }) (1 ∷ []) 7
    ∷ join (record { token = inner; reverse = true; instance_id = wanderer }) (2 ∷ []) 8
    ∷ []

calls-IsValid_example : IsValid (calls choose (busy ++ (remove inner ∷ [])) (init ports))
calls-IsValid_example = calls-IsValid choose (busy ++ (remove inner ∷ [])) ports choose-IsChoice

abbrev crowded : Server
crowded = record (init ports) {
  loop = true;
  pool = record ports { used_ports = 1080 ∷ [] };
  tokens = (inner, negsuc 0) ∷ (b, negsuc 0) ∷ (a, pos 1080) ∷ [];
  internal_tokens = (inner, inner ∷ []) ∷ (b, inner ∷ []) ∷ [];
}

removal_raises : (remove_token inner crowded).1 ≡ err key_error
unfolding remove_token get erase uuid_text
removal_raises = refl

removal_raises_in_history : (remove_token inner (calls choose busy (init ports))).1 ≡ err key_error
unfolding calls call add_reverse_token remove_token get PortPool.get difference elem insert add
    erase PortPool.put discard start_serving handle_pending_token register_client add_internal
    add_client uuid_text kind
removal_raises_in_history = refl

history_tokens : (calls choose history (init ports)).tokens ≡ (b, pos 1080) ∷ []
unfolding calls call add_reverse_token remove_token get PortPool.get difference elem insert add
    erase PortPool.put discard
history_tokens = refl

each_is_served_example :
    (k : ℕ) × (k < 2) × ((get_next_websocket a (after_calls k a server)).1 ≡ some 8)
unfolding get
each_is_served_example =
    each_is_served a server ((1 ∷ [], 7) ∷ (2 ∷ [], 8) ∷ []) 1 (2 ∷ [], 8) refl refl

remove_token-IsGone_example :
    ((remove_token a server).1 ≡ ok true) × IsGone a (pos 1080) (remove_token a server).0
unfolding get elem
remove_token-IsGone_example = remove_token-IsGone a (pos 1080) server refl refl refl

remove_token_keeps_example : get b (remove_token a server).0.tokens ≡ get b server.tokens
unfolding get elem
remove_token_keeps_example = remove_token_keeps a b server a≢b refl

remove_forward_token_closes_all_example :
    ((remove_token (102 ∷ []) server).0.scheduled ≡ close_client 9 ∷ [])
    × ((remove_token (102 ∷ []) server).0.forward_clients ≡ [])
    × ((u : Str)
        → (102 ∷ []) ≢ u
        → elem u (remove_token (102 ∷ []) server).0.forward_tokens ≡ elem u server.forward_tokens)
unfolding get elem
remove_forward_token_closes_all_example =
    remove_forward_token_closes_all (102 ∷ []) server refl refl refl refl

abbrev later : Server
later = calls choose history (init ports)

later_port : get b later.tokens ≡ some (pos 1080)
unfolding get
later_port = ap (get b) history_tokens

handle_pending_token-starts_once_example :
    (s' : Server) × (handle_pending_token false b later ≡ ok s')
    × (contains (pos 1080) s'.socks_tasks ≡ true)
    × ((p : ℤ) → pos 1080 ≢ p → get p s'.socks_tasks ≡ get p later.socks_tasks)
    × (contains (pos 1080) later.socks_tasks ≡ true → s' ≡ later)
    × (handle_pending_token false b s' ≡ ok s')
handle_pending_token-starts_once_example =
    handle_pending_token-starts_once b (pos 1080) later
      (calls-IsValid choose history ports choose-IsChoice) later_port (λ e. ground arith)

-- A server before the clients of the token have come.
abbrev early : Server
early = record server { token_clients = []; token_locks = a ∷ [] }

abbrev arrived : Server
arrived = record server { token_locks = a ∷ [] }

request_served : (handle_request a early (early ∷ arrived ∷ [])).1 ≡ serve 8 none none
unfolding handle_request get elem get_next_websocket
request_served = refl

handle_request-IsOwn_example :
    (s : Server) × IsAmong s (early ∷ early ∷ arrived ∷ []) × IsOwn a s 8 none none
handle_request-IsOwn_example =
    handle_request-IsOwn a early (early ∷ arrived ∷ []) 8 none none request_served

abbrev in_use : SocketManager
in_use = record SocketManager.init {
  sockets = (1080, record { sock = 0; timestamp = 0; refs = 1 }) ∷ [];
  created = 1;
}

run_socks_server-refs_of_example :
    refs_of 1080 (run_socks_server 1080 true (λ m. m) (client 4 ∷ socket_closed ∷ []) 20 in_use).0
    ≡ 1
unfolding get
run_socks_server-refs_of_example =
    run_socks_server-refs_of 1080 20 1080 true (λ m. m) (client 4 ∷ socket_closed ∷ []) in_use
      λ i n. refl

get_next_websocket_in_range_example :
    (i : ℕ) × (i < 2)
    × (get a (get_next_websocket a server).0.token_indexes ≡ some i)
    × (client : Uuid × ℕ) × (get_elem? ((1 ∷ [], 7) ∷ (2 ∷ [], 8) ∷ []) i ≡ some client)
    × ((get_next_websocket a server).1 ≡ some client.1)
unfolding get
get_next_websocket_in_range_example =
    get_next_websocket_in_range a server (1 ∷ [], 7) ((2 ∷ [], 8) ∷ []) refl
