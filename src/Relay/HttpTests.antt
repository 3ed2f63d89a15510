-- ===== src/Relay/HttpTests.antt =====
-- Connections at small inputs: through an HTTP proxy, and for a request of the other side.
use pywssocks.Base.{
  arith, list_eq, nat_eq, ◌≡◌, refl, true, false, none, some, [], ◌∷◌, ◌++◌, ok, err, os_error,
}
use pywssocks.Text.{Str, codes, encode}
use pywssocks.Message.Types.{ConnectMessage, tcp}
use pywssocks.Server.State.{pos}
use pywssocks.Server.Clients.{uuid_text}
use pywssocks.Relay.Session.{Session, End}
use pywssocks.Relay.Http.{
  HttpText, digits, connect_text, connect_via_http, has_blank_line, first_line, split_space,
}
use pywssocks.Relay.Proxied.{HasEnded, connect_via_http-HasEnded, connect_via_http_drops_first_data}
use pywssocks.Relay.Channels.{Relay}
use pywssocks.Relay.Connections.{inet4, resolved, connected, Peer, Network, Upstream}

-- Every number is read as 200.
abbrev http : HttpText
http = record { b64encode = λ b. b; decode_ignoring = λ b. b; int = λ s. some (pos 200) }

abbrev header : Str
header = codes "TTP/1.1 200 OK" ++ (13 ∷ 10 ∷ 13 ∷ 10 ∷ [])

abbrev early : Str
early = codes "SSH"

abbrev proxy : Session
proxy = record {
  incoming = ((72 ∷ header) ++ early) ∷ (42 ∷ []) ∷ [];
  sent = [];
  forwarded = [];
  queues = [];
  closed = false;
}

abbrev request : Str
request =
    codes "CONNECT a:80 HTTP/1.1"
    ++ (13 ∷ 10 ∷ [])
    ++ codes "Host: a:80"
    ++ (13 ∷ 10 ∷ 13 ∷ 10 ∷ [])

request_built : connect_text http none none (codes "a") 80 ≡ ok request
unfolding connect_text digits
request_built = refl

request_encoded : encode request ≡ some request
unfolding encode
request_encoded = refl

connect_via_http_drops_first_data_example :
    connect_via_http http none none (codes "a") 80 proxy
    ≡ (record proxy { incoming = (42 ∷ []) ∷ []; sent = request }, End.done tt)
unfolding has_blank_line first_line split_space encode
connect_via_http_drops_first_data_example =
    connect_via_http_drops_first_data http none none (codes "a") 80 72 header early request request
      (codes "200") ((42 ∷ []) ∷ []) proxy refl (omega arith) refl refl refl request_built refl

connect_via_http-HasEnded_example : HasEnded (connect_via_http http none none (codes "a") 80 proxy)
connect_via_http-HasEnded_example = connect_via_http-HasEnded http none none (codes "a") 80 proxy

abbrev relay : Relay
relay = record {
  message_queues = (uuid_text (5 ∷ []), 0) ∷ [];
  udp_client_addrs = [];
  tcp_tasks = [];
  udp_tasks = [];
  connection_success_map = [];
  cancelled = [];
  cleanups = [];
}

abbrev peer : Peer
peer = record { relay = relay; sent = []; closed = [] }

abbrev net : Network
net = record {
  runtime = record { compress = λ c. c; decompress = some; dumps = λ j. []; loads = λ s. none };
  is_open = true;
  describe = λ e. codes "e";
  is_done = λ t. true;
  is_address = λ f a. ok false;
  getaddrinfo = λ a p. resolved inet4 (codes "1.2.3.4");
  connect = λ f a p. connected 4;
  via_http = λ a p. err os_error;
  via_socks5 = λ a p. err os_error;
  udp_socket = connected 4;
}

abbrev connect : ConnectMessage
connect = record { protocol = tcp; channel_id = 5 ∷ []; address = some (codes "a"); port = some 80 }

abbrev direct : Upstream
direct = record { proxy = none; proxy_type = none }
