-- ===== src/Relay/Connections.antt =====
-- `_handle_network_connection` of relay.py, with the connections that it makes for tcp and udp.
use pywssocks.Base.{
  list_eq, nat_eq, ℕ, Bool, true, false, Option, none, some, List, [], ◌∷◌, ◌++◌, if◌then◌else◌,
  ◌==◌, Result, ok, err, value_error, failure_with, key_error, connection_closed, Exception,
}
use Prim.Native.String.{String}
use pywssocks.Base.Dict.{get, insert}
use pywssocks.Text.{Str, Bytes, codes}
use pywssocks.Message.Types.{Uuid, Message, ConnectMessage, Runtime, tcp, udp}
use pywssocks.Message.Pack.{pack_message, truthy}
use pywssocks.Relay.Channels.{Relay, disconnect_channel}
use pywssocks.Relay.Forwarding.{tcp_to_websocket, udp_to_websocket}
use pywssocks.Server.Clients.{uuid_text}

-- The maps, what went through the WebSocket, and the sockets that were closed.
pub record Peer : Type 0 where
  pub relay : Relay
  pub sent : List Bytes
  pub closed : List ℕ

-- How the opening of a socket ended: connected, with a socket that is not connected, or with none.
pub data Opening : Type 0 where
  connected : ℕ → Opening
  unconnected : ℕ → Exception → Opening
  no_socket : Exception → Opening

-- The address families, and what `getaddrinfo` gives: its first result, a gaierror with its text, or
-- another exception.
pub data Family : Type 0 where
  inet4 inet6 : Family

pub data Resolution : Type 0 where
  resolved : Family → Str → Resolution
  gai_error : String → Resolution
  other_error : Exception → Resolution

-- What is outside: gzip and json, whether the WebSocket is open, `str` of an exception, which tasks
-- are done, `inet_pton` (whether a text is an address of the family, `ok false` being a socket.error),
-- `getaddrinfo`, a new socket of a family with its connection to an address, and the sockets that the
-- proxies and udp give.
pub record Network : Type 0 where
  pub runtime : Runtime
  pub is_open : Bool
  pub describe : Exception → Str
  pub is_done : ℕ → Bool
  pub is_address : Family → Str → Result Bool
  pub getaddrinfo : Str → ℕ → Resolution
  pub connect : Family → Str → ℕ → Opening
  pub via_http : Str → ℕ → Result ℕ
  pub via_socks5 : Str → ℕ → Result ℕ
  pub udp_socket : Opening

-- The settings of the upstream proxy.
pub record Upstream : Type 0 where
  pub proxy : Option Str
  pub proxy_type : Option Str

abbrev pub Raising : Type 0
Raising = Peer × Option Exception

abbrev pub send_bytes : Bool → Result Bytes → Peer → Raising
send_bytes is_open (err e) p = (p, some e)
send_bytes true (ok b) p = (record p { sent = p.sent ++ (b ∷ []) }, none)
send_bytes false (ok b) p = (p, some connection_closed)

unfoldable pub send_message : Network → Message → Peer → Raising
send_message net m p = send_bytes net.is_open (pack_message net.runtime m) p

-- `self._upstream_proxy_type or "socks5"` is "http".
abbrev pub is_http : Option Str → Bool
is_http none = false
is_http (some t) = t == codes "http"

-- Both ways through a proxy close their socket where they raise.
abbrev pub opening : Result ℕ → Opening
opening (ok sock) = connected sock
opening (err e) = no_socket e

-- "Use the resolved address from getaddrinfo".
abbrev pub by_name : Resolution → Result (Family × Str)
by_name (resolved family address) = ok (family, address)
by_name (gai_error text) = err (failure_with "Failed to resolve address" text)
by_name (other_error e) = err e

abbrev pub by_ipv4 : Network → Str → ℕ → Result Bool → Result (Family × Str)
by_ipv4 net a p (ok true) = ok (inet4, a)
by_ipv4 net a p (ok false) = by_name (net.getaddrinfo a p)
by_ipv4 net a p (err e) = err e

abbrev pub by_ipv6 : Network → Str → ℕ → Result Bool → Result (Family × Str)
by_ipv6 net a p (ok true) = ok (inet6, a)
by_ipv6 net a p (ok false) = by_ipv4 net a p (net.is_address inet4 a)
by_ipv6 net a p (err e) = err e

-- "Determine address family and resolved address based on address format"
unfoldable pub find_address : Network → Str → ℕ → Result (Family × Str)
find_address net a p = by_ipv6 net a p (net.is_address inet6 a)

abbrev pub connect_to : Network → ℕ → Result (Family × Str) → Opening
connect_to net p (ok (family, address)) = net.connect family address p
connect_to net p (err e) = no_socket e

unfoldable pub open_remote : Network → Upstream → Option Str → Option ℕ → Opening
unfolding find_address
open_remote net up none port =
    no_socket (value_error "Missing address or port in connection request")
open_remote net up (some a) none =
    no_socket (value_error "Missing address or port in connection request")
open_remote net up (some a) (some p) =
    if truthy up.proxy
    then opening (if is_http up.proxy_type then net.via_http a p else net.via_socks5 a p)
    else connect_to net p (find_address net a p)

abbrev pub succeeded : Uuid → Message
succeeded channel_id =
    Message.connect_response (record { success = true; channel_id = channel_id; error = none })

abbrev pub failed_with : Network → Uuid → Exception → Message
failed_with net channel_id e =
    Message.connect_response
      (record { success = false; channel_id = channel_id; error = some (net.describe e) })

-- The `except`.
abbrev pub answer_failure : Network → Uuid → Raising → Raising
answer_failure net channel_id (p, none) = (p, none)
answer_failure net channel_id (p, some e) = send_message net (failed_with net channel_id e) p

abbrev pub close_socket : Option ℕ → Peer → Peer
close_socket none p = p
close_socket (some sock) p = record p { closed = p.closed ++ (sock ∷ []) }

-- The `finally`: a disconnect message that cannot be sent is passed over. The delay of
-- `disconnect_channel` is five seconds.
unfoldable pub end_connection : Network → Uuid → Option ℕ → Raising → Raising
unfolding send_message
end_connection net channel_id sock (p, e) =
    let told =
      (send_message net (Message.disconnect (record { channel_id = channel_id; error = none }))
        (close_socket sock p)).0 in
    (record told { relay = disconnect_channel net.is_done (uuid_text channel_id) 5 told.relay }, e)

-- The two directions of `_handle_remote_tcp_forward` and `_handle_remote_udp_forward`: `traffic` is
-- what the loop from the socket sends until it is over or cancelled. Without a queue there is a KeyError; what the loops raise is
-- logged.
abbrev pub record_task : Bool → Str → ℕ → Relay → Relay
record_task true channel task r = record r { tcp_tasks = insert channel task r.tcp_tasks }
record_task false channel task r = record r { udp_tasks = insert channel task r.udp_tasks }

abbrev pub with_queue : Bool → Str → ℕ → List Bytes → Option ℕ → Peer → Raising
with_queue is_tcp channel task traffic none p = (p, some key_error)
with_queue is_tcp channel task traffic (some queue) p =
    (record p { relay = record_task is_tcp channel task p.relay; sent = p.sent ++ traffic }, none)

unfoldable pub forward : Bool → Uuid → ℕ → List Bytes → Peer → Raising
forward is_tcp channel_id task traffic p =
    with_queue is_tcp (uuid_text channel_id) task traffic
      (get (uuid_text channel_id) p.relay.message_queues) p

abbrev pub forward_if : Raising → (Peer → Raising) → Raising
forward_if (p, none) rest = rest p
forward_if (p, some e) rest = (p, some e)

-- What is common to both protocols, once the socket is there or is not.
unfoldable pub serve_socket : Network → Bool → Uuid → ℕ → List Bytes → Opening → Peer → Raising
unfolding forward end_connection
serve_socket net is_tcp channel_id task traffic (no_socket e) p =
    end_connection net channel_id none (answer_failure net channel_id (p, some e))
serve_socket net is_tcp channel_id task traffic (unconnected sock e) p =
    end_connection net channel_id (some sock) (answer_failure net channel_id (p, some e))
serve_socket net is_tcp channel_id task traffic (connected sock) p =
    end_connection net channel_id (some sock) (
      answer_failure net channel_id (
        forward_if (send_message net (succeeded channel_id) p)
          (forward is_tcp channel_id task traffic)))

-- `pieces` are what `sock_recv` gives, `datagrams` what comes to the UDP socket and from where.
unfoldable pub handle_tcp_connection :
    Network → Upstream → ConnectMessage → ℕ → List Bytes → Peer → Raising
unfolding serve_socket open_remote
handle_tcp_connection net up m task pieces p =
    let traffic = (tcp_to_websocket net.runtime m.channel_id pieces).0 in
    serve_socket net true m.channel_id task traffic (open_remote net up m.address m.port) p

unfoldable pub handle_udp_connection :
    Network → ConnectMessage → ℕ → List (Bytes × (Str × ℕ)) → Peer → Raising
unfolding serve_socket
handle_udp_connection net m task datagrams p =
    let traffic = (udp_to_websocket net.runtime m.channel_id datagrams).0 in
    serve_socket net false m.channel_id task traffic net.udp_socket p

-- A request of another protocol is passed over.
unfoldable pub handle_network_connection :
    Network → Upstream → ConnectMessage → ℕ → List Bytes → List (Bytes × (Str × ℕ)) → Peer → Raising
unfolding handle_tcp_connection handle_udp_connection
handle_network_connection net up m task pieces datagrams p =
    if m.protocol == tcp
    then handle_tcp_connection net up m task pieces p
    else if m.protocol == udp
    then handle_udp_connection net m task datagrams p
    else (p, none)
