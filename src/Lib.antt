-- ===== src/Lib.antt =====
-- Verification of pywssocks, a SOCKS proxy whose two halves, a server and its clients, talk over a
-- WebSocket. Programs that use the proxy connect to a SOCKS port; each of their connections becomes
-- a channel, and what goes through a channel travels as binary messages between the halves. With a
-- "reverse" token the server has the SOCKS port and the client makes the connections, with a
-- "forward" token it is the other way round, and with a connector token a client has the port for
-- which the clients of a reverse token make the connections.
--
-- The parts, and the files that model them:
-- * The wire format, pywssocks/message.py: Message. Message/Types has the message classes,
--   Message/Pack `pack_message`, Message/Parse `parse_message`, one function for each branch.
--   Message/Canonical says which messages are within the limits of the format and what is read
--   back, Message/RoundTrip proves that, Message/Limits shows what lies outside the limits.
-- * `PortPool`, pywssocks/common.py: PortPool, with PortPool/Allocation.
-- * `ConnectorCache`, pywssocks/server.py: ConnectorCache, with ConnectorCache/Lookup. The server
--   looks up in it which connections a channel of a connector joins.
-- * `SocketManager`, pywssocks/server.py: SocketManager, with its invariant (Validity) and its
--   counts (Sharing). A released socket stays open for a grace period; the task that ends it is a
--   step.
-- * The tokens of `WSSocksServer`, pywssocks/server.py: Server. Server/State has the maps,
--   Server/Tokens `add_connector_token`, `add_reverse_token`, `add_forward_token` and
--   `_get_next_websocket`, Server/Remove `remove_connector_token` and `remove_token`,
--   Server/Pending `_handle_pending_token` and the start of `serve`. They take ports from the PortPool and give them back.
--   Server/Ports, Server/Additions, Server/Stable and Server/History are about the invariant,
--   Server/Dropped and Server/Removal about what a removal leaves, Server/RoundRobin about the turns
--   of the clients.
-- * The connections of `WSSocksServer`: Server/Clients has what `_handle_websocket` and
--   `_cleanup_connection` change of the maps, Server/Hub the server with the cache of connectors,
--   the maps of `Relay` and what was sent, and the two broadcasts of partners, Server/Admission
--   `_handle_websocket` and `_cleanup_connection`. Server/Membership, Server/Visits,
--   Server/Sending, Server/Greeting and Server/Welcome are about who is admitted, and what is left when it goes.
-- * The dispatchers of `WSSocksServer`: Server/Dispatch has `_connector_message_dispatcher` and
--   `_message_dispatcher`, a step for each message. Server/Routing is about where the messages of a
--   channel go, Server/Authority about who may change tokens by messages.
-- * The SOCKS requests of `WSSocksServer`: Server/Socks has `_handle_socks_request` up to the
--   handshake and `_process_request`, Server/SocksServer `_run_socks_server`; Server/Service is
--   about the connection that is chosen.
-- * `Relay`, pywssocks/relay.py, the base class of the server and the client: Relay.
--   Relay/Handshake is `_handle_socks_request` up to the forwarding, with `_refuse_socks_request`,
--   as steps on the session of Relay/Session; Relay/Upstream is `_connect_via_socks5`, Relay/Http
--   `_connect_via_http`, and Relay/Udp a turn of `_socks_udp_to_websocket` and of
--   `_websocket_to_socks_udp`. Relay/Channels has the maps of the channels with
--   `disconnect_channel`, Relay/Forwarding the loops between a remote socket and the WebSocket,
--   Relay/Connections `_handle_network_connection` with `_handle_tcp_connection` and
--   `_handle_udp_connection`, Relay/SocksForwarding the forwarding for SOCKS clients.
--   Relay/Consumed, Relay/Authentication, Relay/Established, Relay/Tunnel, Relay/Proxied,
--   Relay/Echo, Relay/Disconnection and Relay/Answers hold the proofs.
-- * `WSSocksClient`, pywssocks/client.py: Client, on the state of Client/State. Client/Url has
--   `_convert_ws_path` and `_build_ws_url_with_auth`, Client/Dispatcher `_message_dispatcher`,
--   Client/Requests `add_connector` and `remove_connector`, each up to the wait for the answer and
--   after it, Client/Connection `connect`, `_start_forward` and `_start_reverse` as a loop over
--   attempts, Client/Socks the wait for a connection and `_ssl_context`. Client/Login,
--   Client/Management and Client/Stream put the client together with the server and with the relay;
--   Client/Lifecycle and Client/Retries are about the end of the loop.
-- * Base has what all share: tests and conditionals, lists measured by the native numbers, Python's
--   dicts and sets as lists, exceptions as values. Text has `str` and `bytes` with UTF-8.
--
-- How code becomes definitions: numbers are natural numbers, and a field of one or more bytes is
-- checked where Python checks it. A dict or a set is a list in which only membership counts; a
-- dict keeps its order, since the code walks over it. Objects with an identity (connections,
-- sockets, tasks, queues) are numbers. A coroutine that holds a lock throughout is one step; a
-- task that starts after a sleep is a step of its own. Tasks that are only started are recorded
-- in a list. A wait is a list of what the loop finds each time that it looks. Fuel is used in two
-- places of Relay/Http: the loop that reads the response gets one unit for each byte that is
-- still to come and two more, which suffices since each turn takes a byte or ends, and the digits
-- of n get n + 1.
--
-- What is a parameter: gzip and json (`Runtime`, with its documented laws in Message/Canonical),
-- the texts of IP addresses (`Inet`), `random.choice` (any function that picks an element),
-- random tokens, the time of the event loop, whether a socket can be bound or connected, which
-- connections are open (`Wire`), SHA-256, the order of a set (`arrange`), urllib (`Urls`),
-- base64, lossy decoding and `int` of a text (`HttpText`), `str` of an exception, and the message
-- that answers a request. The pieces in which a peer's bytes arrive are an argument as well:
-- `sock_recv` sees one piece at a time.
--
-- Limits of the models: a port in a message is not negative. Exceptions carry a fixed text in place
-- of a formatted one. In `_handle_socks_request` of the relay the forwarding itself, and what happens
-- when it fails, is left out: the session that is returned has been cleaned up as at its end. In
-- `_handle_websocket` what the dispatchers do while the client is connected is an argument. The two
-- directions of a forwarding are separate loops: which of them ends first is not modelled, and what
-- `_message_dispatcher` does once its loop is over, the cancelling of its handlers, is left out. For a
-- direct connection `inet_pton`, `getaddrinfo` and the connecting of a socket are arguments.
--
-- Not modelled because they are input and output only: the accepting of SOCKS connections by the
-- client, serving, heartbeats, logging, and the command line in pywssocks/cli.py.
-- `_disconnect_channel` of the server is not modelled because nothing calls it.
pub mod Base
pub mod Text
pub mod Message
pub mod PortPool
pub mod Client
pub mod ConnectorCache
pub mod SocketManager
pub mod Server
pub mod Relay
