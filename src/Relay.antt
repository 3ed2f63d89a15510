-- ===== src/Relay.antt =====
-- pywssocks/relay.py: `Relay`, the SOCKS side of both programs.
pub mod Inet
pub mod Udp
pub mod Echo
pub mod Session
pub mod Handshake
pub mod Consumed
pub mod Authentication
pub mod Established
pub mod Upstream
pub mod Tunnel
pub mod Http
pub mod Proxied
pub mod Channels
pub mod Forwarding
pub mod Connections
pub mod Answers
pub mod SocksForwarding
pub mod Disconnection
mod Tests
mod UpstreamTests
mod HttpTests
