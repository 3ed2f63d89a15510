-- ===== src/Server.antt =====
-- pywssocks/server.py: the state of `WSSocksServer`, with the tokens and the connected clients.
pub mod State
pub mod Tokens
pub mod Remove
pub mod Ports
pub mod Additions
pub mod History
pub mod RoundRobin
pub mod Dropped
pub mod Removal
pub mod Pending
pub mod Clients
pub mod Greeting
pub mod Hub
pub mod Admission
pub mod Dispatch
pub mod Routing
pub mod Authority
pub mod Membership
pub mod Visits
pub mod Sending
pub mod Welcome
pub mod Stable
pub mod Socks
pub mod Service
pub mod SocksServer
pub mod Small
mod Tests
mod ClientTests
mod MessageTests
