-- ===== src/Client.antt =====
-- `WSSocksClient` of client.py.
pub mod State
pub mod Url
pub mod Dispatcher
pub mod Requests
pub mod Connection
pub mod Lifecycle
pub mod Retries
pub mod Management
pub mod Login
pub mod Stream
pub mod Socks
pub mod Small
mod Tests
mod ConnectionTests
