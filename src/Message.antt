-- ===== src/Message.antt =====
-- pywssocks/message.py: the messages of the protocol and their binary format.
pub mod Types
pub mod Pack
pub mod Parse
pub mod Canonical
pub mod Fields
pub mod RoundTrip
pub mod Limits
pub mod Lawful
mod Tests
