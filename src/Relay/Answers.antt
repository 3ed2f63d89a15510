-- ===== src/Relay/Answers.antt =====
-- What the other side is told of a connection.
use pywssocks.Base.{list_eq, nat_eq, ◌≡◌, Option, none, some, List, [], ◌∷◌, ◌++◌, ok, Exception}
use pywssocks.Text.{Bytes}
use pywssocks.Message.Types.{Uuid, Message}
use pywssocks.Message.Pack.{pack_message}
use pywssocks.Relay.Connections.{
  Opening, connected, unconnected, no_socket, Peer, Network, succeeded, failed_with,
}

abbrev pub farewell : Uuid → Message
farewell channel_id = Message.disconnect (record { channel_id = channel_id; error = none })

-- The exception with which the opening of a socket fails.
abbrev pub fails_with : Opening → Option Exception
fails_with (connected sock) = none
fails_with (unconnected sock e) = some e
fails_with (no_socket e) = some e

-- The bytes of the messages about a channel, for one way in which the opening ends: the message of
-- failure is packed for the exception that occurs, if one does.
pub record Packed (net : Network) (channel_id : Uuid) (o : Opening) : Type 0 where
  pub yes_ : Bytes
  pub no_ : Bytes
  pub bye : Bytes
  pub packs_yes : pack_message net.runtime (succeeded channel_id) ≡ ok yes_
  pub packs_no :
      (e : Exception)
      → fails_with o ≡ some e
      → pack_message net.runtime (failed_with net channel_id e) ≡ ok no_
  pub packs_bye : pack_message net.runtime (farewell channel_id) ≡ ok bye

-- What was sent and closed, by whether the socket could be opened.
abbrev pub IsAnswered : Bytes → Bytes → Bytes → List Bytes → Peer → Opening → Peer → Type 0
IsAnswered yes_ no_ bye traffic p (connected sock) p' =
    (p'.sent ≡ p.sent ++ (yes_ ∷ []) ++ traffic ++ (bye ∷ []))
    × (p'.closed ≡ p.closed ++ (sock ∷ []))
IsAnswered yes_ no_ bye traffic p (unconnected sock e) p' =
    (p'.sent ≡ p.sent ++ (no_ ∷ []) ++ (bye ∷ [])) × (p'.closed ≡ p.closed ++ (sock ∷ []))
IsAnswered yes_ no_ bye traffic p (no_socket e) p' =
    (p'.sent ≡ p.sent ++ (no_ ∷ []) ++ (bye ∷ [])) × (p'.closed ≡ p.closed)
