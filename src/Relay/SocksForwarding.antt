-- ===== src/Relay/SocksForwarding.antt =====
-- `_handle_socks_tcp_forward`, `_handle_socks_udp_forward` and `_monitor_socks_tcp` of relay.py: what
-- they change of the maps, and the disconnect message at their end.
use pywssocks.Base.{list_eq, nat_eq, ℕ, Bool, true, false, none, List, [], ◌∷◌, ◌++◌}
use pywssocks.Base.Dict.{insert, erase}
use pywssocks.Text.{Str, Bytes}
use pywssocks.Message.Types.{Uuid, Message}
use pywssocks.Server.Clients.{uuid_text}
use pywssocks.Relay.Connections.{Peer, Network, send_message, record_task}

-- A new queue under the channel, and the task of one direction; `traffic` is what that direction
-- sends.
abbrev pub start_forward_tasks : Bool → Str → ℕ → ℕ → List Bytes → Peer → Peer
start_forward_tasks is_tcp channel queue task traffic p = record p {
  relay =
      record_task is_tcp channel task
        (record p.relay { message_queues = insert channel queue p.relay.message_queues });
  sent = p.sent ++ traffic;
}

-- A message that cannot be sent is passed over.
unfoldable pub send_disconnect : Network → Uuid → Peer → Peer
send_disconnect net channel_id p =
    (send_message net (Message.disconnect (record { channel_id = channel_id; error = none })) p).0

unfoldable pub handle_socks_tcp_forward : Network → Uuid → ℕ → ℕ → List Bytes → Peer → Peer
unfolding send_disconnect
handle_socks_tcp_forward net channel_id queue task traffic p =
    send_disconnect net channel_id
      (start_forward_tasks true (uuid_text channel_id) queue task traffic p)

unfoldable pub handle_socks_udp_forward : Network → Uuid → ℕ → ℕ → List Bytes → Peer → Peer
unfolding send_disconnect
handle_socks_udp_forward net channel_id queue task traffic p =
    let told =
      send_disconnect net channel_id
        (start_forward_tasks false (uuid_text channel_id) queue task traffic p) in
    record told {
      relay = record told.relay {
        udp_client_addrs = erase (uuid_text channel_id) told.relay.udp_client_addrs;
      };
    }

-- Whether the pieces that come from the SOCKS client end its connection.
unfoldable pub monitor_socks_tcp : List Bytes → Bool
monitor_socks_tcp [] = false
monitor_socks_tcp ([] ∷ pieces) = true
monitor_socks_tcp ((c ∷ piece) ∷ pieces) = monitor_socks_tcp pieces
