-- ===== src/Client/State.antt =====
-- What `WSSocksClient` keeps, with the maps of `Relay`, and what it has sent and put into queues.
-- `socks_tasks` counts the SOCKS servers that it has started as tasks, `sleeps` the times that it has
-- waited to connect again.
use pywssocks.Base.{list_eq, nat_eq, ℕ, Bool, Option, List}
use pywssocks.Text.{Str, Bytes}
use pywssocks.Message.Types.{Message, Json}
use pywssocks.Relay.Channels.{Relay}

pub record Client : Type 0 where
  pub ws_url : Str
  pub token : Str
  pub reverse : Bool
  pub reconnect : Bool
  pub socks_wait_server : Bool
  pub websocket : Option ℕ
  pub connected : Bool
  pub disconnected : Bool
  pub num_partners : Json
  pub relay : Relay
  pub socks_tasks : ℕ
  pub sleeps : ℕ
  pub next_queue : ℕ
  pub sent : List (ℕ × Bytes)
  pub delivered : List (ℕ × Message)
  pub handlers : List (ℕ × Message)
