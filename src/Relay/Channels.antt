-- ===== src/Relay/Channels.antt =====
-- The maps of `Relay` and what ends a channel: `disconnect_channel` and the delayed removal of its
-- queue. Tasks and queues are numbered; channels are the texts of their ids.
use pywssocks.Base.{
  list_eq, nat_eq, ℕ, Bool, true, ◌&&◌, Option, none, some, List, [], ◌∷◌, ◌++◌, if◌then◌else◌, ltb,
}
use pywssocks.Base.Dict.{Dict, get, insert, erase, contains}
use pywssocks.Text.{Str}

pub record Relay : Type 0 where
  pub message_queues : Dict Str ℕ
  pub udp_client_addrs : Dict Str (Str × ℕ)
  pub tcp_tasks : Dict Str ℕ
  pub udp_tasks : Dict Str ℕ
  pub connection_success_map : Dict Str Bool
  pub cancelled : List ℕ
  pub cleanups : List Str

unfoldable pub set_connection_success : Str → Relay → Relay
set_connection_success channel_id r = record r {
  connection_success_map = insert channel_id true r.connection_success_map;
}

-- `if not task.done(): task.cancel()`, where there is a task.
abbrev pub cancel : (ℕ → Bool) → Option ℕ → List ℕ → List ℕ
cancel is_done none cancelled = cancelled
cancel is_done (some task) cancelled = if is_done task then cancelled else cancelled ++ (task ∷ [])

-- `delay` in seconds. A delayed removal is recorded in `cleanups`.
abbrev pub drop_queue : Str → ℕ → Relay → Relay
drop_queue channel_id delay r =
    if ltb 0 delay && contains channel_id r.message_queues
    then record r { cleanups = r.cleanups ++ (channel_id ∷ []) }
    else record r { message_queues = erase channel_id r.message_queues }

-- All but the queue. `is_done` tells of a task whether it is done.
abbrev pub cleared : (ℕ → Bool) → Str → Relay → Relay
cleared is_done channel_id r =
    let stopped = cancel is_done (get channel_id r.tcp_tasks) r.cancelled in
    record r {
      cancelled = cancel is_done (get channel_id r.udp_tasks) stopped;
      tcp_tasks = erase channel_id r.tcp_tasks;
      udp_tasks = erase channel_id r.udp_tasks;
      udp_client_addrs = erase channel_id r.udp_client_addrs;
      connection_success_map = erase channel_id r.connection_success_map;
    }

unfoldable pub disconnect_channel : (ℕ → Bool) → Str → ℕ → Relay → Relay
disconnect_channel is_done channel_id delay r =
    drop_queue channel_id delay (cleared is_done channel_id r)

-- What `_delayed_queue_cleanup` does once its sleep is over.
unfoldable pub delayed_queue_cleanup : Str → Relay → Relay
delayed_queue_cleanup channel_id r = record r { message_queues = erase channel_id r.message_queues }
