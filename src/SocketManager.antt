-- ===== src/SocketManager.antt =====
-- pywssocks/server.py: `SocketManager`, the listening sockets of the SOCKS5 servers with their
-- reference counts and grace periods. The lock makes each method one step.
pub mod Validity
pub mod Sharing
mod Tests
use pywssocks.Base.{
  zero, suc, nat_eq, ℕ, ◌+◌, ◌-◌, Bool, true, false, ◌&&◌, Option, none, some, List, [], ◌∷◌, ◌++◌,
  if◌then◌else◌, ◌==◌, leb, ltb, get_elem?,
}
use pywssocks.Base.Dict.{Dict, get, insert, erase}

-- The tuple (socket, timestamp, refs) of a port. Sockets are numbered in the order of creation.
pub record Entry : Type 0 where
  pub sock : ℕ
  pub timestamp : ℕ
  pub refs : ℕ

-- `cleanup_tasks` holds the port of each task that is still to run; `closed` the sockets that
-- were closed, and `created` how many there are.
pub record SocketManager : Type 0 where
  pub sockets : Dict ℕ Entry
  pub cleanup_tasks : List ℕ
  pub closed : List ℕ
  pub created : ℕ

abbrev pub init : SocketManager
init = record { sockets = []; cleanup_tasks = []; closed = []; created = 0 }

-- `bound` tells whether `bind` and `listen` succeed on a new socket; an OSError leaves no entry.
get_entry : ℕ → Bool → Option Entry → SocketManager → SocketManager × Option ℕ
get_entry port bound (some e) m =
    (record m { sockets = insert port (record e { refs = e.refs + 1 }) m.sockets }, some e.sock)
get_entry port false none m = (record m { created = m.created + 1 }, none)
get_entry port true none m = (
  record m {
    sockets = insert port (record { sock = m.created; timestamp = 0; refs = 1 }) m.sockets;
    created = m.created + 1;
  },
  some m.created,
)

unfoldable pub get_socket : ℕ → Bool → SocketManager → SocketManager × Option ℕ
unfolding get_entry
get_socket port bound m = get_entry port bound (get port m.sockets) m

-- `refs -= 1` and the test `refs <= 0`; a count does not go below 0 here, where the source stores
-- 0 as well.
release_entry : ℕ → ℕ → Option Entry → SocketManager → SocketManager
release_entry port now none m = m
release_entry port now (some e) m =
    if leb e.refs 1
    then (record m {
      sockets = insert port (record { sock = e.sock; timestamp = now; refs = 0 }) m.sockets;
      cleanup_tasks = m.cleanup_tasks ++ (port ∷ []);
    })
    else (record m {
      sockets = insert port (record { sock = e.sock; timestamp = 0; refs = e.refs - 1 }) m.sockets;
    })

-- `now` is the time of the event loop.
unfoldable pub release_socket : ℕ → ℕ → SocketManager → SocketManager
unfolding release_entry
release_socket port now m = release_entry port now (get port m.sockets) m

cleanup_entry : ℕ → Option Entry → SocketManager → SocketManager
cleanup_entry port none m = m
cleanup_entry port (some e) m =
    if e.refs == 0 && ltb 0 e.timestamp
    then record m { closed = e.sock ∷ m.closed; sockets = erase port m.sockets }
    else m

-- What `_cleanup_socket` does once its sleep is over.
unfoldable pub cleanup_socket : ℕ → SocketManager → SocketManager
unfolding cleanup_entry
cleanup_socket port m = cleanup_entry port (get port m.sockets) m

-- A task that has run leaves the set (`add_done_callback`).
pub remove_at : ℕ → List ℕ → List ℕ
remove_at i [] = []
remove_at zero (x ∷ xs) = xs
remove_at (suc i) (x ∷ xs) = x ∷ remove_at i xs

-- The task in place `i`, if there is one, wakes up.
wake_port : ℕ → Option ℕ → SocketManager → SocketManager
unfolding cleanup_socket
wake_port i none m = m
wake_port i (some port) m =
    cleanup_socket port (record m { cleanup_tasks = remove_at i m.cleanup_tasks })

unfoldable pub wake : ℕ → SocketManager → SocketManager
unfolding wake_port
wake i m = wake_port i (get_elem? m.cleanup_tasks i) m

-- The sockets of the table.
abbrev pub socks : Dict ℕ Entry → List ℕ
socks [] = []
socks ((port, e) ∷ d) = e.sock ∷ socks d

-- `close`: no task is left to run, every socket of the table is closed.
unfoldable pub close : SocketManager → SocketManager
close m = record m { sockets = []; cleanup_tasks = []; closed = socks m.sockets ++ m.closed }

-- The calls and events that change the manager.
pub data Op : Type 0 where
  acquire : ℕ → Bool → Op
  release : ℕ → ℕ → Op
  expire : ℕ → Op
  shut : Op

pub apply : Op → SocketManager → SocketManager
apply (acquire port bound) m = (get_socket port bound m).0
apply (release port now) m = release_socket port now m
apply (expire i) m = wake i m
apply shut m = close m

pub run : List Op → SocketManager → SocketManager
run [] m = m
run (op ∷ ops) m = run ops (apply op m)
