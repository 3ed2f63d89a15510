-- ===== src/SocketManager/Tests.antt =====
-- The manager of listening sockets at short runs.
use pywssocks.Base.{nat_eq, ◌≡◌, refl, true, none, some, List, [], ◌∷◌, ◌++◌, arith}
use pywssocks.Base.Dict.{get, insert, erase}
use pywssocks.SocketManager.{
  Entry, SocketManager, init, get_socket, release_socket, wake, Op, acquire, release, expire, apply,
  run, remove_at,
}
use pywssocks.SocketManager.Validity.{IsValid, run-IsValid}
use pywssocks.SocketManager.Sharing.{refs_of, refs-run, stale_cleanup}

abbrev history : List Op
history = acquire 1080 true ∷ acquire 1080 true ∷ release 1080 5 ∷ release 1080 6 ∷ []

run-history :
    run (history ++ (expire 0 ∷ [])) init
    ≡ record { sockets = []; cleanup_tasks = []; closed = 0 ∷ []; created = 1 }
unfolding run apply get_socket release_socket wake get insert erase remove_at
run-history = refl

run-IsValid_example : IsValid (run history init)
run-IsValid_example = run-IsValid history (omega arith)

refs-run_example : refs_of 1080 (run history init) ≡ 0
unfolding get_socket get insert run apply release_socket
refs-run_example = refs-run 1080 history init

abbrev in_use : SocketManager
in_use = record {
  sockets = (1080, record { sock = 0; timestamp = 0; refs = 1 }) ∷ [];
  cleanup_tasks = [];
  closed = [];
  created = 1;
}

abbrev used_entry : Entry
used_entry = record { sock = 0; timestamp = 0; refs = 1 }

stale_cleanup_example :
    let m' = release_socket 1080 20 (get_socket 1080 true (release_socket 1080 5 in_use)).0 in
    (m'.cleanup_tasks ≡ 1080 ∷ 1080 ∷ [])
    × (get 1080 m'.sockets ≡ some (record { sock = 0; timestamp = 20; refs = 0 }))
    × (get 1080 (wake 0 m').sockets ≡ none)
    × ((wake 0 m').closed ≡ 0 ∷ [])
stale_cleanup_example =
    stale_cleanup 1080 5 20 true in_use used_entry (unfold get in refl) refl refl (omega arith)
