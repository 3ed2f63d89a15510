-- ===== src/SocketManager/Sharing.antt =====
-- Reference counts, and what a client of the manager sees of a socket.
use pywssocks.Base.{
  lt→ltb, eq_refl, eq_iff, nat_eq, ℕ, ◌+◌, ◌-◌, ◌<◌, ◌≡◌, refl, ◌∙◌, ap, Bool, true, false, ◌&&◌,
  Option, none, some, List, [], ◌∷◌, ◌++◌, arith, if◌then◌else◌, ◌==◌,
}
use pywssocks.Base.Dict.{Dict, insert, is_some, get, get-insert, get-erase}
use pywssocks.SocketManager.{
  Entry, SocketManager, get_entry, get_socket, release_entry, release_socket, cleanup_entry,
  cleanup_socket, wake_port, wake, close, Op, acquire, release, expire, shut, apply, run,
}

abbrev refs_in : Option Entry → ℕ
refs_in none = 0
refs_in (some e) = e.refs

-- How many users the socket of a port has.
abbrev pub refs_of : ℕ → SocketManager → ℕ
refs_of port m = refs_in (get port m.sockets)

-- The counter of port `j`, told only of the calls and of whether `get_socket` returned.
abbrev pub counted : ℕ → Op → SocketManager → ℕ → ℕ
counted j (acquire port bound) m n =
    if port == j && is_some (get_socket port bound m).1 then n + 1 else n
counted j (release port now) m n = if port == j then n - 1 else n
counted j (expire i) m n = n
counted j shut m n = 0

refs-get :
    (j port : ℕ) (bound : Bool) (o : Option Entry) (m : SocketManager)
    → get port m.sockets ≡ o
    → refs_of j (get_entry port bound o m).0 ≡ counted j (acquire port bound) m (refs_of j m)
unfolding get_entry get_socket
refs-get j port bound (some e) m h =
    ground (arith, get-insert port j (record e { refs = e.refs + 1 }) m.sockets)
refs-get j port false none m h = ground arith
refs-get j port true none m h =
    ground
      (arith, get-insert port j (record { sock = m.created; timestamp = 0; refs = 1 }) m.sockets)

refs-release :
    (j port now : ℕ) (o : Option Entry) (m : SocketManager)
    → get port m.sockets ≡ o
    → refs_of j (release_entry port now o m) ≡ (if port == j then refs_of j m - 1 else refs_of j m)
unfolding release_entry
refs-release j port now none m h = ground arith
refs-release j port now (some e) m h = ground (
  arith,
  get-insert port j (record { sock = e.sock; timestamp = now; refs = 0 }) m.sockets,
  get-insert port j (record { sock = e.sock; timestamp = 0; refs = e.refs - 1 }) m.sockets,
)

refs-cleanup :
    (j port : ℕ) (o : Option Entry) (m : SocketManager)
    → get port m.sockets ≡ o
    → refs_of j (cleanup_entry port o m) ≡ refs_of j m
unfolding cleanup_entry
refs-cleanup j port none m h = refl
refs-cleanup j port (some e) m h = ground (arith, get-erase port j m.sockets)

refs-wake : (j i : ℕ) (o : Option ℕ) (m : SocketManager) → refs_of j (wake_port i o m) ≡ refs_of j m
unfolding wake_port cleanup_socket
refs-wake j i none m = refl
refs-wake j i (some port) m = refs-cleanup j port (get port m.sockets) _ refl

-- The two calls by themselves, and a call of `get_socket` that raises.
pub refs-get_socket :
    (j port : ℕ) (bound : Bool) (m : SocketManager)
    → refs_of j (get_socket port bound m).0 ≡ counted j (acquire port bound) m (refs_of j m)
unfolding get_socket
refs-get_socket j port bound m = refs-get j port bound (get port m.sockets) m refl

pub refs-release_socket :
    (j port now : ℕ) (m : SocketManager)
    → refs_of j (release_socket port now m) ≡ (if port == j then refs_of j m - 1 else refs_of j m)
unfolding release_socket
refs-release_socket j port now m = refs-release j port now (get port m.sockets) m refl

pub get_socket_raises :
    (port : ℕ) (bound : Bool) (m : SocketManager)
    → (get_socket port bound m).1 ≡ none
    → refs_of port m ≡ 0
unfolding get_socket
get_socket_raises port bound m raises = by_entry (get port m.sockets) bound raises
  where
    by_entry : (o : Option Entry) (b : Bool) → (get_entry port b o m).1 ≡ none → refs_in o ≡ 0
    by_entry none b h = refl
    by_entry (some e) true h = cc
    by_entry (some e) false h = cc

-- One call or event changes the number of users of each port as the counter says.
refs-apply :
    (j : ℕ) (op : Op) (m : SocketManager) → refs_of j (apply op m) ≡ counted j op m (refs_of j m)
unfolding apply get_socket release_socket wake close get
refs-apply j (acquire port bound) m =
    unfold get_socket in refs-get j port bound (get port m.sockets) m refl
refs-apply j (release port now) m = refs-release j port now (get port m.sockets) m refl
refs-apply j (expire i) m = refs-wake j i _ m
refs-apply j shut m = refl

-- The counter over a run.
abbrev pub counted_over : ℕ → List Op → SocketManager → ℕ → ℕ
counted_over j [] m n = n
counted_over j (op ∷ ops) m n = counted_over j ops (apply op m) (counted j op m n)

-- After any run of calls and cleanups, the number of references that the manager keeps for a port is
-- a counter that goes up by one at each `get_socket` for the port that returned and down by one, but
-- not below 0, at each `release_socket` of it; no cleanup changes it and `close` resets it.
pub refs-run :
    (j : ℕ) (ops : List Op) (m : SocketManager)
    → refs_of j (run ops m) ≡ counted_over j ops m (refs_of j m)
unfolding run
refs-run j [] m = refl
refs-run j (op ∷ ops) m =
    refs-run j ops (apply op m) ∙ ap (counted_over j ops (apply op m)) (refs-apply j op m)

insert_self : (port : ℕ) (e : Entry) (d : Dict ℕ Entry) → get port (insert port e d) ≡ some e
insert_self port e d = ground (arith, get-insert port port e d, eq_iff port port)

-- The manager after the last user of `e` at `port` has left, and after it is asked for again.
abbrev released : ℕ → ℕ → Entry → SocketManager → SocketManager
released port now e m = record m {
  sockets = insert port (record { sock = e.sock; timestamp = now; refs = 0 }) m.sockets;
  cleanup_tasks = m.cleanup_tasks ++ (port ∷ []);
}

release_last :
    (port now : ℕ) (m : SocketManager) (e : Entry)
    → get port m.sockets ≡ some e
    → e.refs ≡ 1
    → release_socket port now m ≡ released port now e m
unfolding release_socket
release_last port now m e h one = rw (h, release_entry, one)

abbrev reused : ℕ → Entry → SocketManager → SocketManager
reused port e m = record m { sockets = insert port (record e { refs = e.refs + 1 }) m.sockets }

get_known :
    (port : ℕ) (bound : Bool) (m : SocketManager) (e : Entry)
    → get port m.sockets ≡ some e
    → get_socket port bound m ≡ (reused port e m, some e.sock)
unfolding get_socket
get_known port bound m e h = rw (h, get_entry)

cleanup_used :
    (port p : ℕ) (o : Option Entry) (m : SocketManager) (e : Entry)
    → get p m.sockets ≡ o
    → get port m.sockets ≡ some e
    → 0 < e.refs
    → get port (cleanup_entry p o m).sockets ≡ some e
unfolding cleanup_entry
cleanup_used port p none m e g h used = h
cleanup_used port p (some f) m e g h used =
    ground (arith, get-erase p port m.sockets, eq_iff p port)

-- A cleanup leaves the entry of a socket in use alone.
wake_used :
    (port i : ℕ) (o : Option ℕ) (m : SocketManager) (e : Entry)
    → get port m.sockets ≡ some e
    → 0 < e.refs
    → get port (wake_port i o m).sockets ≡ some e
unfolding wake_port cleanup_socket
wake_used port i none m e h used = h
wake_used port i (some p) m e h used = cleanup_used port p (get p m.sockets) _ e refl h used

-- A socket that is released and asked for again before its cleanup runs is the same socket, and
-- the cleanup then leaves its entry alone.
pub revived :
    (port now i : ℕ) (bound : Bool) (m : SocketManager) (e : Entry)
    → get port m.sockets ≡ some e
    → e.refs ≡ 1
    → let (m', s) = get_socket port bound (release_socket port now m) in
      (s ≡ some e.sock)
      × (get port (wake i m').sockets ≡ some (record { sock = e.sock; timestamp = now; refs = 1 }))
revived port now i bound m e h one =
    let idle : Entry = record { sock = e.sock; timestamp = now; refs = 0 } in
    let m' = released port now e m in
    rw
      (
        release_last port now m e h one,
        get_known port bound m' idle (insert_self port idle m.sockets),
      )
      (
        refl,
        unfold wake in
            wake_used port i _ (reused port idle m') (record idle { refs = 1 })
              (insert_self port _ m'.sockets) (omega arith),
      )

-- A cleanup task that was started by an earlier release ends a later grace period at once: after
-- release, reuse and a second release of a socket with one user, the first of the two tasks to run
-- closes the socket and drops its entry.
pub stale_cleanup :
    (port t u : ℕ) (bound : Bool) (m : SocketManager) (e : Entry)
    → get port m.sockets ≡ some e
    → e.refs ≡ 1
    → m.cleanup_tasks ≡ []
    → 0 < u
    → let m' = release_socket port u (get_socket port bound (release_socket port t m)).0 in
      (m'.cleanup_tasks ≡ port ∷ port ∷ [])
      × (get port m'.sockets ≡ some (record { sock = e.sock; timestamp = u; refs = 0 }))
      × (get port (wake 0 m').sockets ≡ none)
      × ((wake 0 m').closed ≡ e.sock ∷ m.closed)
unfolding wake wake_port cleanup_socket cleanup_entry
stale_cleanup port t u bound m e h one idle late =
    let first : Entry = record { sock = e.sock; timestamp = t; refs = 0 } in
    let again : Entry = record { sock = e.sock; timestamp = t; refs = 1 } in
    let last : Entry = record { sock = e.sock; timestamp = u; refs = 0 } in
    let after_release = released port t e m in
    let after_reuse = reused port first after_release in
    let after_both = released port u again after_reuse in
    rw
      (
        release_last port t m e h one,
        get_known port bound after_release first (insert_self port first m.sockets),
        release_last port u after_reuse again (insert_self port again after_release.sockets) refl,
        idle,
        insert_self port last after_reuse.sockets,
        lt→ltb 0 u late,
        get-erase port port after_both.sockets,
        eq_refl port,
      )
      (refl, refl, refl, refl)
