-- ===== src/SocketManager/Validity.antt =====
-- Sockets of the table are open, belong to one port each, and are watched while nobody uses them.
use pywssocks.Base.{
  nat_eq, ℕ, zero, suc, ◌+◌, ◌-◌, ◌<◌, ◌≡◌, ◌≢◌, refl, Bool, true, false, ◌&&◌, ◌||◌, Option, none,
  some, List, [], ◌∷◌, ◌++◌, arith, ◌==◌, leb, ltb, inl, inr, eq_iff, get_elem?, All, Bool-cases,
}
use pywssocks.Base.Dict.{Dict, get, insert, erase, get-insert, get-erase}
use pywssocks.Base.Sets.{elem}
use pywssocks.SocketManager.{
  Entry, SocketManager, init, get_entry, get_socket, release_entry, release_socket, cleanup_entry,
  cleanup_socket, remove_at, wake_port, wake, socks, close, Op, acquire, release, expire, shut,
  apply, run,
}

pub record IsValid (m : SocketManager) : Type 0 where
  -- A socket of the table is not closed.
  pub is_open : (port : ℕ) (e : Entry) → get port m.sockets ≡ some e → elem e.sock m.closed ≡ false
  -- No two ports share a socket.
  pub distinct :
      (p q : ℕ) (e f : Entry)
      → get p m.sockets ≡ some e
      → get q m.sockets ≡ some f
      → e.sock ≡ f.sock
      → p ≡ q
  -- A socket without users is in its grace period, and a task is there to close it.
  pub watched :
      (port : ℕ) (e : Entry)
      → get port m.sockets ≡ some e
      → e.refs ≡ 0
      → (0 < e.timestamp) × (elem port m.cleanup_tasks ≡ true)
  pub older : (port : ℕ) (e : Entry) → get port m.sockets ≡ some e → e.sock < m.created
  pub listed : All (λ x. x.1.sock < m.created) m.sockets
  pub past : (s : ℕ) → elem s m.closed ≡ true → s < m.created

-- The time of a running event loop is not 0.
abbrev pub IsTimely : Op → Type 0
IsTimely (release port now) = 0 < now
IsTimely _ = Unit

abbrev IsOld : ℕ → ℕ × Entry → Type 0
IsOld n x = x.1.sock < n

listed-insert :
    (port n : ℕ) (e : Entry) (d : Dict ℕ Entry)
    → e.sock < n
    → All (IsOld n) d
    → All (IsOld n) (insert port e d)
unfolding insert
listed-insert port n e [] h all = (h, tt)
listed-insert port n e (x ∷ d) h all = ground (arith, listed-insert port n e d h all.1)

listed-erase : (port n : ℕ) (d : Dict ℕ Entry) → All (IsOld n) d → All (IsOld n) (erase port d)
unfolding erase
listed-erase port n [] all = tt
listed-erase port n (x ∷ d) all = ground (arith, listed-erase port n d all.1)

listed-grow : (n : ℕ) (d : Dict ℕ Entry) → All (IsOld n) d → All (IsOld (n + 1)) d
listed-grow n [] all = tt
listed-grow n (x ∷ d) all = (omega arith, listed-grow n d all.1)

elem-socks :
    (s n : ℕ) (d : Dict ℕ Entry) (closed : List ℕ)
    → All (IsOld n) d
    → (elem s closed ≡ true → s < n)
    → elem s (socks d ++ closed) ≡ true
    → s < n
unfolding elem
elem-socks s n [] closed all past h = past h
elem-socks s n (x ∷ d) closed all past h = ground (arith, elem-socks s n d closed all.1 past)

elem-remove_at :
    (i p q : ℕ) (l : List ℕ)
    → get_elem? l i ≡ some p
    → p ≢ q
    → elem q l ≡ true
    → elem q (remove_at i l) ≡ true
unfolding elem remove_at
elem-remove_at i p q [] h ne m = cc
elem-remove_at zero p q (x ∷ l) h ne m = ground arith
elem-remove_at (suc i) p q (x ∷ l) h ne m = ground (arith, elem-remove_at i p q l h ne)

elem-append : (q : ℕ) (l r : List ℕ) → elem q (l ++ r) ≡ (elem q l || elem q r)
unfolding elem
elem-append q [] r = refl
elem-append q (x ∷ l) r = ground (arith, elem-append q l r)

get_new-IsValid :
    (port : ℕ) (m : SocketManager)
    → IsValid m
    → get port m.sockets ≡ none
    → IsValid (get_entry port true none m).0
unfolding get_entry
get_new-IsValid port m v h =
    let new : Entry = record { sock = m.created; timestamp = 0; refs = 1 } in
    record {
      is_open = λ p e g. grind (arith, get-insert, v.is_open, v.past);
      distinct = λ p q e f g k same. ground (
        arith,
        get-insert port p new m.sockets,
        get-insert port q new m.sockets,
        v.distinct p q e f,
        v.older p e,
        v.older q f,
      );
      watched = λ p e g idle. ground (arith, get-insert port p new m.sockets, v.watched p e);
      older = λ p e g. ground (arith, get-insert port p new m.sockets, v.older p e);
      listed =
          listed-insert port (m.created + 1) new m.sockets (omega arith)
            (listed-grow m.created m.sockets v.listed);
      past = λ s k. omega (arith, v.past s k);
    }

-- A new entry for a port that keeps its socket.
module _ (port : ℕ) (m : SocketManager) (v : IsValid m) (e e' : Entry)
    (h : get port m.sockets ≡ some e) (same_sock : e'.sock ≡ e.sock) (tasks : List ℕ)
    (kept : (q : ℕ) → elem q m.cleanup_tasks ≡ true → elem q tasks ≡ true)
    (idle : e'.refs ≡ 0 → (0 < e'.timestamp) × (elem port tasks ≡ true)) where
  replace-IsValid : IsValid (record m { sockets = insert port e' m.sockets; cleanup_tasks = tasks })
  replace-IsValid = record {
    is_open =
        λ p f g. ground (arith, get-insert port p e' m.sockets, v.is_open p f, v.is_open port e);
    distinct = λ p q f k g l same. ground (
      arith,
      get-insert port p e' m.sockets,
      get-insert port q e' m.sockets,
      eq_iff port p,
      eq_iff port q,
      v.distinct p q f k,
      v.distinct port q e k,
      v.distinct p port f e,
    );
    watched = λ p f g z.
        ground (arith, get-insert port p e' m.sockets, eq_iff port p, v.watched p f, kept p);
    older = λ p f g. ground (arith, get-insert port p e' m.sockets, v.older p f, v.older port e);
    listed = listed-insert port m.created e' m.sockets (ground (arith, v.older port e)) v.listed;
    past = v.past;
  }

elem-append_left : (l r : List ℕ) (q : ℕ) → elem q l ≡ true → elem q (l ++ r) ≡ true
elem-append_left l r q h = ground (arith, elem-append q l r)

elem_last : (l : List ℕ) (q : ℕ) → elem q (l ++ (q ∷ [])) ≡ true
unfolding elem
elem_last l q = ground (arith, elem-append q l (q ∷ []), eq_iff q q)

get-IsValid :
    (port : ℕ) (bound : Bool) (o : Option Entry) (m : SocketManager)
    → IsValid m
    → get port m.sockets ≡ o
    → IsValid (get_entry port bound o m).0
unfolding get_entry
get-IsValid port bound (some e) m v h =
    replace-IsValid port m v e (record e { refs = e.refs + 1 }) h refl m.cleanup_tasks (λ q t. t)
      (λ z. absurd (omega arith))
get-IsValid port false none m v h = record {
  is_open = v.is_open;
  distinct = v.distinct;
  watched = v.watched;
  older = λ p e g. omega (arith, v.older p e g);
  listed = listed-grow m.created m.sockets v.listed;
  past = λ s k. omega (arith, v.past s k);
}
get-IsValid port true none m v h = get_new-IsValid port m v h

release-IsValid :
    (port now : ℕ) (o : Option Entry) (m : SocketManager)
    → IsValid m
    → 0 < now
    → get port m.sockets ≡ o
    → IsValid (release_entry port now o m)
unfolding release_entry
release-IsValid port now none m v late h = v
release-IsValid port now (some e) m v late h = elim (Bool-cases (leb e.refs 1)) [
  | inl last ↦ rw last (
      replace-IsValid port m v e (record { sock = e.sock; timestamp = now; refs = 0 }) h refl
        (m.cleanup_tasks ++ (port ∷ [])) (elem-append_left m.cleanup_tasks (port ∷ []))
        (λ z. (late, elem_last m.cleanup_tasks port)))
  | inr shared ↦ rw shared (
      replace-IsValid port m v e (record { sock = e.sock; timestamp = 0; refs = e.refs - 1 }) h refl
        m.cleanup_tasks (λ q t. t) (λ z. absurd (ground arith)))
]

-- The task for `port` has left the set and has seen the entry `o`.
cleanup-IsValid :
    (port : ℕ) (o : Option Entry) (m : SocketManager) (tasks : List ℕ)
    → IsValid m
    → ((q : ℕ) → port ≢ q → elem q m.cleanup_tasks ≡ true → elem q tasks ≡ true)
    → get port m.sockets ≡ o
    → IsValid (cleanup_entry port o (record m { cleanup_tasks = tasks }))
unfolding cleanup_entry elem
cleanup-IsValid port none m tasks v kept h = record {
  is_open = v.is_open;
  distinct = v.distinct;
  watched = λ p e g z. ground (arith, v.watched p e, kept p);
  older = v.older;
  listed = v.listed;
  past = v.past;
}
cleanup-IsValid port (some e) m tasks v kept h =
    elim (Bool-cases (e.refs == 0 && ltb 0 e.timestamp)) [
      | inl unused ↦ rw unused (record {
        is_open = λ p f g. ground (
          arith,
          get-erase port p m.sockets,
          v.is_open p f,
          v.distinct port p e f,
          eq_iff port p,
        );
        distinct = λ p q f k g l same.
            ground
              (arith, get-erase port p m.sockets, get-erase port q m.sockets, v.distinct p q f k);
        watched = λ p f g z.
            ground (arith, get-erase port p m.sockets, eq_iff port p, v.watched p f, kept p);
        older = λ p f g. ground (arith, get-erase port p m.sockets, v.older p f);
        listed = listed-erase port m.created m.sockets v.listed;
        past = λ s k. ground (arith, v.past s, v.older port e);
      })
      | inr used ↦ rw used (record {
        is_open = v.is_open;
        distinct = v.distinct;
        watched = λ p f g z. ground (arith, v.watched p f, v.watched port e, kept p, eq_iff port p);
        older = v.older;
        listed = v.listed;
        past = v.past;
      })
    ]

wake-IsValid :
    (i : ℕ) (o : Option ℕ) (m : SocketManager)
    → IsValid m
    → get_elem? m.cleanup_tasks i ≡ o
    → IsValid (wake_port i o m)
unfolding wake_port cleanup_socket
wake-IsValid i none m v h = v
wake-IsValid i (some port) m v h =
    cleanup-IsValid port (get port m.sockets) m (remove_at i m.cleanup_tasks) v
      (λ q ne. elem-remove_at i port q m.cleanup_tasks h ne) refl

close-IsValid : (m : SocketManager) → IsValid m → IsValid (close m)
unfolding close get
close-IsValid m v = record {
  is_open = λ p e g. cc;
  distinct = λ p q e f g k same. cc;
  watched = λ p e g z. cc;
  older = λ p e g. cc;
  listed = tt;
  past = λ s. elem-socks s m.created m.sockets m.closed v.listed (v.past s);
}

apply-IsValid : (op : Op) (m : SocketManager) → IsTimely op → IsValid m → IsValid (apply op m)
unfolding apply get_socket release_socket wake
apply-IsValid (acquire port bound) m timely v = get-IsValid port bound (get port m.sockets) m v refl
apply-IsValid (release port now) m timely v =
    release-IsValid port now (get port m.sockets) m v timely refl
apply-IsValid (expire i) m timely v = wake-IsValid i (get_elem? m.cleanup_tasks i) m v refl
apply-IsValid shut m timely v = close-IsValid m v

init-IsValid : IsValid init
unfolding get elem
init-IsValid = record {
  is_open = λ p e g. cc;
  distinct = λ p q e f g k same. cc;
  watched = λ p e g z. cc;
  older = λ p e g. cc;
  listed = tt;
  past = λ s h. cc;
}

-- From an empty manager, after any calls and cleanups in any order, with the event loop's time
-- above 0, the manager is valid: its sockets are open, no two ports share one, and each socket
-- without users is in its grace period with a task that is still to close it.
pub run-IsValid : (ops : List Op) → All IsTimely ops → IsValid (run ops init)
unfolding run
run-IsValid ops timely = go ops init timely init-IsValid
  where
    go : (rest : List Op) (m : SocketManager) → All IsTimely rest → IsValid m → IsValid (run rest m)
    go [] m t v = v
    go (op ∷ rest) m t v = go rest (apply op m) t.1 (apply-IsValid op m t.0 v)

get_entry_is_open :
    (port : ℕ) (bound : Bool) (o : Option Entry) (m : SocketManager) (s : ℕ)
    → IsValid m
    → get port m.sockets ≡ o
    → (get_entry port bound o m).1 ≡ some s
    → elem s (get_entry port bound o m).0.closed ≡ false
unfolding get_entry
get_entry_is_open port bound (some e) m s v h g = ground (arith, v.is_open port e)
get_entry_is_open port false none m s v h g = cc
get_entry_is_open port true none m s v h g = ground (arith, v.past s)

-- In a valid manager, the socket that `get_socket` returns is open.
pub get_socket_is_open :
    (port : ℕ) (bound : Bool) (m : SocketManager) (s : ℕ)
    → IsValid m
    → (get_socket port bound m).1 ≡ some s
    → elem s (get_socket port bound m).0.closed ≡ false
unfolding get_socket
get_socket_is_open port bound m s v h =
    get_entry_is_open port bound (get port m.sockets) m s v refl h
