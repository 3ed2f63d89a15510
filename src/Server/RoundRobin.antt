-- ===== src/Server/RoundRobin.antt =====
-- The clients of a token are served in turn.
use pywssocks.Base.{
  list_eq, nat_eq, ℕ, zero, suc, ◌+◌, ◌-◌, ◌%◌, ◌<◌, ◌≤◌, ◌≡◌, refl, ◌∙◌, ap, Option, none, some,
  List, [], ◌∷◌, ◌⊎◌, sym, arith, eq_iff, eq_refl, length, get_elem?, inl, inr, leb, Bool-cases,
}
use native.Mathlib.Nat.{mod-lt, mod-eq_of_lt, mod-add-mod, add-mod_right}
use pywssocks.Base.Dict.{get, insert, get-insert}
use pywssocks.Text.{Str}
use pywssocks.Message.Types.{Uuid}
use pywssocks.Server.State.{Server}
use pywssocks.Server.Tokens.{index_or_zero, next_of, get_next_websocket}

-- The connection of the client in a place.
abbrev pub connection : Option (Uuid × ℕ) → Option ℕ
connection none = none
connection (some client) = some client.1

get_elem?_in_range :
    {A : Type 0} (l : List A) (i : ℕ) → i < length l → (a : A) × (get_elem? l i ≡ some a)
get_elem?_in_range [] i h = absurd (omega arith)
get_elem?_in_range (x ∷ l) zero h = (x, refl)
get_elem?_in_range (x ∷ l) (suc i) h = get_elem?_in_range l i (omega arith)

abbrev pub index_of : Str → Server → ℕ
index_of token s = index_or_zero (get token s.token_indexes)

module _ (token : Str) (c : Uuid × ℕ) (cs : List (Uuid × ℕ)) where
  abbrev all : List (Uuid × ℕ)
  all = c ∷ cs

  abbrev next_index : Server → ℕ
  next_index s = (index_of token s + 1) % length all

  -- One call: the next place, which is in range, so that the fallback to the first is not taken.
  next-place :
      (s : Server)
      → get token s.token_clients ≡ some all
      → get_next_websocket token s ≡ (
        record s { token_indexes = insert token (next_index s) s.token_indexes },
        connection (get_elem? all (next_index s)),
      )
  unfolding get_next_websocket next_of
  next-place s h =
      let (client, found) =
        get_elem?_in_range all (next_index s) (mod-lt (index_of token s + 1) (omega arith)) in
      rw (h, found)

-- The server after `k` calls.
pub after_calls : ℕ → Str → Server → Server
after_calls zero token s = s
after_calls (suc k) token s = after_calls k token (get_next_websocket token s).0

module _ (token : Str) (c : Uuid × ℕ) (cs : List (Uuid × ℕ)) where
  call_after :
      (k : ℕ) (s : Server)
      → get token s.token_clients ≡ some (c ∷ cs)
      → (get_next_websocket token (after_calls k token s)).1
        ≡ connection (get_elem? (c ∷ cs) ((index_of token s + 1 + k) % length (c ∷ cs)))
  unfolding after_calls
  call_after zero s h =
      rw (next-place token c cs s h)
        (ap (λ i. connection (get_elem? (c ∷ cs) (i % length (c ∷ cs)))) (omega arith))
  call_after (suc k) s h =
      let n = length (c ∷ cs) in
      let i = next_index token c cs s in
      let s' = record s { token_indexes = insert token i s.token_indexes } in
      rw (next-place token c cs s h) (
        call_after k s' h
        ∙ ap (λ j. connection (get_elem? (c ∷ cs) j))
            (ap (λ j. (j + 1 + k) % n) (next_stored i s) ∙ turn (index_of token s) k n))
    where
      next_stored :
          (i : ℕ) (t : Server) → index_or_zero (get token (insert token i t.token_indexes)) ≡ i
      next_stored i t = ground (arith, get-insert token token i t.token_indexes, eq_iff token token)

      turn : (i k n : ℕ) → ((i + 1) % n + 1 + k) % n ≡ (i + 1 + suc k) % n
      turn i k n =
          ap (λ j. j % n) (omega arith)
          ∙ mod-add-mod (i + 1) n (k + 1)
          ∙ ap (λ j. j % n) (omega arith)

get_elem?_bound : {A : Type 0} (l : List A) (i : ℕ) (a : A) → get_elem? l i ≡ some a → i < length l
get_elem?_bound [] i a h = cc
get_elem?_bound (x ∷ l) zero a h = omega arith
get_elem?_bound (x ∷ l) (suc i) a h = let rest = get_elem?_bound l i a h in omega (arith, rest)

le_or_lt : (a b : ℕ) → (a ≤ b) ⊎ (b < a)
le_or_lt a b = elim (Bool-cases (leb a b)) [
  | inl small ↦ inl (ground arith)
  | inr large ↦ inr (ground arith)
]

-- The number of steps from `i` to `j` around a circle of `n` places.
distance : (i n j : ℕ) → j < n → (k : ℕ) × (k < n) × ((i + k) % n ≡ j)
distance i n j h =
    let place = mod-lt i {m = n} (omega arith) in
    elim (le_or_lt (i % n) j) [
      | inl ahead ↦ (
        j - i % n,
        omega arith,
        sym (mod-add-mod i n (j - i % n)) ∙ ap (λ x. x % n) (omega arith) ∙ mod-eq_of_lt h,
      )
      | inr behind ↦ (
        j + n - i % n,
        omega arith,
        sym (mod-add-mod i n (j + n - i % n))
            ∙ ap (λ x. x % n) (omega arith)
            ∙ add-mod_right j n
            ∙ mod-eq_of_lt h,
      )
    ]

-- Fairness: while the clients of a token stay the same, each of them is chosen within as many calls
-- of `_get_next_websocket` as there are clients, wherever the stored index stands.
pub each_is_served :
    (token : Str) (s : Server) (clients : List (Uuid × ℕ)) (j : ℕ) (client : Uuid × ℕ)
    → get token s.token_clients ≡ some clients
    → get_elem? clients j ≡ some client
    → (k : ℕ) × (k < length clients)
      × ((get_next_websocket token (after_calls k token s)).1 ≡ some client.1)
each_is_served token s [] j client h found = cc
each_is_served token s (c ∷ cs) j client h found =
    let (k, small, lands) =
      distance (index_of token s + 1) (length (c ∷ cs)) j
        (get_elem?_bound (c ∷ cs) j client found) in
    (
      k,
      small,
      call_after token c cs k s h
          ∙ ap (λ i. connection (get_elem? (c ∷ cs) i)) lands
          ∙ ap connection found,
    )

-- Where a token has clients, `_get_next_websocket` stores an index that is below their number,
-- whatever stood there before, and returns the connection of the client in this place: it never
-- falls back to the first client, and it never returns None.
pub get_next_websocket_in_range :
    (token : Str) (s : Server) (c : Uuid × ℕ) (cs : List (Uuid × ℕ))
    → get token s.token_clients ≡ some (c ∷ cs)
    → (i : ℕ) × (i < length (c ∷ cs))
      × (get token (get_next_websocket token s).0.token_indexes ≡ some i)
      × (client : Uuid × ℕ) × (get_elem? (c ∷ cs) i ≡ some client)
      × ((get_next_websocket token s).1 ≡ some client.1)
get_next_websocket_in_range token s c cs h =
    let i = next_index token c cs s in
    let small = mod-lt (index_of token s + 1) (omega arith) in
    let (client, found) = get_elem?_in_range (c ∷ cs) i small in
    let placed = next-place token c cs s h in
    (
      i,
      small,
      ap (λ (r : Server × Option ℕ). get token r.0.token_indexes) placed
          ∙ ground (arith, get-insert token token i s.token_indexes, eq_refl token),
      client,
      found,
      ap (λ (r : Server × Option ℕ). r.1) placed ∙ ap connection found,
    )
