-- ===== src/PortPool/Allocation.antt =====
-- A port is given to one holder at a time.
use pywssocks.Base.{
  nat_eq, ℕ, ◌≡◌, refl, ◌≢◌, true, false, ◌&&◌, not, List, [], ◌∷◌, Option, none, some, arith, inl,
  inr, Bool-cases, eq_iff,
}
use pywssocks.Base.Sets.{elem, difference, elem-add, elem-discard, elem-difference}
use pywssocks.PortPool.{PortPool, get, put, pick, taken}

-- What is documented of `random.choice`: it returns an element of a list that has one.
abbrev pub IsChoice : (List ℕ → ℕ) → Type 0
IsChoice choice = (x : ℕ) (xs : List ℕ) → elem (choice (x ∷ xs)) (x ∷ xs) ≡ true

-- The port was free and is held now; no other port changed hands; the pool is as before.
pub record IsGrant (p p' : PortPool) (port : ℕ) : Type 0 where
  pub was_free : elem port p.used_ports ≡ false
  pub is_held : elem port p'.used_ports ≡ true
  pub others : (j : ℕ) → port ≢ j → elem j p'.used_ports ≡ elem j p.used_ports
  pub same_pool : p'.port_pool ≡ p.port_pool

taken-IsGrant :
    (p : PortPool) (port : ℕ)
    → elem port p.used_ports ≡ false
    → IsGrant p (taken p (some port)).0 port
taken-IsGrant p port h = record {
  was_free = h;
  is_held = ground (arith, elem-add port port p.used_ports, eq_iff port port);
  others = λ j ne. ground (arith, elem-add port j p.used_ports, eq_iff port j);
  same_pool = refl;
}

-- What one call of `get` may do, by its request and its result.
abbrev pub Outcome : PortPool → Option ℕ → PortPool × Option ℕ → Type 0
Outcome p (some port) (p', some given) = (given ≡ port) × IsGrant p p' given
Outcome p (some port) (p', none) = (p' ≡ p) × (elem port p.used_ports ≡ true)
Outcome p none (p', some given) = (elem given p.port_pool ≡ true) × IsGrant p p' given
Outcome p none (p', none) =
    (p' ≡ p) × ((j : ℕ) → elem j p.port_pool ≡ true → elem j p.used_ports ≡ true)

pick-Outcome :
    (choice : List ℕ → ℕ) (p : PortPool) (free : List ℕ)
    → IsChoice choice
    → ((j : ℕ) → elem j free ≡ (elem j p.port_pool && not (elem j p.used_ports)))
    → Outcome p none (taken p (pick choice free))
pick-Outcome choice p [] h e = (refl, λ j m. unfold elem in ground (arith, e j))
pick-Outcome choice p (x ∷ xs) h e =
    let port = choice (x ∷ xs) in
    (ground (arith, e port, h x xs), taken-IsGrant p port (ground (arith, e port, h x xs)))

-- `get` hands out the requested port, or any free port of the pool when none is requested, only if
-- nobody holds it, and then marks just that port as held; it returns None only if the requested
-- port, or every port of the pool, is held, and then changes nothing.
pub get-Outcome :
    (choice : List ℕ → ℕ) (request : Option ℕ) (p : PortPool)
    → IsChoice choice
    → Outcome p request (get choice request p)
unfolding get
get-Outcome choice (some port) p h = elim (Bool-cases (elem port p.used_ports)) [
  | inl held ↦ rw held (refl, held)
  | inr free ↦ rw free (refl, taken-IsGrant p port free)
]
get-Outcome choice none p h =
    pick-Outcome choice p (difference p.port_pool p.used_ports) h
      (λ j. elem-difference j p.port_pool p.used_ports)

-- A port that is put back can be had again by asking for it, and putting it back leaves every
-- other port held or free as it was.
pub get-put :
    (choice : List ℕ → ℕ) (port : ℕ) (p : PortPool)
    → ((get choice (some port) (put port p)).1 ≡ some port)
      × ((j : ℕ) → port ≢ j → elem j (put port p).used_ports ≡ elem j p.used_ports)
unfolding get put
get-put choice port p = (
  ground (arith, elem-discard port port p.used_ports, eq_iff port port),
  λ j ne. ground (arith, elem-discard port j p.used_ports, eq_iff port j),
)
