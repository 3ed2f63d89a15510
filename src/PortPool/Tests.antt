-- ===== src/PortPool/Tests.antt =====
-- The pool of ports at a small pool.
use pywssocks.Base.{nat_eq, ℕ, ◌≡◌, refl, List, [], ◌∷◌, none, some}
use pywssocks.Base.Sets.{elem, add, difference, elem_head}
use pywssocks.PortPool.{PortPool, get}
use pywssocks.PortPool.Allocation.{IsChoice, Outcome, get-Outcome}

abbrev first : List ℕ → ℕ
first [] = 0
first (x ∷ xs) = x

first-IsChoice : IsChoice first
first-IsChoice x xs = elem_head x xs

abbrev pool : PortPool
pool = record { port_pool = 1080 ∷ 1081 ∷ []; used_ports = 1080 ∷ [] }

get_free : get first none pool ≡ (record pool { used_ports = 1081 ∷ 1080 ∷ [] }, some 1081)
unfolding get elem add difference
get_free = refl

get-Outcome_example : Outcome pool none (get first none pool)
get-Outcome_example = get-Outcome first none pool first-IsChoice
