-- ===== src/PortPool.antt =====
-- pywssocks/common.py: `PortPool`. A set of ports is a list; the lock makes each call one step.
pub mod Allocation
mod Tests
use pywssocks.Base.{nat_eq, ℕ, Bool, List, [], ◌∷◌, Option, none, some, if◌then◌else◌}
use pywssocks.Base.Sets.{elem, add, discard, difference}

pub record PortPool : Type 0 where
  pub port_pool : List ℕ
  pub used_ports : List ℕ

abbrev pub init : List ℕ → PortPool
init pool = record { port_pool = pool; used_ports = [] }

-- `random.choice(list(available))`, where there is a port.
abbrev pick : (List ℕ → ℕ) → List ℕ → Option ℕ
pick choice [] = none
pick choice (x ∷ xs) = some (choice (x ∷ xs))

abbrev taken : PortPool → Option ℕ → PortPool × Option ℕ
taken p none = (p, none)
taken p (some port) = (record p { used_ports = add port p.used_ports }, some port)

-- `choice` stands for `random.choice`.
unfoldable pub get : (List ℕ → ℕ) → Option ℕ → PortPool → PortPool × Option ℕ
get choice (some port) p = if elem port p.used_ports then (p, none) else taken p (some port)
get choice none p = taken p (pick choice (difference p.port_pool p.used_ports))

unfoldable pub put : ℕ → PortPool → PortPool
put port p =
    if elem port p.used_ports then record p { used_ports = discard port p.used_ports } else p
