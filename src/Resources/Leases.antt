-- ===== src/Resources/Leases.antt =====
-- `ResourceManager::Lease`: an object that gives its resources back once, when it is reset,
-- overwritten or destroyed, unless they were moved out of it.
use madre.Base.{Bool, true, false, List, [], ◌∷◌, if◌then◌else◌}
use madre.Resources.{ResourceManager, ResourceRequirement, release}

-- `owned` is `owner_ != nullptr`; there is one manager.
pub record Lease : Type 0 where
  pub owned : Bool
  pub requirement : ResourceRequirement

abbrev pub lease_of : ResourceRequirement → Lease
lease_of requirement = record { owned = true; requirement = requirement }

abbrev pub disowned : Lease → Lease
disowned lease = record lease { owned = false }

-- `reset`, and the destructor, which calls it.
unfoldable pub reset : Lease → ResourceManager → Lease × ResourceManager
reset lease manager =
    if lease.owned then (disowned lease, release manager lease.requirement) else (lease, manager)

-- `Lease(Lease&& other)`: the new lease and what is left in `other`.
unfoldable pub move_construct : Lease → Lease × Lease
move_construct other = (other, disowned other)

-- `lease = std::move(other)` for two objects: both after it, and the manager.
unfoldable pub move_assign : Lease → Lease → ResourceManager → (Lease × Lease) × ResourceManager
move_assign lease other manager =
    let after_reset = reset lease manager in ((other, disowned other), after_reset.1)

-- The requirements that a lease will give back.
abbrev pub held : Lease → List ResourceRequirement
held lease = if lease.owned then lease.requirement ∷ [] else []
