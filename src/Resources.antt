-- ===== src/Resources.antt =====
-- kernel/src/worker_runtime.hpp and worker_runtime.cpp: `ResourceManager`, which shares the machine
-- out among the running attempts, and the leases it gives.
pub mod Leases
pub mod Accounting
pub mod Reserving
pub mod Ownership
use madre.Base.{
  ℕ, [], Option, none, some, Bool, true, false, not, ◌&&◌, ◌||◌, ◌==◌, ltb, leb, Text, codes,
  is_empty, Map, emplace, assign, lookup, erase, lt_i32, add_i32, sub_i32, add_u64, sub_u64,
  if◌then◌else◌, Result, ok, err, guard, invalid_argument, ◌>>=◌, ◌>>◌,
}

pub record ResourceRequirement : Type 0 where
  pub cpu_slots : ℕ
  pub ram_bytes : ℕ
  pub gpu_id : Text
  pub gpu_vram_bytes : ℕ

pub record ResourceCapacity : Type 0 where
  pub cpu_slots : ℕ
  pub ram_bytes : ℕ
  pub gpu_vram_bytes : Map ℕ

pub record ResourceManager : Type 0 where
  pub capacity : ResourceCapacity
  pub cpu_used : ℕ
  pub ram_used : ℕ
  pub gpu_vram_used : Map ℕ

abbrev bool_eq : Bool → Bool → Bool
bool_eq true b = b
bool_eq false b = not b

unfoldable pub validate_requirement : ResourceRequirement → Result (Unit {0})
validate_requirement requirement = do
  guard (not (lt_i32 requirement.cpu_slots 1 || (requirement.ram_bytes == 0)))
      (invalid_argument (codes "engine resource requirement must provide positive CPU and RAM"))
  guard (bool_eq (is_empty requirement.gpu_id) (requirement.gpu_vram_bytes == 0))
      (invalid_argument (codes "GPU identity and VRAM requirement must be declared together"))

-- The constructor.
unfoldable pub make_manager : ResourceCapacity → Result ResourceManager
make_manager capacity = do
  guard (not (lt_i32 capacity.cpu_slots 1 || (capacity.ram_bytes == 0)))
      (invalid_argument (codes "resource capacity must provide positive CPU and RAM"))
  ok (record { capacity = capacity; cpu_used = 0; ram_used = 0; gpu_vram_used = [] })

abbrev at_most : ℕ → Option ℕ → Bool
at_most needed none = false
at_most needed (some capacity) = leb needed capacity

unfoldable pub can_ever_reserve : ResourceManager → ResourceRequirement → Result Bool
can_ever_reserve manager requirement = do
  validate_requirement requirement
  ok (
      if lt_i32 manager.capacity.cpu_slots requirement.cpu_slots
        || ltb manager.capacity.ram_bytes requirement.ram_bytes
      then false
      else if is_empty requirement.gpu_id
      then true
      else at_most requirement.gpu_vram_bytes
          (lookup requirement.gpu_id manager.capacity.gpu_vram_bytes))

abbrev pub value_or : ℕ → Option ℕ → ℕ
value_or default none = default
value_or default (some value) = value

-- `gpu_vram_used_[id]`, which adds an entry for an id that has none.
abbrev pub used_of : ResourceManager → Text → ℕ
used_of manager id = value_or 0 (lookup id manager.gpu_vram_used)

abbrev pub add_absent : Text → Option ℕ → Map ℕ → Map ℕ
add_absent id none used = emplace id 0 used
add_absent id (some value) used = used

abbrev pub touch : Text → ResourceManager → ResourceManager
touch id manager = record manager {
  gpu_vram_used = add_absent id (lookup id manager.gpu_vram_used) manager.gpu_vram_used;
}

-- The sums at the end of `try_reserve`.
unfoldable pub take_resources : ResourceManager → ResourceRequirement → ResourceManager
take_resources manager requirement = record manager {
  cpu_used = add_i32 manager.cpu_used requirement.cpu_slots;
  ram_used = add_u64 manager.ram_used requirement.ram_bytes;
  gpu_vram_used =
      if is_empty requirement.gpu_id
      then manager.gpu_vram_used
      else assign requirement.gpu_id
          (add_u64 (used_of manager requirement.gpu_id) requirement.gpu_vram_bytes)
          manager.gpu_vram_used;
}

abbrev reserve_gpu : ResourceManager → ResourceRequirement → Option ℕ → Bool × ResourceManager
reserve_gpu manager requirement none = (false, manager)
reserve_gpu manager requirement (some capacity) =
    let touched = touch requirement.gpu_id manager in
    if ltb (sub_u64 capacity (used_of manager requirement.gpu_id)) requirement.gpu_vram_bytes
    then (false, touched)
    else (true, take_resources touched requirement)

-- Whether there is a lease, and the manager after.
unfoldable pub try_reserve : ResourceManager → ResourceRequirement → Result (Bool × ResourceManager)
try_reserve manager requirement = do
  validate_requirement requirement
  ok (
      if lt_i32 (sub_i32 manager.capacity.cpu_slots manager.cpu_used) requirement.cpu_slots
        || ltb (sub_u64 manager.capacity.ram_bytes manager.ram_used) requirement.ram_bytes
      then (false, manager)
      else if is_empty requirement.gpu_id
      then (true, take_resources manager requirement)
      else reserve_gpu manager requirement
          (lookup requirement.gpu_id manager.capacity.gpu_vram_bytes))

abbrev release_gpu : Text → ℕ → Option ℕ → Map ℕ → Map ℕ
release_gpu id vram none used = used
release_gpu id vram (some value) used =
    if sub_u64 value vram == 0 then erase id used else assign id (sub_u64 value vram) used

unfoldable pub release : ResourceManager → ResourceRequirement → ResourceManager
release manager requirement = record manager {
  cpu_used = sub_i32 manager.cpu_used requirement.cpu_slots;
  ram_used = sub_u64 manager.ram_used requirement.ram_bytes;
  gpu_vram_used =
      if is_empty requirement.gpu_id
      then manager.gpu_vram_used
      else release_gpu requirement.gpu_id requirement.gpu_vram_bytes
          (lookup requirement.gpu_id manager.gpu_vram_used) manager.gpu_vram_used;
}
