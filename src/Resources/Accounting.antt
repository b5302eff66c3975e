-- ===== src/Resources/Accounting.antt =====
-- What the manager has given away is the sum of what the leases hold, and never more than there is.
use mathlib.Core.Path.{subst}
use Prim.Native.Nat.{◌≤◌}
use madre.Base.{
  ℕ, ◌+◌, ◌^◌, ◌<◌, ◌≡◌, inl, inr, refl, sym, ap, ◌∙◌, List, [], ◌∷◌, none, Bool, ◌&&◌, ◌==◌, leb,
  Text, is_empty, text_eq, text_eq_iff, text_eq_refl, Map, emplace, lookup, lookup-assign_same,
  lookup-assign_other, add_u64, if◌then◌else◌, ok, arith, Bool-cases, Option-cases,
}
use madre.Resources.{
  ResourceRequirement, ResourceCapacity, ResourceManager, validate_requirement, take_resources,
  value_or, used_of, touch, add_absent,
}

-- The values that the fields' types allow.
pub record IsRequirement (r : ResourceRequirement) : Type 0 where
  pub cpu_i32 : r.cpu_slots < 2 ^ 32
  pub ram_u64 : r.ram_bytes < 2 ^ 64
  pub vram_u64 : r.gpu_vram_bytes < 2 ^ 64
  pub valid : validate_requirement r ≡ ok tt

abbrev pub gpu_capacity : ResourceCapacity → Text → ℕ
gpu_capacity capacity id = value_or 0 (lookup id capacity.gpu_vram_bytes)

pub record IsCapacity (c : ResourceCapacity) : Type 0 where
  pub cpu_positive : c.cpu_slots < 2 ^ 31
  pub ram_u64 : c.ram_bytes < 2 ^ 64
  pub vram_u64 : (id : Text) → gpu_capacity c id < 2 ^ 64

abbrev pub cpu_sum : List ResourceRequirement → ℕ
cpu_sum [] = 0
cpu_sum (r ∷ leases) = r.cpu_slots + cpu_sum leases

abbrev pub ram_sum : List ResourceRequirement → ℕ
ram_sum [] = 0
ram_sum (r ∷ leases) = r.ram_bytes + ram_sum leases

abbrev pub vram_on : Text → ResourceRequirement → ℕ
vram_on id r = if text_eq r.gpu_id id then r.gpu_vram_bytes else 0

abbrev pub vram_sum : Text → List ResourceRequirement → ℕ
vram_sum id [] = 0
vram_sum id (r ∷ leases) = vram_on id r + vram_sum id leases

-- The manager's counters when these leases are out.
pub record Holds (m : ResourceManager) (leases : List ResourceRequirement) : Type 0 where
  pub cpu : m.cpu_used ≡ cpu_sum leases
  pub ram : m.ram_used ≡ ram_sum leases
  pub vram : (id : Text) → used_of m id ≡ vram_sum id leases
  pub cpu_fits : cpu_sum leases ≤ m.capacity.cpu_slots
  pub ram_fits : ram_sum leases ≤ m.capacity.ram_bytes
  pub vram_fits : (id : Text) → vram_sum id leases ≤ gpu_capacity m.capacity id

-- Whether the machine has room for one lease more.
abbrev pub has_room : ResourceCapacity → ResourceRequirement → List ResourceRequirement → Bool
has_room capacity r leases =
    leb (r.cpu_slots + cpu_sum leases) capacity.cpu_slots
    && leb (r.ram_bytes + ram_sum leases) capacity.ram_bytes
    && leb (r.gpu_vram_bytes + vram_sum r.gpu_id leases) (gpu_capacity capacity r.gpu_id)

pub valid_cpu :
    (r : ResourceRequirement) → IsRequirement r → (1 ≤ r.cpu_slots) × (r.cpu_slots < 2 ^ 31)
unfolding validate_requirement
valid_cpu r v = let h = v.valid in let b = v.cpu_i32 in ground arith

pub valid_vram :
    (r : ResourceRequirement) → IsRequirement r → is_empty r.gpu_id ≡ (r.gpu_vram_bytes == 0)
unfolding validate_requirement
valid_vram r v = let h = v.valid in ground arith

value_or-emplace :
    (other id : Text) (m : Map ℕ)
    → lookup id m ≡ none
    → value_or 0 (lookup other (emplace id 0 m)) ≡ value_or 0 (lookup other m)
unfolding lookup emplace
value_or-emplace other id [] h = ground arith
value_or-emplace other id ((k, v) ∷ m) h = ground (
  arith,
  text_eq_iff k id,
  text_eq_iff id other,
  text_eq_iff k other,
  value_or-emplace other id m,
)

value_or-add_absent :
    (other id : Text) (m : Map ℕ)
    → value_or 0 (lookup other (add_absent id (lookup id m) m)) ≡ value_or 0 (lookup other m)
value_or-add_absent other id m = elim (Option-cases (lookup id m)) [
  | inl none_yet ↦ rw none_yet (value_or-emplace other id m none_yet)
  | inr (v, there_now) ↦ rw there_now refl
]

pub touch-Holds :
    (id : Text) (m : ResourceManager) (leases : List ResourceRequirement)
    → Holds m leases
    → Holds (touch id m) leases
touch-Holds id m leases w = record {
  cpu = w.cpu;
  ram = w.ram;
  vram = λ other. value_or-add_absent other id m.gpu_vram_used ∙ w.vram other;
  cpu_fits = w.cpu_fits;
  ram_fits = w.ram_fits;
  vram_fits = w.vram_fits;
}

abbrev pub Rooms : ResourceManager → ResourceRequirement → List ResourceRequirement → Type 0
Rooms m r leases =
    (r.cpu_slots + cpu_sum leases ≤ m.capacity.cpu_slots)
    × (r.ram_bytes + ram_sum leases ≤ m.capacity.ram_bytes)
    × (r.gpu_vram_bytes + vram_sum r.gpu_id leases ≤ gpu_capacity m.capacity r.gpu_id)

take_resources-used_of :
    (m : ResourceManager) (r : ResourceRequirement) (leases : List ResourceRequirement) (id : Text)
    → IsCapacity m.capacity
    → IsRequirement r
    → Holds m leases
    → Rooms m r leases
    → used_of (take_resources m r) id ≡ vram_on id r + used_of m id
unfolding take_resources
take_resources-used_of m r leases id c v w room = elim (Bool-cases (is_empty r.gpu_id)) [
  | inl no_gpu ↦ let none_needed = valid_vram r v in rw no_gpu (ground arith)
  | inr gpu ↦ elim (Bool-cases (text_eq r.gpu_id id)) [
    | inl same ↦
        let e : r.gpu_id ≡ id = (text_eq_iff r.gpu_id id).0 same in
        let known = w.vram r.gpu_id in
        let limit = c.vram_u64 r.gpu_id in
        rw (gpu, sym e)
          (rw
            (
              lookup-assign_same r.gpu_id (add_u64 (used_of m r.gpu_id) r.gpu_vram_bytes)
                  m.gpu_vram_used,
              text_eq_refl r.gpu_id,
            )
            (ground arith))
    | inr other ↦
        rw
          (
            gpu,
            lookup-assign_other id r.gpu_id (add_u64 (used_of m r.gpu_id) r.gpu_vram_bytes)
                m.gpu_vram_used other,
            other,
          )
          (ground arith)
  ]
]

pub take_resources-capacity :
    (m : ResourceManager) (r : ResourceRequirement) → (take_resources m r).capacity ≡ m.capacity
unfolding take_resources
take_resources-capacity m r = refl

pub take_resources-Holds :
    (m : ResourceManager) (r : ResourceRequirement) (leases : List ResourceRequirement)
    → IsCapacity m.capacity
    → IsRequirement r
    → Holds m leases
    → Rooms m r leases
    → Holds (take_resources m r) (r ∷ leases)
unfolding take_resources
take_resources-Holds m r leases c v w room = record {
  cpu = let b = c.cpu_positive in let e = w.cpu in omega (arith, room.0);
  ram = let b = c.ram_u64 in let e = w.ram in omega (arith, room.1);
  vram = λ id.
      take_resources-used_of m r leases id c v w room ∙ ap (λ n. vram_on id r + n) (w.vram id);
  cpu_fits = room.0;
  ram_fits = room.1;
  vram_fits = λ id. elim (Bool-cases (text_eq r.gpu_id id)) [
    | inl same ↦
        let e : r.gpu_id ≡ id = (text_eq_iff r.gpu_id id).0 same in
        subst (λ j. vram_on j r + vram_sum j leases ≤ gpu_capacity m.capacity j) e
          (rw (text_eq_refl r.gpu_id) room.2)
    | inr other ↦ rw other (omega (arith, w.vram_fits id))
  ];
}
