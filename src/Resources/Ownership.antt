-- ===== src/Resources/Ownership.antt =====
-- Giving back, and who gives back: moves, resets and destructors release each lease exactly once.
use mathlib.Core.Path.{subst}
use madre.Base.{
  ℕ, ◌+◌, ◌^◌, ◌<◌, ◌≤◌, ◌≡◌, inl, inr, refl, sym, ap, List, [], ◌∷◌, ◌++◌, true, false, ◌||◌, ◌==◌,
  Text, is_empty, text_eq, text_eq_iff, Map, lookup, lookup-assign_same, lookup-assign_other,
  lookup-erase_same, lookup-erase_other, lt_i32, sub_u64, ok, ok-injective, arith, Bool-cases,
  Option-cases,
}
use madre.Resources.{
  ResourceRequirement, ResourceCapacity, ResourceManager, make_manager, can_ever_reserve, release,
  value_or, used_of, release_gpu,
}
use madre.Resources.Leases.{Lease, reset, move_assign, held}
use madre.Resources.Accounting.{
  IsRequirement, IsCapacity, Holds, cpu_sum, ram_sum, vram_sum, vram_on, has_room, valid_vram,
  valid_cpu,
}

abbrev vram_after : Text → ℕ → Map ℕ → Map ℕ
vram_after id vram used = release_gpu id vram (lookup id used) used

-- The entry of another GPU stays.
release_gpu_other :
    (other id : Text) (vram : ℕ) (used : Map ℕ)
    → text_eq id other ≡ false
    → lookup other (vram_after id vram used) ≡ lookup other used
release_gpu_other other id vram used h = elim (Option-cases (lookup id used)) [
  | inl unused ↦ rw unused refl
  | inr (value, in_use) ↦ elim (Bool-cases (sub_u64 value vram == 0)) [
    | inl last ↦ rw (in_use, last) (lookup-erase_other other id used h)
    | inr more ↦ rw (in_use, more) (lookup-assign_other other id (sub_u64 value vram) used h)
  ]
]

release_gpu_same :
    (id : Text) (vram : ℕ) (used : Map ℕ)
    → vram ≤ value_or 0 (lookup id used)
    → value_or 0 (lookup id used) < 2 ^ 64
    → value_or 0 (lookup id (vram_after id vram used)) + vram ≡ value_or 0 (lookup id used)
release_gpu_same id vram used h b = elim (Option-cases (lookup id used)) [
  | inl unused ↦ rw (unused, unused) (ground arith)
  | inr (value, in_use) ↦ elim (Bool-cases (sub_u64 value vram == 0)) [
    | inl last ↦ rw (in_use, last) (rw (lookup-erase_same id used) (ground arith))
    | inr more ↦
        rw (in_use, more) (rw (lookup-assign_same id (sub_u64 value vram) used) (ground arith))
  ]
]

cpu_out :
    (r : ResourceRequirement) (before after : List ResourceRequirement)
    → cpu_sum (before ++ (r ∷ after)) ≡ r.cpu_slots + cpu_sum (before ++ after)
cpu_out r [] after = refl
cpu_out r (b ∷ before) after = omega (arith, cpu_out r before after)

ram_out :
    (r : ResourceRequirement) (before after : List ResourceRequirement)
    → ram_sum (before ++ (r ∷ after)) ≡ r.ram_bytes + ram_sum (before ++ after)
ram_out r [] after = refl
ram_out r (b ∷ before) after = omega (arith, ram_out r before after)

vram_out :
    (id : Text) (r : ResourceRequirement) (before after : List ResourceRequirement)
    → vram_sum id (before ++ (r ∷ after)) ≡ vram_on id r + vram_sum id (before ++ after)
vram_out id r [] after = refl
vram_out id r (b ∷ before) after = omega (arith, vram_out id r before after)

module _ (m : ResourceManager) (r : ResourceRequirement) (before after : List ResourceRequirement)
    (c : IsCapacity m.capacity) (v : IsRequirement r) (w : Holds m (before ++ (r ∷ after))) where
  release-used_of : (id : Text) → used_of (release m r) id ≡ vram_sum id (before ++ after)
  unfolding release
  release-used_of id =
      let known = w.vram id in
      let out = vram_out id r before after in
      let fits = w.vram_fits id in
      let limit = c.vram_u64 id in
      elim (Bool-cases (is_empty r.gpu_id)) [
        | inl no_gpu ↦ let none_needed = valid_vram r v in rw no_gpu (ground arith)
        | inr gpu ↦ elim (Bool-cases (text_eq r.gpu_id id)) [
          | inl same ↦
              let e : r.gpu_id ≡ id = (text_eq_iff r.gpu_id id).0 same in
              let on : vram_on id r ≡ r.gpu_vram_bytes = rw same refl in
              let left =
                release_gpu_same id r.gpu_vram_bytes m.gpu_vram_used (omega arith) (omega arith) in
              rw gpu (rw e (omega arith))
          | inr other ↦
              rw (gpu, release_gpu_other id r.gpu_id r.gpu_vram_bytes m.gpu_vram_used other)
                (ground arith)
        ]
      ]

  -- Any lease that is out, of a requirement and a capacity that are in order, can be given back: the others' resources stay accounted for.
  pub release-Holds : Holds (release m r) (before ++ after)
  unfolding release
  release-Holds =
      let cpu = cpu_out r before after in
      let ram = ram_out r before after in
      let cpu_limit = c.cpu_positive in
      let ram_limit = c.ram_u64 in
      record {
        cpu = let e = w.cpu in let f = w.cpu_fits in ground arith;
        ram = let e = w.ram in let f = w.ram_fits in ground arith;
        vram = release-used_of;
        cpu_fits = let f = w.cpu_fits in omega arith;
        ram_fits = let f = w.ram_fits in omega arith;
        vram_fits = λ id. omega (arith, w.vram_fits id, vram_out id r before after);
      }

-- A lease that owns nothing, or what a requirement allows.
abbrev pub IsLease : Lease → Type 0
IsLease lease = IsRequirement lease.requirement

-- A lease given back by `reset` is accounted for, and holds nothing that a second `reset` would
-- give back.
pub reset_lem :
    (lease : Lease) (m : ResourceManager) (others : List ResourceRequirement)
    → IsCapacity m.capacity
    → IsLease lease
    → Holds m (held lease ++ others)
    → Holds (reset lease m).1 others × (reset (reset lease m).0 (reset lease m).1 ≡ reset lease m)
unfolding reset
reset_lem lease m others c v w = elim (Bool-cases lease.owned) [
  | inl owned ↦
      let out : Holds m ([] ++ (lease.requirement ∷ others)) = rw owned at w in
      rw owned (release-Holds m lease.requirement [] others c v out, refl)
  | inr free ↦ let out : Holds m others = rw free at w in rw free (out, refl)
]

-- A move over a lease gives back what that lease held, and nothing else: of the two objects and
-- the manager, what is out before is out after.
pub move_assign_lem :
    (lease other : Lease) (m : ResourceManager) (rest : List ResourceRequirement)
    → IsCapacity m.capacity
    → IsLease lease
    → Holds m (held lease ++ (held other ++ rest))
    → (held (move_assign lease other m).0.0 ≡ held other)
      × (held (move_assign lease other m).0.1 ≡ [])
      × Holds (move_assign lease other m).1 (held other ++ rest)
unfolding move_assign
move_assign_lem lease other m rest c v w =
    (refl, refl, (reset_lem lease m (held other ++ rest) c v w).0)

has_room_alone :
    (c : ResourceCapacity) (r : ResourceRequirement) (leases : List ResourceRequirement)
    → has_room c r leases ≡ true
    → has_room c r [] ≡ true
has_room_alone c r leases h = ground arith

can_ever_reserve-has_room :
    (m : ResourceManager) (r : ResourceRequirement)
    → IsCapacity m.capacity
    → IsRequirement r
    → can_ever_reserve m r ≡ ok (has_room m.capacity r [])
unfolding can_ever_reserve
can_ever_reserve-has_room m r c v =
    let cpu = valid_cpu r v in
    let limit = c.cpu_positive in
    let ok_valid = v.valid in
    let vram = valid_vram r v in
    elim (Option-cases (lookup r.gpu_id m.capacity.gpu_vram_bytes)) [
      | inl unknown ↦ rw (v.valid, unknown) (ground arith)
      | inr (capacity, known) ↦ rw (v.valid, known) (ground arith)
    ]

-- `can_ever_reserve` answers whether a request has room when no lease is out, and a request that it
-- turns down has no room beside any leases.
pub can_ever_reserve_lem :
    (m : ResourceManager) (r : ResourceRequirement) (leases : List ResourceRequirement)
    → IsCapacity m.capacity
    → IsRequirement r
    → (can_ever_reserve m r ≡ ok (has_room m.capacity r []))
      × (has_room m.capacity r [] ≡ false → has_room m.capacity r leases ≡ false)
can_ever_reserve_lem m r leases c v =
    let alone = has_room_alone m.capacity r leases in
    (
      can_ever_reserve-has_room m r c v,
      λ h. elim (Bool-cases (has_room m.capacity r leases)) [
        | inl room ↦ absurd (cc (alone room, h))
        | inr full ↦ full
      ],
    )

abbrev pub fresh : ResourceCapacity → ResourceManager
fresh capacity = record { capacity = capacity; cpu_used = 0; ram_used = 0; gpu_vram_used = [] }

pub fresh-Holds : (capacity : ResourceCapacity) → Holds (fresh capacity) []
unfolding lookup
fresh-Holds capacity = record {
  cpu = refl;
  ram = refl;
  vram = λ id. refl;
  cpu_fits = omega arith;
  ram_fits = omega arith;
  vram_fits = λ id. omega arith;
}

-- A manager is made only of a capacity that has some CPU and RAM, and has nothing out then.
pub make_manager-Holds :
    (capacity : ResourceCapacity) (m : ResourceManager)
    → make_manager capacity ≡ ok m
    → (lt_i32 capacity.cpu_slots 1 ≡ false)
      × (1 ≤ capacity.ram_bytes)
      × (m.capacity ≡ capacity)
      × Holds m []
unfolding make_manager
make_manager-Holds capacity m e =
    elim (Bool-cases (lt_i32 capacity.cpu_slots 1 || (capacity.ram_bytes == 0))) [
      | inl poor ↦ absurd (cc (rw poor at e))
      | inr good ↦
          let made : fresh capacity ≡ m = ok-injective (rw good at e) in
          (
            ground arith,
            ground arith,
            ap (λ k. k.capacity) (sym made),
            subst (λ k. Holds k []) made (fresh-Holds capacity),
          )
    ]
