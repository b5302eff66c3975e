-- ===== src/Resources/Reserving.antt =====
-- `try_reserve` gives a lease exactly where there is room for it.
use madre.Base.{
  ◌+◌, ◌≡◌, inl, inr, refl, List, ◌∷◌, Bool, true, false, not, ◌||◌, ltb, leb, is_empty, lookup,
  lt_i32, sub_i32, sub_u64, if◌then◌else◌, ok, arith, Bool-cases, Option-cases, leb→le,
}
use madre.Resources.{
  ResourceRequirement, ResourceManager, try_reserve, take_resources, used_of, touch,
}
use madre.Resources.Accounting.{
  IsRequirement, IsCapacity, Holds, gpu_capacity, cpu_sum, ram_sum, vram_sum, has_room, valid_cpu,
  valid_vram, touch-Holds, take_resources-Holds, take_resources-capacity,
}

-- The answer, and the manager after it with the leases that are then out.
abbrev pub Answers :
    ResourceManager → ResourceRequirement → List ResourceRequirement → Bool → Type 0
Answers m r leases room =
    (m' : ResourceManager) × (try_reserve m r ≡ ok (room, m'))
    × (m'.capacity ≡ m.capacity)
    × Holds m' (if room then r ∷ leases else leases)

-- A lease is given exactly where there is room for it.
abbrev pub TryReserve : ResourceManager → ResourceRequirement → List ResourceRequirement → Type 0
TryReserve m r leases = Answers m r leases (has_room m.capacity r leases)

module _ (m : ResourceManager) (r : ResourceRequirement) (leases : List ResourceRequirement)
    (c : IsCapacity m.capacity) (v : IsRequirement r) (w : Holds m leases) where
  cpu_test :
      lt_i32 (sub_i32 m.capacity.cpu_slots m.cpu_used) r.cpu_slots
      ≡ not (leb (r.cpu_slots + cpu_sum leases) m.capacity.cpu_slots)
  cpu_test =
      let positive = valid_cpu r v in
      let limit = c.cpu_positive in let used = w.cpu in let fits = w.cpu_fits in ground arith

  ram_test :
      ltb (sub_u64 m.capacity.ram_bytes m.ram_used) r.ram_bytes
      ≡ not (leb (r.ram_bytes + ram_sum leases) m.capacity.ram_bytes)
  ram_test = let limit = c.ram_u64 in let used = w.ram in let fits = w.ram_fits in ground arith

  vram_test :
      ltb (sub_u64 (gpu_capacity m.capacity r.gpu_id) (used_of m r.gpu_id)) r.gpu_vram_bytes
      ≡ not (leb (r.gpu_vram_bytes + vram_sum r.gpu_id leases) (gpu_capacity m.capacity r.gpu_id))
  vram_test =
      let limit = c.vram_u64 r.gpu_id in
      let used = w.vram r.gpu_id in let fits = w.vram_fits r.gpu_id in ground arith

  -- A request without a GPU asks for no VRAM.
  no_gpu_vram : is_empty r.gpu_id ≡ true → r.gpu_vram_bytes ≡ 0
  no_gpu_vram h = let e = valid_vram r v in ground arith

  refused :
      (m' : ResourceManager) {room : Bool}
      → room ≡ false
      → try_reserve m r ≡ ok (false, m')
      → m'.capacity ≡ m.capacity
      → Holds m' leases
      → Answers m r leases room
  refused m' h e same holds = rw h (m', e, same, holds)

  granted :
      (m' : ResourceManager) {room : Bool}
      → room ≡ true
      → try_reserve m r ≡ ok (true, m')
      → m'.capacity ≡ m.capacity
      → Holds m' (r ∷ leases)
      → Answers m r leases room
  granted m' h e same holds = rw h (m', e, same, holds)

  module _ (hc : leb (r.cpu_slots + cpu_sum leases) m.capacity.cpu_slots ≡ true)
      (hr : leb (r.ram_bytes + ram_sum leases) m.capacity.ram_bytes ≡ true) where
    enough :
        lt_i32 (sub_i32 m.capacity.cpu_slots m.cpu_used) r.cpu_slots
          || ltb (sub_u64 m.capacity.ram_bytes m.ram_used) r.ram_bytes
        ≡ false
    enough = rw (cpu_test, ram_test, hc, hr) refl

    try_reserve_gpu :
        is_empty r.gpu_id ≡ false
        → Answers m r leases
            (leb (r.gpu_vram_bytes + vram_sum r.gpu_id leases) (gpu_capacity m.capacity r.gpu_id))
    unfolding try_reserve
    try_reserve_gpu gpu = elim (Option-cases (lookup r.gpu_id m.capacity.gpu_vram_bytes)) [
      | inl unknown ↦
          let needed = valid_vram r v in
          let no_room : leb (r.gpu_vram_bytes + vram_sum r.gpu_id leases)
                (gpu_capacity m.capacity r.gpu_id)
              ≡ false =
            ground arith in
          refused m no_room (rw (v.valid, enough, gpu, unknown) refl) refl w
      | inr (capacity, known) ↦
          let test : ltb (sub_u64 capacity (used_of m r.gpu_id)) r.gpu_vram_bytes
              ≡ not (
                  leb (r.gpu_vram_bytes + vram_sum r.gpu_id leases)
                    (gpu_capacity m.capacity r.gpu_id)) =
            let e : capacity ≡ gpu_capacity m.capacity r.gpu_id = rw known refl in rw e vram_test in
          let touched = touch-Holds r.gpu_id m leases w in
          elim (Bool-cases (
            leb (r.gpu_vram_bytes + vram_sum r.gpu_id leases) (gpu_capacity m.capacity r.gpu_id))) [
              | inl fits ↦
                  granted (take_resources (touch r.gpu_id m) r) fits
                    (rw (v.valid, enough, gpu, known) (rw (test, fits) refl))
                    (take_resources-capacity (touch r.gpu_id m) r)
                    (take_resources-Holds (touch r.gpu_id m) r leases c v touched
                      (leb→le _ _ hc, leb→le _ _ hr, leb→le _ _ fits))
              | inr full ↦
                  refused (touch r.gpu_id m) full
                    (rw (v.valid, enough, gpu, known) (rw (test, full) refl)) refl touched
            ]
    ]

    try_reserve_enough :
        Answers m r leases
          (leb (r.gpu_vram_bytes + vram_sum r.gpu_id leases) (gpu_capacity m.capacity r.gpu_id))
    unfolding try_reserve
    try_reserve_enough = elim (Bool-cases (is_empty r.gpu_id)) [
      | inr gpu ↦ try_reserve_gpu gpu
      | inl no_gpu ↦
          let none_needed = no_gpu_vram no_gpu in
          let fits = w.vram_fits r.gpu_id in
          let enough_vram : leb (r.gpu_vram_bytes + vram_sum r.gpu_id leases)
                (gpu_capacity m.capacity r.gpu_id)
              ≡ true =
            ground arith in
          granted (take_resources m r) enough_vram (rw (v.valid, enough, no_gpu) refl)
            (take_resources-capacity m r)
            (take_resources-Holds m r leases c v w
              (leb→le _ _ hc, leb→le _ _ hr, leb→le _ _ enough_vram))
    ]

  try_reserve_short :
      lt_i32 (sub_i32 m.capacity.cpu_slots m.cpu_used) r.cpu_slots
          || ltb (sub_u64 m.capacity.ram_bytes m.ram_used) r.ram_bytes
        ≡ true
      → try_reserve m r ≡ ok (false, m)
  unfolding try_reserve
  try_reserve_short h = rw (v.valid, h) refl

  -- A request is refused, with the counters as they were, exactly when the leases that are out
  -- leave no room for it; otherwise the counters grow by what the new lease holds.
  pub try_reserve_lem : TryReserve m r leases
  try_reserve_lem = elim (Bool-cases (leb (r.cpu_slots + cpu_sum leases) m.capacity.cpu_slots)) [
    | inr short ↦ refused m (rw short refl) (try_reserve_short (rw (cpu_test, short) refl)) refl w
    | inl hc ↦ elim (Bool-cases (leb (r.ram_bytes + ram_sum leases) m.capacity.ram_bytes)) [
      | inr short ↦
          refused m (rw (hc, short) refl)
            (try_reserve_short (rw (cpu_test, ram_test, hc, short) refl)) refl w
      | inl hr ↦ rw (hc, hr) (try_reserve_enough hc hr)
    ]
  ]
