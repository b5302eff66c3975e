-- ===== src/Options/Checked.antt =====
-- What the checks of the command line let through.
use mathlib.Core.Path.{subst}
use madre.Base.{
  scan, skip_spaces, signed_of, magnitude_of, digits, ◌^◌, ◌≡◌, inl, inr, refl, List, ◌∷◌, ◌++◌,
  none, true, false, ◌||◌, ◌==◌, Text, codes, is_empty, text_eq, lookup, emplace, cut-append,
  has_byte, any_of, lt_i32, stoull, ok, ok-injective, arith, All, All-append, Bool-cases,
}
use madre.Resources.{ResourceCapacity, validate_requirement}
use madre.Engines.{EngineDescriptorFacts}
use madre.Engines.Inventory.{fake_engine_inventory}
use madre.Options.{
  Options, add_gpu_capacity, has_configured_worker, configured_engine, base_inventory,
  build_engine_inventory,
}
use madre.Options.Arguments.{check_options, is_worker_ok, is_process_ok, bool_eq}

two_to_44 : stoull (codes "17592186044416") ≡ ok (2 ^ 44)
unfolding codes stoull scan skip_spaces signed_of magnitude_of digits
two_to_44 = refl

-- The specification of 2^44 MiB for a new GPU is taken, and the capacity that it gives is 0.
pub add_gpu_capacity_wraps :
    (capacity : ResourceCapacity) (id : Text)
    → is_empty id ≡ false
    → has_byte b'=' id ≡ false
    → lookup id capacity.gpu_vram_bytes ≡ none
    → add_gpu_capacity capacity (id ++ (b'=' ∷ codes "17592186044416"))
      ≡ ok (record capacity { gpu_vram_bytes = emplace id 0 capacity.gpu_vram_bytes })
unfolding add_gpu_capacity codes stoull is_empty
add_gpu_capacity_wraps capacity id named no_sign new =
    rw (cut-append b'=' id (codes "17592186044416") no_sign, add_gpu_capacity)
      (rw (named, two_to_44, new) refl)

abbrev pub IsValidEngine : EngineDescriptorFacts → Type 0
IsValidEngine engine = validate_requirement engine.resources ≡ ok tt

fake-IsValidEngine : All IsValidEngine fake_engine_inventory
unfolding fake_engine_inventory validate_requirement codes is_empty
fake-IsValidEngine = (refl, (refl, (refl, tt)))

base-IsValidEngine : (options : Options) → All IsValidEngine (base_inventory options)
base-IsValidEngine options = elim (Bool-cases (is_empty options.fake_worker)) [
  | inl no_fake ↦ rw no_fake tt
  | inr fake ↦ rw fake fake-IsValidEngine
]

configured-IsValidEngine :
    (options : Options)
    → check_options options ≡ ok options
    → has_configured_worker options ≡ true
    → IsValidEngine (configured_engine options)
unfolding check_options configured_engine validate_requirement
configured-IsValidEngine options e configured = elim (Bool-cases (is_process_ok options)) [
  | inr bad ↦ absurd (cc (rw bad at e))
  | inl process ↦ elim (Bool-cases (is_worker_ok options)) [
    | inr bad ↦ absurd (cc (rw (process, configured, bad) at e))
    | inl worker ↦
        elim (Bool-cases
          (bool_eq (is_empty options.worker_gpu_id) (options.worker_gpu_vram_bytes == 0))) [
            | inr bad ↦ absurd (cc (rw (process, configured, worker, bad) at e))
            | inl gpu ↦
                let cpu : lt_i32 options.worker_cpu_slots 1 || (options.worker_ram_bytes == 0)
                    ≡ false =
                  ground arith in
                rw (cpu, gpu) refl
          ]
  ]
]

-- A command line that passes the checks gives an inventory of which the resource manager refuses no
-- engine's requirement as malformed.
pub check_options-IsValidEngine :
    (options : Options) (inventory : List EngineDescriptorFacts)
    → check_options options ≡ ok options
    → build_engine_inventory options ≡ ok inventory
    → All IsValidEngine inventory
unfolding build_engine_inventory
check_options-IsValidEngine options inventory checked built =
    elim (Bool-cases (has_configured_worker options)) [
      | inr plain ↦
          subst (All IsValidEngine) (ok-injective (rw plain at built)) (base-IsValidEngine options)
      | inl configured ↦
          elim (Bool-cases (
            any_of (λ engine. text_eq engine.id options.worker_engine_id)
              (base_inventory options))) [
                | inl duplicate ↦ absurd (cc (rw (configured, duplicate) at built))
                | inr new ↦
                    subst (All IsValidEngine) (ok-injective (rw (configured, new) at built)) (
                      All-append IsValidEngine (base_inventory options) _
                        (base-IsValidEngine options)
                        (configured-IsValidEngine options checked configured, tt))
              ]
    ]
