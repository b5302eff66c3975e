-- ===== src/Options.antt =====
-- kernel/src/main.cpp: the command line of the Kernel, and the engines and launches made of it.
pub mod Arguments
pub mod Checked
use madre.Base.{
  ℕ, ◌*◌, List, [], ◌∷◌, ◌++◌, Option, none, some, Bool, true, false, not, ◌&&◌, ◌||◌, ◌==◌, Text,
  codes, is_empty, text_eq, Map, lookup, emplace, cut, any_of, map, lt_i32, lt_i64, mul_u64, stoi,
  stoll, stoull, to_string_i32, if◌then◌else◌, Result, ok, err, runtime_error, guard, ◌>>=◌, ◌>>◌,
}
use madre.Resources.{ResourceCapacity}
use madre.Engines.{EngineDescriptorFacts, split_csv}
use madre.Engines.Inventory.{mib, fake_engine_inventory, local_worker_process, available}

pub record Options : Type 0 where
  pub data_dir : Text
  pub endpoint : Text
  pub fake_worker : Text
  pub fake_delay_ms : ℕ
  pub worker_idle_ms : ℕ
  pub capacity : ResourceCapacity
  pub worker_engine_id : Text
  pub worker_executable : Text
  pub worker_model_id : Text
  pub worker_arguments : List Text
  pub worker_work_types : List Text
  pub worker_capabilities : List Text
  pub worker_efforts : List Text
  pub worker_cpu_slots : ℕ
  pub worker_ram_bytes : ℕ
  pub worker_gpu_id : Text
  pub worker_gpu_vram_bytes : ℕ

abbrev pub default_options : Options
default_options = record {
  data_dir = [];
  endpoint = [];
  fake_worker = [];
  fake_delay_ms = 250;
  worker_idle_ms = 1000;
  capacity = record { cpu_slots = 2; ram_bytes = 512 * mib; gpu_vram_bytes = [] };
  worker_engine_id = [];
  worker_executable = [];
  worker_model_id = [];
  worker_arguments = [];
  worker_work_types = codes "text-generation/v1" ∷ [];
  worker_capabilities = codes "basic-text" ∷ [];
  worker_efforts = codes "STANDARD" ∷ [];
  worker_cpu_slots = 1;
  worker_ram_bytes = 256 * mib;
  worker_gpu_id = [];
  worker_gpu_vram_bytes = 0;
}

abbrev pub not_id_mib {ℓ} : {A : Type ℓ} → Result A
not_id_mib = err (runtime_error (codes "GPU capacity must use ID=MiB"))

abbrev pub is_known : Option ℕ → Bool
is_known none = false
is_known (some capacity) = true

abbrev pub add_parsed_gpu : ResourceCapacity → Text → Text → Result ResourceCapacity
add_parsed_gpu capacity id number = do
  guard (not (is_empty id || is_empty number))
      (runtime_error (codes "GPU capacity must use ID=MiB"))
  size ← stoull number
  guard (not ((size == 0) || is_known (lookup id capacity.gpu_vram_bytes)))
      (runtime_error (codes "GPU capacity identity must be unique and positive"))
  ok (record capacity { gpu_vram_bytes = emplace id (mul_u64 size mib) capacity.gpu_vram_bytes })

unfoldable pub add_gpu_capacity : ResourceCapacity → Text → Result ResourceCapacity
add_gpu_capacity capacity specification = elim (cut b'=' specification) [
  | none ↦ not_id_mib
  | some (id, number) ↦ add_parsed_gpu capacity id number
]

abbrev pub is_none {ℓ} : {A : Type ℓ} → List A → Bool
is_none [] = true
is_none (_ ∷ _) = false

unfoldable pub has_configured_worker : Options → Bool
has_configured_worker options =
    not (is_empty options.worker_engine_id)
    || not (is_empty options.worker_executable)
    || not (is_empty options.worker_model_id)
    || not (is_none options.worker_arguments)

abbrev model_ids_of : Text → List Text
model_ids_of id = if is_empty id then [] else id ∷ []

unfoldable pub configured_engine : Options → EngineDescriptorFacts
configured_engine options = record {
  id = options.worker_engine_id;
  work_types = options.worker_work_types;
  capabilities = options.worker_capabilities;
  model_ids = model_ids_of options.worker_model_id;
  supported_efforts = options.worker_efforts;
  placement = local_worker_process;
  availability = available;
  resources = record {
    cpu_slots = options.worker_cpu_slots;
    ram_bytes = options.worker_ram_bytes;
    gpu_id = options.worker_gpu_id;
    gpu_vram_bytes = options.worker_gpu_vram_bytes;
  };
}

abbrev pub base_inventory : Options → List EngineDescriptorFacts
base_inventory options = if is_empty options.fake_worker then [] else fake_engine_inventory

unfoldable pub build_engine_inventory : Options → Result (List EngineDescriptorFacts)
build_engine_inventory options =
    if not (has_configured_worker options)
    then ok (base_inventory options)
    else if any_of (λ engine. text_eq engine.id options.worker_engine_id) (base_inventory options)
    then err
        (runtime_error (codes "configured worker engine identity duplicates an existing engine"))
    else ok (base_inventory options ++ (configured_engine options ∷ []))

pub record WorkerLaunchSpec : Type 0 where
  pub executable : Text
  pub arguments : List Text

abbrev fake_launch : Options → Text → WorkerLaunchSpec
fake_launch options id = record {
  executable = options.fake_worker;
  arguments =
      codes "--engine-id" ∷ id ∷ codes "--delay-ms" ∷ to_string_i32 options.fake_delay_ms ∷ [];
}

unfoldable pub emplace_fakes :
    Options → List EngineDescriptorFacts → Map WorkerLaunchSpec → Map WorkerLaunchSpec
emplace_fakes options [] launches = launches
emplace_fakes options (engine ∷ rest) launches =
    emplace_fakes options rest (emplace engine.id (fake_launch options engine.id) launches)

unfoldable pub build_worker_launches : Options → Map WorkerLaunchSpec
build_worker_launches options =
    let launches =
      if is_empty options.fake_worker then [] else emplace_fakes options fake_engine_inventory [] in
    if has_configured_worker options
    then emplace options.worker_engine_id
        (record { executable = options.worker_executable; arguments = options.worker_arguments })
        launches
    else launches
