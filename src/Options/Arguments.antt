-- ===== src/Options/Arguments.antt =====
-- `parse_options` of kernel/src/main.cpp: the loop over the arguments, and the checks behind it.
use madre.Base.{
  ℕ, List, [], ◌∷◌, ◌++◌, Bool, true, false, not, ◌&&◌, ◌||◌, ◌==◌, Text, codes, is_empty, text_eq,
  lt_i32, lt_i64, mul_u64, stoi, stoll, stoull, if◌then◌else◌, Result, ok, err, runtime_error,
  guard, ◌>>=◌, ◌>>◌,
}
use madre.Engines.{split_csv}
use madre.Engines.Inventory.{mib}
use madre.Options.{Options, default_options, add_gpu_capacity, has_configured_worker, is_none}

abbrev pub usage : Text
usage =
    codes
      "usage: madre-kernel --data-dir <path> --endpoint <local-endpoint> [--fake-worker <path>] [--fake-delay-ms N] [--worker-idle-ms N] [--cpu-capacity N] [--ram-capacity-mib N] [--gpu-capacity ID=MiB]... [--worker-engine-id ID --worker-executable PATH [--worker-model-id ID] [--worker-arg ARG]... [--worker-work-types CSV] [--worker-capabilities CSV] [--worker-efforts CSV] [--worker-cpu-slots N] [--worker-ram-mib N] [--worker-gpu-id ID --worker-gpu-vram-mib N]]"

abbrev with_cpu : Options → ℕ → Options
with_cpu options n = record options { capacity = record options.capacity { cpu_slots = n } }

abbrev with_ram : Options → ℕ → Options
with_ram options size = record options {
  capacity = record options.capacity { ram_bytes = mul_u64 size mib };
}

-- One argument with its value.
unfoldable pub apply_argument : Text → Text → Options → Result Options
apply_argument argument value options =
    if text_eq argument (codes "--data-dir")
    then ok (record options { data_dir = value })
    else if text_eq argument (codes "--endpoint")
    then ok (record options { endpoint = value })
    else if text_eq argument (codes "--fake-worker")
    then ok (record options { fake_worker = value })
    else if text_eq argument (codes "--fake-delay-ms")
    then stoi value >>= (λ n. ok (record options { fake_delay_ms = n }))
    else if text_eq argument (codes "--worker-idle-ms")
    then stoll value >>= (λ (n, _). ok (record options { worker_idle_ms = n }))
    else if text_eq argument (codes "--cpu-capacity")
    then stoi value >>= (λ n. ok (with_cpu options n))
    else if text_eq argument (codes "--ram-capacity-mib")
    then stoull value >>= (λ size. ok (with_ram options size))
    else if text_eq argument (codes "--gpu-capacity")
    then add_gpu_capacity options.capacity value >>= (λ c. ok (record options { capacity = c }))
    else if text_eq argument (codes "--worker-engine-id")
    then ok (record options { worker_engine_id = value })
    else if text_eq argument (codes "--worker-executable")
    then ok (record options { worker_executable = value })
    else if text_eq argument (codes "--worker-model-id")
    then ok (record options { worker_model_id = value })
    else if text_eq argument (codes "--worker-arg")
    then ok (record options { worker_arguments = options.worker_arguments ++ (value ∷ []) })
    else if text_eq argument (codes "--worker-work-types")
    then ok (record options { worker_work_types = split_csv value })
    else if text_eq argument (codes "--worker-capabilities")
    then ok (record options { worker_capabilities = split_csv value })
    else if text_eq argument (codes "--worker-efforts")
    then ok (record options { worker_efforts = split_csv value })
    else if text_eq argument (codes "--worker-cpu-slots")
    then stoi value >>= (λ n. ok (record options { worker_cpu_slots = n }))
    else if text_eq argument (codes "--worker-ram-mib")
    then stoull value >>= (λ size. ok (record options { worker_ram_bytes = mul_u64 size mib }))
    else if text_eq argument (codes "--worker-gpu-id")
    then ok (record options { worker_gpu_id = value })
    else if text_eq argument (codes "--worker-gpu-vram-mib")
    then stoull value >>= (λ size. ok (record options { worker_gpu_vram_bytes = mul_u64 size mib }))
    else err (runtime_error usage)

-- An argument at the end has no value, and so no test of the loop accepts it.
unfoldable pub read_arguments : List Text → Options → Result Options
read_arguments [] options = ok options
read_arguments (argument ∷ []) options = err (runtime_error usage)
read_arguments (argument ∷ value ∷ rest) options =
    apply_argument argument value options >>= read_arguments rest

abbrev pub is_process_ok : Options → Bool
is_process_ok options = not (
    is_empty options.data_dir
    || is_empty options.endpoint
    || lt_i32 options.fake_delay_ms 0
    || lt_i64 options.worker_idle_ms 0
    || lt_i32 options.capacity.cpu_slots 1
    || (options.capacity.ram_bytes == 0))

abbrev pub is_worker_ok : Options → Bool
is_worker_ok options = not (
    is_empty options.worker_engine_id
    || is_empty options.worker_executable
    || is_none options.worker_work_types
    || is_none options.worker_efforts
    || lt_i32 options.worker_cpu_slots 1
    || (options.worker_ram_bytes == 0))

abbrev pub bool_eq : Bool → Bool → Bool
bool_eq true b = b
bool_eq false b = not b

-- The checks behind the loop.
unfoldable pub check_options : Options → Result Options
check_options options = do
  let configured = has_configured_worker options
  guard (is_process_ok options)
      (runtime_error (codes "invalid Kernel physical process/resource configuration"))
  guard (not (configured && not (is_worker_ok options))) (
      runtime_error
        (codes "configured worker requires engine, executable and positive physical resources"))
  guard
      (not (
        configured
        && not (bool_eq (is_empty options.worker_gpu_id) (options.worker_gpu_vram_bytes == 0))))
      (runtime_error (codes "configured worker GPU identity and VRAM must be declared together"))
  ok options

-- On the arguments behind the program's name.
unfoldable pub parse_options : List Text → Result Options
parse_options arguments = read_arguments arguments default_options >>= check_options
