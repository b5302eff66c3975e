-- ===== src/Examples/Machine.antt =====
-- The theorems on resources, engines, the scheduler and the commands at small inputs.
use madre.Base.{
  ◌≡◌, refl, [], ◌∷◌, none, false, codes, arith, is_empty, text_eq, any_of, find_if, keep_if,
  all_of, split_on, lookup, ok, skip_spaces, signed_of, magnitude_of, digits, scan, stoll,
}
use madre.Protocol.{Frame}
use madre.Protocol.MessageType
use madre.Protocol.Frames.{metadata_value}
use madre.Store.{
  WorkState, Effort, Urgency, WorkRecord, AttemptState, bind_text, update_where, changes,
}
use madre.Store.Invariant.Runs.{empty}
use madre.Store.Operations.{
  next_eligible, first_by_order, expire_queued_deadlines, is_expired, is_eligible, begin_attempt,
  start_attempt, may_begin,
}
use madre.Resources.{
  ResourceRequirement, ResourceCapacity, ResourceManager, validate_requirement, try_reserve,
  take_resources, can_ever_reserve,
}
use madre.Resources.Leases.{Lease}
use madre.Resources.Accounting.{IsRequirement, IsCapacity, Holds}
use madre.Resources.Reserving.{TryReserve, try_reserve_lem}
use madre.Resources.Ownership.{fresh, fresh-Holds}
use madre.Engines.{
  EngineDescriptorFacts, select_engine, supports_type, contains, is_capable, contains_all,
  split_csv, is_allowed, is_exact_engine, has_exact_model, supports_effort, is_available, model_for,
}
use madre.Engines.Inventory.{fake_engine_inventory}
use madre.Engines.Choice.{IsChoice, select_engine-IsChoice}
use madre.Kernel.{
  Kernel, optional_metadata, parse_i64, parse_positive_int, optional_nonnegative_i64,
  validate_effort, validate_urgency,
}
use madre.Kernel.Handlers
use madre.Kernel.Handlers.{submitted_work, new_work, read_kind, read_retries, read_times}
use madre.Kernel.Dispatch.{Surroundings}
use madre.Kernel.Submission.{submit_lem, with_work, submit_reply}
use madre.Kernel.Scheduler.{
  AttemptTask, SchedulerState, TurnInputs, turn, dispatch, reserve_work, begin_work, launch,
}
use madre.Kernel.Reservations.{IsAccounted, turn-IsAccounted}

abbrev capacity : ResourceCapacity
capacity = record { cpu_slots = 2; ram_bytes = 100; gpu_vram_bytes = [] }

abbrev requirement : ResourceRequirement
requirement = record { cpu_slots = 1; ram_bytes = 40; gpu_id = []; gpu_vram_bytes = 0 }

pub requirement-IsRequirement : IsRequirement requirement
unfolding validate_requirement is_empty
requirement-IsRequirement = record {
  cpu_i32 = omega arith;
  ram_u64 = omega arith;
  vram_u64 = omega arith;
  valid = refl;
}

pub capacity-IsCapacity : IsCapacity capacity
unfolding lookup
capacity-IsCapacity = record {
  cpu_positive = omega arith;
  ram_u64 = omega arith;
  vram_u64 = λ id. omega arith;
}

try_reserve_lem_example : TryReserve (fresh capacity) requirement []
try_reserve_lem_example =
    try_reserve_lem (fresh capacity) requirement [] capacity-IsCapacity requirement-IsRequirement
      (fresh-Holds capacity)

-- The manager with one lease out.
abbrev lent : ResourceManager
lent = record (fresh capacity) { cpu_used = 1; ram_used = 40 }

pub lent-Holds : Holds lent (requirement ∷ [])
unfolding lookup text_eq
lent-Holds = record {
  cpu = refl;
  ram = refl;
  vram = λ id. ground arith;
  cpu_fits = omega arith;
  ram_fits = omega arith;
  vram_fits = λ id. ground arith;
}

abbrev idle_lease : Lease
idle_lease = record { owned = false; requirement = requirement }

abbrev work : WorkRecord
work = record {
  id = b'w' ∷ [];
  work_type = codes "text-generation/v1";
  state = WorkState.queued;
  effort = Effort.high;
  urgency = Urgency.normal;
  required_capabilities = [];
  eligible_engine_ids = [];
  exact_engine_id = [];
  exact_model_id = [];
  created_at_ms = 100;
  eligible_at_ms = 100;
  next_attempt_at_ms = 100;
  deadline_ms = none;
  timeout_ms = none;
  max_attempts = 3;
  retry_delay_ms = 10;
  attempt_count = 0;
  input_path = b'i' ∷ [];
  result_path = b'r' ∷ [];
  acknowledged = false;
  cancel_requested = false;
  selected_engine_id = [];
  selected_model_id = [];
  technical_failure = [];
}

select_engine-IsChoice_example :
    IsChoice work fake_engine_inventory (select_engine work fake_engine_inventory).selection
select_engine-IsChoice_example = select_engine-IsChoice work fake_engine_inventory

abbrev pub engine : EngineDescriptorFacts
engine = record {
  id = b'e' ∷ [];
  work_types = work.work_type ∷ [];
  capabilities = [];
  model_ids = [];
  supported_efforts = codes "HIGH" ∷ [];
  placement = [];
  availability = codes "AVAILABLE";
  resources = requirement;
}

abbrev pub inputs : TurnInputs
inputs = record {
  scheduler_now = 150;
  started_at = 151;
  failed_at = 152;
  errmsg = [];
  launch_failure = none;
}

-- One Work waits, and one attempt of another runs.
abbrev pub running_task : AttemptTask
running_task = record {
  work = work;
  attempt_number = 1;
  started_at_ms = 120;
  reservation = requirement;
}

abbrev pub before_turn : SchedulerState
before_turn = record {
  store = record { work = work ∷ []; attempts = [] };
  resources = lent;
  attempt_tasks = running_task ∷ [];
}

-- The turn begins an attempt of the Work on the engine.
abbrev pub after_turn : SchedulerState
after_turn = record {
  store = record {
    work =
        record work { state = WorkState.running; attempt_count = 1; selected_engine_id = engine.id }
        ∷ [];
    attempts =
        record {
          work_id = work.id;
          attempt_number = 1;
          engine_id = engine.id;
          model_id = [];
          started_at_ms = 151;
          ended_at_ms = none;
          state = AttemptState.running;
          technical_failure = [];
        }
        ∷ [];
  };
  resources = record lent { cpu_used = 2; ram_used = 80 };
  attempt_tasks =
      running_task
      ∷ record { work = work; attempt_number = 1; started_at_ms = 151; reservation = requirement }
      ∷ [];
}

pub begins_turn : turn (engine ∷ []) inputs before_turn ≡ ok after_turn
unfolding turn dispatch reserve_work begin_work launch expire_queued_deadlines is_expired
    update_where next_eligible is_eligible keep_if first_by_order select_engine supports_type
    contains any_of text_eq codes is_capable contains_all all_of split_csv split_on is_empty
    is_allowed is_exact_engine has_exact_model supports_effort is_available model_for
    can_ever_reserve validate_requirement try_reserve take_resources begin_attempt start_attempt
    may_begin find_if changes bind_text
begins_turn = refl

turn-IsAccounted_example : IsAccounted after_turn
turn-IsAccounted_example =
    turn-IsAccounted (engine ∷ []) inputs (requirement-IsRequirement, tt) before_turn after_turn
      (record { capacity = capacity-IsCapacity; holds = lent-Holds }) begins_turn

abbrev kernel : Kernel
kernel = record { data_dir = b'd' ∷ []; engine_inventory = engine ∷ []; store = empty; files = [] }

abbrev request : Frame
request = record {
  type = MessageType.submit;
  correlation_id = 7;
  metadata =
      (codes "effort", codes "HIGH")
      ∷ (codes "max_attempts", codes "3")
      ∷ (codes "retry_delay_ms", codes "10")
      ∷ (codes "urgency", codes "NORMAL")
      ∷ (codes "work_type", codes "text-generation/v1")
      ∷ [];
  payload = 1 ∷ 2 ∷ [];
}

abbrev around : Surroundings
around = record { now = 100; work_id = b'w' ∷ []; errmsg = []; is_warm = λ id. false }

abbrev row : WorkRecord
row =
    new_work (b'd' ∷ []) 100 (b'w' ∷ []) request
      (codes "text-generation/v1", Effort.high, Urgency.normal) (3, 10) (none, none, none)

row_submitted : submitted_work (b'd' ∷ []) 100 (b'w' ∷ []) request ≡ ok row
unfolding submitted_work read_kind read_retries read_times metadata_value lookup text_eq codes
    validate_effort validate_urgency parse_positive_int parse_i64 optional_nonnegative_i64
    optional_metadata is_empty stoll scan skip_spaces signed_of magnitude_of digits
row_submitted = refl

submit_lem_example :
    Handlers.submit [] 100 (b'w' ∷ []) request kernel
    ≡ (with_work kernel row request.payload, ok (submit_reply request (b'w' ∷ [])))
unfolding any_of
submit_lem_example =
    submit_lem [] 100 (b'w' ∷ []) request kernel row row_submitted (omega arith) refl

abbrev hello_request : Frame
hello_request = record {
  type = MessageType.hello;
  correlation_id = 8;
  metadata =
      (codes "max_kernel_protocol_version", b'3' ∷ [])
      ∷ (codes "min_kernel_protocol_version", b'1' ∷ [])
      ∷ [];
  payload = [];
}
