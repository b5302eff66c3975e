-- ===== src/Kernel/Handlers.antt =====
-- The handlers of the Kernel's commands. A handler gives the Kernel after it and its reply, or the
-- exception that it throws.
use madre.Base.{
  ℕ, suc, List, [], ◌∷◌, ◌++◌, Option, none, some, Bool, true, false, not, ◌&&◌, ◌||◌, ltb, length,
  Text, Bytes, codes, is_empty, text_eq, Map, lookup, assign, erase, find_if, lt_i64, lt_i32, stoi,
  to_string, to_string_i32, if◌then◌else◌, Result, ok, err, runtime_error, guard, ◌>>=◌, ◌>>◌,
}
use madre.Protocol.{
  Frame, max_payload_bytes, min_kernel_protocol_version, max_kernel_protocol_version,
}
use madre.Protocol.MessageType
use madre.Protocol.Frames.{metadata_value}
use madre.Store.{WorkRecord, WorkState, Effort, Urgency, work_state_eq}
use madre.Store.Operations
use madre.Store.Completion
use madre.Engines.{EngineDescriptorFacts}
use madre.Engines.Inventory.{add_engine_descriptor}
use madre.Kernel.{
  Kernel, response, error_response, optional_metadata, parse_i64, optional_nonnegative_i64,
  parse_positive_int, validate_effort, validate_urgency,
}
use madre.Kernel.Files.{write_binary_atomic, read_binary_bounded, exists}

abbrev pub Reply : Type 0
Reply = Kernel × Result Frame

-- `out.metadata[key] = value`
abbrev pub with_field : Text → Text → Frame → Frame
with_field key value out = record out { metadata = assign key value out.metadata }

-- The text of the `state` column.
abbrev pub state_text : WorkState → Text
state_text WorkState.queued = codes "QUEUED"
state_text WorkState.running = codes "RUNNING"
state_text WorkState.succeeded = codes "SUCCEEDED"
state_text WorkState.failed = codes "FAILED"
state_text WorkState.cancelled = codes "CANCELLED"

abbrev pub max_i32 : ℕ → ℕ → ℕ
max_i32 a b = if lt_i32 a b then b else a

abbrev pub min_i32 : ℕ → ℕ → ℕ
min_i32 a b = if lt_i32 b a then b else a

unfoldable pub hello : Frame → Result Frame
hello request = do
  min_text ← metadata_value request (codes "min_kernel_protocol_version")
  client_min ← stoi min_text
  max_text ← metadata_value request (codes "max_kernel_protocol_version")
  client_max ← stoi max_text
  let overlap_min = max_i32 client_min min_kernel_protocol_version
  let overlap_max = min_i32 client_max max_kernel_protocol_version
  ok (
      if lt_i32 client_max client_min || lt_i32 overlap_max overlap_min
      then error_response request (codes "VERSION_MISMATCH")
          (codes "no compatible Kernel protocol/API version")
      else with_field (codes "kernel_protocol_version") (to_string_i32 overlap_max)
          (response MessageType.hello_response request))

-- `operator/` of a path
unfoldable pub ends_with_slash : Text → Bool
ends_with_slash [] = true
ends_with_slash (c ∷ []) = text_eq (c ∷ []) (codes "/")
ends_with_slash (c ∷ d ∷ s) = ends_with_slash (d ∷ s)

abbrev pub path_join : Text → Text → Text
path_join a b = if ends_with_slash a then a ++ b else a ++ (b'/' ∷ b)

unfoldable pub work_dir : Text → Text → Text
work_dir data_dir id = path_join (path_join data_dir (codes "work")) id

abbrev pub value_or_now : ℕ → Option ℕ → ℕ
value_or_now now none = now
value_or_now now (some value) = value

-- The fields of a submission, in the order in which the handler reads them.
unfoldable pub read_kind : Frame → Result (Text × Effort × Urgency)
read_kind request = do
  work_type ← metadata_value request (codes "work_type")
  effort_value ← metadata_value request (codes "effort")
  urgency_value ← metadata_value request (codes "urgency")
  effort ← validate_effort effort_value
  urgency ← validate_urgency urgency_value
  ok (work_type, effort, urgency)

unfoldable pub read_retries : Frame → Result (ℕ × ℕ)
read_retries request = do
  max_attempts ← parse_positive_int request (codes "max_attempts")
  retry_text ← metadata_value request (codes "retry_delay_ms")
  retry_delay_ms ← parse_i64 retry_text (codes "retry_delay_ms")
  guard (not (lt_i64 retry_delay_ms 0)) (runtime_error (codes "retry_delay_ms must be >= 0"))
  ok (max_attempts, retry_delay_ms)

unfoldable pub read_times : Frame → Result (Option ℕ × Option ℕ × Option ℕ)
read_times request = do
  eligible ← optional_nonnegative_i64 request (codes "eligible_at_ms")
  deadline ← optional_nonnegative_i64 request (codes "deadline_ms")
  timeout ← optional_nonnegative_i64 request (codes "timeout_ms")
  ok (eligible, deadline, timeout)

-- `WorkRecord{…}`
unfoldable pub new_work :
    Text
    → ℕ
    → Text
    → Frame
    → Text × Effort × Urgency
    → ℕ × ℕ
    → Option ℕ × Option ℕ × Option ℕ
    → WorkRecord
new_work data_dir now id request (work_type, effort, urgency) (max_attempts, retry_delay_ms)
      (eligible, deadline, timeout) =
    let dir = work_dir data_dir id in
    record {
      id = id;
      work_type = work_type;
      state = WorkState.queued;
      effort = effort;
      urgency = urgency;
      required_capabilities = optional_metadata request (codes "required_capabilities");
      eligible_engine_ids = optional_metadata request (codes "eligible_engine_ids");
      exact_engine_id = optional_metadata request (codes "exact_engine_id");
      exact_model_id = optional_metadata request (codes "exact_model_id");
      created_at_ms = now;
      eligible_at_ms = value_or_now now eligible;
      next_attempt_at_ms = value_or_now now eligible;
      deadline_ms = deadline;
      timeout_ms = timeout;
      max_attempts = max_attempts;
      retry_delay_ms = retry_delay_ms;
      attempt_count = 0;
      input_path = path_join dir (codes "input.bin");
      result_path = path_join dir (codes "result.bin");
      acknowledged = false;
      cancel_requested = false;
      selected_engine_id = [];
      selected_model_id = [];
      technical_failure = [];
    }

-- The row of a submission that comes in at `now` and is given `id`.
unfoldable pub submitted_work : Text → ℕ → Text → Frame → Result WorkRecord
submitted_work data_dir now id request = do
  kind ← read_kind request
  retries ← read_retries request
  times ← read_times request
  ok (new_work data_dir now id request kind retries times)

-- The row is inserted when its input file is there.
unfoldable pub insert_work : Text → WorkRecord → Frame → Kernel → Reply
insert_work errmsg work request kernel = elim (Operations.submit errmsg work kernel.store) [
  | err e ↦ (kernel, err e)
  | ok store ↦ (
    record kernel { store = store },
    ok (with_field (codes "work_id") work.id (response MessageType.submit_response request)),
  )
]

unfoldable pub store_work : Text → WorkRecord → Frame → Kernel → Reply
store_work errmsg work request kernel =
    elim (write_binary_atomic work.input_path request.payload kernel.files) [
      | err e ↦ (kernel, err e)
      | ok files ↦ insert_work errmsg work request (record kernel { files = files })
    ]

unfoldable pub submit : Text → ℕ → Text → Frame → Kernel → Reply
submit errmsg now id request kernel =
    if ltb max_payload_bytes (length request.payload)
    then (
      kernel,
      ok (
          error_response request (codes "PAYLOAD_TOO_LARGE") (
            codes
              "C1 text-generation/v1 input exceeds the 1 MiB bounded payload limit; streaming/spooling is deferred")),
    )
    else elim (submitted_work kernel.data_dir now id request) [
      | err e ↦ (kernel, err e)
      | ok work ↦ store_work errmsg work request kernel
    ]

abbrev pub work_not_found : Frame → Frame
work_not_found request = error_response request (codes "WORK_NOT_FOUND") (codes "unknown WorkId")

abbrev pub status_of : Frame → WorkRecord → Frame
status_of request work =
    let out =
      with_field (codes "state") (state_text work.state)
        (response MessageType.status_response request) in
    if is_empty work.technical_failure
    then out
    else with_field (codes "technical_failure") work.technical_failure out

unfoldable pub status : Frame → Kernel → Result Frame
status request kernel = do
  id ← metadata_value request (codes "work_id")
  ok (elim (Operations.find id kernel.store) [
    | none ↦ work_not_found request
    | some work ↦ status_of request work
  ])

unfoldable pub is_result_available : WorkRecord → Map Bytes → Bool
is_result_available work files =
    work_state_eq work.state WorkState.succeeded
    && not work.acknowledged
    && exists work.result_path files

abbrev size_at : Text → Map Bytes → ℕ
size_at path files = elim (lookup path files) [ none ↦ 0 | some payload ↦ length payload ]

abbrev pub result_of : Frame → WorkRecord → Map Bytes → Result Frame
result_of request work files =
    let out =
      with_field (codes "state") (state_text work.state)
        (response MessageType.result_response request) in
    if not (is_result_available work files)
    then ok (with_field (codes "available") (codes "false") out)
    else if ltb max_payload_bytes (size_at work.result_path files)
    then ok (
        error_response request (codes "PAYLOAD_TOO_LARGE") (
          codes
            "C1 text-generation/v1 result exceeds the 1 MiB bounded payload limit; streaming/spooling is deferred"))
    else (do
      payload ← read_binary_bounded work.result_path files
      ok (record (with_field (codes "available") (codes "true") out) { payload = payload }))

unfoldable pub result : Frame → Kernel → Result Frame
result request kernel = do
  id ← metadata_value request (codes "work_id")
  elim (Operations.find id kernel.store) [
    | none ↦ ok (work_not_found request)
    | some work ↦ result_of request work kernel.files
  ]

-- The payload files go once the store has taken the acknowledgement.
unfoldable pub acknowledge_work : Text → WorkRecord → Frame → Kernel → Reply
acknowledge_work id work request kernel =
    let acknowledged = Completion.acknowledge id kernel.store in
    if acknowledged.0
    then (
      record kernel {
        store = acknowledged.1;
        files = erase work.result_path (erase work.input_path kernel.files);
      },
      ok (
          with_field (codes "acknowledged") (codes "true")
            (response MessageType.acknowledge_response request)),
    )
    else (
      record kernel { store = acknowledged.1 },
      ok (
          error_response request (codes "RESULT_NOT_ACKNOWLEDGEABLE")
            (codes "result is not available for acknowledgement")),
    )

unfoldable pub acknowledge : Frame → Kernel → Reply
acknowledge request kernel = elim (metadata_value request (codes "work_id")) [
  | err e ↦ (kernel, err e)
  | ok id ↦ elim (Operations.find id kernel.store) [
    | none ↦ (kernel, ok (work_not_found request))
    | some work ↦ acknowledge_work id work request kernel
  ]
]

abbrev pub cancel_reply : Frame → Option WorkState → Frame
cancel_reply request none = work_not_found request
cancel_reply request (some state) =
    with_field (codes "state") (state_text state) (response MessageType.cancel_response request)

unfoldable pub cancel : Frame → Kernel → Reply
cancel request kernel = elim (metadata_value request (codes "work_id")) [
  | err e ↦ (kernel, err e)
  | ok id ↦
      let cancelled = Completion.cancel id kernel.store in
      (record kernel { store = cancelled.1 }, ok (cancel_reply request cancelled.0))
]

-- The engines from number `i` on.
unfoldable pub describe_engines : (Text → Bool) → ℕ → List EngineDescriptorFacts → Frame → Frame
describe_engines is_warm i [] out = out
describe_engines is_warm i (engine ∷ rest) out = describe_engines is_warm (suc i) rest (
    add_engine_descriptor out (codes "engine." ++ (to_string i ++ codes ".")) engine
      (is_warm engine.id))

unfoldable pub list_engines : (Text → Bool) → Frame → Kernel → Frame
list_engines is_warm request kernel = describe_engines is_warm 0 kernel.engine_inventory (
    with_field (codes "count") (to_string (length kernel.engine_inventory))
      (response MessageType.list_engines_response request))

unfoldable pub engine_status : (Text → Bool) → Frame → Kernel → Result Frame
engine_status is_warm request kernel = do
  id ← metadata_value request (codes "engine_id")
  ok (elim (find_if (λ engine. text_eq engine.id id) kernel.engine_inventory) [
    | none ↦ error_response request (codes "ENGINE_NOT_FOUND") (codes "unknown physical engine")
    | some engine ↦
        add_engine_descriptor (response MessageType.engine_status_response request) [] engine
          (is_warm engine.id)
  ])
