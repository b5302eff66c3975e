-- ===== src/Workers.antt =====
-- kernel/src/worker_runtime.cpp: `WorkerPool::WorkerProcess`, a child process with its two pipes, in
-- the POSIX build. `WorkerPool` is in Workers/Pool.
pub mod Sending
pub mod Receiving
pub mod Execution
pub mod Replies
pub mod Outcomes
pub mod Prompt
pub mod Ending
pub mod Chunks
pub mod Silence
pub mod Pool
pub mod Walks
pub mod Busy
pub mod Leases
pub mod Runs
pub mod Reuse
pub mod Launching
pub mod Descriptors
use madre.Base.{
  ℕ, [], ◌++◌, Option, none, some, Bool, true, false, not, Text, Bytes, codes, to_string, lt_i64,
  if◌then◌else◌,
}
use madre.Kernel.Attempts.{WorkerOutcomeKind, WorkerOutcome}

-- An `int` that `waitpid` stores, as `WIFEXITED`, `WIFSIGNALED` and the macros on them read it.
pub data WaitStatus : Type 0 where
  exit_code : ℕ → WaitStatus
  signal : ℕ → WaitStatus
  unknown : WaitStatus

unfoldable pub wait_status_description : WaitStatus → Text
wait_status_description (exit_code code) = codes "exit code " ++ to_string code
wait_status_description (signal number) = codes "signal " ++ to_string number
wait_status_description unknown = codes "unknown process termination"

-- `-1` is `none`, of `pid` and of the descriptors. The identity is that of the shared object.
pub record WorkerProcess : Type 0 where
  pub engine_id : Text
  pub response_reader : Bytes
  pub pid : Option ℕ
  pub last_wait_status : Option WaitStatus
  pub input_fd : Option ℕ
  pub output_fd : Option ℕ
  pub busy : Bool
  pub last_used_ms : ℕ

-- `::waitpid(pid, &status, WNOHANG)`: 0, the process with its status, `ECHILD` or another error.
pub data WaitAnswer : Type 0 where
  running : WaitAnswer
  exited : WaitStatus → WaitAnswer
  no_child : WaitAnswer
  wait_failed : WaitAnswer

-- `pid = -1` with both descriptors closed
abbrev pub without_process : Option WaitStatus → WorkerProcess → WorkerProcess
without_process status worker = record worker {
  pid = none;
  last_wait_status = status;
  input_fd = none;
  output_fd = none;
}

abbrev pub waited : WaitAnswer → WorkerProcess → Bool × WorkerProcess
waited running worker = (true, worker)
waited (exited status) worker = (false, without_process (some status) worker)
waited no_child worker = (false, without_process worker.last_wait_status worker)
waited wait_failed worker = (true, worker)

unfoldable pub alive : WaitAnswer → WorkerProcess → Bool × WorkerProcess
alive answer worker = elim worker.pid [ none ↦ (false, worker) | some pid ↦ waited answer worker ]

unfoldable pub exit_description : WorkerProcess → Text
exit_description worker = elim worker.last_wait_status [
  | some status ↦ wait_status_description status
  | none ↦ codes "worker process exited"
]

-- `SIGKILL`, and the status that the blocking `waitpid` stores.
unfoldable pub terminate : WaitStatus → WorkerProcess → WorkerProcess
terminate status worker = elim worker.pid [
  | some pid ↦ without_process (some status) worker
  | none ↦ without_process worker.last_wait_status worker
]

-- What `execute` is called with.
pub record Attempt : Type 0 where
  pub payload : Bytes
  pub correlation_id : ℕ
  pub attempt_started_at_ms : ℕ
  pub stop_at_ms : Option ℕ
  pub timeout_wins : Bool

-- A part of `execute`: it goes on with a value, it returns from `execute`, or it still waits when
-- the answers of the outside that it was given are used up.
pub data Progress {ℓ} (A : Type ℓ) : Type ℓ where
  waits : Progress A
  ends : WorkerOutcome → WorkerProcess → Progress A
  goes_on : A → Progress A

-- The statements behind a part that may return.
abbrev pub and_then {ℓ κ} : {A : Type ℓ} {B : Type κ} → Progress A → (A → Progress B) → Progress B
and_then waits next = waits
and_then (ends result worker) next = ends result worker
and_then (goes_on value) next = next value

-- `timeout_outcome` returns it.
abbrev pub timeout : Attempt → WorkerOutcome
timeout attempt = record {
  kind = WorkerOutcomeKind.timed_out;
  payload = [];
  technical_failure =
      if attempt.timeout_wins
      then codes "ATTEMPT_TIMEOUT: per-attempt timeout expired"
      else codes "DEADLINE_EXPIRED: Work deadline expired during attempt";
}

abbrev pub outcome : WorkerOutcomeKind → Text → WorkerOutcome
outcome kind failure = record { kind = kind; payload = []; technical_failure = failure }

abbrev pub stopped_outcome : WorkerOutcome
stopped_outcome = outcome WorkerOutcomeKind.stopped []

abbrev pub cancelled_outcome : WorkerOutcome
cancelled_outcome = outcome WorkerOutcomeKind.cancelled (codes "cancelled")

abbrev pub crash : WorkerProcess → WorkerOutcome
crash worker = outcome WorkerOutcomeKind.crashed (codes "WORKER_CRASH: " ++ exit_description worker)

abbrev pub protocol_failure : Text → WorkerOutcome
protocol_failure message =
    outcome WorkerOutcomeKind.technical_failure (codes "WORKER_PROTOCOL_FAILURE: " ++ message)

abbrev pub ipc_failure : Text → WorkerOutcome
ipc_failure message = outcome WorkerOutcomeKind.crashed (codes "WORKER_IPC_FAILURE: " ++ message)

-- `stop_at_ms && now_ms() >= *stop_at_ms`
abbrev pub time_is_up : Option ℕ → ℕ → Bool
time_is_up none now = false
time_is_up (some stop_at) now = not (lt_i64 now stop_at)

-- `if (!alive()) return` the crash
abbrev pub unless_alive : Bool × WorkerProcess → Progress WorkerProcess
unless_alive (true, worker) = goes_on worker
unless_alive (false, worker) = ends (crash worker) worker

-- `terminate(); return` an outcome
abbrev pub kill {ℓ} : {A : Type ℓ} → WaitStatus → WorkerOutcome → WorkerProcess → Progress A
kill status result worker = ends result (terminate status worker)

-- The same, unless the process is gone already.
abbrev pub kill_if_alive {ℓ} :
    {A : Type ℓ} → WaitStatus → WorkerOutcome → Bool × WorkerProcess → Progress A
kill_if_alive status result (true, worker) = kill status result worker
kill_if_alive status result (false, worker) = ends (crash worker) worker
