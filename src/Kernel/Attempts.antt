-- ===== src/Kernel/Attempts.antt =====
-- `Kernel::execute_worker`: when a running attempt must stop, and what its outcome does to the
-- database and the files. What the worker does between is its outcome.
use madre.Base.{
  ℕ, ◌++◌, Option, none, some, Bool, true, false, Text, Bytes, codes, Map, lt_i64, add_i64,
  if◌then◌else◌, ok, err, what,
}
use madre.Store.{WorkRecord, WorkStore, AttemptState}
use madre.Store.Completion.{
  finish_success, finish_cancelled, finish_retryable_failure, cancel_requested,
}
use madre.Store.History.{after}
use madre.Kernel.Files.{write_binary_atomic}

pub data WorkerOutcomeKind : Type 0 where
  succeeded technical_failure crashed cancelled timed_out stopped : WorkerOutcomeKind

pub record WorkerOutcome : Type 0 where
  pub kind : WorkerOutcomeKind
  pub payload : Bytes
  pub technical_failure : Text

abbrev timeout_stop : ℕ → Option ℕ → Option ℕ × Bool
timeout_stop started_at none = (none, false)
timeout_stop started_at (some timeout) = (some (add_i64 started_at timeout), true)

abbrev deadline_stop : Option ℕ → Option ℕ × Bool → Option ℕ × Bool
deadline_stop none stop = stop
deadline_stop (some deadline) (none, wins) = (some deadline, false)
deadline_stop (some deadline) (some stop_at, wins) =
    if lt_i64 deadline stop_at then (some deadline, false) else (some stop_at, wins)

-- When to stop the attempt, and whether that is its timeout.
unfoldable pub stop_at : WorkRecord → ℕ → Option ℕ × Bool
stop_at work started_at = deadline_stop work.deadline_ms (timeout_stop started_at work.timeout_ms)

-- The database and the files.
abbrev pub Saved : Type 0
Saved = WorkStore × Map Bytes

-- The handler of an exception, when the Kernel is not stopping.
unfoldable pub fail_execution : Text → ℕ → Text → ℕ → WorkStore → WorkStore
fail_execution id n message ended_at db = after db (
    finish_retryable_failure id n AttemptState.failed
      (codes "WORKER_EXECUTION_FAILURE: " ++ message) ended_at db)

-- A success, unless the Work was cancelled while it ran.
unfoldable pub save_success : WorkRecord → ℕ → Bytes → ℕ → Saved → Saved
save_success work n payload ended_at (db, files) =
    if cancel_requested work.id db
    then (finish_cancelled work.id n ended_at db, files)
    else elim (write_binary_atomic work.result_path payload files) [
      | err e ↦ (fail_execution work.id n (what e) ended_at db, files)
      | ok files' ↦ (finish_success work.id n ended_at db, files')
    ]

unfoldable pub finish_outcome : WorkRecord → ℕ → WorkerOutcome → ℕ → Saved → Saved
finish_outcome work n outcome ended_at (db, files) = elim outcome.kind [
  | stopped ↦ (db, files)
  | cancelled ↦ (finish_cancelled work.id n ended_at db, files)
  | timed_out ↦ (
    after db (
        finish_retryable_failure work.id n AttemptState.timed_out outcome.technical_failure ended_at
          db),
    files,
  )
  | technical_failure ↦ (
    after db (
        finish_retryable_failure work.id n AttemptState.failed outcome.technical_failure ended_at
          db),
    files,
  )
  | crashed ↦ (
    after db (
        finish_retryable_failure work.id n AttemptState.failed outcome.technical_failure ended_at
          db),
    files,
  )
  | succeeded ↦ save_success work n outcome.payload ended_at (db, files)
]
