-- ===== src/Store/Completion.antt =====
-- The methods of `WorkStore` that end an attempt, recover after a restart, cancel and acknowledge
-- (kernel/src/store.cpp).
use madre.Base.{
  ℕ, List, [], ◌∷◌, Option, none, some, Bool, true, false, ◌&&◌, not, Text, codes, ◌==◌, add_i64,
  if◌then◌else◌, keep_if, find_if, Result, ok, err, invalid_argument,
}
use madre.Store.{
  WorkState, AttemptState, WorkRecord, Attempt, WorkStore, bind_text, update_where, changes, has_id,
  has_id_in, is_active, work_state_eq, retry_permitted,
}

abbrev pub end_attempt : AttemptState → ℕ → Text → Attempt → Attempt
end_attempt s ended_at failure a = record a {
  state = s;
  ended_at_ms = some ended_at;
  technical_failure = failure;
}

abbrev pub end_row : WorkState → Text → WorkRecord → WorkRecord
end_row s failure w = record w { state = s; technical_failure = failure }

abbrev pub retry_row : ℕ → Text → WorkRecord → WorkRecord
retry_row retry_at failure w = record w {
  state = WorkState.queued;
  next_attempt_at_ms = retry_at;
  technical_failure = failure;
  selected_engine_id = [];
  selected_model_id = [];
}

unfoldable pub finish_success : Text → ℕ → ℕ → WorkStore → WorkStore
finish_success id n ended_at db = record {
  work =
      update_where (has_id_in (bind_text id) WorkState.running) (end_row WorkState.succeeded [])
        db.work;
  attempts =
      update_where (is_active (bind_text id) n) (end_attempt AttemptState.succeeded ended_at [])
        db.attempts;
}

abbrev pub cancelled_text : Text
cancelled_text = codes "cancelled"

unfoldable pub finish_cancelled : Text → ℕ → ℕ → WorkStore → WorkStore
finish_cancelled id n ended_at db = record {
  work =
      update_where (has_id_in (bind_text id) WorkState.running)
        (end_row WorkState.cancelled cancelled_text) db.work;
  attempts =
      update_where (is_active (bind_text id) n)
        (end_attempt AttemptState.cancelled ended_at cancelled_text) db.attempts;
}

-- What becomes of Work whose attempt ended at `now` without a result: `cancel_text` and `failure`
-- are the texts that the two callers write. The sum is that of `retry_permitted`, with its proviso.
unfoldable pub settle_row : Text → Text → ℕ → WorkRecord → WorkRecord → WorkRecord
settle_row cancel_text failure now read w =
    if read.cancel_requested
    then end_row WorkState.cancelled cancel_text w
    else if retry_permitted read now
    then retry_row (add_i64 now read.retry_delay_ms) failure w
    else end_row WorkState.failed failure w

abbrev pub may_end_retryable : AttemptState → Bool
may_end_retryable AttemptState.failed = true
may_end_retryable AttemptState.timed_out = true
may_end_retryable _ = false

unfoldable pub end_retryable : Text → ℕ → AttemptState → Text → ℕ → WorkStore → WorkStore
end_retryable id n attempt_state failure ended_at db =
    elim (find_if (has_id_in (bind_text id) WorkState.running) db.work) [
      | none ↦ db
      | some read ↦ record {
        work =
            update_where (has_id_in (bind_text id) WorkState.running)
              (settle_row cancelled_text (bind_text failure) ended_at read) db.work;
        attempts =
            update_where (is_active (bind_text id) n)
              (end_attempt attempt_state ended_at (bind_text failure)) db.attempts;
      }
    ]

unfoldable pub finish_retryable_failure :
    Text → ℕ → AttemptState → Text → ℕ → WorkStore → Result WorkStore
finish_retryable_failure id n attempt_state failure ended_at db =
    if may_end_retryable attempt_state
    then ok (end_retryable id n attempt_state failure ended_at db)
    else err (invalid_argument (codes "retryable attempt state must be FAILED or TIMED_OUT"))

abbrev pub restarted_text : Text
restarted_text = codes "Kernel restarted during active attempt"

abbrev pub cancelled_before_text : Text
cancelled_before_text = codes "cancelled before restart recovery"

-- The body of the loop over the rows that were RUNNING.
unfoldable pub recover_row : ℕ → WorkRecord → WorkStore → WorkStore
recover_row now read db = record {
  work =
      update_where (has_id_in (bind_text read.id) WorkState.running)
        (settle_row cancelled_before_text restarted_text now read) db.work;
  attempts =
      update_where (is_active (bind_text read.id) read.attempt_count)
        (end_attempt AttemptState.interrupted now restarted_text) db.attempts;
}

unfoldable pub recover_rows : ℕ → List WorkRecord → WorkStore → WorkStore
recover_rows now [] db = db
recover_rows now (read ∷ rest) db = recover_rows now rest (recover_row now read db)

abbrev pub in_running : WorkRecord → Bool
in_running w = work_state_eq w.state WorkState.running

unfoldable pub recover_interrupted : ℕ → WorkStore → WorkStore
recover_interrupted now db = recover_rows now (keep_if in_running db.work) db

abbrev pub cancel_queued_row : WorkRecord → WorkRecord
cancel_queued_row w = record w {
  state = WorkState.cancelled;
  cancel_requested = true;
  technical_failure = cancelled_text;
}

abbrev pub request_cancel_row : WorkRecord → WorkRecord
request_cancel_row w = record w { cancel_requested = true }

-- On the state that the SELECT read.
unfoldable pub cancel_in : Text → WorkState → WorkStore → Option WorkState × WorkStore
cancel_in id WorkState.queued db = (
  some WorkState.cancelled,
  record db {
    work = update_where (has_id_in (bind_text id) WorkState.queued) cancel_queued_row db.work;
  },
)
cancel_in id WorkState.running db = (
  some WorkState.running,
  record db {
    work = update_where (has_id_in (bind_text id) WorkState.running) request_cancel_row db.work;
  },
)
cancel_in id s db = (some s, db)

-- `none` is the empty string that is returned for an unknown id.
unfoldable pub cancel : Text → WorkStore → Option WorkState × WorkStore
cancel id db = elim (find_if (has_id (bind_text id)) db.work) [
  | none ↦ (none, db)
  | some w ↦ cancel_in id w.state db
]

unfoldable pub cancel_requested : Text → WorkStore → Bool
cancel_requested id db = elim (find_if (has_id (bind_text id)) db.work) [
  | none ↦ false
  | some w ↦ w.cancel_requested
]

-- WHERE id=? AND state='SUCCEEDED' AND acknowledged=0
unfoldable pub may_acknowledge : Text → WorkRecord → Bool
may_acknowledge id w = has_id_in (bind_text id) WorkState.succeeded w && not w.acknowledged

abbrev pub acknowledge_row : WorkRecord → WorkRecord
acknowledge_row w = record w { acknowledged = true }

unfoldable pub acknowledge : Text → WorkStore → Bool × WorkStore
acknowledge id db = (
  changes (may_acknowledge id) db.work == 1,
  record db { work = update_where (may_acknowledge id) acknowledge_row db.work },
)
