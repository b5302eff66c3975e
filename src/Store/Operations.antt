-- ===== src/Store/Operations.antt =====
-- The methods of `WorkStore` (kernel/src/store.cpp). Each runs under the object's mutex, and its
-- transaction is rolled back when it throws, so an error leaves the tables as they were. `errmsg`
-- is what `sqlite3_errmsg` says of a refused constraint.
use madre.Base.{
  ℕ, List, [], ◌∷◌, ◌++◌, Option, none, some, Bool, false, ◌&&◌, ◌||◌, not, Text, codes, text_eq,
  ◌==◌, ltb, lt_i64, le_i64, le_i32, add_i32, if◌then◌else◌, keep_if, any_of, find_if, Result, ok,
  err, runtime_error,
}
use madre.Store.{
  WorkState, AttemptState, Urgency, interactive, normal, background, WorkRecord, Attempt, WorkStore,
  bind_text, update_where, changes, has_id, has_id_in, work_state_eq,
}

-- `check` on a failed constraint
abbrev pub refused : Text → Text → Text
refused action errmsg = action ++ (codes ": " ++ errmsg)

-- The row that the INSERT writes: its literals stand in for five fields of the argument.
unfoldable pub inserted_row : WorkRecord → WorkRecord
inserted_row w = record w {
  id = bind_text w.id;
  work_type = bind_text w.work_type;
  required_capabilities = bind_text w.required_capabilities;
  eligible_engine_ids = bind_text w.eligible_engine_ids;
  exact_engine_id = bind_text w.exact_engine_id;
  exact_model_id = bind_text w.exact_model_id;
  attempt_count = 0;
  input_path = bind_text w.input_path;
  result_path = bind_text w.result_path;
  acknowledged = false;
  cancel_requested = false;
  selected_engine_id = [];
  selected_model_id = [];
  technical_failure = [];
}

-- PRIMARY KEY(id), CHECK(max_attempts >= 1), CHECK(retry_delay_ms >= 0)
unfoldable pub insert_allowed : List WorkRecord → WorkRecord → Bool
insert_allowed work w =
    not (any_of (has_id w.id) work) && le_i32 1 w.max_attempts && le_i64 0 w.retry_delay_ms

unfoldable pub submit : Text → WorkRecord → WorkStore → Result WorkStore
submit errmsg w db =
    let row = inserted_row w in
    if insert_allowed db.work row
    then ok (record db { work = db.work ++ (row ∷ []) })
    else err (runtime_error (refused (codes "insert Work") errmsg))

unfoldable pub find : Text → WorkStore → Option WorkRecord
find id db = find_if (has_id (bind_text id)) db.work

unfoldable pub is_eligible : ℕ → WorkRecord → Bool
is_eligible now w =
    work_state_eq w.state WorkState.queued
    && not w.cancel_requested
    && le_i64 w.eligible_at_ms now
    && le_i64 w.next_attempt_at_ms now

-- CASE urgency WHEN 'INTERACTIVE' THEN 0 WHEN 'NORMAL' THEN 1 ELSE 2 END
abbrev pub urgency_rank : Urgency → ℕ
urgency_rank interactive = 0
urgency_rank normal = 1
urgency_rank background = 2

-- `v` sorts strictly before `w` by (rank, created_at_ms).
unfoldable pub sorts_before : WorkRecord → WorkRecord → Bool
sorts_before v w =
    ltb (urgency_rank v.urgency) (urgency_rank w.urgency)
    || ((urgency_rank v.urgency == urgency_rank w.urgency)
        && lt_i64 v.created_at_ms w.created_at_ms)

-- ORDER BY rank, created_at_ms, rowid LIMIT 1: of equal rows the one that stands first.
unfoldable pub first_by_order : List WorkRecord → Option WorkRecord
first_by_order [] = none
first_by_order (w ∷ rest) = elim (first_by_order rest) [
  | none ↦ some w
  | some v ↦ if sorts_before v w then some v else some w
]

unfoldable pub next_eligible : ℕ → WorkStore → Option WorkRecord
next_eligible now db = first_by_order (keep_if (is_eligible now) db.work)

abbrev pub deadline_expired_before_dispatch : Text
deadline_expired_before_dispatch = codes "DEADLINE_EXPIRED: Work deadline expired before dispatch"

abbrev pub deadline_passed : ℕ → Option ℕ → Bool
deadline_passed now none = false
deadline_passed now (some deadline) = le_i64 deadline now

unfoldable pub is_expired : ℕ → WorkRecord → Bool
is_expired now w = work_state_eq w.state WorkState.queued && deadline_passed now w.deadline_ms

abbrev pub fail_row : Text → WorkRecord → WorkRecord
fail_row failure w = record w { state = WorkState.failed; technical_failure = failure }

unfoldable pub expire_queued_deadlines : ℕ → WorkStore → WorkStore
expire_queued_deadlines now db = record db {
  work = update_where (is_expired now) (fail_row deadline_expired_before_dispatch) db.work;
}

unfoldable pub fail_queued : Text → Text → WorkStore → WorkStore
fail_queued id failure db = record db {
  work =
      update_where (has_id_in (bind_text id) WorkState.queued) (fail_row (bind_text failure))
        db.work;
}

-- WHERE id=? AND state='QUEUED' AND cancel_requested=0
unfoldable pub may_begin : Text → WorkRecord → Bool
may_begin id w = has_id_in (bind_text id) WorkState.queued w && not w.cancel_requested

abbrev pub begin_row : ℕ → Text → Text → WorkRecord → WorkRecord
begin_row n engine_id model_id w = record w {
  state = WorkState.running;
  attempt_count = n;
  selected_engine_id = bind_text engine_id;
  selected_model_id = bind_text model_id;
  technical_failure = [];
}

-- PRIMARY KEY(work_id, attempt_number)
abbrev pub same_attempt : Text → ℕ → Attempt → Bool
same_attempt id n a = text_eq a.work_id id && (a.attempt_number == n)

abbrev pub new_attempt : Text → ℕ → Text → Text → ℕ → Attempt
new_attempt id n engine_id model_id started_at = record {
  work_id = bind_text id;
  attempt_number = n;
  engine_id = bind_text engine_id;
  model_id = bind_text model_id;
  started_at_ms = started_at;
  ended_at_ms = none;
  state = AttemptState.running;
  technical_failure = [];
}

-- The transaction once the row was read with `n` the next attempt number.
unfoldable pub start_attempt :
    Text → ℕ → Text → Text → Text → ℕ → WorkStore → Result (ℕ × WorkStore)
start_attempt errmsg n id engine_id model_id started_at db =
    if changes (may_begin id) db.work == 1
    then (if any_of (same_attempt (bind_text id) n) db.attempts
        then err (runtime_error (refused (codes "insert attempt") errmsg))
        else ok (
          n,
          record {
            work = update_where (may_begin id) (begin_row n engine_id model_id) db.work;
            attempts = db.attempts ++ (new_attempt id n engine_id model_id started_at ∷ []);
          },
        ))
    else ok (0, db)

-- The new state and the attempt's number, 0 for no attempt.
unfoldable pub begin_attempt : Text → Text → Text → Text → ℕ → WorkStore → Result (ℕ × WorkStore)
begin_attempt errmsg id engine_id model_id started_at db = elim (find_if (may_begin id) db.work) [
  | none ↦ ok (0, db)
  | some w ↦ start_attempt errmsg (add_i32 w.attempt_count 1) id engine_id model_id started_at db
]
