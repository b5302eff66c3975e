-- ===== src/Examples/Stores.antt =====
-- The theorems on the database at small tables.
use madre.Base.{
  inl, ◌^◌, ◌≡◌, ◌≤◌, ◌<◌, refl, [], ◌∷◌, none, some, false, Text, arith, any_of, find_if, keep_if,
  text_eq, if◌then◌else◌, ok,
}
use madre.Store.{
  WorkState, AttemptState, Effort, Urgency, WorkRecord, Attempt, WorkStore, bind_text, update_where,
  changes,
}
use madre.Store.Operations.{
  submit, inserted_row, insert_allowed, begin_attempt, start_attempt, may_begin, is_eligible,
  next_eligible, first_by_order, expire_queued_deadlines, is_expired,
}
use madre.Store.Completion.{
  finish_success, finish_retryable_failure, settle_row, recover_interrupted, in_running, cancel,
  cancelled_before_text, restarted_text,
}
use madre.Store.History.{Call, submits, begins, succeeds, step, run}
use madre.Store.Rows.{row}
use madre.Store.Evolution.{Evolves}
use madre.Store.Evolution.Runs.{step-Evolves}
use madre.Store.Invariant.{Inv}
use madre.Store.Invariant.Runs.{step-Inv, run-bounds, empty, empty-Inv}
use madre.Store.Recovery.{row-recover_interrupted}
use madre.Store.Restart.{recover_again}
use madre.Store.Order.{IsNext, next_eligible-IsNext}
use madre.Store.Endings.{IsEnding, finish_retryable_failure_lem}
use madre.Store.Requests.{cancelled_row, cancel_lem}
use madre.Store.Ledger.{Ledger}
use madre.Store.Ledger.Calls.{step-Ledger, empty-Ledger}

abbrev work_id : Text
work_id = b'w' ∷ []

abbrev engine : Text
engine = b'e' ∷ []

abbrev waiting : WorkRecord
waiting = record {
  id = work_id;
  work_type = b't' ∷ [];
  state = WorkState.queued;
  effort = Effort.standard;
  urgency = Urgency.normal;
  required_capabilities = [];
  eligible_engine_ids = [];
  exact_engine_id = [];
  exact_model_id = [];
  created_at_ms = 100;
  eligible_at_ms = 100;
  next_attempt_at_ms = 100;
  deadline_ms = none;
  timeout_ms = none;
  max_attempts = 3;
  retry_delay_ms = 10;
  attempt_count = 0;
  input_path = b'i' ∷ [];
  result_path = b'r' ∷ [];
  acknowledged = false;
  cancel_requested = false;
  selected_engine_id = [];
  selected_model_id = [];
  technical_failure = [];
}

abbrev begun : WorkRecord
begun = record waiting { state = WorkState.running; attempt_count = 1; selected_engine_id = engine }

abbrev done : WorkRecord
done = record begun { state = WorkState.succeeded }

abbrev waiting_db : WorkStore
waiting_db = record { work = waiting ∷ []; attempts = [] }

abbrev first_attempt : Attempt
first_attempt = record {
  work_id = work_id;
  attempt_number = 1;
  engine_id = engine;
  model_id = [];
  started_at_ms = 120;
  ended_at_ms = none;
  state = AttemptState.running;
  technical_failure = [];
}

abbrev running_db : WorkStore
running_db = record { work = begun ∷ []; attempts = first_attempt ∷ [] }

abbrev done_db : WorkStore
done_db = record {
  work = done ∷ [];
  attempts = record first_attempt { state = AttemptState.succeeded; ended_at_ms = some 150 } ∷ [];
}

abbrev submission : Call
submission = submits [] waiting

abbrev start : Call
start = begins [] work_id engine [] 120

submission-fits : (waiting.state ≡ WorkState.queued) × (waiting.max_attempts < 2 ^ 32)
submission-fits = (refl, omega arith)

submitted : step empty submission ≡ waiting_db
unfolding step submit inserted_row insert_allowed bind_text any_of
submitted = refl

started : step waiting_db start ≡ running_db
unfolding step begin_attempt start_attempt may_begin find_if changes update_where any_of bind_text
    text_eq
started = refl

succeeded : step running_db (succeeds work_id 1 150) ≡ done_db
unfolding step finish_success update_where bind_text text_eq
succeeded = refl

waiting-Inv : Inv waiting_db.work
waiting-Inv = rw submitted at (step-Inv empty submission submission-fits empty-Inv)

running-Inv : Inv running_db.work
running-Inv = rw started at (step-Inv waiting_db start tt waiting-Inv)

waiting-Ledger : Ledger waiting_db
waiting-Ledger =
    rw submitted at (step-Ledger empty submission submission-fits tt empty-Inv empty-Ledger)

running-Ledger : Ledger running_db
running-Ledger = rw started at (step-Ledger waiting_db start tt tt waiting-Inv waiting-Ledger)

waiting-row : row work_id waiting_db ≡ some waiting
unfolding find_if text_eq
waiting-row = refl

running-row : row work_id running_db ≡ some begun
unfolding find_if text_eq
running-row = refl

step-Inv_example : Inv (step waiting_db start).work
step-Inv_example = step-Inv waiting_db start tt waiting-Inv

step-Ledger_example : Ledger (step waiting_db start)
step-Ledger_example = step-Ledger waiting_db start tt tt waiting-Inv waiting-Ledger

step-Evolves_example :
    (w : WorkRecord) × (row work_id (step waiting_db start) ≡ some w) × Evolves waiting w
step-Evolves_example = step-Evolves waiting_db start work_id waiting waiting-row

run-to-running : row work_id (run empty (submission ∷ start ∷ [])) ≡ some begun
unfolding run
run-to-running = rw (submitted, started, running-row) refl

run-bounds_example :
    (begun.attempt_count ≤ begun.max_attempts)
    × (begun.state ≡ WorkState.queued → begun.attempt_count < begun.max_attempts)
    × (begun.state ≡ WorkState.queued → begun.cancel_requested ≡ false)
run-bounds_example =
    run-bounds (submission ∷ start ∷ []) work_id begun (submission-fits, (tt, tt)) run-to-running

row-recover_interrupted_example :
    row work_id (recover_interrupted 200 running_db)
    ≡ some (
        if in_running begun
        then settle_row cancelled_before_text restarted_text 200 begun begun
        else begun)
row-recover_interrupted_example =
    row-recover_interrupted 200 running_db work_id begun running-Inv running-row

abbrev recovered : WorkRecord
recovered = settle_row cancelled_before_text restarted_text 200 begun begun

recovered-row : row work_id (recover_interrupted 200 running_db) ≡ some recovered
recovered-row = row-recover_interrupted_example

recover_again_example :
    recover_interrupted 300 (recover_interrupted 200 running_db)
    ≡ recover_interrupted 200 running_db
recover_again_example = recover_again 200 300 running_db running-Inv

picked : next_eligible 150 waiting_db ≡ some waiting
unfolding next_eligible first_by_order keep_if is_eligible
picked = refl

next_eligible-IsNext_example : IsNext 150 waiting_db.work waiting
next_eligible-IsNext_example =
    next_eligible-IsNext 150 waiting_db waiting (omega arith)
      (record { created = omega arith; eligible = omega arith; retried = omega arith }, tt) picked

picked_after_sweep : next_eligible 150 (expire_queued_deadlines 150 waiting_db) ≡ some waiting
unfolding next_eligible first_by_order keep_if is_eligible expire_queued_deadlines is_expired
    update_where
picked_after_sweep = refl

cancel_lem_example :
    ((cancel work_id running_db).0 ≡ some (cancelled_row begun.state begun).state)
    × (row (bind_text work_id) (cancel work_id running_db).1
        ≡ some (cancelled_row begun.state begun))
    × (row [] (cancel work_id running_db).1 ≡ row [] running_db)
    × ((cancel work_id running_db).1.attempts ≡ running_db.attempts)
unfolding bind_text
cancel_lem_example = cancel_lem work_id [] running_db begun running-row (λ e. cc)

finish_retryable_failure_lem_example :
    (db' : WorkStore) × (finish_retryable_failure work_id 1 AttemptState.failed [] 150 running_db
      ≡ ok db')
    × IsEnding work_id [] 1 AttemptState.failed [] 150 running_db begun 1 first_attempt db'
unfolding bind_text text_eq find_if
finish_retryable_failure_lem_example =
    finish_retryable_failure_lem work_id [] 1 1 AttemptState.failed [] 150 running_db begun
      first_attempt running-Inv running-row refl
      (record { count = omega arith; bound = omega arith; retry = omega arith; deadline = tt }) refl
      refl (inl refl) (λ e. cc)
