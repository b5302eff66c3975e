-- ===== src/Store/History.antt =====
-- The calls that change the tables, and histories of them. A call that throws changes nothing.
use madre.Base.{ℕ, List, [], ◌∷◌, Text, Result, ok, err}
use madre.Store.{AttemptState, WorkRecord, WorkStore}
use madre.Store.Operations.{submit, expire_queued_deadlines, fail_queued, begin_attempt}
use madre.Store.Completion.{
  finish_success, finish_cancelled, finish_retryable_failure, recover_interrupted, cancel,
  acknowledge,
}

pub data Call : Type 0 where
  submits : Text → WorkRecord → Call
  expires : ℕ → Call
  fails : Text → Text → Call
  begins : Text → Text → Text → Text → ℕ → Call
  succeeds : Text → ℕ → ℕ → Call
  stops : Text → ℕ → ℕ → Call
  breaks : Text → ℕ → AttemptState → Text → ℕ → Call
  recovers : ℕ → Call
  cancels : Text → Call
  acknowledges : Text → Call

abbrev pub after : WorkStore → Result WorkStore → WorkStore
after db (ok db') = db'
after db (err e) = db

abbrev pub after_begin : WorkStore → Result (ℕ × WorkStore) → WorkStore
after_begin db (ok (n, db')) = db'
after_begin db (err e) = db

unfoldable pub step : WorkStore → Call → WorkStore
step db (submits errmsg w) = after db (submit errmsg w db)
step db (expires now) = expire_queued_deadlines now db
step db (fails id failure) = fail_queued id failure db
step db (begins errmsg id engine_id model_id at) =
    after_begin db (begin_attempt errmsg id engine_id model_id at db)
step db (succeeds id n at) = finish_success id n at db
step db (stops id n at) = finish_cancelled id n at db
step db (breaks id n s failure at) = after db (finish_retryable_failure id n s failure at db)
step db (recovers now) = recover_interrupted now db
step db (cancels id) = (cancel id db).1
step db (acknowledges id) = (acknowledge id db).1

unfoldable pub run : WorkStore → List Call → WorkStore
run db [] = db
run db (c ∷ cs) = run (step db c) cs
