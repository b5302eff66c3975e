-- ===== src/Store/Evolution/Calls.antt =====
-- Each call but `recover_interrupted` moves the row of an id along `Evolves`.
use madre.Base.{
  ℕ, ◌≡◌, inl, inr, refl, some, true, Text, arith, if◌then◌else◌, find_if, any_of, add_i32,
  Bool-cases, Option-cases, ◌==◌, ==_iff,
}
use madre.Store.{
  WorkState, AttemptState, WorkRecord, WorkStore, bind_text, changes, has_id, has_id_in,
}
use madre.Store.Operations.{
  submit, inserted_row, insert_allowed, expire_queued_deadlines, is_expired, fail_queued,
  begin_attempt, start_attempt, may_begin, begin_row, same_attempt,
}
use madre.Store.Completion.{
  finish_success, finish_cancelled, finish_retryable_failure, end_retryable, settle_row,
  may_end_retryable, cancel, cancel_in, acknowledge, may_acknowledge,
}
use madre.Store.History.{
  submits, expires, fails, begins, succeeds, stops, breaks, cancels, acknowledges, step,
  after_begin,
}
use madre.Store.Rows.{row, find_if-append, changes_one}
use madre.Store.Evolution.{Evolves, Evolves-refl, update-Evolves, Next}

pub settle_row-id :
    (cancel_text failure : Text) (now : ℕ) (r w : WorkRecord)
    → (settle_row cancel_text failure now r w).id ≡ w.id
unfolding settle_row
settle_row-id cancel_text failure now r w = ground arith

module _ (id : Text) (v : WorkRecord) where
  pub submit-Evolves :
      (errmsg : Text) (r : WorkRecord) (db : WorkStore)
      → row id db ≡ some v
      → Next (step db (submits errmsg r)) id v
  unfolding step submit
  submit-Evolves errmsg r db e = elim (Bool-cases (insert_allowed db.work (inserted_row r))) [
    | inl yes' ↦ rw yes' (v, find_if-append (has_id id) db.work _ v e, Evolves-refl v)
    | inr no' ↦ rw no' (v, e, Evolves-refl v)
  ]

  pub expire-Evolves :
      (now : ℕ) (db : WorkStore) → row id db ≡ some v → Next (step db (expires now)) id v
  unfolding step expire_queued_deadlines is_expired
  expire-Evolves now db e = update-Evolves _ _ db.work id v (λ a. refl) e (ground arith)

  pub fail-Evolves :
      (i failure : Text) (db : WorkStore)
      → row id db ≡ some v
      → Next (step db (fails i failure)) id v
  unfolding step fail_queued
  fail-Evolves i failure db e = update-Evolves _ _ db.work id v (λ a. refl) e (ground arith)

  pub success-Evolves :
      (i : Text) (n at : ℕ) (db : WorkStore)
      → row id db ≡ some v
      → Next (step db (succeeds i n at)) id v
  unfolding step finish_success
  success-Evolves i n at db e = update-Evolves _ _ db.work id v (λ a. refl) e (ground arith)

  pub stop-Evolves :
      (i : Text) (n at : ℕ) (db : WorkStore)
      → row id db ≡ some v
      → Next (step db (stops i n at)) id v
  unfolding step finish_cancelled
  stop-Evolves i n at db e = update-Evolves _ _ db.work id v (λ a. refl) e (ground arith)

  pub acknowledge-Evolves :
      (i : Text) (db : WorkStore) → row id db ≡ some v → Next (step db (acknowledges i)) id v
  unfolding step acknowledge may_acknowledge
  acknowledge-Evolves i db e = update-Evolves _ _ db.work id v (λ a. refl) e (ground arith)

  begin_row-Evolves :
      (i engine_id model_id : Text)
      → may_begin i v ≡ true
      → Evolves v (begin_row (add_i32 v.attempt_count 1) engine_id model_id v)
  unfolding may_begin
  begin_row-Evolves i engine_id model_id h = ground arith

  start-Evolves :
      (i engine_id model_id : Text) (r : WorkRecord) (db : WorkStore)
      → row id db ≡ some v
      → find_if (may_begin i) db.work ≡ some r
      → changes (may_begin i) db.work ≡ 1
      → Evolves v
          (if may_begin i v then begin_row (add_i32 r.attempt_count 1) engine_id model_id v else v)
  start-Evolves i engine_id model_id r db e er one = elim (Bool-cases (may_begin i v)) [
    | inl hit ↦
        let same = changes_one (has_id id) (may_begin i) db.work r v one er e hit in
        rw (hit, ← same) (begin_row-Evolves i engine_id model_id hit)
    | inr miss ↦ rw miss (Evolves-refl v)
  ]

  start_attempt-Evolves :
      (errmsg i engine_id model_id : Text) (at : ℕ) (r : WorkRecord) (db : WorkStore)
      → row id db ≡ some v
      → find_if (may_begin i) db.work ≡ some r
      → Next
          (after_begin db
            (start_attempt errmsg (add_i32 r.attempt_count 1) i engine_id model_id at db))
          id
          v
  unfolding start_attempt
  start_attempt-Evolves errmsg i engine_id model_id at r db e er =
      elim (Bool-cases (changes (may_begin i) db.work == 1)) [
        | inr many ↦ rw many (v, e, Evolves-refl v)
        | inl one ↦
            elim (Bool-cases
              (any_of (same_attempt (bind_text i) (add_i32 r.attempt_count 1)) db.attempts)) [
                | inl clash ↦ rw (one, clash) (v, e, Evolves-refl v)
                | inr fresh ↦
                    rw (one, fresh)
                      (update-Evolves _ _ db.work id v (λ a. refl) e
                        (start-Evolves i engine_id model_id r db e er ((==_iff _ 1).0 one)))
              ]
      ]

  pub begin-Evolves :
      (errmsg i engine_id model_id : Text) (at : ℕ) (db : WorkStore)
      → row id db ≡ some v
      → Next (step db (begins errmsg i engine_id model_id at)) id v
  unfolding step begin_attempt
  begin-Evolves errmsg i engine_id model_id at db e =
      elim (Option-cases (find_if (may_begin i) db.work)) [
        | inl missing ↦ rw (missing, begin_attempt) (v, e, Evolves-refl v)
        | inr (r, er) ↦
            rw (er, begin_attempt) (start_attempt-Evolves errmsg i engine_id model_id at r db e er)
      ]

  pub settle_row-Evolves :
      (i cancel_text failure : Text) (now : ℕ) (r : WorkRecord)
      → Evolves v
          (if has_id_in i WorkState.running v then settle_row cancel_text failure now r v else v)
  unfolding settle_row
  settle_row-Evolves i cancel_text failure now r = ground arith

  pub break-Evolves :
      (i : Text) (n : ℕ) (s : AttemptState) (failure : Text) (at : ℕ) (db : WorkStore)
      → row id db ≡ some v
      → Next (step db (breaks i n s failure at)) id v
  unfolding step finish_retryable_failure end_retryable
  break-Evolves i n s failure at db e = elim (Bool-cases (may_end_retryable s)) [
    | inr no' ↦ rw no' (v, e, Evolves-refl v)
    | inl ok' ↦ elim (Option-cases (find_if (has_id_in (bind_text i) WorkState.running) db.work)) [
      | inl missing ↦ rw (ok', missing, end_retryable) (v, e, Evolves-refl v)
      | inr (r, er) ↦
          rw (ok', er, end_retryable)
            (update-Evolves _ _ db.work id v (settle_row-id _ _ at r) e
              (settle_row-Evolves _ _ _ at r))
    ]
  ]

  cancel_in-Evolves :
      (i : Text) (s : WorkState) (db : WorkStore)
      → row id db ≡ some v
      → Next (cancel_in i s db).1 id v
  unfolding cancel_in
  cancel_in-Evolves i WorkState.queued db e =
      update-Evolves _ _ db.work id v (λ a. refl) e (ground arith)
  cancel_in-Evolves i WorkState.running db e =
      update-Evolves _ _ db.work id v (λ a. refl) e (ground arith)
  cancel_in-Evolves i _ db e = (v, e, Evolves-refl v)

  pub cancel-Evolves :
      (i : Text) (db : WorkStore) → row id db ≡ some v → Next (step db (cancels i)) id v
  unfolding step cancel
  cancel-Evolves i db e = elim (Option-cases (find_if (has_id (bind_text i)) db.work)) [
    | inl missing ↦ rw (missing, step, cancel) (v, e, Evolves-refl v)
    | inr (r, er) ↦ rw (er, step, cancel) (cancel_in-Evolves i r.state db e)
  ]
