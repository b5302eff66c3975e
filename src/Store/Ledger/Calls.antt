-- ===== src/Store/Ledger/Calls.antt =====
-- Every call that the kernel makes keeps the two tables together.
use madre.Base.{
  ℕ, ◌≡◌, ap, inl, inr, refl, List, [], ◌∷◌, some, Text, arith, find_if, All, Bool-cases,
  Option-cases,
}
use madre.Store.{WorkState, AttemptState, WorkRecord, WorkStore, bind_text, has_id, has_id_in}
use madre.Store.Operations.{
  submit, inserted_row, insert_allowed, expire_queued_deadlines, is_expired, fail_queued,
  begin_attempt, may_begin,
}
use madre.Store.Completion.{
  finish_success, finish_cancelled, finish_retryable_failure, end_retryable, settle_row,
  recover_interrupted, recover_rows, recover_row, may_end_retryable, cancel, cancel_in, acknowledge,
  may_acknowledge,
}
use madre.Store.History.{
  Call, submits, expires, fails, begins, succeeds, stops, breaks, recovers, cancels, acknowledges,
  step, run,
}
use madre.Store.Rows.{row, find_if-append, find_if-append_back}
use madre.Store.Evolution.Calls.{settle_row-id}
use madre.Store.Evolution.Recovers.{settle_row-ne-running}
use madre.Store.Invariant.{Inv}
use madre.Store.Invariant.Calls.{IsFit}
use madre.Store.Invariant.Runs.{step-Inv, empty}
use madre.Store.Recovery.{AsRead, recover_row-All, reads-AsRead}
use madre.Store.Ledger.{Ledger, update-Ledger, finish-Ledger}
use madre.Store.Ledger.Begin.{begin_attempt-begun, begun-Ledger}

-- The attempt that a call ends is the latest one of its Work, where that is running.
abbrev pub IsTimely : WorkStore → Call → Type 0
IsTimely db (succeeds i n at) =
    (w : WorkRecord)
    → row (bind_text i) db ≡ some w
    → w.state ≡ WorkState.running
    → w.attempt_count ≡ n
IsTimely db (stops i n at) =
    (w : WorkRecord)
    → row (bind_text i) db ≡ some w
    → w.state ≡ WorkState.running
    → w.attempt_count ≡ n
IsTimely db (breaks i n s failure at) =
    (w : WorkRecord)
    → row (bind_text i) db ≡ some w
    → w.state ≡ WorkState.running
    → w.attempt_count ≡ n
IsTimely db _ = Unit {0}

submit-Ledger :
    (errmsg : Text) (r : WorkRecord) (db : WorkStore)
    → r.state ≡ WorkState.queued
    → Ledger db
    → Ledger (step db (submits errmsg r))
unfolding step submit
submit-Ledger errmsg r db q l = elim (Bool-cases (insert_allowed db.work (inserted_row r))) [
  | inr no' ↦ rw no' l
  | inl fresh ↦ rw fresh (record {
    latest = λ id n a e running.
        let (v, ev, rv, cv) = l.latest id n a e running in
        (v, find_if-append (has_id id) db.work _ v ev, rv, cv);
    counted = λ id n a e.
        let (v, ev, le) = l.counted id n a e in (v, find_if-append (has_id id) db.work _ v ev, le);
    backed = λ id w e running. elim (find_if-append_back (has_id id) db.work _ w e) [
      | inl old ↦ l.backed id w old running
      | inr (_, new, _) ↦ absurd (unfold inserted_row in ground arith)
    ];
  })
]

module _ (db : WorkStore) (l : Ledger db) where
  expire-Ledger : (now : ℕ) → Ledger (step db (expires now))
  unfolding step expire_queued_deadlines is_expired
  expire-Ledger now =
      update-Ledger _ _ db (λ v. refl) (λ v. refl) (λ v hit. (ground arith, ground arith)) l

  fail-Ledger : (i failure : Text) → Ledger (step db (fails i failure))
  unfolding step fail_queued
  fail-Ledger i failure =
      update-Ledger _ _ db (λ v. refl) (λ v. refl) (λ v hit. (ground arith, ground arith)) l

  acknowledge-Ledger : (i : Text) → Ledger (step db (acknowledges i))
  unfolding step acknowledge may_acknowledge
  acknowledge-Ledger i =
      update-Ledger _ _ db (λ v. refl) (λ v. refl) (λ v hit. (ground arith, ground arith)) l

  cancel_in-Ledger : (i : Text) (s : WorkState) → Ledger (cancel_in i s db).1
  unfolding cancel_in
  cancel_in-Ledger i WorkState.queued =
      update-Ledger _ _ db (λ v. refl) (λ v. refl) (λ v hit. (ground arith, ground arith)) l
  cancel_in-Ledger i WorkState.running =
      update-Ledger _ _ db (λ v. refl) (λ v. refl) (λ v hit. (ground arith, ground arith)) l
  cancel_in-Ledger i _ = l

  cancel-Ledger : (i : Text) → Ledger (step db (cancels i))
  unfolding step cancel
  cancel-Ledger i = elim (Option-cases (find_if (has_id (bind_text i)) db.work)) [
    | inl missing ↦ rw (missing, step, cancel) l
    | inr (r, er) ↦ rw (er, step, cancel) (cancel_in-Ledger i r.state)
  ]

  success-Ledger :
      (i : Text) (n at : ℕ) → IsTimely db (succeeds i n at) → Ledger (step db (succeeds i n at))
  unfolding step finish_success
  success-Ledger i n at t =
      finish-Ledger (bind_text i) n _ _ at _ db t (λ v. refl) (λ v. refl) (λ v. ground arith) refl l

  stop-Ledger : (i : Text) (n at : ℕ) → IsTimely db (stops i n at) → Ledger (step db (stops i n at))
  unfolding step finish_cancelled
  stop-Ledger i n at t =
      finish-Ledger (bind_text i) n _ _ at _ db t (λ v. refl) (λ v. refl) (λ v. ground arith) refl l

settle_row-count :
    (cancel_text failure : Text) (now : ℕ) (r w : WorkRecord)
    → (settle_row cancel_text failure now r w).attempt_count ≡ w.attempt_count
unfolding settle_row
settle_row-count cancel_text failure now r w = ground arith

break-Ledger :
    (db : WorkStore) (i : Text) (n : ℕ) (s : AttemptState) (failure : Text) (at : ℕ)
    → Ledger db
    → IsTimely db (breaks i n s failure at)
    → Ledger (step db (breaks i n s failure at))
unfolding step finish_retryable_failure end_retryable
break-Ledger db i n s failure at l t = elim (Bool-cases (may_end_retryable s)) [
  | inr no' ↦ rw no' l
  | inl ok' ↦ elim (Option-cases (find_if (has_id_in (bind_text i) WorkState.running) db.work)) [
    | inl missing ↦ rw (ok', missing, end_retryable) l
    | inr (r, er) ↦
        rw (ok', er, end_retryable)
          (finish-Ledger (bind_text i) n _ s at _ db t (settle_row-id _ _ at r)
            (settle_row-count _ _ at r) (settle_row-ne-running at i _ _ r) (ground arith) l)
  ]
]

begin-Ledger :
    (db : WorkStore) (errmsg i engine_id model_id : Text) (at : ℕ)
    → Inv db.work
    → Ledger db
    → Ledger (step db (begins errmsg i engine_id model_id at))
unfolding step
begin-Ledger db errmsg i engine_id model_id at h l =
    elim (Option-cases (find_if (may_begin i) db.work)) [
      | inl missing ↦ unfold begin_attempt in rw (missing, begin_attempt) l
      | inr (r, er) ↦
          rw (begin_attempt-begun i db h l errmsg engine_id model_id at r er)
            (begun-Ledger i db h l engine_id model_id at r er)
    ]

recover_rows-Ledger :
    (now : ℕ) (rs : List WorkRecord) (db : WorkStore)
    → All (AsRead db) rs
    → Ledger db
    → Ledger (recover_rows now rs db)
unfolding recover_rows recover_row
recover_rows-Ledger now [] db a l = l
recover_rows-Ledger now (r ∷ rs) db a l =
    recover_rows-Ledger now rs (recover_row now r db) (recover_row-All now r db rs a.1) (
      finish-Ledger (bind_text r.id) r.attempt_count _ AttemptState.interrupted now _ db
        (λ w e running. ap (λ (u : WorkRecord). u.attempt_count) (a.0.1 w (rw a.0.0 at e) running))
        (settle_row-id _ _ now r) (settle_row-count _ _ now r)
        (settle_row-ne-running now r.id _ _ r) refl l)

-- If the two tables agree and the invariant holds, they agree after every call that submits queued
-- Work or ends, where it ends one, the latest attempt: a row is RUNNING exactly while its latest
-- attempt is, and no attempt has a higher number than its row counts.
pub step-Ledger :
    (db : WorkStore) (c : Call)
    → IsFit c
    → IsTimely db c
    → Inv db.work
    → Ledger db
    → Ledger (step db c)
step-Ledger db (submits errmsg r) f t h l = submit-Ledger errmsg r db f.0 l
step-Ledger db (expires now) f t h l = expire-Ledger db l now
step-Ledger db (fails i failure) f t h l = fail-Ledger db l i failure
step-Ledger db (begins errmsg i engine_id model_id at) f t h l =
    begin-Ledger db errmsg i engine_id model_id at h l
step-Ledger db (succeeds i n at) f t h l = success-Ledger db l i n at t
step-Ledger db (stops i n at) f t h l = stop-Ledger db l i n at t
step-Ledger db (breaks i n s failure at) f t h l = break-Ledger db i n s failure at l t
step-Ledger db (recovers now) f t h l =
    unfold step recover_interrupted in recover_rows-Ledger now _ db (reads-AsRead db h) l
step-Ledger db (cancels i) f t h l = cancel-Ledger db l i
step-Ledger db (acknowledges i) f t h l = acknowledge-Ledger db l i

-- Every call of a history ends the latest attempt, where it ends one.
abbrev pub AllTimely : WorkStore → List Call → Type 0
AllTimely db [] = Unit {0}
AllTimely db (c ∷ cs) = IsTimely db c × AllTimely (step db c) cs

pub run-Ledger :
    (cs : List Call) (db : WorkStore)
    → All IsFit cs
    → AllTimely db cs
    → Inv db.work
    → Ledger db
    → Ledger (run db cs)
unfolding run
run-Ledger [] db f t h l = l
run-Ledger (c ∷ cs) db f t h l =
    run-Ledger cs (step db c) f.1 t.1 (step-Inv db c f.0 h) (step-Ledger db c f.0 t.0 h l)

pub empty-Ledger : Ledger empty
unfolding find_if
empty-Ledger = record {
  latest = λ id n a e running. cc;
  counted = λ id n a e. cc;
  backed = λ id w e running. cc;
}
