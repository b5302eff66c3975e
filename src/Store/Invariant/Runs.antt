-- ===== src/Store/Invariant/Runs.antt =====
-- Every history of calls keeps the invariant of the work table.
use madre.Base.{
  ℕ, ◌≡◌, ◌≤◌, ◌<◌, inl, inr, List, [], ◌∷◌, some, true, false, Text, text_eq_iff, arith, find_if,
  All, Bool-cases, Option-cases,
}
use madre.Store.{WorkState, AttemptState, WorkRecord, WorkStore, bind_text, has_id, has_id_in}
use madre.Store.Completion.{finish_retryable_failure, end_retryable, may_end_retryable}
use madre.Store.History.{
  Call, submits, expires, fails, begins, succeeds, stops, breaks, recovers, cancels, acknowledges,
  step, run,
}
use madre.Store.Rows.{row, find_if-holds}
use madre.Store.Uniqueness.{find_if-Unique}
use madre.Store.Evolution.Calls.{settle_row-id}
use madre.Store.Invariant.{Inv, update-Inv}
use madre.Store.Invariant.Calls.{
  IsFit, settle_row-IsSound, submit-Inv, expire-Inv, fail-Inv, success-Inv, stop-Inv,
  acknowledge-Inv, cancel-Inv, begin-Inv,
}
use madre.Store.Recovery.{recover-Inv}

-- The row that a transaction read under `WHERE id=? AND state=?` is the row that it updates.
pub read_row :
    (i : Text) (s : WorkState) (db : WorkStore) (r v : WorkRecord) (id : Text)
    → Inv db.work
    → find_if (has_id_in i s) db.work ≡ some r
    → row id db ≡ some v
    → has_id_in i s v ≡ true
    → v ≡ r
read_row i s db r v id h er e hit =
    let found = find_if-holds (has_id id) db.work v e in
    let here : id ≡ i = ground (arith, text_eq_iff v.id id, text_eq_iff v.id i, found) in
    let same = find_if-Unique i s db.work r h.unique er in cc (same, e, here)

pub break-Inv :
    (db : WorkStore) (i : Text) (n : ℕ) (s : AttemptState) (failure : Text) (at : ℕ)
    → Inv db.work
    → Inv (step db (breaks i n s failure at)).work
unfolding step finish_retryable_failure end_retryable
break-Inv db i n s failure at h = elim (Bool-cases (may_end_retryable s)) [
  | inr no' ↦ rw no' h
  | inl ok' ↦ elim (Option-cases (find_if (has_id_in (bind_text i) WorkState.running) db.work)) [
    | inl missing ↦ rw (ok', missing, end_retryable) h
    | inr (r, er) ↦
        rw (ok', er, end_retryable)
          (update-Inv _ _ db.work (settle_row-id _ _ at r)
            (λ id v e sound hit.
              let same = read_row (bind_text i) WorkState.running db r v id h er e hit in
              rw (← same) (settle_row-IsSound (bind_text i) _ _ at v sound hit))
            h)
  ]
]

-- Every call keeps the ids of the work table distinct and every row within the bound on its
-- attempts, if what is submitted is queued Work whose bound is an `int`.
pub step-Inv : (db : WorkStore) (c : Call) → IsFit c → Inv db.work → Inv (step db c).work
step-Inv db (submits errmsg r) f h = submit-Inv errmsg r db f h
step-Inv db (expires now) f h = expire-Inv db h now
step-Inv db (fails i failure) f h = fail-Inv db h i failure
step-Inv db (begins errmsg i engine_id model_id at) f h =
    begin-Inv db h errmsg i engine_id model_id at
step-Inv db (succeeds i n at) f h = success-Inv db h i n at
step-Inv db (stops i n at) f h = stop-Inv db h i n at
step-Inv db (breaks i n s failure at) f h = break-Inv db i n s failure at h
step-Inv db (recovers now) f h = unfold step in recover-Inv now db h
step-Inv db (cancels i) f h = cancel-Inv db h i
step-Inv db (acknowledges i) f h = acknowledge-Inv db h i

pub run-Inv : (cs : List Call) (db : WorkStore) → All IsFit cs → Inv db.work → Inv (run db cs).work
unfolding run
run-Inv [] db f h = h
run-Inv (c ∷ cs) db f h = run-Inv cs (step db c) f.1 (step-Inv db c f.0 h)

abbrev pub empty : WorkStore
empty = record { work = []; attempts = [] }

pub empty-Inv : Inv empty.work
unfolding find_if
empty-Inv = record { unique = tt; sound = λ id w e. cc }

-- From an empty database, whatever calls are made in whatever order, a row has used at most the
-- attempts that its client allowed; while it waits it has one left and nobody has cancelled it.
pub run-bounds :
    (cs : List Call) (id : Text) (w : WorkRecord)
    → All IsFit cs
    → row id (run empty cs) ≡ some w
    → (w.attempt_count ≤ w.max_attempts)
      × (w.state ≡ WorkState.queued → w.attempt_count < w.max_attempts)
      × (w.state ≡ WorkState.queued → w.cancel_requested ≡ false)
run-bounds cs id w f e =
    let s = (run-Inv cs empty f empty-Inv).sound id w e in (s.within, s.spare, s.wanted)
