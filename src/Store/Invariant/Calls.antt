-- ===== src/Store/Invariant/Calls.antt =====
-- Every call keeps the invariant of the work table, and so does every history.
use madre.Base.{
  ℕ, ◌≡◌, ◌<◌, ◌^◌, inl, inr, refl, List, [], ◌∷◌, some, true, Text, arith, find_if, any_of,
  Bool-cases, Option-cases, add_i32, ◌==◌, ==_iff,
}
use madre.Store.{
  WorkState, WorkRecord, WorkStore, bind_text, has_id, has_id_in, retry_permitted, changes,
}
use madre.Store.Operations.{
  submit, inserted_row, insert_allowed, expire_queued_deadlines, is_expired, fail_queued,
  begin_attempt, start_attempt, may_begin, begin_row, same_attempt,
}
use madre.Store.Completion.{
  finish_success, finish_cancelled, settle_row, cancel, cancel_in, acknowledge, may_acknowledge,
}
use madre.Store.History.{
  Call, submits, expires, fails, begins, succeeds, stops, cancels, acknowledges, step, after_begin,
}
use madre.Store.Rows.{find_if-append_back, changes_one}
use madre.Store.Uniqueness.{Unique-append}
use madre.Store.Invariant.{IsSound, Inv, update-Inv}

bind_text_idem : (s : Text) → bind_text (bind_text s) ≡ bind_text s
unfolding bind_text
bind_text_idem [] = refl
bind_text_idem (c ∷ s) = ground (arith, bind_text_idem s)

-- What the kernel submits: queued Work whose attempt bound is an `int`.
abbrev pub IsFit : Call → Type 0
IsFit (submits errmsg r) = (r.state ≡ WorkState.queued) × (r.max_attempts < 2 ^ 32)
IsFit _ = Unit {0}

inserted_row-IsSound :
    (r : WorkRecord) (rows : List WorkRecord)
    → (r.state ≡ WorkState.queued) × (r.max_attempts < 2 ^ 32)
    → insert_allowed rows (inserted_row r) ≡ true
    → IsSound (inserted_row r)
unfolding inserted_row insert_allowed
inserted_row-IsSound r rows f h = ground (arith, bind_text_idem r.id)

pub submit-Inv :
    (errmsg : Text) (r : WorkRecord) (db : WorkStore)
    → (r.state ≡ WorkState.queued) × (r.max_attempts < 2 ^ 32)
    → Inv db.work
    → Inv (step db (submits errmsg r)).work
unfolding step submit
submit-Inv errmsg r db f h = elim (Bool-cases (insert_allowed db.work (inserted_row r))) [
  | inl fresh ↦ rw fresh (record {
    unique = Unique-append db.work _ h.unique (unfold insert_allowed in ground arith);
    sound = λ id w e. elim (find_if-append_back (has_id id) db.work _ w e) [
      | inl old ↦ h.sound id w old
      | inr (_, new, _) ↦ rw new (inserted_row-IsSound r db.work f fresh)
    ];
  })
  | inr no' ↦ rw no' h
]

module _ (db : WorkStore) (h : Inv db.work) where
  pub expire-Inv : (now : ℕ) → Inv (step db (expires now)).work
  unfolding step expire_queued_deadlines is_expired
  expire-Inv now = update-Inv _ _ db.work (λ a. refl) (λ id v e s hit. ground arith) h

  pub fail-Inv : (i failure : Text) → Inv (step db (fails i failure)).work
  unfolding step fail_queued
  fail-Inv i failure = update-Inv _ _ db.work (λ a. refl) (λ id v e s hit. ground arith) h

  pub success-Inv : (i : Text) (n at : ℕ) → Inv (step db (succeeds i n at)).work
  unfolding step finish_success
  success-Inv i n at = update-Inv _ _ db.work (λ a. refl) (λ id v e s hit. ground arith) h

  pub stop-Inv : (i : Text) (n at : ℕ) → Inv (step db (stops i n at)).work
  unfolding step finish_cancelled
  stop-Inv i n at = update-Inv _ _ db.work (λ a. refl) (λ id v e s hit. ground arith) h

  pub acknowledge-Inv : (i : Text) → Inv (step db (acknowledges i)).work
  unfolding step acknowledge may_acknowledge
  acknowledge-Inv i = update-Inv _ _ db.work (λ a. refl) (λ id v e s hit. ground arith) h

  cancel_in-Inv : (i : Text) (s : WorkState) → Inv (cancel_in i s db).1.work
  unfolding cancel_in
  cancel_in-Inv i WorkState.queued =
      update-Inv _ _ db.work (λ a. refl) (λ id v e s hit. ground arith) h
  cancel_in-Inv i WorkState.running =
      update-Inv _ _ db.work (λ a. refl) (λ id v e s hit. ground arith) h
  cancel_in-Inv i _ = h

  pub cancel-Inv : (i : Text) → Inv (step db (cancels i)).work
  unfolding step cancel
  cancel-Inv i = elim (Option-cases (find_if (has_id (bind_text i)) db.work)) [
    | inl missing ↦ rw (missing, step, cancel) h
    | inr (r, er) ↦ rw (er, step, cancel) (cancel_in-Inv i r.state)
  ]

begin_row-IsSound :
    (i engine_id model_id : Text) (v : WorkRecord)
    → may_begin i v ≡ true
    → IsSound v
    → IsSound (begin_row (add_i32 v.attempt_count 1) engine_id model_id v)
unfolding may_begin
begin_row-IsSound i engine_id model_id v hit s = ground arith

module _ (db : WorkStore) (h : Inv db.work) (errmsg i engine_id model_id : Text) (at : ℕ) where
  start_attempt-Inv :
      (r : WorkRecord)
      → find_if (may_begin i) db.work ≡ some r
      → Inv
          (after_begin db
            (start_attempt errmsg (add_i32 r.attempt_count 1) i engine_id model_id at db)).work
  unfolding start_attempt
  start_attempt-Inv r er = elim (Bool-cases (changes (may_begin i) db.work == 1)) [
    | inr many ↦ rw many h
    | inl one ↦
        elim (Bool-cases
          (any_of (same_attempt (bind_text i) (add_i32 r.attempt_count 1)) db.attempts)) [
            | inl clash ↦ rw (one, clash) h
            | inr fresh ↦
                rw (one, fresh)
                  (update-Inv _ _ db.work (λ a. refl)
                    (λ id v e s hit.
                      let same =
                        changes_one (has_id id) (may_begin i) db.work r v ((==_iff _ 1).0 one) er e
                          hit in
                      rw (← same) (begin_row-IsSound i engine_id model_id v hit s))
                    h)
          ]
  ]

  pub begin-Inv : Inv (step db (begins errmsg i engine_id model_id at)).work
  unfolding step begin_attempt
  begin-Inv = elim (Option-cases (find_if (may_begin i) db.work)) [
    | inl missing ↦ rw (missing, begin_attempt) h
    | inr (r, er) ↦ rw (er, begin_attempt) (start_attempt-Inv r er)
  ]

-- Ending an attempt by a row's own data.
pub settle_row-IsSound :
    (i cancel_text failure : Text) (now : ℕ) (v : WorkRecord)
    → IsSound v
    → has_id_in i WorkState.running v ≡ true
    → IsSound (settle_row cancel_text failure now v v)
unfolding settle_row retry_permitted
settle_row-IsSound i cancel_text failure now v s hit = ground arith
