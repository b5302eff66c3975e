-- ===== src/Store/Requests.antt =====
-- What a request to cancel does to the row of its id.
use madre.Base.{
  Bool-cases, text_eq_iff, ◌≢◌, codes, ℕ, ◌≡◌, inl, inr, refl, ◌∙◌, List, [], ◌∷◌, none, some, true,
  false, Text, arith, find_if, ok,
}
use madre.Store.{WorkState, WorkRecord, WorkStore, bind_text, update_where, has_id, has_id_in}
use madre.Store.Operations.{begin_attempt, may_begin}
use madre.Store.Completion.{cancel, cancel_in, cancel_queued_row}
use madre.Store.Rows.{row, find_if-update_where_miss, find_if-update_where, find_if-holds}

-- What a request to cancel makes of a row: a row that waits is cancelled, one that runs keeps
-- running and notes the request, and one that has ended is as it was.
abbrev pub cancelled_row : WorkState → WorkRecord → WorkRecord
cancelled_row WorkState.queued v = record v {
  state = WorkState.cancelled;
  cancel_requested = true;
  technical_failure = codes "cancelled";
}
cancelled_row WorkState.running v = record v { cancel_requested = true }
cancelled_row _ v = v

cancel_in-row :
    (i : Text) (s : WorkState) (db : WorkStore) (v : WorkRecord)
    → row (bind_text i) db ≡ some v
    → v.state ≡ s
    → row (bind_text i) (cancel_in i s db).1 ≡ some (cancelled_row s v)
unfolding cancel_in
cancel_in-row i WorkState.queued db v e same =
    find_if-update_where (has_id (bind_text i)) _ _ db.work v (λ a. refl) e
    ∙ ground (arith, find_if-holds (has_id (bind_text i)) db.work v e)
cancel_in-row i WorkState.running db v e same =
    find_if-update_where (has_id (bind_text i)) _ _ db.work v (λ a. refl) e
    ∙ ground (arith, find_if-holds (has_id (bind_text i)) db.work v e)
cancel_in-row i _ db v e same = e

cancel_in-answer :
    (i : Text) (s : WorkState) (db : WorkStore) (v : WorkRecord)
    → v.state ≡ s
    → (cancel_in i s db).0 ≡ some (cancelled_row s v).state
unfolding cancel_in
cancel_in-answer i WorkState.queued db v same = refl
cancel_in-answer i _ db v same = rw same

-- What is updated under one id is not the row of another.
pub miss :
    (i j : Text) (s : WorkState)
    → bind_text i ≢ j
    → (a : WorkRecord) → has_id_in (bind_text i) s a ≡ true
    → has_id j a ≡ false
miss i j s n a e =
    let here : a.id ≡ bind_text i = (text_eq_iff a.id (bind_text i)).0 (ground arith) in
    elim (Bool-cases (has_id j a)) [
      | inr other ↦ other
      | inl same ↦ absurd (n (cc (here, (text_eq_iff a.id j).0 same)))
    ]

cancel_in-others :
    (i j : Text) (s : WorkState) (db : WorkStore)
    → bind_text i ≢ j
    → (row j (cancel_in i s db).1 ≡ row j db) × ((cancel_in i s db).1.attempts ≡ db.attempts)
unfolding cancel_in
cancel_in-others i j WorkState.queued db n = (
  find_if-update_where_miss (has_id j) (has_id_in (bind_text i) WorkState.queued) _ db.work
      (λ a. refl) (miss i j WorkState.queued n),
  refl,
)
cancel_in-others i j WorkState.running db n = (
  find_if-update_where_miss (has_id j) (has_id_in (bind_text i) WorkState.running) _ db.work
      (λ a. refl) (miss i j WorkState.running n),
  refl,
)
cancel_in-others i j _ db n = (refl, refl)

-- `cancel` stops Work that waits at once, leaves a request with Work that runs, and leaves finished
-- Work as it is; it answers with the state that the row then has. The rows of other ids and the
-- attempts stay as they are.
pub cancel_lem :
    (i j : Text) (db : WorkStore) (v : WorkRecord)
    → row (bind_text i) db ≡ some v
    → bind_text i ≢ j
    → ((cancel i db).0 ≡ some (cancelled_row v.state v).state)
      × (row (bind_text i) (cancel i db).1 ≡ some (cancelled_row v.state v))
      × (row j (cancel i db).1 ≡ row j db)
      × ((cancel i db).1.attempts ≡ db.attempts)
unfolding cancel
cancel_lem i j db v e n = (
  rw (e, cancel) (cancel_in-answer i v.state db v refl),
  rw (e, cancel) (cancel_in-row i v.state db v e refl),
  rw (e, cancel) (cancel_in-others i j v.state db n).0,
  rw (e, cancel) (cancel_in-others i j v.state db n).1,
)

none_to_begin :
    (i : Text) (rows : List WorkRecord)
    → find_if
        (may_begin i)
        (update_where (has_id_in (bind_text i) WorkState.queued) cancel_queued_row rows)
      ≡ none
unfolding find_if update_where may_begin
none_to_begin i [] = refl
none_to_begin i (v ∷ rest) = ground (arith, none_to_begin i rest)

-- Work that was cancelled while it waited is not started, whatever engine would take it.
pub cancel-begin_attempt :
    (errmsg i engine_id model_id : Text) (at : ℕ) (db : WorkStore) (v : WorkRecord)
    → row (bind_text i) db ≡ some v
    → v.state ≡ WorkState.queued
    → begin_attempt errmsg i engine_id model_id at (cancel i db).1 ≡ ok (0, (cancel i db).1)
unfolding begin_attempt cancel cancel_in
cancel-begin_attempt errmsg i engine_id model_id at db v e q =
    rw (e, cancel) (rw (q, cancel_in) (rw (none_to_begin i db.work, begin_attempt)))
