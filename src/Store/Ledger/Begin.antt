-- ===== src/Store/Ledger/Begin.antt =====
-- `begin_attempt`: it starts the next attempt of Work that waits, and never throws.
use madre.Base.{
  ℕ, ◌+◌, ◌≡◌, ◌≤◌, ◌<◌, ◌∙◌, ◌⊎◌, inl, inr, ap, refl, [], ◌∷◌, ◌++◌, Option, none, some, true,
  Text, text_eq_iff, text_eq_refl, arith, if◌then◌else◌, find_if, Bool-cases, Option-cases, add_i32,
  ok,
}
use madre.Store.{
  WorkState, WorkRecord, Attempt, WorkStore, bind_text, update_where, has_id, is_running,
}
use madre.Store.Operations.{
  begin_attempt, start_attempt, may_begin, begin_row, same_attempt, new_attempt,
}
use madre.Store.Rows.{
  row, find_if-update_where, find_if-update_where_back, find_if-holds, find_if-append,
  find_if-append_back, find_if-append_none, any_of-find_if,
}
use madre.Store.Uniqueness.{find_if-keyed, changes_keyed}
use madre.Store.Invariant.{Inv}
use madre.Store.Ledger.{attempt, Runs, Ledger}

may_begin-id : (i : Text) (a : WorkRecord) → may_begin i a ≡ true → a.id ≡ bind_text i
unfolding may_begin
may_begin-id i a h = ground (arith, text_eq_iff a.id (bind_text i))

-- The tables once attempt `n` of the id has begun.
unfoldable pub begun : Text → Text → Text → ℕ → ℕ → WorkStore → WorkStore
begun i engine_id model_id n at db = record {
  work = update_where (may_begin i) (begin_row n engine_id model_id) db.work;
  attempts = db.attempts ++ (new_attempt i n engine_id model_id at ∷ []);
}

module _ (i : Text) (db : WorkStore) (h : Inv db.work) (l : Ledger db) where
  pub no_clash :
      (r : WorkRecord)
      → find_if (may_begin i) db.work ≡ some r
      → attempt (bind_text i) (r.attempt_count + 1) db ≡ none
  no_clash r e = elim (Option-cases (attempt (bind_text i) (r.attempt_count + 1) db)) [
    | inl fresh ↦ fresh
    | inr (a, ea) ↦
        let (w, ew, le) = l.counted (bind_text i) (r.attempt_count + 1) a ea in
        let same =
          find_if-keyed (bind_text i) (may_begin i) (may_begin-id i) db.work r h.unique e in
        let eq : w ≡ r = cc (ew, same) in absurd (ground arith)
  ]

  next_number :
      (r : WorkRecord)
      → find_if (may_begin i) db.work ≡ some r
      → add_i32 r.attempt_count 1 ≡ r.attempt_count + 1
  unfolding may_begin
  next_number r e =
      let hit = find_if-holds (may_begin i) db.work r e in
      let same = find_if-keyed (bind_text i) (may_begin i) (may_begin-id i) db.work r h.unique e in
      let s = h.sound (bind_text i) r same in ground (arith, s.spare, s.bound_int)

  -- `begin_attempt` starts the next attempt of a row that waits, under the next number.
  pub begin_attempt-begun :
      (errmsg engine_id model_id : Text) (at : ℕ) (r : WorkRecord)
      → find_if (may_begin i) db.work ≡ some r
      → begin_attempt errmsg i engine_id model_id at db
        ≡ ok (r.attempt_count + 1, begun i engine_id model_id (r.attempt_count + 1) at db)
  unfolding begin_attempt start_attempt begun
  begin_attempt-begun errmsg engine_id model_id at r e =
      let one = changes_keyed (bind_text i) (may_begin i) (may_begin-id i) db.work r h.unique e in
      let fresh =
        any_of-find_if (same_attempt (bind_text i) (r.attempt_count + 1)) db.attempts
          (no_clash r e) in
      rw (e, begin_attempt) (rw (next_number r e) (rw (one, fresh)))

  module _ (engine_id model_id : Text) (at : ℕ) (r : WorkRecord)
      (reads : find_if (may_begin i) db.work ≡ some r) where
    abbrev next_db : WorkStore
    next_db = begun i engine_id model_id (r.attempt_count + 1) at db

    abbrev begins : WorkRecord → WorkRecord
    begins v = if may_begin i v then begin_row (r.attempt_count + 1) engine_id model_id v else v

    read-row : row (bind_text i) db ≡ some r
    read-row = find_if-keyed (bind_text i) (may_begin i) (may_begin-id i) db.work r h.unique reads

    begun-row : (id : Text) (v : WorkRecord) → row id db ≡ some v → row id next_db ≡ some (begins v)
    unfolding begun
    begun-row id v e = find_if-update_where (has_id id) (may_begin i) _ db.work v (λ a. refl) e

    begun-row_back :
        (id : Text) (w : WorkRecord)
        → row id next_db ≡ some w
        → (v : WorkRecord) × (row id db ≡ some v) × (w ≡ begins v)
    unfolding begun
    begun-row_back id w e =
        find_if-update_where_back (has_id id) (may_begin i) _ db.work w (λ a. refl) e

    begun-attempt_back :
        (id : Text) (m : ℕ) (b : Attempt)
        → attempt id m next_db ≡ some b
        → (attempt id m db ≡ some b)
          ⊎ ((attempt id m db ≡ none)
              × (b ≡ new_attempt i (r.attempt_count + 1) engine_id model_id at)
              × (same_attempt id m (new_attempt i (r.attempt_count + 1) engine_id model_id at)
                  ≡ true))
    unfolding begun
    begun-attempt_back id m b e = find_if-append_back (same_attempt id m) db.attempts _ b e

    -- The row that begins is the one that was read.
    begins-read :
        (id : Text) (v : WorkRecord)
        → row id db ≡ some v
        → may_begin i v ≡ true
        → (id ≡ bind_text i) × (v ≡ r)
    begins-read id v e hit =
        let found = find_if-holds (has_id id) db.work v e in
        let at_id : id ≡ bind_text i = ground (arith, may_begin-id i v hit, text_eq_iff v.id id) in
        (at_id, cc (e, at_id, read-row))

    running_stays : (v : WorkRecord) → v.state ≡ WorkState.running → begins v ≡ v
    unfolding may_begin
    running_stays v e = ground arith

    read_begins :
        row (bind_text i) next_db ≡ some (begin_row (r.attempt_count + 1) engine_id model_id r)
    read_begins =
        begun-row (bind_text i) r read-row ∙ rw (find_if-holds (may_begin i) db.work r reads)

    begun-latest :
        (id : Text) (m : ℕ) (b : Attempt)
        → attempt id m next_db ≡ some b
        → is_running b.state ≡ true
        → Runs id m next_db
    begun-latest id m b e running = elim (begun-attempt_back id m b e) [
      | inl old ↦
          let (v, ev, rv, cv) = l.latest id m b old running in
          (v, begun-row id v ev ∙ rw (running_stays v rv), rv, cv)
      | inr (_, new, keyed) ↦
          let at_id : bind_text i ≡ id = ground (arith, text_eq_iff (bind_text i) id) in
          (_, rw at_id at read_begins, refl, ground arith)
    ]

    begun-counted :
        (id : Text) (m : ℕ) (b : Attempt)
        → attempt id m next_db ≡ some b
        → (w : WorkRecord) × (row id next_db ≡ some w) × (m ≤ w.attempt_count)
    begun-counted id m b e = elim (begun-attempt_back id m b e) [
      | inl old ↦
          let (v, ev, le) = l.counted id m b old in
          (
            _,
            begun-row id v ev,
            elim (Bool-cases (may_begin i v)) [
              | inl hit ↦
                  let same = (begins-read id v ev hit).1 in
                  let counts = ap (λ (u : WorkRecord). u.attempt_count) same in rw hit (omega arith)
              | inr miss ↦ rw miss le
            ],
          )
      | inr (_, new, keyed) ↦
          let at_id : bind_text i ≡ id = ground (arith, text_eq_iff (bind_text i) id) in
          (_, rw at_id at read_begins, ground arith)
    ]

    new_attempt-found :
        attempt (bind_text i) (r.attempt_count + 1) next_db
        ≡ some (new_attempt i (r.attempt_count + 1) engine_id model_id at)
    unfolding begun
    new_attempt-found =
        find_if-append_none (same_attempt (bind_text i) (r.attempt_count + 1)) db.attempts _
          (no_clash r reads)
        ∙ ground (arith, text_eq_refl (bind_text i))

    attempt_stays :
        (id : Text) (m : ℕ) (a : Attempt) → attempt id m db ≡ some a → attempt id m next_db ≡ some a
    unfolding begun
    attempt_stays id m a e = find_if-append (same_attempt id m) db.attempts _ a e

    begun-backed :
        (id : Text) (w : WorkRecord)
        → row id next_db ≡ some w
        → w.state ≡ WorkState.running
        → (a : Attempt) × (attempt id w.attempt_count next_db ≡ some a)
          × (is_running a.state ≡ true)
    begun-backed id w e running =
        let (v, ev, ew) = begun-row_back id w e in
        elim (Bool-cases (may_begin i v)) [
          | inl hit ↦
              let (at_id, same) = begins-read id v ev hit in
              let count : w.attempt_count ≡ r.attempt_count + 1 = ground arith in
              rw (at_id, count)
                (new_attempt i (r.attempt_count + 1) engine_id model_id at, new_attempt-found, refl)
          | inr miss ↦
              let same : w ≡ v = ground arith in
              let (a, ea, ra) = l.backed id v ev (ground arith) in
              rw same (a, attempt_stays id v.attempt_count a ea, ra)
        ]

    pub begun-Ledger : Ledger next_db
    begun-Ledger = record { latest = begun-latest; counted = begun-counted; backed = begun-backed }

-- What waits: the row of the id is QUEUED and nobody has asked to cancel it.
abbrev pub waiting_row : Text → WorkStore → Option WorkRecord
waiting_row i db = find_if (may_begin i) db.work

-- What `begin_attempt` answers and leaves, for Work that does not wait and for Work that does.
abbrev pub BeginsOnce : Text → Text → Text → Text → ℕ → WorkStore → Type 0
BeginsOnce errmsg i engine_id model_id at db =
    ((waiting_row i db ≡ none) × (begin_attempt errmsg i engine_id model_id at db ≡ ok (0, db)))
    ⊎ ((r : WorkRecord) × (db' : WorkStore) × (row (bind_text i) db ≡ some r)
        × (r.state ≡ WorkState.queued)
        × (r.attempt_count < r.max_attempts)
        × (begin_attempt errmsg i engine_id model_id at db ≡ ok (r.attempt_count + 1, db'))
        × (row (bind_text i) db' ≡ some (begin_row (r.attempt_count + 1) engine_id model_id r))
        × (attempt (bind_text i) (r.attempt_count + 1) db'
            ≡ some (new_attempt i (r.attempt_count + 1) engine_id model_id at)))
