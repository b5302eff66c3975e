-- ===== src/Store/Ledger.antt =====
-- The two tables together: a row is RUNNING exactly while one attempt of it is, its latest.
pub mod Begin
pub mod Calls
use madre.Base.{
  ℕ, ◌≡◌, ◌≢◌, ◌≤◌, ◌∙◌, sym, inl, inr, refl, List, Option, some, ◌↔◌, Bool, true, false, ◌&&◌,
  Text, text_eq, text_eq_iff, arith, if◌then◌else◌, find_if, ◌==◌, Bool-cases, Option-cases,
}
use madre.Store.{
  WorkState, AttemptState, WorkRecord, Attempt, WorkStore, update_where, has_id, has_id_in,
  is_active, is_running,
}
use madre.Store.Operations.{same_attempt}
use madre.Store.Completion.{end_attempt}
use madre.Store.Rows.{
  row, find_if-update_where, find_if-update_where_back, find_if-holds, find_if-none,
}

-- The attempt of an id and a number, as it is stored.
abbrev pub attempt : Text → ℕ → WorkStore → Option Attempt
attempt id n db = find_if (same_attempt id n) db.attempts

-- A RUNNING row of the id whose count is `n`.
abbrev pub Runs : Text → ℕ → WorkStore → Type 0
Runs id n db =
    (w : WorkRecord) × (row id db ≡ some w) × (w.state ≡ WorkState.running) × (w.attempt_count ≡ n)

pub record Ledger (db : WorkStore) : Type 0 where
  pub latest :
      (id : Text) (n : ℕ) (a : Attempt)
      → attempt id n db ≡ some a
      → is_running a.state ≡ true
      → Runs id n db
  pub counted :
      (id : Text) (n : ℕ) (a : Attempt)
      → attempt id n db ≡ some a
      → (w : WorkRecord) × (row id db ≡ some w) × (n ≤ w.attempt_count)
  pub backed :
      (id : Text) (w : WorkRecord)
      → row id db ≡ some w
      → w.state ≡ WorkState.running
      → (a : Attempt) × (attempt id w.attempt_count db ≡ some a) × (is_running a.state ≡ true)

-- A call that leaves the attempts alone, and starts and stops nothing.
pub update-Ledger :
    (p : WorkRecord → Bool) (f : WorkRecord → WorkRecord) (db : WorkStore)
    → ((v : WorkRecord) → (f v).id ≡ v.id)
    → ((v : WorkRecord) → (f v).attempt_count ≡ v.attempt_count)
    → ((v : WorkRecord)
        → p v ≡ true
        → ((f v).state ≡ WorkState.running) ↔ (v.state ≡ WorkState.running))
    → Ledger db
    → Ledger (record db { work = update_where p f db.work })
update-Ledger p f db keeps count same l = record {
  latest = λ id n a e running.
      let (v, ev, rv, cv) = l.latest id n a e running in
      (_, after' id v ev, ground (arith, same v), ground (arith, count v));
  counted = λ id n a e.
      let (v, ev, le) = l.counted id n a e in (_, after' id v ev, ground (arith, count v));
  backed = λ id w e running.
      let (v, ev, ew) = find_if-update_where_back (has_id id) p f db.work w (λ a. rw (keeps a)) e in
      let (a, ea, ra) = l.backed id v ev (ground (arith, same v)) in
      let c : w.attempt_count ≡ v.attempt_count = ground (arith, count v) in (a, rw c ea, ra);
}
  where
    after' :
        (id : Text) (v : WorkRecord)
        → row id db ≡ some v
        → find_if (has_id id) (update_where p f db.work) ≡ some (if p v then f v else v)
    after' id v e = find_if-update_where (has_id id) p f db.work v (λ a. rw (keeps a)) e

-- A call that ends attempt `n` of the id `i`, if a RUNNING row of `i` is in that attempt.
module _ (i : Text) (n : ℕ) (f : WorkRecord → WorkRecord) (s : AttemptState) (at : ℕ)
    (failure : Text) (db : WorkStore) where
  abbrev finished : WorkStore
  finished = record {
    work = update_where (has_id_in i WorkState.running) f db.work;
    attempts = update_where (is_active i n) (end_attempt s at failure) db.attempts;
  }

  -- An attempt that is still RUNNING was not the one that ended.
  not_active :
      (a b : Attempt)
      → is_running s ≡ false
      → b ≡ (if is_active i n a then end_attempt s at failure a else a)
      → is_running b.state ≡ true
      → (is_active i n a ≡ false) × (is_running a.state ≡ true)
  not_active a b ended e running = ground arith

  module _
      (timely : (w : WorkRecord)
        → row i db ≡ some w
        → w.state ≡ WorkState.running
        → w.attempt_count ≡ n) where
    row_kept :
        (id : Text) (m : ℕ) (a : Attempt) (v : WorkRecord)
        → attempt id m db ≡ some a
        → row id db ≡ some v
        → v.state ≡ WorkState.running
        → v.attempt_count ≡ m
        → (is_active i n a ≡ false) × (is_running a.state ≡ true)
        → has_id_in i WorkState.running v ≡ false
    row_kept id m a v ea ev rv cv k = elim (Bool-cases (has_id_in i WorkState.running v)) [
      | inr miss ↦ miss
      | inl hit ↦
          let found = find_if-holds (has_id id) db.work v ev in
          let keyed = find_if-holds (same_attempt id m) db.attempts a ea in
          let here : id ≡ i = ground (arith, text_eq_iff v.id id, text_eq_iff v.id i) in
          let same = timely v (rw here at ev) rv in
          absurd (ground (arith, text_eq_iff a.work_id id, text_eq_iff a.work_id i))
    ]

    attempt_kept :
        (id : Text) (a : Attempt) (v w : WorkRecord)
        → ((u : WorkRecord) → (f u).state ≢ WorkState.running)
        → row id db ≡ some v
        → w ≡ (if has_id_in i WorkState.running v then f v else v)
        → w.state ≡ WorkState.running
        → attempt id v.attempt_count db ≡ some a
        → (w ≡ v) × (is_active i n a ≡ false)
    attempt_kept id a v w stops ev ew running ea =
        let found = find_if-holds (has_id id) db.work v ev in
        let keyed = find_if-holds (same_attempt id v.attempt_count) db.attempts a ea in
        ground (
          arith,
          stops v,
          text_eq_iff v.id id,
          text_eq_iff v.id i,
          text_eq_iff a.work_id id,
          text_eq_iff a.work_id i,
        )

    finished-row :
        (id : Text) (v : WorkRecord)
        → ((u : WorkRecord) → (f u).id ≡ u.id)
        → row id db ≡ some v
        → row id finished ≡ some (if has_id_in i WorkState.running v then f v else v)
    finished-row id v keeps e =
        find_if-update_where (has_id id) (has_id_in i WorkState.running) f db.work v
          (λ a. rw (keeps a)) e

    finished-attempt_back :
        (id : Text) (m : ℕ) (b : Attempt)
        → attempt id m finished ≡ some b
        → (a : Attempt) × (attempt id m db ≡ some a)
          × (b ≡ (if is_active i n a then end_attempt s at failure a else a))
    finished-attempt_back id m b e =
        find_if-update_where_back (same_attempt id m) (is_active i n) (end_attempt s at failure)
          db.attempts b (λ x. refl) e

    latest_kept :
        (id : Text) (m : ℕ) (b : Attempt)
        → ((u : WorkRecord) → (f u).id ≡ u.id)
        → is_running s ≡ false
        → Ledger db
        → attempt id m finished ≡ some b
        → is_running b.state ≡ true
        → Runs id m finished
    latest_kept id m b keeps ended l e running =
        let (a, ea, eb) = finished-attempt_back id m b e in
        let idle = not_active a b ended eb running in
        let (v, ev, rv, cv) = l.latest id m a ea idle.1 in
        let miss = row_kept id m a v ea ev rv cv idle in
        (v, finished-row id v keeps ev ∙ rw miss, rv, cv)

    backed_kept :
        (id : Text) (w : WorkRecord)
        → ((u : WorkRecord) → (f u).id ≡ u.id)
        → ((u : WorkRecord) → (f u).state ≢ WorkState.running)
        → Ledger db
        → row id finished ≡ some w
        → w.state ≡ WorkState.running
        → (a : Attempt) × (attempt id w.attempt_count finished ≡ some a)
          × (is_running a.state ≡ true)
    backed_kept id w keeps stops l e running =
        let (v, ev, ew) =
          find_if-update_where_back (has_id id) (has_id_in i WorkState.running) f db.work w
            (λ a. rw (keeps a)) e in
        let rv : v.state ≡ WorkState.running = ground (arith, stops v) in
        let (a, ea, ra) = l.backed id v ev rv in
        let (same, idle) = attempt_kept id a v w stops ev ew running ea in
        let kept =
          find_if-update_where (same_attempt id v.attempt_count) (is_active i n)
            (end_attempt s at failure) db.attempts a (λ x. refl) ea in
        (a, rw same (kept ∙ rw idle), ra)

    pub finish-Ledger :
        ((u : WorkRecord) → (f u).id ≡ u.id)
        → ((u : WorkRecord) → (f u).attempt_count ≡ u.attempt_count)
        → ((u : WorkRecord) → (f u).state ≢ WorkState.running)
        → is_running s ≡ false
        → Ledger db
        → Ledger finished
    finish-Ledger keeps count stops ended l = record {
      latest = λ id m b e running. latest_kept id m b keeps ended l e running;
      counted = λ id m b e.
          let (a, ea, eb) = finished-attempt_back id m b e in
          let (v, ev, le) = l.counted id m a ea in
          (_, finished-row id v keeps ev, ground (arith, count v));
      backed = λ id w e running. backed_kept id w keeps stops l e running;
    }
