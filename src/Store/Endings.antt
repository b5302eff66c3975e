-- ===== src/Store/Endings.antt =====
-- What the end of an attempt without a result makes of its Work (`finish_retryable_failure`).
use madre.Base.{
  by_test, ltb, ap, sym, Bool-cases, text_eq_iff, ◌≢◌, codes, ◌⊎◌, text_eq, ℕ, ◌+◌, ◌^◌, ◌≡◌, ◌≤◌,
  ◌<◌, ◌↔◌, inl, inr, refl, ◌∙◌, [], Option, none, some, true, false, Text, arith, find_if,
  Option-cases, ok, add_i64, IsNat63, leb,
}
use madre.Store.{
  Attempt, is_active, WorkState, AttemptState, WorkRecord, WorkStore, bind_text, has_id, has_id_in,
  retry_permitted, ends_before,
}
use madre.Store.Operations.{same_attempt, is_eligible}
use madre.Store.Completion.{
  finish_retryable_failure, end_retryable, settle_row, may_end_retryable, cancelled_text,
}
use madre.Store.Ledger.{attempt}
use madre.Store.Requests.{miss}
use madre.Store.Rows.{
  row, find_if-update_where_miss, find_if-update_where, find_if-holds, find_if-none,
}
use madre.Store.Evolution.Calls.{settle_row-id}
use madre.Store.Invariant.{Inv}
use madre.Store.Invariant.Runs.{read_row}

-- A time that has come before a deadline, if there is one.
abbrev pub IsBefore : ℕ → Option ℕ → Type 0
IsBefore t none = Unit {0}
IsBefore t (some deadline) = t < deadline

abbrev pub Fits : Option ℕ → Type 0
Fits none = Unit {0}
Fits (some deadline) = IsNat63 deadline

ends_before_iff :
    (t : ℕ) (deadline : Option ℕ)
    → IsNat63 t
    → Fits deadline
    → (ends_before t deadline ≡ true) ↔ IsBefore t deadline
ends_before_iff t none ht hd = (λ _. tt, λ _. refl)
ends_before_iff t (some d) ht hd = ground arith

module _ (cancel_text failure : Text) (at : ℕ) (v : WorkRecord) where
  -- Work that its client has asked to cancel is not tried again.
  pub settle_row-cancelled :
      v.cancel_requested ≡ true
      → (settle_row cancel_text failure at v v).state ≡ WorkState.cancelled
  unfolding settle_row
  settle_row-cancelled h = ground arith

  -- Where the times do not overflow, Work is tried again exactly when nobody has cancelled it, an
  -- attempt is left and the retry comes before the deadline.
  pub settle_row-retries :
      v.attempt_count < 2 ^ 31
      → v.max_attempts < 2 ^ 31
      → IsNat63 (at + v.retry_delay_ms)
      → Fits v.deadline_ms
      → ((settle_row cancel_text failure at v v).state ≡ WorkState.queued) ↔ (
          (v.cancel_requested ≡ false)
          × (v.attempt_count < v.max_attempts)
          × IsBefore (at + v.retry_delay_ms) v.deadline_ms)
  unfolding settle_row retry_permitted
  settle_row-retries hc hm ht hd =
      let sum : add_i64 at v.retry_delay_ms ≡ at + v.retry_delay_ms = omega arith in
      let (there', back) = ends_before_iff (at + v.retry_delay_ms) v.deadline_ms ht hd in
      rw sum (ground arith, ground arith)

  -- Work that is tried again is eligible from the moment on that its delay is over, not before.
  pub settle_row-is_eligible :
      (now : ℕ)
      → IsNat63 now
      → IsNat63 (at + v.retry_delay_ms)
      → IsNat63 v.eligible_at_ms
      → v.eligible_at_ms ≤ at
      → (settle_row cancel_text failure at v v).state ≡ WorkState.queued
      → is_eligible now (settle_row cancel_text failure at v v) ≡ leb (at + v.retry_delay_ms) now
  unfolding settle_row retry_permitted is_eligible
  settle_row-is_eligible now hn ht he hle q = ground arith

-- What becomes of the row of Work whose attempt ended at `at` without a result.
pub data IsEnded (failure : Text) (at : ℕ) (v : WorkRecord) : WorkRecord → Type 0 where
  stopped :
      v.cancel_requested ≡ true
      → IsEnded failure at v
          (record v { state = WorkState.cancelled; technical_failure = codes "cancelled" })
  retried :
      v.cancel_requested ≡ false
      → v.attempt_count < v.max_attempts
      → IsBefore (at + v.retry_delay_ms) v.deadline_ms
      → IsEnded failure at v (record v {
        state = WorkState.queued;
        next_attempt_at_ms = at + v.retry_delay_ms;
        technical_failure = failure;
        selected_engine_id = [];
        selected_model_id = [];
      })
  given_up :
      v.cancel_requested ≡ false
      → (v.max_attempts ≤ v.attempt_count) ⊎ (IsBefore (at + v.retry_delay_ms) v.deadline_ms → ⊥)
      → IsEnded failure at v (record v { state = WorkState.failed; technical_failure = failure })

-- Counts and times of a row for which nothing overflows at `at`.
pub record IsInRange (at : ℕ) (v : WorkRecord) : Type 0 where
  pub count : v.attempt_count < 2 ^ 31
  pub bound : v.max_attempts < 2 ^ 31
  pub retry : IsNat63 (at + v.retry_delay_ms)
  pub deadline : Fits v.deadline_ms

retry_permitted_iff :
    (at : ℕ) (v : WorkRecord)
    → IsInRange at v
    → (retry_permitted v at ≡ true)
      ↔ ((v.attempt_count < v.max_attempts) × IsBefore (at + v.retry_delay_ms) v.deadline_ms)
unfolding retry_permitted
retry_permitted_iff at v h =
    let (there', back) = ends_before_iff (at + v.retry_delay_ms) v.deadline_ms h.retry h.deadline in
    let sum : add_i64 at v.retry_delay_ms ≡ at + v.retry_delay_ms = omega (arith, h.retry) in
    rw sum (ground (arith, h.count, h.bound), ground (arith, h.count, h.bound))

settle_row-IsEnded :
    (failure : Text) (at : ℕ) (v : WorkRecord)
    → IsInRange at v
    → IsEnded failure at v (settle_row cancelled_text failure at v v)
unfolding settle_row
settle_row-IsEnded failure at v h =
    let sum : add_i64 at v.retry_delay_ms ≡ at + v.retry_delay_ms = omega (arith, h.retry) in
    let (there', back) = retry_permitted_iff at v h in
    by_test (IsEnded failure at v) v.cancel_requested _ _ IsEnded.stopped (λ wanted.
      by_test (IsEnded failure at v) (retry_permitted v at) _ _
        (λ again. rw sum (IsEnded.retried wanted (there' again).0 (there' again).1))
        (λ over. IsEnded.given_up wanted (elim (Bool-cases (ltb v.attempt_count v.max_attempts)) [
          | inr none_left ↦ inl (ground arith)
          | inl one_left ↦ inr (λ before. cc (over, back (ground arith, before)))
        ])))

other_attempt :
    (i j : Text) (n : ℕ)
    → bind_text i ≢ j
    → (m : ℕ) (a : Attempt) → is_active (bind_text i) n a ≡ true
    → same_attempt j m a ≡ false
other_attempt i j n ne m a e =
    let here : a.work_id ≡ bind_text i = (text_eq_iff a.work_id (bind_text i)).0 (ground arith) in
    elim (Bool-cases (text_eq a.work_id j)) [
      | inr other ↦ ground arith
      | inl same ↦ absurd (ne (cc (here, (text_eq_iff a.work_id j).0 same)))
    ]

-- Where the row that is read is `v`: what `end_retryable` leaves of it, of its attempt, and of the
-- rows and attempts of another id.
module _ (i j : Text) (n : ℕ) (s : AttemptState) (failure : Text) (at : ℕ) (db : WorkStore)
    (v : WorkRecord) where
  pub record IsEnding (m : ℕ) (a : Attempt) (db' : WorkStore) : Type 0 where
    pub after : WorkRecord
    pub ended : IsEnded (bind_text failure) at v after
    pub found : row (bind_text i) db' ≡ some after
    pub attempt_ended :
        attempt (bind_text i) n db'
        ≡ some
            (record a { state = s; ended_at_ms = some at; technical_failure = bind_text failure })
    pub other_row : row j db' ≡ row j db
    pub other_attempt : attempt j m db' ≡ attempt j m db

  end_retryable-IsEnding :
      (m : ℕ) (a : Attempt)
      → find_if (has_id_in (bind_text i) WorkState.running) db.work ≡ some v
      → row (bind_text i) db ≡ some v
      → has_id_in (bind_text i) WorkState.running v ≡ true
      → IsInRange at v
      → attempt (bind_text i) n db ≡ some a
      → a.state ≡ AttemptState.running
      → bind_text i ≢ j
      → IsEnding m a (end_retryable i n s failure at db)
  unfolding end_retryable
  end_retryable-IsEnding m a er e hit range ea running ne =
      let active : is_active (bind_text i) n a ≡ true =
        ground (arith, running, find_if-holds (same_attempt (bind_text i) n) db.attempts a ea) in
      rw (er, end_retryable)
        (record {
          after = settle_row cancelled_text (bind_text failure) at v v;
          ended = settle_row-IsEnded (bind_text failure) at v range;
          found =
              find_if-update_where (has_id (bind_text i)) _ _ db.work v
                (λ a. rw (settle_row-id cancelled_text (bind_text failure) at v a)) e
              ∙ rw hit refl;
          attempt_ended =
              find_if-update_where (same_attempt (bind_text i) n) (is_active (bind_text i) n) _
                db.attempts a (λ b. refl) ea
              ∙ rw active refl;
          other_row =
              find_if-update_where_miss (has_id j) (has_id_in (bind_text i) WorkState.running) _
                db.work (λ a. rw (settle_row-id cancelled_text (bind_text failure) at v a))
                (miss i j WorkState.running ne);
          other_attempt =
              find_if-update_where_miss (same_attempt j m) (is_active (bind_text i) n) _ db.attempts
                (λ b. refl) (other_attempt i j n ne m);
        })

-- An attempt of running Work that ends as FAILED or TIMED_OUT: Work that its client has asked to
-- cancel is cancelled; other Work is queued again, for after its delay, exactly if an attempt is left
-- and the retry comes before its deadline, and has failed otherwise. The attempt has ended in that
-- state with the failure, and the rows and attempts of other ids stay as they are. The invariant
-- holds, the row's counts and times do not overflow, and its attempt runs.
pub finish_retryable_failure_lem :
    (i j : Text) (n m : ℕ) (s : AttemptState) (failure : Text) (at : ℕ) (db : WorkStore)
    (v : WorkRecord) (a : Attempt)
    → Inv db.work
    → row (bind_text i) db ≡ some v
    → v.state ≡ WorkState.running
    → IsInRange at v
    → attempt (bind_text i) n db ≡ some a
    → a.state ≡ AttemptState.running
    → (s ≡ AttemptState.failed) ⊎ (s ≡ AttemptState.timed_out)
    → bind_text i ≢ j
    → (db' : WorkStore) × (finish_retryable_failure i n s failure at db ≡ ok db')
      × IsEnding i j n s failure at db v m a db'
unfolding finish_retryable_failure
finish_retryable_failure_lem i j n m s failure at db v a h e q range ea running ends ne =
    let found = find_if-holds (has_id (bind_text i)) db.work v e in
    let hit : has_id_in (bind_text i) WorkState.running v ≡ true = ground arith in
    let retryable : may_end_retryable s ≡ true = ground arith in
    elim (Option-cases (find_if (has_id_in (bind_text i) WorkState.running) db.work)) [
      | inl missing ↦ absurd (cc (find_if-none (has_id (bind_text i)) _ db.work v missing e, hit))
      | inr (r, er) ↦
          let same = read_row (bind_text i) WorkState.running db r v (bind_text i) h er e hit in
          (
            end_retryable i n s failure at db,
            rw retryable refl,
            end_retryable-IsEnding i j n s failure at db v m a (er ∙ ap some (sym same)) e hit range
                ea running ne,
          )
    ]
