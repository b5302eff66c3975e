-- ===== src/Store/Evolution.antt =====
-- How one row of the work table may change in one call, and over a history of calls.
pub mod Calls
pub mod Recovers
pub mod Runs
use madre.Base.{
  ◌≡◌, ◌⊎◌, List, some, Option, Bool, true, false, Text, arith, if◌then◌else◌, find_if, add_i32,
}
use madre.Store.{WorkState, WorkRecord, WorkStore, update_where, has_id}
use madre.Store.Rows.{row, find_if-update_where}

-- The life of Work: a row stays in its state or moves along these arrows.
abbrev pub may_become : WorkState → WorkState → Bool
may_become WorkState.queued WorkState.succeeded = false
may_become WorkState.queued _ = true
may_become WorkState.running _ = true
may_become WorkState.succeeded WorkState.succeeded = true
may_become WorkState.failed WorkState.failed = true
may_become WorkState.cancelled WorkState.cancelled = true
may_become _ _ = false

abbrev pub is_terminal : WorkState → Bool
is_terminal WorkState.queued = false
is_terminal WorkState.running = false
is_terminal _ = true

pub record Evolves (v w : WorkRecord) : Type 0 where
  -- what the client asked for is never rewritten
  pub fixed : w ≡ record v {
    state = w.state;
    next_attempt_at_ms = w.next_attempt_at_ms;
    attempt_count = w.attempt_count;
    acknowledged = w.acknowledged;
    cancel_requested = w.cancel_requested;
    selected_engine_id = w.selected_engine_id;
    selected_model_id = w.selected_model_id;
    technical_failure = w.technical_failure;
  }
  pub moved : may_become v.state w.state ≡ true
  -- an attempt is counted when it starts, and only then
  pub counted :
      (w.attempt_count ≡ v.attempt_count)
      ⊎ ((v.state ≡ WorkState.queued)
          × (w.state ≡ WorkState.running)
          × (w.attempt_count ≡ add_i32 v.attempt_count 1))
  -- a finished row changes in its acknowledgement at most
  pub frozen : is_terminal v.state ≡ true → w ≡ record v { acknowledged = w.acknowledged }
  -- requests to cancel and acknowledgements are not taken back
  pub cancel_kept : v.cancel_requested ≡ true → w.cancel_requested ≡ true
  pub acknowledged_kept : v.acknowledged ≡ true → w.acknowledged ≡ true
  pub acknowledged_result :
      w.acknowledged ≡ true → (v.acknowledged ≡ true) ⊎ (w.state ≡ WorkState.succeeded)

pub Evolves-refl : (v : WorkRecord) → Evolves v v
Evolves-refl v = ground arith

module _ (p : WorkRecord → Bool) (f : WorkRecord → WorkRecord) where
  pub update-Evolves :
      (rows : List WorkRecord) (id : Text) (v : WorkRecord)
      → ((a : WorkRecord) → (f a).id ≡ a.id)
      → find_if (has_id id) rows ≡ some v
      → Evolves v (if p v then f v else v)
      → (w : WorkRecord) × (find_if (has_id id) (update_where p f rows) ≡ some w) × Evolves v w
  update-Evolves rows id v keeps e h =
      (_, find_if-update_where (has_id id) p f rows v (λ a. rw (keeps a)) e, h)

-- The row of `id` after a call, if `v` was its row before.
abbrev pub Next : WorkStore → Text → WorkRecord → Type 0
Next db id v = (w : WorkRecord) × (row id db ≡ some w) × Evolves v w
