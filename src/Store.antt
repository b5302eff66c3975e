-- ===== src/Store.antt =====
-- kernel/src/store.hpp and store.cpp: the tables of the Work database and the SQL that the store
-- runs on them. A table is the list of its rows in rowid order. A TEXT column whose CHECK lists
-- its values is the enumeration of that list.
pub mod Operations
pub mod Completion
pub mod History
pub mod Rows
mod Uniqueness
pub mod Invariant
pub mod Recovery
pub mod Schedule
pub mod Order
pub mod Requests
pub mod Endings
pub mod Ledger
pub mod Acknowledgement
pub mod Restart
pub mod Evolution
use madre.Base.{
  ℕ, List, [], ◌∷◌, Option, none, some, Bool, true, false, ◌&&◌, ◌+◌, Text, text_eq, ◌==◌, lt_i64,
  le_i32, add_i64, if◌then◌else◌,
}

pub data WorkState : Type 0 where
  queued running succeeded failed cancelled : WorkState

pub data AttemptState : Type 0 where
  running succeeded failed interrupted timed_out cancelled : AttemptState

pub data Effort : Type 0 where
  standard high : Effort

pub data Urgency : Type 0 where
  interactive normal background : Urgency

pub record WorkRecord : Type 0 where
  pub id : Text
  pub work_type : Text
  pub state : WorkState
  pub effort : Effort
  pub urgency : Urgency
  pub required_capabilities : Text
  pub eligible_engine_ids : Text
  pub exact_engine_id : Text
  pub exact_model_id : Text
  pub created_at_ms : ℕ
  pub eligible_at_ms : ℕ
  pub next_attempt_at_ms : ℕ
  pub deadline_ms : Option ℕ
  pub timeout_ms : Option ℕ
  pub max_attempts : ℕ
  pub retry_delay_ms : ℕ
  pub attempt_count : ℕ
  pub input_path : Text
  pub result_path : Text
  pub acknowledged : Bool
  pub cancel_requested : Bool
  pub selected_engine_id : Text
  pub selected_model_id : Text
  pub technical_failure : Text

pub record Attempt : Type 0 where
  pub work_id : Text
  pub attempt_number : ℕ
  pub engine_id : Text
  pub model_id : Text
  pub started_at_ms : ℕ
  pub ended_at_ms : Option ℕ
  pub state : AttemptState
  pub technical_failure : Text

-- What the database file holds; the object itself keeps only the connection and the mutex.
pub record WorkStore : Type 0 where
  pub work : List WorkRecord
  pub attempts : List Attempt

abbrev pub work_state_eq : WorkState → WorkState → Bool
work_state_eq WorkState.queued WorkState.queued = true
work_state_eq WorkState.running WorkState.running = true
work_state_eq WorkState.succeeded WorkState.succeeded = true
work_state_eq WorkState.failed WorkState.failed = true
work_state_eq WorkState.cancelled WorkState.cancelled = true
work_state_eq _ _ = false

abbrev pub is_running : AttemptState → Bool
is_running AttemptState.running = true
is_running _ = false

-- `bind_text` hands `value.c_str()` over, which ends at the first NUL.
unfoldable pub bind_text : Text → Text
bind_text [] = []
bind_text (c ∷ s) = if c == 0 then [] else c ∷ bind_text s

module _ {ℓ} {A : Type ℓ} where
  -- `UPDATE … SET f WHERE p`
  unfoldable pub update_where : (A → Bool) → (A → A) → List A → List A
  update_where p f [] = []
  update_where p f (a ∷ rest) = (if p a then f a else a) ∷ update_where p f rest

  -- `sqlite3_changes` after it
  unfoldable pub changes : (A → Bool) → List A → ℕ
  changes p [] = 0
  changes p (a ∷ rest) = (if p a then 1 else 0) + changes p rest

-- `WHERE id=?` with a bound parameter
abbrev pub has_id : Text → WorkRecord → Bool
has_id id w = text_eq w.id id

-- `WHERE id=? AND state=?`
abbrev pub has_id_in : Text → WorkState → WorkRecord → Bool
has_id_in id s w = text_eq w.id id && work_state_eq w.state s

-- `WHERE work_id=? AND attempt_number=? AND state='RUNNING'`
abbrev pub is_active : Text → ℕ → Attempt → Bool
is_active id n a = text_eq a.work_id id && (a.attempt_number == n) && is_running a.state

abbrev pub ends_before : ℕ → Option ℕ → Bool
ends_before retry_at none = true
ends_before retry_at (some deadline) = lt_i64 retry_at deadline

-- Where `now_ms + retry_delay_ms` overflows, C++ leaves it undefined (see `add_i64`).
unfoldable pub retry_permitted : WorkRecord → ℕ → Bool
retry_permitted w now =
    if le_i32 w.max_attempts w.attempt_count
    then false
    else ends_before (add_i64 now w.retry_delay_ms) w.deadline_ms
