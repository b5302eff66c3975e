-- ===== src/Store/Invariant.antt =====
-- What every call keeps of the work table.
pub mod Calls
pub mod Runs
use madre.Base.{
  ℕ, ◌≡◌, ◌≢◌, ◌≤◌, ◌<◌, ◌^◌, ◌⊎◌, inl, inr, refl, List, [], ◌∷◌, ◌++◌, Option, none, some, Bool,
  true, false, Text, text_eq, text_eq_iff, arith, if◌then◌else◌, find_if, keep_if, any_of,
  Bool-cases, Option-cases,
}
use madre.Store.{
  WorkState, WorkRecord, WorkStore, bind_text, update_where, has_id, has_id_in, retry_permitted,
}
use madre.Store.Rows.{
  row, Unique, find_if-update_where_back, find_if-append_back, find_if-holds, find_if-any_of,
}
use madre.Store.Uniqueness.{Unique-update_where, Unique-append, find_if-Unique}

-- A row whose attempts are within the bound that the client set.
pub record IsSound (w : WorkRecord) : Type 0 where
  -- the id comes back from the database as it was stored
  pub stored : bind_text w.id ≡ w.id
  pub bound_pos : 1 ≤ w.max_attempts
  pub bound_int : w.max_attempts < 2 ^ 31
  pub within : w.attempt_count ≤ w.max_attempts
  -- Work that waits has an attempt left, and nobody has asked to cancel it
  pub spare : w.state ≡ WorkState.queued → w.attempt_count < w.max_attempts
  pub wanted : w.state ≡ WorkState.queued → w.cancel_requested ≡ false
  pub started : w.state ≡ WorkState.running → 1 ≤ w.attempt_count
  pub result_only : w.acknowledged ≡ true → w.state ≡ WorkState.succeeded

pub record Inv (rows : List WorkRecord) : Type 0 where
  pub unique : Unique rows
  pub sound : (id : Text) (w : WorkRecord) → find_if (has_id id) rows ≡ some w → IsSound w

-- An UPDATE keeps the invariant if it keeps it of each row that it reaches.
pub update-Inv :
    (p : WorkRecord → Bool) (f : WorkRecord → WorkRecord) (rows : List WorkRecord)
    → ((a : WorkRecord) → (f a).id ≡ a.id)
    → ((id : Text) (v : WorkRecord)
        → find_if (has_id id) rows ≡ some v
        → IsSound v
        → p v ≡ true
        → IsSound (f v))
    → Inv rows
    → Inv (update_where p f rows)
update-Inv p f rows keeps each h = record {
  unique = Unique-update_where p f rows keeps h.unique;
  sound = λ id w e.
      let (v, ev, ew) = find_if-update_where_back (has_id id) p f rows w (λ a. rw (keeps a)) e in
      elim (Bool-cases (p v)) [
        | inl hit ↦ rw ew (rw hit (each id v ev (h.sound id v ev) hit))
        | inr miss ↦ rw ew (rw miss (h.sound id v ev))
      ];
}
