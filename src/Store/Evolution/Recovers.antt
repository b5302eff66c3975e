-- ===== src/Store/Evolution/Recovers.antt =====
-- The recovery loop moves the row of an id along `Evolves`: a row is settled at most once.
use madre.Base.{
  ℕ, ◌≡◌, inl, inr, List, [], ◌∷◌, some, Text, arith, if◌then◌else◌, Bool-cases, ◌≢◌, ◌∙◌,
}
use madre.Store.{WorkState, WorkRecord, WorkStore, bind_text, has_id, has_id_in}
use madre.Store.Completion.{
  settle_row, recover_rows, recover_row, cancelled_before_text, restarted_text,
}
use madre.Store.Rows.{row, find_if-update_where}
use madre.Store.Evolution.{Evolves-refl, Next}
use madre.Store.Evolution.Calls.{settle_row-id, settle_row-Evolves}

-- What one turn of the recovery loop makes of a row.
abbrev pub recovered_by : ℕ → WorkRecord → WorkRecord → WorkRecord
recovered_by now r v =
    if has_id_in (bind_text r.id) WorkState.running v
    then settle_row cancelled_before_text restarted_text now r v
    else v

module _ (now : ℕ) (id : Text) where
  pub row-recover_row :
      (r v : WorkRecord) (db : WorkStore)
      → row id db ≡ some v
      → row id (recover_row now r db) ≡ some (recovered_by now r v)
  unfolding recover_row
  row-recover_row r v db e =
      find_if-update_where (has_id id) _ _ db.work v
        (λ a. rw (settle_row-id cancelled_before_text restarted_text now r a)) e

  pub row-recover_rows_settled :
      (reads : List WorkRecord) (v : WorkRecord) (db : WorkStore)
      → v.state ≢ WorkState.running
      → row id db ≡ some v
      → row id (recover_rows now reads db) ≡ some v
  unfolding recover_rows
  row-recover_rows_settled [] v db h e = e
  row-recover_rows_settled (r ∷ rest) v db h e =
      row-recover_rows_settled rest v (recover_row now r db) h
        (row-recover_row r v db e ∙ ground arith)

  pub settle_row-ne-running :
      (cancel_text failure : Text) (r w : WorkRecord)
      → (settle_row cancel_text failure now r w).state ≢ WorkState.running
  unfolding settle_row
  settle_row-ne-running cancel_text failure r w = ground arith

  pub recover_rows-Evolves :
      (reads : List WorkRecord) (v : WorkRecord) (db : WorkStore)
      → row id db ≡ some v
      → Next (recover_rows now reads db) id v
  unfolding recover_rows
  recover_rows-Evolves [] v db e = (v, e, Evolves-refl v)
  recover_rows-Evolves (r ∷ rest) v db e =
      elim (Bool-cases (has_id_in (bind_text r.id) WorkState.running v)) [
        | inl hit ↦ (
          settle_row cancelled_before_text restarted_text now r v,
          row-recover_rows_settled rest _ _ (settle_row-ne-running _ _ r v)
              (row-recover_row r v db e ∙ rw hit),
          rw hit at
              (settle_row-Evolves id v (bind_text r.id) cancelled_before_text restarted_text now r),
        )
        | inr miss ↦
            recover_rows-Evolves rest v (recover_row now r db) (row-recover_row r v db e ∙ rw miss)
      ]
