-- ===== src/Store/Acknowledgement.antt =====
-- `acknowledge`: the first acknowledgement of a result is accepted, and no other.
use madre.Base.{◌≡◌, refl, List, [], ◌∷◌, Bool, false, not, ◌&&◌, Text, arith}
use madre.Store.{WorkState, WorkRecord, WorkStore, update_where, changes, work_state_eq}
use madre.Store.Completion.{acknowledge, may_acknowledge, acknowledge_row}

-- The row of a result that is still to be acknowledged.
abbrev pub is_result : WorkRecord → Bool
is_result v = work_state_eq v.state WorkState.succeeded && not v.acknowledged

acknowledged_rows :
    (i : Text) (rows : List WorkRecord)
    → changes (may_acknowledge i) (update_where (may_acknowledge i) acknowledge_row rows) ≡ 0
unfolding changes update_where may_acknowledge
acknowledged_rows i [] = refl
acknowledged_rows i (v ∷ rest) = ground (arith, acknowledged_rows i rest)

-- A result is acknowledged once: the next acknowledgement is refused, whatever the first one said.
pub acknowledge_once : (i : Text) (db : WorkStore) → (acknowledge i (acknowledge i db).1).0 ≡ false
unfolding acknowledge
acknowledge_once i db = rw (acknowledged_rows i db.work)
