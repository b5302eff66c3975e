-- ===== src/Store/Recovery.antt =====
-- `recover_interrupted`: what a restart makes of each row.
use madre.Base.{
  ℕ, ◌≡◌, ◌∙◌, sym, ap, inl, inr, List, [], ◌∷◌, some, Bool, true, false, Text, text_eq,
  text_eq_iff, text_eq_refl, arith, if◌then◌else◌, find_if, keep_if, any_of, All, Bool-cases,
}
use madre.Store.{WorkState, WorkRecord, WorkStore, bind_text, has_id, has_id_in}
use madre.Store.Completion.{
  settle_row, recover_interrupted, recover_rows, recover_row, in_running, cancelled_before_text,
  restarted_text,
}
use madre.Store.Rows.{row, Unique, find_if-holds, find_if-update_where_back}
use madre.Store.Evolution.Calls.{settle_row-id}
use madre.Store.Evolution.Recovers.{
  recovered_by, row-recover_row, row-recover_rows_settled, settle_row-ne-running,
}
use madre.Store.Invariant.{Inv, update-Inv}
use madre.Store.Invariant.Calls.{settle_row-IsSound}

-- A SELECT reads each row as its id finds it.
abbrev pub Own : List WorkRecord → WorkRecord → Type 0
Own rows r = find_if (has_id r.id) rows ≡ some r

apart :
    (i : Text) (rs : List WorkRecord)
    → any_of (has_id i) rs ≡ false
    → All (λ r. text_eq r.id i ≡ false) rs
unfolding any_of
apart i [] h = tt
apart i (r ∷ rs) h = (ground arith, apart i rs (ground arith))

Own-cons :
    (x : WorkRecord) (rest rs : List WorkRecord)
    → All (λ r. text_eq r.id x.id ≡ false) rs
    → All (Own rest) rs
    → All (Own (x ∷ rest)) rs
unfolding find_if
Own-cons x rest [] a o = tt
Own-cons x rest (r ∷ rs) a o =
    (ground (arith, text_eq_iff r.id x.id, text_eq_iff x.id r.id), Own-cons x rest rs a.1 o.1)

pub All-Own : (rows : List WorkRecord) → Unique rows → All (Own rows) rows
unfolding find_if
All-Own [] u = tt
All-Own (x ∷ rest) u =
    (rw (text_eq_refl x.id), Own-cons x rest rest (apart x.id rest u.0) (All-Own rest u.1))

All-keep_if {ℓ κ} :
    {A : Type ℓ} (P : A → Type κ) (p : A → Bool) (xs : List A) → All P xs → All P (keep_if p xs)
unfolding keep_if
All-keep_if P p [] h = tt
All-keep_if P p (x ∷ xs) h = elim (Bool-cases (p x)) [
  | inl hit ↦ rw hit (h.0, All-keep_if P p xs h.1)
  | inr miss ↦ rw miss (All-keep_if P p xs h.1)
]

-- While the loop runs, a row that is still RUNNING is as it was read.
abbrev pub AsRead : WorkStore → WorkRecord → Type 0
AsRead db r =
    (bind_text r.id ≡ r.id)
    × ((v : WorkRecord) → row r.id db ≡ some v → v.state ≡ WorkState.running → v ≡ r)

module _ (now : ℕ) (r : WorkRecord) (db : WorkStore) where
  recover_row-back :
      (id : Text) (w : WorkRecord)
      → row id (recover_row now r db) ≡ some w
      → (v : WorkRecord) × (row id db ≡ some v) × (w ≡ recovered_by now r v)
  unfolding recover_row
  recover_row-back id w e =
      find_if-update_where_back (has_id id) _ _ db.work w
        (λ a. rw (settle_row-id cancelled_before_text restarted_text now r a)) e

  recover_row-AsRead : (s : WorkRecord) → AsRead db s → AsRead (recover_row now r db) s
  recover_row-AsRead s h = (
    h.0,
    λ w e running.
        let (v, ev, ew) = recover_row-back s.id w e in
        elim (Bool-cases (has_id_in (bind_text r.id) WorkState.running v)) [
          | inl hit ↦ absurd (
              settle_row-ne-running now s.id cancelled_before_text restarted_text r v
                (sym (ap (λ (u : WorkRecord). u.state) (rw hit at ew)) ∙ running))
          | inr miss ↦
              rw miss at ew
              ∙ h.1 v ev (sym (ap (λ (u : WorkRecord). u.state) (rw miss at ew)) ∙ running)
        ],
  )

  pub recover_row-All :
      (rs : List WorkRecord) → All (AsRead db) rs → All (AsRead (recover_row now r db)) rs
  recover_row-All [] h = tt
  recover_row-All (s ∷ rs) h = (recover_row-AsRead s h.0, recover_row-All rs h.1)

  -- The row that a turn of the loop reaches is the one that was read.
  reached :
      (id : Text) (v : WorkRecord)
      → AsRead db r
      → row id db ≡ some v
      → has_id_in (bind_text r.id) WorkState.running v ≡ true
      → v ≡ r
  reached id v h e hit =
      let found = find_if-holds (has_id id) db.work v e in
      let here : id ≡ r.id =
        ground (arith, h.0, text_eq_iff v.id id, text_eq_iff v.id (bind_text r.id), found) in
      h.1 v (rw here at e) (ground arith)

  pub recover_row-Inv : AsRead db r → Inv db.work → Inv (recover_row now r db).work
  unfolding recover_row
  recover_row-Inv a h =
      update-Inv _ _ db.work (settle_row-id _ _ now r)
        (λ id v e s hit.
          let same = reached id v a e hit in
          rw (← same) (settle_row-IsSound (bind_text r.id) _ _ now v s hit))
        h

recover_rows-Inv :
    (now : ℕ) (rs : List WorkRecord) (db : WorkStore)
    → All (AsRead db) rs
    → Inv db.work
    → Inv (recover_rows now rs db).work
unfolding recover_rows
recover_rows-Inv now [] db a h = h
recover_rows-Inv now (r ∷ rs) db a h =
    recover_rows-Inv now rs (recover_row now r db) (recover_row-All now r db rs a.1)
      (recover_row-Inv now r db a.0 h)

recover_rows-row :
    (now : ℕ) (rs : List WorkRecord) (db : WorkStore) (id : Text) (v : WorkRecord)
    → All (AsRead db) rs
    → row id db ≡ some v
    → v.state ≡ WorkState.running
    → any_of (has_id v.id) rs ≡ true
    → row id (recover_rows now rs db)
      ≡ some (settle_row cancelled_before_text restarted_text now v v)
unfolding recover_rows any_of
recover_rows-row now [] db id v a e running h = cc
recover_rows-row now (r ∷ rs) db id v a e running h =
    elim (Bool-cases (has_id_in (bind_text r.id) WorkState.running v)) [
      | inl hit ↦
          let same = reached now r db id v a.0 e hit in
          row-recover_rows_settled now id rs _ (recover_row now r db)
            (settle_row-ne-running now id _ _ v v)
            (row-recover_row now id r v db e ∙ rw hit (rw same))
      | inr miss ↦
          recover_rows-row now rs (recover_row now r db) id v (recover_row-All now r db rs a.1)
            (row-recover_row now id r v db e ∙ rw miss) running
            (ground (arith, a.0.0, text_eq_iff v.id (bind_text r.id), text_eq_iff r.id v.id))
    ]

Own-AsRead :
    (db : WorkStore) (rs : List WorkRecord)
    → Inv db.work
    → All (Own db.work) rs
    → All (AsRead db) rs
Own-AsRead db [] h o = tt
Own-AsRead db (r ∷ rs) h o =
    (((h.sound r.id r o.0).stored, λ v e running. cc (e, o.0)), Own-AsRead db rs h o.1)

any_of-in_running :
    (id : Text) (rows : List WorkRecord) (v : WorkRecord)
    → find_if (has_id id) rows ≡ some v
    → v.state ≡ WorkState.running
    → any_of (has_id v.id) (keep_if in_running rows) ≡ true
unfolding find_if any_of keep_if
any_of-in_running id [] v e running = ground arith
any_of-in_running id (x ∷ rest) v e running =
    ground (arith, any_of-in_running id rest v, text_eq_refl v.id)

pub reads-AsRead : (db : WorkStore) → Inv db.work → All (AsRead db) (keep_if in_running db.work)
reads-AsRead db h =
    Own-AsRead db _ h (All-keep_if (Own db.work) in_running db.work (All-Own db.work h.unique))

pub recover-Inv : (now : ℕ) (db : WorkStore) → Inv db.work → Inv (recover_interrupted now db).work
unfolding recover_interrupted
recover-Inv now db h = recover_rows-Inv now _ db (reads-AsRead db h) h

row-recover_rows_back :
    (now : ℕ) (rs : List WorkRecord) (db : WorkStore) (id : Text) (w : WorkRecord)
    → row id (recover_rows now rs db) ≡ some w
    → (v : WorkRecord) × (row id db ≡ some v)
unfolding recover_rows
row-recover_rows_back now [] db id w e = (w, e)
row-recover_rows_back now (r ∷ rs) db id w e =
    let (u, eu) = row-recover_rows_back now rs (recover_row now r db) id w e in
    let (v, ev, _) = recover_row-back now r db id u eu in (v, ev)

pub row-recover_back :
    (now : ℕ) (db : WorkStore) (id : Text) (w : WorkRecord)
    → row id (recover_interrupted now db) ≡ some w
    → (v : WorkRecord) × (row id db ≡ some v)
unfolding recover_interrupted
row-recover_back now db id w e = row-recover_rows_back now _ db id w e

-- Where the invariant holds, after a restart each row that was RUNNING is cancelled, queued again or failed by its own data,
-- and every other row is as it was.
pub row-recover_interrupted :
    (now : ℕ) (db : WorkStore) (id : Text) (v : WorkRecord)
    → Inv db.work
    → row id db ≡ some v
    → row id (recover_interrupted now db)
      ≡ some (if in_running v then settle_row cancelled_before_text restarted_text now v v else v)
unfolding recover_interrupted
row-recover_interrupted now db id v h e = elim (Bool-cases (in_running v)) [
  | inl running ↦ rw running (
      recover_rows-row now _ db id v (reads-AsRead db h) e (ground arith)
        (any_of-in_running id db.work v e (ground arith)))
  | inr settled ↦ rw settled (row-recover_rows_settled now id _ v db (λ e'. cc (settled, e')) e)
]
