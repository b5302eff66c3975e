-- ===== src/Store/Restart.antt =====
-- A restart leaves nothing RUNNING, and a second restart has nothing to do.
use madre.Base.{ℕ, ◌≡◌, refl, List, [], ◌∷◌, some, false, Text, arith, if◌then◌else◌, keep_if, All}
use madre.Store.{WorkRecord, WorkStore}
use madre.Store.Completion.{
  settle_row, recover_interrupted, recover_rows, in_running, cancelled_before_text, restarted_text,
}
use madre.Store.Rows.{row}
use madre.Store.Invariant.{Inv}
use madre.Store.Recovery.{recover-Inv, row-recover_interrupted, row-recover_back, All-Own, Own}

settled-idle :
    (now : ℕ) (v : WorkRecord)
    → in_running
        (if in_running v then settle_row cancelled_before_text restarted_text now v v else v)
      ≡ false
unfolding settle_row
settled-idle now v = ground arith

-- Where the invariant holds before it, after `recover_interrupted` no row is RUNNING.
pub recover_leaves_idle :
    (now : ℕ) (db : WorkStore) (id : Text) (w : WorkRecord)
    → Inv db.work
    → row id (recover_interrupted now db) ≡ some w
    → in_running w ≡ false
recover_leaves_idle now db id w h e =
    let (v, ev) = row-recover_back now db id w e in
    let same = row-recover_interrupted now db id v h ev in
    let eq : w
        ≡ (if in_running v then settle_row cancelled_before_text restarted_text now v v else v) =
      cc (e, same) in
    rw eq (settled-idle now v)

keep_if-none :
    (rows : List WorkRecord) → All (λ v. in_running v ≡ false) rows → keep_if in_running rows ≡ []
unfolding keep_if
keep_if-none [] h = refl
keep_if-none (v ∷ rest) h = rw h.0 (keep_if-none rest h.1)

All-idle :
    (db : WorkStore) (rs : List WorkRecord)
    → ((id : Text) (w : WorkRecord) → row id db ≡ some w → in_running w ≡ false)
    → All (Own db.work) rs
    → All (λ v. in_running v ≡ false) rs
All-idle db [] f o = tt
All-idle db (r ∷ rs) f o = (f r.id r o.0, All-idle db rs f o.1)

idle_recover :
    (now : ℕ) (db : WorkStore)
    → All (λ v. in_running v ≡ false) db.work
    → recover_interrupted now db ≡ db
unfolding recover_interrupted recover_rows
idle_recover now db h = rw (keep_if-none db.work h)

-- Where the invariant holds, recovering again, at whatever time, changes nothing.
pub recover_again :
    (now later : ℕ) (db : WorkStore)
    → Inv db.work
    → recover_interrupted later (recover_interrupted now db) ≡ recover_interrupted now db
recover_again now later db h = idle_recover later (recover_interrupted now db) (
    All-idle (recover_interrupted now db) _ (λ id w e. recover_leaves_idle now db id w h e)
      (All-Own _ (recover-Inv now db h).unique))
