-- ===== src/Store/Schedule.antt =====
-- Which Work the scheduler gets: `next_eligible`, after `expire_queued_deadlines`.
use madre.Base.{
  ℕ, ◌≡◌, ◌↔◌, inl, inr, refl, List, [], ◌∷◌, ◌++◌, none, some, Bool, true, false, arith, keep_if,
  Bool-cases, Option-cases, All, All-append, ap,
}
use madre.Store.{WorkRecord, WorkStore, update_where}
use madre.Store.Operations.{
  is_eligible, sorts_before, first_by_order, next_eligible, is_expired, expire_queued_deadlines,
  deadline_passed, fail_row, deadline_expired_before_dispatch,
}

All-map {ℓ κ μ} :
    {A : Type ℓ} (P : A → Type κ) (Q : A → Type μ) (xs : List A)
    → ((a : A) → P a → Q a)
    → All P xs
    → All Q xs
All-map P Q [] f h = tt
All-map P Q (x ∷ xs) f h = (f x h.0, All-map P Q xs f h.1)

pub All-zip {ℓ κ μ ν} :
    {A : Type ℓ} (P : A → Type κ) (Q : A → Type μ) (R : A → Type ν) (xs : List A)
    → ((a : A) → P a → Q a → R a)
    → All P xs
    → All Q xs
    → All R xs
All-zip P Q R [] f h k = tt
All-zip P Q R (x ∷ xs) f h k = (f x h.0 k.0, All-zip P Q R xs f h.1 k.1)

pub All-split {ℓ κ} :
    {A : Type ℓ} (P : A → Type κ) (xs ys : List A) → All P (xs ++ ys) → All P xs × All P ys
All-split P [] ys h = (tt, h)
All-split P (x ∷ xs) ys h = let (first, last) = All-split P xs ys h.1 in ((h.0, first), last)

not_before_of_later :
    (v u x : WorkRecord)
    → sorts_before v u ≡ true
    → sorts_before v x ≡ false
    → sorts_before u x ≡ false
unfolding sorts_before
not_before_of_later v u x h k = ground arith

not_before_trans :
    (v u x : WorkRecord)
    → sorts_before u v ≡ false
    → sorts_before v x ≡ false
    → sorts_before u x ≡ false
unfolding sorts_before
not_before_trans v u x h k = ground arith

module _ (p : WorkRecord → Bool) where
  -- `w` is the row of the table that the ORDER BY puts first among those that pass `p`: rows before
  -- it in the table sort strictly after it, and rows behind it do not sort before it.
  pub record IsFirst (rows : List WorkRecord) (w : WorkRecord) : Type 0 where
    pub before : List WorkRecord
    pub behind : List WorkRecord
    pub splits : rows ≡ before ++ (w ∷ behind)
    pub passes : p w ≡ true
    pub beats : All (λ v. p v ≡ true → sorts_before w v ≡ true) before
    pub unbeaten : All (λ v. p v ≡ true → sorts_before v w ≡ false) behind

  first_by_order-none :
      (rows : List WorkRecord)
      → first_by_order (keep_if p rows) ≡ none
      → All (λ v. p v ≡ false) rows
  unfolding first_by_order keep_if
  first_by_order-none [] e = tt
  first_by_order-none (x ∷ rest) e = elim (Bool-cases (p x)) [
    | inl hit ↦ absurd (ground arith)
    | inr miss ↦ (miss, first_by_order-none rest (ground arith))
  ]

  IsFirst-behind :
      (rest : List WorkRecord) (v x : WorkRecord)
      → IsFirst rest v
      → sorts_before v x ≡ false
      → All (λ u. p u ≡ true → sorts_before u x ≡ false) rest
  IsFirst-behind rest v x f k = rw f.splits (
      All-append _ f.before (v ∷ f.behind)
        (All-map _ _ f.before (λ u h t. not_before_of_later v u x (h t) k) f.beats)
        (λ t. k, All-map _ _ f.behind (λ u h t. not_before_trans v u x (h t) k) f.unbeaten))

  first_by_order-IsFirst :
      (rows : List WorkRecord) (w : WorkRecord)
      → first_by_order (keep_if p rows) ≡ some w
      → IsFirst rows w
  unfolding first_by_order keep_if
  first_by_order-IsFirst [] w e = cc
  first_by_order-IsFirst (x ∷ rest) w e = elim (Bool-cases (p x)) [
    | inr miss ↦
        let f = first_by_order-IsFirst rest w (ground arith) in
        record {
          before = x ∷ f.before;
          behind = f.behind;
          splits = ap (◌∷◌ x) f.splits;
          passes = f.passes;
          beats = (λ h. cc (h, miss), f.beats);
          unbeaten = f.unbeaten;
        }
    | inl hit ↦ elim (Option-cases (first_by_order (keep_if p rest))) [
      | inl none' ↦
          let same : w ≡ x = ground arith in
          rw same (record {
            before = [];
            behind = rest;
            splits = refl;
            passes = hit;
            beats = tt;
            unbeaten = All-map _ _ rest (λ u h t. cc (h, t)) (first_by_order-none rest none');
          })
      | inr (v, ev) ↦
          let f = first_by_order-IsFirst rest v ev in
          elim (Bool-cases (sorts_before v x)) [
            | inl earlier ↦
                let same : w ≡ v = ground arith in
                rw same (record {
                  before = x ∷ f.before;
                  behind = f.behind;
                  splits = ap (◌∷◌ x) f.splits;
                  passes = f.passes;
                  beats = (λ h. earlier, f.beats);
                  unbeaten = f.unbeaten;
                })
            | inr later ↦
                let same : w ≡ x = ground arith in
                rw same (record {
                  before = [];
                  behind = rest;
                  splits = refl;
                  passes = hit;
                  beats = tt;
                  unbeaten = IsFirst-behind rest v x f later;
                })
          ]
    ]
  ]

-- The scheduler is given the eligible Work of the most urgent class, in it the oldest, and of
-- equally old Work the one inserted first.
pub next_eligible-IsFirst :
    (now : ℕ) (db : WorkStore) (w : WorkRecord)
    → next_eligible now db ≡ some w
    → IsFirst (is_eligible now) db.work w
unfolding next_eligible
next_eligible-IsFirst now db w e = first_by_order-IsFirst (is_eligible now) db.work w e

first_by_order-empty :
    (p : WorkRecord → Bool) (rows : List WorkRecord)
    → All (λ v. p v ≡ false) rows
    → first_by_order (keep_if p rows) ≡ none
unfolding first_by_order keep_if
first_by_order-empty p [] h = refl
first_by_order-empty p (x ∷ rest) h = rw h.0 (first_by_order-empty p rest h.1)

-- It is given nothing exactly when no Work is eligible.
pub next_eligible-none_iff :
    (now : ℕ) (db : WorkStore)
    → (next_eligible now db ≡ none) ↔ All (λ v. is_eligible now v ≡ false) db.work
unfolding next_eligible
next_eligible-none_iff now db =
    (first_by_order-none (is_eligible now) db.work, first_by_order-empty (is_eligible now) db.work)

-- Queued Work whose deadline has not come.
abbrev InTime : ℕ → WorkRecord → Type 0
InTime now v = is_eligible now v ≡ true → deadline_passed now v.deadline_ms ≡ false

expire-InTime :
    (now : ℕ) (rows : List WorkRecord)
    → All
        (InTime now)
        (update_where (is_expired now) (fail_row deadline_expired_before_dispatch) rows)
unfolding update_where is_expired is_eligible
expire-InTime now [] = tt
expire-InTime now (v ∷ rest) = (λ h. ground arith, expire-InTime now rest)

All-middle {ℓ κ} :
    {A : Type ℓ} (P : A → Type κ) (xs ys : List A) (a : A) → All P (xs ++ (a ∷ ys)) → P a
All-middle P [] ys a h = h.0
All-middle P (x ∷ xs) ys a h = All-middle P xs ys a h.1

-- After the sweep of one turn of the scheduler, the Work that the same turn picks has a deadline
-- that is still to come: the turn's own check of it never fires.
pub expire_then_pick :
    (now : ℕ) (db : WorkStore) (w : WorkRecord)
    → next_eligible now (expire_queued_deadlines now db) ≡ some w
    → deadline_passed now w.deadline_ms ≡ false
unfolding expire_queued_deadlines
expire_then_pick now db w e =
    let f = next_eligible-IsFirst now (expire_queued_deadlines now db) w e in
    All-middle (InTime now) f.before f.behind w (rw f.splits at (expire-InTime now db.work))
      f.passes
