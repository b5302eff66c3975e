-- ===== src/Store/Rows.antt =====
-- Tables seen through lookups: what an UPDATE does to the row that is found under a key.
use madre.Base.{
  ◌≡◌, ◌⊎◌, inl, inr, refl, List, [], ◌∷◌, ◌++◌, Option, none, some, Bool, true, false, Text, arith,
  if◌then◌else◌, find_if, any_of, Option-cases,
}
use madre.Store.{WorkRecord, WorkStore, update_where, changes, has_id}

-- The row of an id, as it is stored.
abbrev pub row : Text → WorkStore → Option WorkRecord
row id db = find_if (has_id id) db.work

module _ {ℓ} {A : Type ℓ} (q p : A → Bool) (f : A → A) where
  -- An UPDATE that keeps the key acts on the row of the key.
  pub find_if-update_where :
      (rows : List A) (v : A)
      → ((a : A) → q (f a) ≡ q a)
      → find_if q rows ≡ some v
      → find_if q (update_where p f rows) ≡ some (if p v then f v else v)
  unfolding find_if update_where
  find_if-update_where [] v keeps e = ground arith
  find_if-update_where (a ∷ rest) v keeps e =
      ground (arith, keeps a, find_if-update_where rest v keeps)

  pub find_if-update_where-none :
      (rows : List A)
      → ((a : A) → q (f a) ≡ q a)
      → find_if q rows ≡ none
      → find_if q (update_where p f rows) ≡ none
  unfolding find_if update_where
  find_if-update_where-none [] keeps e = refl
  find_if-update_where-none (a ∷ rest) keeps e =
      ground (arith, keeps a, find_if-update_where-none rest keeps)

  -- An UPDATE of other rows leaves the row of the key.
  pub find_if-update_where_miss :
      (rows : List A)
      → ((a : A) → q (f a) ≡ q a)
      → ((a : A) → p a ≡ true → q a ≡ false)
      → find_if q (update_where p f rows) ≡ find_if q rows
  unfolding find_if update_where
  find_if-update_where_miss [] keeps misses = refl
  find_if-update_where_miss (a ∷ rest) keeps misses =
      ground (arith, keeps a, misses a, find_if-update_where_miss rest keeps misses)

  pub find_if-update_where_back :
      (rows : List A) (w : A)
      → ((a : A) → q (f a) ≡ q a)
      → find_if q (update_where p f rows) ≡ some w
      → (v : A) × (find_if q rows ≡ some v) × (w ≡ (if p v then f v else v))
  find_if-update_where_back rows w keeps e = elim (Option-cases (find_if q rows)) [
    | inl missing ↦ absurd (cc (find_if-update_where-none rows keeps missing))
    | inr (v, found) ↦ (v, found, cc (find_if-update_where rows v keeps found))
  ]

module _ {ℓ} {A : Type ℓ} (q : A → Bool) where
  pub find_if-append :
      (rows : List A) (a v : A) → find_if q rows ≡ some v → find_if q (rows ++ a ∷ []) ≡ some v
  unfolding find_if
  find_if-append [] a v e = ground arith
  find_if-append (x ∷ rest) a v e = ground (arith, find_if-append rest a v)

  pub find_if-append_back :
      (rows : List A) (a v : A)
      → find_if q (rows ++ a ∷ []) ≡ some v
      → (find_if q rows ≡ some v) ⊎ ((find_if q rows ≡ none) × (v ≡ a) × (q a ≡ true))
  unfolding find_if
  find_if-append_back [] a v e = ground arith
  find_if-append_back (x ∷ rest) a v e = ground (arith, find_if-append_back rest a v)

  pub find_if-append_none :
      (rows : List A) (a : A)
      → find_if q rows ≡ none
      → find_if q (rows ++ a ∷ []) ≡ (if q a then some a else none)
  unfolding find_if
  find_if-append_none [] a e = refl
  find_if-append_none (x ∷ rest) a e = ground (arith, find_if-append_none rest a)

  pub find_if-holds : (rows : List A) (v : A) → find_if q rows ≡ some v → q v ≡ true
  unfolding find_if
  find_if-holds [] v e = ground arith
  find_if-holds (x ∷ rest) v e = ground (arith, find_if-holds rest v)

  pub find_if-any_of : (rows : List A) → any_of q rows ≡ false → find_if q rows ≡ none
  unfolding find_if any_of
  find_if-any_of [] e = refl
  find_if-any_of (x ∷ rest) e = ground (arith, find_if-any_of rest)

  pub any_of-find_if : (rows : List A) → find_if q rows ≡ none → any_of q rows ≡ false
  unfolding find_if any_of
  any_of-find_if [] e = refl
  any_of-find_if (x ∷ rest) e = ground (arith, any_of-find_if rest)

module _ {ℓ} {A : Type ℓ} (q p : A → Bool) where
  changes_none :
      (rows : List A) (v : A) → changes p rows ≡ 0 → find_if q rows ≡ some v → p v ≡ false
  unfolding find_if changes
  changes_none [] v z e = ground arith
  changes_none (x ∷ rest) v z e = ground (arith, changes_none rest v)

  -- Where one row matches, the row that a SELECT read is the row that the UPDATE changes.
  pub changes_one :
      (rows : List A) (r v : A)
      → changes p rows ≡ 1
      → find_if p rows ≡ some r
      → find_if q rows ≡ some v
      → p v ≡ true
      → v ≡ r
  unfolding find_if changes
  changes_one [] r v one er ev h = ground arith
  changes_one (x ∷ rest) r v one er ev h = ground (arith, changes_one rest r v, changes_none rest v)

module _ {ℓ} {A : Type ℓ} (q p : A → Bool) where
  -- What one SELECT finds, a SELECT that finds nothing does not match.
  pub find_if-none :
      (rows : List A) (v : A) → find_if p rows ≡ none → find_if q rows ≡ some v → p v ≡ false
  unfolding find_if
  find_if-none [] v z e = ground arith
  find_if-none (x ∷ rest) v z e = ground (arith, find_if-none rest v)

-- PRIMARY KEY(id)
abbrev pub Unique : List WorkRecord → Type 0
Unique [] = Unit {0}
Unique (w ∷ rest) = (any_of (has_id w.id) rest ≡ false) × Unique rest
