-- ===== src/Store/Uniqueness.antt =====
-- PRIMARY KEY(id): the id of a row is not the id of another one.
use madre.Base.{
  ◌≡◌, inl, inr, List, [], ◌∷◌, ◌++◌, some, Bool, true, false, Text, text_eq, text_eq_iff, arith,
  if◌then◌else◌, find_if, any_of, Bool-cases, refl, ◌∙◌,
}
use madre.Store.{WorkState, WorkRecord, changes, update_where, has_id, has_id_in}
use madre.Store.Rows.{Unique, find_if-any_of}

update-id :
    (p : WorkRecord → Bool) (f : WorkRecord → WorkRecord) (a : WorkRecord)
    → (f a).id ≡ a.id
    → (if p a then f a else a).id ≡ a.id
update-id p f a k = ground arith

any_of-update_where :
    (p : WorkRecord → Bool) (f : WorkRecord → WorkRecord) (i : Text) (rows : List WorkRecord)
    → ((a : WorkRecord) → (f a).id ≡ a.id)
    → any_of (has_id i) (update_where p f rows) ≡ any_of (has_id i) rows
unfolding any_of update_where
any_of-update_where p f i [] keeps = refl
any_of-update_where p f i (a ∷ rest) keeps =
    ground (arith, keeps a, any_of-update_where p f i rest keeps)

pub Unique-update_where :
    (p : WorkRecord → Bool) (f : WorkRecord → WorkRecord) (rows : List WorkRecord)
    → ((a : WorkRecord) → (f a).id ≡ a.id)
    → Unique rows
    → Unique (update_where p f rows)
unfolding update_where
Unique-update_where p f [] keeps u = tt
Unique-update_where p f (a ∷ rest) keeps u = (
  rw (update-id p f a (keeps a)) (any_of-update_where p f a.id rest keeps ∙ u.0),
  Unique-update_where p f rest keeps u.1,
)

any_of-append_false :
    (i : Text) (rows : List WorkRecord) (w : WorkRecord)
    → any_of (has_id i) rows ≡ false
    → text_eq w.id i ≡ false
    → any_of (has_id i) (rows ++ w ∷ []) ≡ false
unfolding any_of
any_of-append_false i [] w h k = ground arith
any_of-append_false i (a ∷ rest) w h k = ground (arith, any_of-append_false i rest w)

pub Unique-append :
    (rows : List WorkRecord) (w : WorkRecord)
    → Unique rows
    → any_of (has_id w.id) rows ≡ false
    → Unique (rows ++ w ∷ [])
unfolding any_of
Unique-append [] w u h = (refl, tt)
Unique-append (a ∷ rest) w u h = (
  any_of-append_false a.id rest w u.0
      (ground (arith, text_eq_iff w.id a.id, text_eq_iff a.id w.id)),
  Unique-append rest w u.1 (ground arith),
)

module _ (i : Text) (p : WorkRecord → Bool) (keyed : (a : WorkRecord) → p a ≡ true → a.id ≡ i) where
  -- A SELECT whose WHERE fixes the id finds the row of the id.
  pub find_if-keyed :
      (rows : List WorkRecord) (r : WorkRecord)
      → Unique rows
      → find_if p rows ≡ some r
      → find_if (has_id i) rows ≡ some r
  unfolding find_if
  find_if-keyed [] r u e = ground arith
  find_if-keyed (a ∷ rest) r u e = elim (Bool-cases (p a)) [
    | inl hit ↦ ground (arith, text_eq_iff a.id i, keyed a)
    | inr miss ↦
        let later : find_if p rest ≡ some r = ground arith in
        let found = find_if-keyed rest r u.1 later in
        elim (Bool-cases (has_id i a)) [
          | inl same ↦
              let absent = find_if-any_of (has_id a.id) rest u.0 in
              absurd (cc (found, absent, (text_eq_iff a.id i).0 same))
          | inr other ↦ rw other found
        ]
  ]

  changes_absent : (rows : List WorkRecord) → any_of (has_id i) rows ≡ false → changes p rows ≡ 0
  unfolding any_of changes
  changes_absent [] h = refl
  changes_absent (a ∷ rest) h = ground (arith, changes_absent rest, keyed a, text_eq_iff a.id i)

  -- An UPDATE whose WHERE fixes the id changes one row at most.
  pub changes_keyed :
      (rows : List WorkRecord) (r : WorkRecord)
      → Unique rows
      → find_if p rows ≡ some r
      → changes p rows ≡ 1
  unfolding find_if changes
  changes_keyed [] r u e = ground arith
  changes_keyed (a ∷ rest) r u e = elim (Bool-cases (p a)) [
    | inl hit ↦ rw (hit, changes_absent rest (rw (keyed a hit) at u.0))
    | inr miss ↦
        let later : find_if p rest ≡ some r = ground arith in
        rw miss (omega (arith, changes_keyed rest r u.1 later))
  ]

-- A SELECT by id and state finds the row of the id.
pub find_if-Unique :
    (i : Text) (s : WorkState) (rows : List WorkRecord) (r : WorkRecord)
    → Unique rows
    → find_if (has_id_in i s) rows ≡ some r
    → find_if (has_id i) rows ≡ some r
find_if-Unique i s rows r u e =
    find_if-keyed i (has_id_in i s) (λ a h. ground (arith, text_eq_iff a.id i)) rows r u e
