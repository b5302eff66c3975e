-- ===== src/Engines/Csv.antt =====
-- Lists of names in a metadata field.
use madre.Base.{
  ◌≡◌, ◌∙◌, refl, ap, List, [], ◌∷◌, ◌++◌, false, not, Text, is_empty, keep_if, split_on,
  split_on-append, split_on_last, has_byte, All,
}
use mathlib.Core.List.{append-nil}
use madre.Engines.{split_csv, join_csv, joined}

-- A name that a list can hold: some text with no comma.
abbrev pub IsName : Text → Type 0
IsName name = (is_empty name ≡ false) × (has_byte b',' name ≡ false)

split_on-joined :
    (name : Text) (names : List Text)
    → IsName name
    → All IsName names
    → split_on b',' (name ++ joined names) ≡ name ∷ names
split_on-joined name [] h hs = rw (append-nil name) (split_on_last b',' name h.1)
split_on-joined name (next ∷ names) h hs =
    split_on-append b',' name (next ++ joined names) h.1
    ∙ ap (λ rest. name ∷ rest) (split_on-joined next names hs.0 hs.1)

keep_names :
    (names : List Text) → All IsName names → keep_if (λ piece. not (is_empty piece)) names ≡ names
unfolding keep_if
keep_names [] h = refl
keep_names (name ∷ names) h = rw (h.0.0) (rw (keep_names names h.1) refl)

-- A list of names that was joined is split into the same names.
pub split_csv-join_csv : (names : List Text) → All IsName names → split_csv (join_csv names) ≡ names
unfolding split_csv join_csv keep_if split_on is_empty
split_csv-join_csv [] h = refl
split_csv-join_csv (name ∷ names) h =
    rw (split_on-joined name names h.0 h.1) (keep_names (name ∷ names) h)
