-- ===== src/Base/Split.antt =====
-- Texts cut at a separator, and the order of texts.
use Prim.Native.Nat.{ℕ}
use mathlib.Core.Path.{◌≡◌, refl}
use mathlib.Core.Bool.{Bool, true, false, ◌&&◌, ◌||◌}
use mathlib.Core.Option.{Option, none, some}
use mathlib.Core.List.{List, [], ◌∷◌, ◌++◌}
use native.Mathlib.Omega.{arith}
use madre.Base.Tests.{◌==◌, ltb, if◌then◌else◌}
use madre.Base.Lists.{any_of}
use madre.Base.Strings.{Text, text_eq}

unfoldable pub has_byte : ℕ → Text → Bool
has_byte c s = any_of (λ x. x == c) s

-- `s.find_first_of(set) != npos`
unfoldable pub has_any_of : Text → Text → Bool
unfolding has_byte
has_any_of set s = any_of (λ x. has_byte x set) s

-- `s.find(c)`: the text before the first `c` and the text behind it.
unfoldable pub cut : ℕ → Text → Option (Text × Text)
cut c [] = none
cut c (x ∷ s) =
    let rest = cut c s in
    if x == c then some ([], s) else elim rest [ none ↦ none | some (a, b) ↦ some (x ∷ a, b) ]

abbrev onto_first : ℕ → List Text → List Text
onto_first x [] = (x ∷ []) ∷ []
onto_first x (p ∷ ps) = (x ∷ p) ∷ ps

-- The pieces that a loop over `s.find(c, pos)` and `s.substr` visits.
unfoldable pub split_on : ℕ → Text → List Text
split_on c [] = [] ∷ []
split_on c (x ∷ s) = let rest = split_on c s in if x == c then [] ∷ rest else onto_first x rest

pub cut-append : (c : ℕ) (p s : Text) → has_byte c p ≡ false → cut c (p ++ (c ∷ s)) ≡ some (p, s)
unfolding cut has_byte any_of
cut-append c [] s h = ground arith
cut-append c (x ∷ p) s h = ground (arith, cut-append c p s)

pub split_on-append :
    (c : ℕ) (p s : Text) → has_byte c p ≡ false → split_on c (p ++ (c ∷ s)) ≡ p ∷ split_on c s
unfolding split_on has_byte any_of
split_on-append c [] s h = ground arith
split_on-append c (x ∷ p) s h = ground (arith, split_on-append c p s)

pub split_on_last : (c : ℕ) (p : Text) → has_byte c p ≡ false → split_on c p ≡ p ∷ []
unfolding split_on has_byte any_of
split_on_last c [] h = refl
split_on_last c (x ∷ p) h = ground (arith, split_on_last c p)

-- `std::less<std::string>`
unfoldable pub text_lt : Text → Text → Bool
text_lt [] [] = false
text_lt [] (b ∷ t) = true
text_lt (a ∷ s) [] = false
text_lt (a ∷ s) (b ∷ t) = ltb a b || ((a == b) && text_lt s t)

pub text_lt_asymm : (s t : Text) → text_lt s t ≡ true → text_lt t s ≡ false
unfolding text_lt
text_lt_asymm [] [] h = refl
text_lt_asymm [] (b ∷ t) h = refl
text_lt_asymm (a ∷ s) [] h = ground arith
text_lt_asymm (a ∷ s) (b ∷ t) h = ground (arith, text_lt_asymm s t)

pub text_eq-text_lt : (s t : Text) → text_lt s t ≡ true → text_eq s t ≡ false
unfolding text_lt text_eq
text_eq-text_lt [] [] h = ground arith
text_eq-text_lt [] (b ∷ t) h = refl
text_eq-text_lt (a ∷ s) [] h = ground arith
text_eq-text_lt (a ∷ s) (b ∷ t) h = ground (arith, text_eq-text_lt s t)

pub has_byte-has_any_of :
    (c : ℕ) (set s : Text) → has_any_of set s ≡ false → has_byte c set ≡ true → has_byte c s ≡ false
unfolding has_any_of any_of
has_byte-has_any_of c set [] h k = refl
has_byte-has_any_of c set (x ∷ s) h k = ground (arith, has_byte-has_any_of c set s)

pub has_byte-append :
    (c : ℕ) (s t : Text) → has_byte c s ≡ false → has_byte c t ≡ false → has_byte c (s ++ t) ≡ false
unfolding has_byte any_of
has_byte-append c [] t h k = k
has_byte-append c (x ∷ s) t h k = ground (arith, has_byte-append c s t)

pub has_byte-cons :
    (c x : ℕ) (s : Text) → (x == c) ≡ false → has_byte c s ≡ false → has_byte c (x ∷ s) ≡ false
unfolding has_byte any_of
has_byte-cons c x s h k = ground arith
