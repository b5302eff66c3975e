-- ===== src/Base/Numbers.antt =====
-- Decimal numbers: `std::to_string`, `std::stoi`, `std::stoll` and `std::stoull`.
use Prim.Native.Nat.{ℕ, zero, suc, ◌+◌, ◌-◌, ◌*◌, ◌/◌, ◌%◌, ◌^◌, ◌≤◌, ◌<◌}
use mathlib.Core.Path.{◌≡◌, refl, ap}
use mathlib.Core.Logic.{inl, inr}
use mathlib.Core.Bool.{Bool, true, false, ◌&&◌, ◌||◌}
use mathlib.Core.List.{List, [], ◌∷◌, ◌++◌}
use native.Mathlib.Omega.{arith}
use madre.Base.Tests.{◌==◌, ltb, leb, if◌then◌else◌, Bool-cases, lt→ltb}
use madre.Base.Lists.{all_of}
use madre.Base.Strings.{Text, codes, is_empty}
use madre.Base.Throws.{
  Result, ok, err, invalid_argument, out_of_range, ◌>>=◌, ◌>>◌, guard, Result-cases, ok-injective,
}

abbrev pub is_digit : ℕ → Bool
is_digit c = leb b'0' c && leb c b'9'

-- `isspace`
abbrev pub is_space : ℕ → Bool
is_space c = (c == b' ') || (leb 9 c && leb c 13)

unfoldable pub decimal : ℕ → ℕ → Text
decimal zero n = (b'0' + n) ∷ []
decimal (suc fuel) n =
    let rest = decimal fuel (n / 10) in
    if ltb n 10 then (b'0' + n) ∷ [] else rest ++ ((b'0' + n % 10) ∷ [])

-- Each digit takes one step, and a number has fewer digits than its value.
unfoldable pub to_string : ℕ → Text
to_string n = decimal n n

-- `std::to_string(int)`
abbrev pub to_string_i32 : ℕ → Text
to_string_i32 n = if ltb n (2 ^ 31) then to_string n else b'-' ∷ to_string (2 ^ 32 - n)

-- `std::to_string(long)` on a pattern of 64 bits.
abbrev pub to_string_i64 : ℕ → Text
to_string_i64 n = if ltb n (2 ^ 63) then to_string n else b'-' ∷ to_string (2 ^ 64 - n)

unfoldable pub skip_spaces : Text → Text
skip_spaces [] = []
skip_spaces (c ∷ s) = let rest = skip_spaces s in if is_space c then rest else c ∷ s

-- The value of the leading digits, and the text behind them.
unfoldable pub digits : ℕ → Text → ℕ × Text
digits value [] = (value, [])
digits value (c ∷ s) =
    let rest = digits (value * 10 + (c - b'0')) s in if is_digit c then rest else (value, c ∷ s)

-- A sign, a magnitude and the text behind them.
pub record Scanned : Type 0 where
  pub negative : Bool
  pub magnitude : ℕ
  pub behind : Text

unfoldable pub magnitude_of : Text → Bool → Text → Result Scanned
magnitude_of function negative [] = err (invalid_argument function)
magnitude_of function negative (c ∷ s) =
    if is_digit c
    then ok (record {
      negative = negative;
      magnitude = (digits 0 (c ∷ s)).0;
      behind = (digits 0 (c ∷ s)).1;
    })
    else err (invalid_argument function)

unfoldable pub signed_of : Text → Text → Result Scanned
signed_of function [] = err (invalid_argument function)
signed_of function (c ∷ s) =
    if c == b'-'
    then magnitude_of function true s
    else if c == b'+'
    then magnitude_of function false s
    else magnitude_of function false (c ∷ s)

unfoldable pub scan : Text → Text → Result Scanned
scan function s = signed_of function (skip_spaces s)

-- A magnitude with its sign as a pattern of `2 ^ w`.
abbrev pub pattern_of : ℕ → Scanned → ℕ
pattern_of size n = if n.negative then (size - n.magnitude) % size else n.magnitude

abbrev pub in_signed_range : ℕ → Scanned → Bool
in_signed_range half n = if n.negative then leb n.magnitude half else ltb n.magnitude half

unfoldable pub stoll : Text → Result (ℕ × Text)
stoll s = do
  n ← scan (codes "stoll") s
  guard (in_signed_range (2 ^ 63) n) (out_of_range (codes "stoll"))
  ok (pattern_of (2 ^ 64) n, n.behind)

unfoldable pub stoi : Text → Result ℕ
stoi s = do
  n ← scan (codes "stoi") s
  guard (in_signed_range (2 ^ 31) n) (out_of_range (codes "stoi"))
  ok (pattern_of (2 ^ 32) n)

unfoldable pub stoull : Text → Result ℕ
stoull s = do
  n ← scan (codes "stoull") s
  guard (ltb n.magnitude (2 ^ 64)) (out_of_range (codes "stoull"))
  ok (pattern_of (2 ^ 64) n)

-- `unsigned long` has 64 bits.
unfoldable pub stoul : Text → Result ℕ
stoul s = do
  n ← scan (codes "stoul") s
  guard (ltb n.magnitude (2 ^ 64)) (out_of_range (codes "stoul"))
  ok (pattern_of (2 ^ 64) n)

-- The value of a text that is all digits.
value_of : ℕ → Text → ℕ
value_of value [] = value
value_of value (c ∷ s) = value_of (value * 10 + (c - b'0')) s

value_of-append : (value : ℕ) (s t : Text) → value_of value (s ++ t) ≡ value_of (value_of value s) t
unfolding value_of
value_of-append value [] t = refl
value_of-append value (c ∷ s) t = value_of-append (value * 10 + (c - b'0')) s t

digits-value_of :
    (value : ℕ) (s : Text) → all_of is_digit s ≡ true → digits value s ≡ (value_of value s, [])
unfolding value_of digits all_of
digits-value_of value [] h = refl
digits-value_of value (c ∷ s) h = ground (arith, digits-value_of (value * 10 + (c - b'0')) s)

all_of-append {ℓ} :
    {A : Type ℓ} (p : A → Bool) (s t : List A)
    → all_of p s ≡ true
    → all_of p t ≡ true
    → all_of p (s ++ t) ≡ true
unfolding all_of
all_of-append p [] t h k = k
all_of-append p (x ∷ s) t h k = ground (arith, all_of-append p s t)

decimal-IsDigits : (fuel n : ℕ) → n ≤ fuel → all_of is_digit (decimal fuel n) ≡ true
unfolding decimal all_of
decimal-IsDigits zero n h = ground arith
decimal-IsDigits (suc fuel) n h = elim (Bool-cases (ltb n 10)) [
  | inl small ↦ ground arith
  | inr big ↦ rw big (
      all_of-append is_digit (decimal fuel (n / 10)) _
        (decimal-IsDigits fuel (n / 10) (ground arith)) (ground arith))
]

value_of-decimal : (fuel n : ℕ) → n ≤ fuel → value_of 0 (decimal fuel n) ≡ n
unfolding decimal value_of
value_of-decimal zero n h = ground arith
value_of-decimal (suc fuel) n h = elim (Bool-cases (ltb n 10)) [
  | inl small ↦ ground arith
  | inr big ↦
      rw (big, value_of-append 0 (decimal fuel (n / 10)) ((b'0' + n % 10) ∷ []))
        (rw (value_of-decimal fuel (n / 10) (ground arith)) (ground arith))
]

is_empty-append : (s : Text) (c : ℕ) → is_empty (s ++ (c ∷ [])) ≡ false
unfolding is_empty
is_empty-append [] c = refl
is_empty-append (x ∷ s) c = refl

is_empty-decimal : (fuel n : ℕ) → is_empty (decimal fuel n) ≡ false
unfolding decimal is_empty
is_empty-decimal zero n = refl
is_empty-decimal (suc fuel) n = elim (Bool-cases (ltb n 10)) [
  | inl small ↦ rw small refl
  | inr big ↦ rw big (is_empty-append (decimal fuel (n / 10)) (b'0' + n % 10))
]

abbrev plain : ℕ → Scanned
plain n = record { negative = false; magnitude = n; behind = [] }

scan_digits :
    (function s : Text)
    → is_empty s ≡ false
    → all_of is_digit s ≡ true
    → scan function s ≡ ok (plain (value_of 0 s))
unfolding scan signed_of magnitude_of skip_spaces all_of is_empty
scan_digits function [] e h = ground arith
scan_digits function (c ∷ s) e h =
    let space : is_space c ≡ false = ground arith in
    let minus : (c == b'-') ≡ false = ground arith in
    let plus : (c == b'+') ≡ false = ground arith in
    let digit : is_digit c ≡ true = ground arith in
    let value = digits-value_of 0 (c ∷ s) h in rw (space, minus, plus, digit) (rw value refl)

scan-to_string : (function : Text) (n : ℕ) → scan function (to_string n) ≡ ok (plain n)
unfolding to_string
scan-to_string function n =
    rw
      (
        scan_digits function (decimal n n) (is_empty-decimal n n)
            (decimal-IsDigits n n (omega arith)),
        value_of-decimal n n (omega arith),
      )
      refl

pub stoll-to_string : (n : ℕ) → n < 2 ^ 63 → stoll (to_string n) ≡ ok (n, [])
unfolding stoll
stoll-to_string n h = rw (scan-to_string (codes "stoll") n, lt→ltb n (2 ^ 63) h) refl

pub stoi-to_string : (n : ℕ) → n < 2 ^ 31 → stoi (to_string n) ≡ ok n
unfolding stoi
stoi-to_string n h = rw (scan-to_string (codes "stoi") n, lt→ltb n (2 ^ 31) h) refl

pub stoull-to_string : (n : ℕ) → n < 2 ^ 64 → stoull (to_string n) ≡ ok n
unfolding stoull
stoull-to_string n h = rw (scan-to_string (codes "stoull") n, lt→ltb n (2 ^ 64) h) refl

pub stoul-to_string : (n : ℕ) → n < 2 ^ 64 → stoul (to_string n) ≡ ok n
unfolding stoul
stoul-to_string n h = rw (scan-to_string (codes "stoul") n, lt→ltb n (2 ^ 64) h) refl

pattern_of-IsU64 :
    (found : Scanned) (n : ℕ)
    → pattern_of (2 ^ 64) found ≡ n
    → in_signed_range (2 ^ 63) found ≡ true
    → n < 2 ^ 64
pattern_of-IsU64 found n e h = ground arith

pub stoll-IsU64 : (s : Text) (n : ℕ) (behind : Text) → stoll s ≡ ok (n, behind) → n < 2 ^ 64
unfolding stoll
stoll-IsU64 s n behind e = elim (Result-cases (scan (codes "stoll") s)) [
  | inr (x, f) ↦ absurd (cc (rw f at e))
  | inl (found, f) ↦ elim (Bool-cases (in_signed_range (2 ^ 63) found)) [
    | inr out ↦ absurd (cc (rw (f, out) at e))
    | inl good ↦
        let value = ok-injective (rw (f, good) at e) in
        let first : pattern_of (2 ^ 64) found ≡ n = ap (λ r. r.0) value in
        pattern_of-IsU64 found n first good
  ]
]

pattern_of-IsU32 :
    (found : Scanned) (n : ℕ)
    → pattern_of (2 ^ 32) found ≡ n
    → in_signed_range (2 ^ 31) found ≡ true
    → n < 2 ^ 32
pattern_of-IsU32 found n e h = ground arith

pub stoi-IsU32 : (s : Text) (n : ℕ) → stoi s ≡ ok n → n < 2 ^ 32
unfolding stoi
stoi-IsU32 s n e = elim (Result-cases (scan (codes "stoi") s)) [
  | inr (x, f) ↦ absurd (cc (rw f at e))
  | inl (found, f) ↦ elim (Bool-cases (in_signed_range (2 ^ 31) found)) [
    | inr out ↦ absurd (cc (rw (f, out) at e))
    | inl good ↦ pattern_of-IsU32 found n (ok-injective (rw (f, good) at e)) good
  ]
]
