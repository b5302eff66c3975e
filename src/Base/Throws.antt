-- ===== src/Base/Throws.antt =====
-- A computation that may throw: the error is the kind of exception with its message.
use mathlib.Core.Path.{◌≡◌, refl}
use mathlib.Core.Bool.{Bool, true, false}
use mathlib.Core.Logic.{◌⊎◌, inl, inr}
use madre.Base.Strings.{Text}

pub data Error : Type 0 where
  framing_error : Text → Error
  runtime_error : Text → Error
  invalid_argument : Text → Error
  out_of_range : Text → Error

-- `ex.what()`
abbrev pub what : Error → Text
what (framing_error m) = m
what (runtime_error m) = m
what (invalid_argument m) = m
what (out_of_range m) = m

-- What a call returns, or the exception that leaves it.
pub data Result {ℓ} (A : Type ℓ) : Type ℓ where
  err : Error → Result A
  ok : A → Result A

-- `if (!test) throw thrown;`
abbrev pub guard : Bool → Error → Result (Unit {0})
guard false thrown = err thrown
guard true thrown = ok tt

module _ {ℓ κ} {A : Type ℓ} {B : Type κ} where
  -- The statements behind a call that may throw.
  infixl 5 ◌>>=◌
  abbrev pub ◌>>=◌ : Result A → (A → Result B) → Result B
  err thrown >>= next = err thrown
  ok returned >>= next = next returned

  -- If the whole returns, the call did, and so did what came behind it.
  pub >>=-eq-ok :
      (call : Result A) (next : A → Result B) {last : B}
      → (call >>= next) ≡ ok last
      → (returned : A) × (call ≡ ok returned) × (next returned ≡ ok last)
  >>=-eq-ok (err thrown) next e = cc
  >>=-eq-ok (ok returned) next e = (returned, refl, e)

infixl 5 ◌>>◌
abbrev pub ◌>>◌ {ℓ} : {A : Type ℓ} → Result (Unit {0}) → Result A → Result A
check >> next = check >>= λ passed. next

module _ {ℓ} {A : Type ℓ} where
  pub ok-injective : {x y : A} → ok x ≡ ok y → x ≡ y
  ok-injective e = cc

  pub Result-cases :
      (call : Result A)
      → ((returned : A) × (call ≡ ok returned)) ⊎ ((thrown : Error) × (call ≡ err thrown))
  Result-cases (err thrown) = inr (thrown, refl)
  Result-cases (ok returned) = inl (returned, refl)
