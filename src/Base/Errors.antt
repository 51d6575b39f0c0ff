-- ===== src/Base/Errors.antt =====
-- The C++ exceptions that the program throws, and results that may be one.
use Prim.Native.String.{String}
use mathlib.Core.Path.{◌≡◌, refl}
use mathlib.Core.Logic.{◌⊎◌, inl, inr}
use mathlib.Core.Bool.{Bool, true, false}

-- A message keeps its literal part; what `strerror` or a value adds to it is left out.
pub data Exception : Type 0 where
  invalid_argument runtime_error logic_error : String → Exception
  length_error out_of_range overflow_error : String → Exception

pub data Result {ℓ} (A : Type ℓ) : Type ℓ where
  ok : A → Result A
  throws : Exception → Result A

module _ {ℓ} {A : Type ℓ} where
  pub Result-cases :
      (answer : Result A)
      → ((value : A) × (answer ≡ ok value)) ⊎ ((thrown : Exception) × (answer ≡ throws thrown))
  Result-cases (ok value) = inl (value, refl)
  Result-cases (throws thrown) = inr (thrown, refl)

-- `if (bad) throw e;`
abbrev pub throw_if : Bool → Exception → Result (Unit {0})
throw_if true thrown = throws thrown
throw_if false thrown = ok tt

-- What follows a call that may throw.
module _ {ℓ κ} {A : Type ℓ} {B : Type κ} where
  infixl 5 ◌>>=◌
  abbrev pub ◌>>=◌ : Result A → (A → Result B) → Result B
  throws thrown >>= next = throws thrown
  ok value >>= next = next value

  -- Such a sequence returns only when both of its parts do.
  pub >>=-eq-ok :
      (call : Result A) (next : A → Result B) {answer : B}
      → (call >>= next) ≡ ok answer
      → (value : A) × (call ≡ ok value) × (next value ≡ ok answer)
  >>=-eq-ok (throws thrown) next returned = cc
  >>=-eq-ok (ok value) next returned = (value, refl, returned)

module _ {ℓ} {B : Type ℓ} where
  infixl 5 ◌>>◌
  abbrev pub ◌>>◌ : Result (Unit {0}) → Result B → Result B
  call >> rest = call >>= λ _. rest
