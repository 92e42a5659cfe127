-- ===== src/Prelude/Results.antt =====
-- What running C++ code comes to: a value, undefined behaviour, or a loop that is still running.
use mathlib.Core.Path.{◌≡◌, refl}
use mathlib.Core.Bool.{Bool, true, false}
use sgx_nfv.Prelude.Tests.{if◌then◌else◌}

-- `fault` is undefined behaviour: an access outside an object or an overflow of a signed integer.
-- `spinning` is a loop that used up its fuel.
pub data Outcome {ℓ} (A : Type ℓ) : Type ℓ where
  done : A → Outcome A
  fault : Outcome A
  spinning : Outcome A

module _ {ℓ κ} {A : Type ℓ} {B : Type κ} where
  infixl 5 ◌>>=◌
  abbrev pub ◌>>=◌ : Outcome A → (A → Outcome B) → Outcome B
  done a >>= f = f a
  fault >>= f = fault
  spinning >>= f = spinning

  pub >>=-eq-done :
      (m : Outcome A) (f : A → Outcome B) {b : B}
      → (m >>= f) ≡ done b
      → (a : A) × (m ≡ done a) × (f a ≡ done b)
  >>=-eq-done (done a) f h = (a, refl, h)
  >>=-eq-done fault f h = cc
  >>=-eq-done spinning f h = cc

-- If there is a value, `P` holds of it.
unfoldable pub Whenever : {A : Type 0} → (A → Type 0) → Outcome A → Type 0
Whenever P (done a) = P a
Whenever P fault = Unit
Whenever P spinning = Unit

pub Whenever-bind :
    {A B : Type 0} (P : B → Type 0) (m : Outcome A) (f : A → Outcome B)
    → ((a : A) → Whenever P (f a))
    → Whenever P (m >>= f)
unfolding Whenever
Whenever-bind P (done a) f h = h a
Whenever-bind P fault f h = tt
Whenever-bind P spinning f h = tt

pub Whenever-if :
    {A : Type 0} (P : A → Type 0) (t : Bool) (x y : Outcome A)
    → (t ≡ true → Whenever P x)
    → (t ≡ false → Whenever P y)
    → Whenever P (if t then x else y)
Whenever-if P true x y h k = h refl
Whenever-if P false x y h k = k refl
