-- ===== src/Prelude/Result.antt =====
-- What a function returns that may fail with an error of the type E, and chains of such functions.
use alya.Prelude.Tests.{if◌then◌else◌}
use mathlib.Core.Bool.{Bool}
use mathlib.Core.Logic.{◌⊎◌, inl, inr}
use mathlib.Core.Path.{◌≡◌, refl}

pub data Result (E A : Type 0) : Type 0 where
  err : (reason : E) → Result E A
  ok : (value : A) → Result E A

module _ {E A B : Type 0} where
  infixl 5 ◌>>=◌
  abbrev pub ◌>>=◌ : Result E A → (A → Result E B) → Result E B
  err reason >>= next = err reason
  ok value >>= next = next value

  -- Both parts of a chain that succeeds do.
  pub >>=-eq-ok :
      (first : Result E A) (next : A → Result E B) {b : B}
      → (first >>= next) ≡ ok b
      → (value : A) × (first ≡ ok value) × (next value ≡ ok b)
  >>=-eq-ok (err reason) next both = cc
  >>=-eq-ok (ok value) next both = (value, refl, both)

module _ {E B : Type 0} where
  infixl 5 ◌>>◌
  abbrev pub ◌>>◌ : Result E (Unit {0}) → Result E B → Result E B
  first >> next = first >>= λ done. next

  pub >>-eq-ok :
      (first : Result E (Unit {0})) (next : Result E B) {b : B}
      → (first >> next) ≡ ok b
      → (first ≡ ok tt) × (next ≡ ok b)
  >>-eq-ok (err reason) next both = cc
  >>-eq-ok (ok value) next both = (refl, both)

module _ {E : Type 0} where
  abbrev pub guard : Bool → E → Result E (Unit {0})
  guard passes reason = if passes then ok tt else err reason

  pub Result-cases :
      {A : Type 0} (r : Result E A)
      → ((value : A) × (r ≡ ok value)) ⊎ ((reason : E) × (r ≡ err reason))
  Result-cases (err reason) = inr (reason, refl)
  Result-cases (ok value) = inl (value, refl)
