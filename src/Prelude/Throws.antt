-- ===== src/Prelude/Throws.antt =====
-- A function that returns or throws. `E` is the model's type of the errors that it throws.
use mathlib.Core.Path.{◌≡◌, refl}
use mathlib.Core.Logic.{◌⊎◌, inl, inr}
use mathlib.Core.Bool.{Bool, true, false}
use mathlib.Core.Option.{Option, none, some}
use native.Mathlib.Omega.{arith}

pub data Outcome (E A : Type 0) : Type 0 where
  ok : A → Outcome E A
  throw : E → Outcome E A

module _ {E A B : Type 0} where
  infixl 5 ◌>>=◌
  abbrev pub ◌>>=◌ : Outcome E A → (A → Outcome E B) → Outcome E B
  throw e >>= next = throw e
  ok a >>= next = next a

  -- A chain that returns has a first part that returns what the rest starts from.
  pub >>=-eq-ok :
      (first : Outcome E A) (next : A → Outcome E B) {result : B}
      → (first >>= next) ≡ ok result
      → (value : A) × (first ≡ ok value) × (next value ≡ ok result)
  >>=-eq-ok (throw e) next returns = ground arith
  >>=-eq-ok (ok value) next returns = (value, refl, returns)

module _ {E B : Type 0} where
  infixl 5 ◌>>◌
  abbrev pub ◌>>◌ : Outcome E (Unit {0}) → Outcome E B → Outcome E B
  first >> next = first >>= (λ done. next)

-- `if (bad) throw new Error(...)`
abbrev pub throw_if : {E : Type 0} → Bool → E → Outcome E (Unit {0})
throw_if true e = throw e
throw_if false e = ok tt

-- `if (value === undefined) throw`, and the value otherwise.
abbrev pub or_throw : {E A : Type 0} → E → Option A → Outcome E A
or_throw e none = throw e
or_throw e (some a) = ok a

pub or_throw-ok : {E A : Type 0} (e : E) (o : Option A) {a : A} → or_throw e o ≡ ok a → o ≡ some a
or_throw-ok e none h = absurd (ground arith)
or_throw-ok e (some b) h = ground arith

pub >>-eq-ok :
    {E B : Type 0} (m : Outcome E (Unit {0})) (k : Outcome E B) {b : B}
    → (m >> k) ≡ ok b
    → (m ≡ ok tt) × (k ≡ ok b)
>>-eq-ok (ok u) k h = (refl, h)
>>-eq-ok (throw e) k h = (cc, cc)

pub Outcome-cases :
    {E A : Type 0} (m : Outcome E A) → ((a : A) × (m ≡ ok a)) ⊎ ((e : E) × (m ≡ throw e))
Outcome-cases (ok a) = inl (a, refl)
Outcome-cases (throw e) = inr (e, refl)
