-- ===== src/Prelude/Results.antt =====
-- Go's pair of a value and an error, with `nil` in one of the two places.
use mathlib.Core.Path.{◌≡◌, refl}
use mathlib.Core.Bool.{Bool, true, false}
use mathlib.Core.Logic.{◌⊎◌, inl, inr}

pub data Result {ℓ} (E A : Type ℓ) : Type ℓ where
  err : E → Result E A
  ok : A → Result E A

-- `if err != nil { return err }` between two steps.
infixl 5 ◌>>=◌
abbrev pub ◌>>=◌ {ℓ} : {E A B : Type ℓ} (outcome : Result E A) (next : A → Result E B) → Result E B
outcome >>= next = elim outcome [ err error ↦ err error | ok value ↦ next value ]

-- `if test { return err }`
abbrev pub reject_if : {E : Type 0} → Bool → E → Result E (Unit {0})
reject_if test error = elim test [ false ↦ ok tt | true ↦ err error ]

infixl 5 ◌>>◌
abbrev pub ◌>>◌ {ℓ} : {E A B : Type ℓ} (outcome : Result E A) (next : Result E B) → Result E B
outcome >> next = elim outcome [ err error ↦ err error | ok value ↦ next ]

pub >>=-eq-ok {ℓ} :
    {E A B : Type ℓ} (outcome : Result E A) (next : A → Result E B) {b : B}
    → outcome >>= next ≡ ok b
    → (value : A) × (outcome ≡ ok value) × (next value ≡ ok b)
>>=-eq-ok (err error) next h = cc
>>=-eq-ok (ok value) next h = (value, refl, h)

pub Result-cases {ℓ} :
    {E A : Type ℓ} (r : Result E A) → ((a : A) × (r ≡ ok a)) ⊎ ((e : E) × (r ≡ err e))
Result-cases (ok a) = inl (a, refl)
Result-cases (err e) = inr (e, refl)
