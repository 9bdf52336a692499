-- ===== src/Prelude/Lists.antt =====
-- Lists measured by native numbers, and predicates on their elements by recursion, which compute
-- to tuples and sums.
use Prim.Native.Nat.{ℕ, zero, suc, ◌+◌, ◌<◌, ◌≤◌}
use mathlib.Core.Path.{◌≡◌, refl, ap}
use mathlib.Core.Logic.{◌⊎◌, inl, inr}
use mathlib.Core.List.{List, [], ◌∷◌, ◌++◌, map}
use native.Mathlib.Omega.{arith}
use policy_decision_service.Prelude.Tests.{eqb, eqb_iff, Bool-cases, if◌then◌else◌}

module _ {ℓ} {A : Type ℓ} where
  abbrev pub length : List A → ℕ
  length [] = 0
  length (x ∷ xs) = suc (length xs)

  pub length-append : (xs ys : List A) → length (xs ++ ys) ≡ length xs + length ys
  length-append [] ys = omega arith
  length-append (x ∷ xs) ys = omega (arith, length-append xs ys)

pub length-map {ℓ κ} :
    {A : Type ℓ} {B : Type κ} (f : A → B) (xs : List A) → length (map f xs) ≡ length xs
length-map f [] = refl
length-map f (x ∷ xs) = ap suc (length-map f xs)

module _ {ℓ} {A : Type ℓ} (P : A → Type 0) where
  abbrev pub All : List A → Type 0
  All [] = Unit
  All (x ∷ xs) = P x × All xs

  abbrev pub Any : List A → Type 0
  Any [] = ⊥
  Any (x ∷ xs) = P x ⊎ Any xs

  pub All-append : (xs ys : List A) → All xs → All ys → All (xs ++ ys)
  All-append [] ys h k = k
  All-append (x ∷ xs) ys h k = (h.0, All-append xs ys h.1 k)

  pub Any-append_left : (xs ys : List A) → Any xs → Any (xs ++ ys)
  Any-append_left [] ys h = absurd h
  Any-append_left (x ∷ xs) ys (inl h) = inl h
  Any-append_left (x ∷ xs) ys (inr h) = inr (Any-append_left xs ys h)

  pub Any-append_right : (xs ys : List A) → Any ys → Any (xs ++ ys)
  Any-append_right [] ys h = h
  Any-append_right (x ∷ xs) ys h = inr (Any-append_right xs ys h)

  pub Any-append_cases : (xs ys : List A) → Any (xs ++ ys) → Any xs ⊎ Any ys
  Any-append_cases [] ys h = inr h
  Any-append_cases (x ∷ xs) ys (inl h) = inl (inl h)
  Any-append_cases (x ∷ xs) ys (inr h) = ground (arith, Any-append_cases xs ys h)

-- `x` is an element.
abbrev pub Elem : {A : Type 0} → A → List A → Type 0
Elem x = Any (λ y. x ≡ y)

pub All-at : {A : Type 0} (P : A → Type 0) (x : A) (xs : List A) → All P xs → Elem x xs → P x
All-at P x [] h m = absurd m
All-at P x (y ∷ xs) h (inl e) = rw e h.0
All-at P x (y ∷ xs) h (inr m) = All-at P x xs h.1 m

pub All-of_Elem :
    {A : Type 0} (P : A → Type 0) (xs : List A) → ((x : A) → Elem x xs → P x) → All P xs
All-of_Elem P [] h = tt
All-of_Elem P (x ∷ xs) h = (h x (inl refl), All-of_Elem P xs (λ y m. h y (inr m)))

pub All-mono :
    {A : Type 0} (P Q : A → Type 0) (xs : List A) → ((x : A) → P x → Q x) → All P xs → All Q xs
All-mono P Q [] f h = tt
All-mono P Q (x ∷ xs) f h = (f x h.0, All-mono P Q xs f h.1)

pub Elem-map : {A B : Type 0} (f : A → B) (x : A) (xs : List A) → Elem x xs → Elem (f x) (map f xs)
Elem-map f x [] m = absurd m
Elem-map f x (y ∷ xs) (inl e) = inl (ap f e)
Elem-map f x (y ∷ xs) (inr m) = inr (Elem-map f x xs m)

-- No element stands twice.
abbrev pub Distinct : {A : Type 0} → List A → Type 0
Distinct [] = Unit
Distinct (x ∷ xs) = (¬ Elem x xs) × Distinct xs

-- The numbers of a list without `n`.
abbrev without : ℕ → List ℕ → List ℕ
without n [] = []
without n (x ∷ xs) = if eqb x n then without n xs else x ∷ without n xs

Elem-without : (n x : ℕ) (xs : List ℕ) → Elem x (without n xs) → Elem x xs
Elem-without n x [] m = m
Elem-without n x (y ∷ xs) m = elim (Bool-cases (eqb y n)) [
  | inl same ↦ inr (Elem-without n x xs (rw same at m))
  | inr other ↦ ground (arith, rw other at m, Elem-without n x xs)
]

without-Distinct : (n : ℕ) (xs : List ℕ) → Distinct xs → Distinct (without n xs)
without-Distinct n [] d = tt
without-Distinct n (x ∷ xs) d = elim (Bool-cases (eqb x n)) [
  | inl same ↦ rw same (without-Distinct n xs d.1)
  | inr other ↦ rw other ((λ m. d.0 (Elem-without n x xs m)), without-Distinct n xs d.1)
]

without-missing : (n : ℕ) (xs : List ℕ) → ¬ Elem n xs → without n xs ≡ xs
without-missing n [] h = refl
without-missing n (x ∷ xs) h = elim (Bool-cases (eqb x n)) [
  | inl same ↦ absurd (h (inl (ground (arith, eqb_iff x n))))
  | inr other ↦ rw other (ap (λ l. x ∷ l) (without-missing n xs (λ m. h (inr m))))
]

length-without : (n : ℕ) (xs : List ℕ) → Distinct xs → length xs ≤ suc (length (without n xs))
length-without n [] d = omega arith
length-without n (x ∷ xs) d = elim (Bool-cases (eqb x n)) [
  | inl same ↦
      let e : x ≡ n = ground (arith, eqb_iff x n) in
      rw (same, without-missing n xs (λ m. d.0 (rw e m))) (omega arith)
  | inr other ↦ rw other (omega (arith, length-without n xs d.1))
]

without-below : (n : ℕ) (xs : List ℕ) → All (λ x. x < suc n) xs → All (λ x. x < n) (without n xs)
without-below n [] h = tt
without-below n (x ∷ xs) h = elim (Bool-cases (eqb x n)) [
  | inl same ↦ rw same (without-below n xs h.1)
  | inr other ↦ rw other (ground (arith, h.0, eqb_iff x n), without-below n xs h.1)
]

-- Distinct numbers below `n` are at most `n`.
pub length-Distinct : (n : ℕ) (xs : List ℕ) → Distinct xs → All (λ x. x < n) xs → length xs ≤ n
length-Distinct zero [] d h = omega arith
length-Distinct zero (x ∷ xs) d h = absurd (omega (arith, h.0))
length-Distinct (suc n) xs d h = omega (
  arith,
  length-without n xs d,
  length-Distinct n (without n xs) (without-Distinct n xs d) (without-below n xs h),
)
