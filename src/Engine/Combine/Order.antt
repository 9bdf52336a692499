-- ===== src/Engine/Combine/Order.antt =====
-- How the verdict of `Combine` depends on the order and the number of the results.
use Prim.Native.Nat.{max}
use mathlib.Core.List.{Perm, Permᴰ}
use mathlib.Core.Logic.{∥∥₁_elim}
use native.Mathlib.Nat.{ℕ_set}
use policy_decision_service.Prelude.{
  ℕ, zero, suc, ◌≤◌, List, [], ◌∷◌, ◌++◌, ◌≡◌, refl, ap, ◌∙◌, sym, arith,
}
use policy_decision_service.Engine.Types.{RuleResult}
use policy_decision_service.Engine.Combine.{combine}
use policy_decision_service.Engine.Combine.Precedence.{
  severity, strictest, weight, worst, worst-le, combine_lem,
}

worst-perm : {xs ys : List RuleResult} → Permᴰ xs ys → worst xs ≡ worst ys
unfolding worst
worst-perm Permᴰ.nil = refl
worst-perm (Permᴰ.cons e p) = omega (arith, ap weight e, worst-perm p)
worst-perm (Permᴰ.swap e f) = omega (arith, ap weight e, ap weight f)
worst-perm (Permᴰ.trans p q) = worst-perm p ∙ worst-perm q

-- Two lists with the same results in another order are decided alike.
pub combine-perm :
    (xs ys : List RuleResult) → Perm xs ys → (combine xs).verdict ≡ (combine ys).verdict
combine-perm xs ys p =
    (combine_lem xs).0 ∙ ap strictest (∥∥₁_elim p (ℕ_set _ _) worst-perm) ∙ sym (combine_lem ys).0

severity-strictest : (n : ℕ) → n ≤ 2 → severity (strictest n) ≡ n
unfolding severity strictest
severity-strictest zero h = refl
severity-strictest (suc zero) h = refl
severity-strictest (suc (suc zero)) h = refl
severity-strictest (suc (suc (suc n))) h = absurd (omega arith)

worst-append : (xs ys : List RuleResult) → worst (xs ++ ys) ≡ max (worst xs) (worst ys)
unfolding worst
worst-append [] ys = omega arith
worst-append (x ∷ xs) ys = omega (arith, worst-append xs ys)

-- The severity of a decision over two groups of results is the larger of the severities over
-- each, so adding rules never makes a decision milder.
pub combine-append :
    (xs ys : List RuleResult)
    → severity (combine (xs ++ ys)).verdict
      ≡ max (severity (combine xs).verdict) (severity (combine ys).verdict)
combine-append xs ys =
    rw
      (
        (combine_lem (xs ++ ys)).0,
        (combine_lem xs).0,
        (combine_lem ys).0,
        severity-strictest (worst (xs ++ ys)) (worst-le (xs ++ ys)),
        severity-strictest (worst xs) (worst-le xs),
        severity-strictest (worst ys) (worst-le ys),
      )
      (worst-append xs ys)
