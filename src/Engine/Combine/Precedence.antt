-- ===== src/Engine/Combine/Precedence.antt =====
-- The specification of `Combine` of internal/engine/combine.go.
use Prim.Native.Nat.{max}
use mathlib.Core.List.{append_assoc, append-nil}
use policy_decision_service.Prelude.{
  ℕ, zero, suc, ◌≤◌, ◌-◌, String, List, [], ◌∷◌, ◌++◌, map, ◌≡◌, ◌==◌, eq_iff, arith, if◌then◌else◌,
}
use policy_decision_service.Prelude.{inl, inr, true, Any, ◌⊎◌, ◌↔◌, refl, ap}
use policy_decision_service.Engine.Types.{
  Verdict, verdict_allow, verdict_flag, verdict_block, Reason, RuleResult,
}
use policy_decision_service.Engine.Combine.{Tally, raise, tally, tally_all, combine}

-- How strict a verdict is; a text that is no verdict counts as allow.
unfoldable pub severity : Verdict → ℕ
severity v = if v == verdict_block then 2 else if v == verdict_flag then 1 else 0

unfoldable pub strictest : ℕ → Verdict
strictest zero = verdict_allow
strictest (suc zero) = verdict_flag
strictest (suc (suc n)) = verdict_block

-- The severity that one result contributes.
unfoldable pub weight : RuleResult → ℕ
unfolding severity
weight r = if r.matched then severity r.verdict else 0

unfoldable pub worst : List RuleResult → ℕ
unfolding weight
worst [] = 0
worst (r ∷ rs) = max (weight r) (worst rs)

abbrev keep_reason : Reason → List Reason → List Reason
keep_reason r rest = if r.code == "" then rest else r ∷ rest

unfoldable pub reasons_of : List RuleResult → List Reason
reasons_of [] = []
reasons_of (r ∷ rs) =
    let rest = reasons_of rs in if r.matched then keep_reason r.reason rest else rest

max-two : (n m : ℕ) → strictest (max (suc (suc n)) m) ≡ verdict_block
unfolding strictest
max-two n m =
    let e : max (suc (suc n)) m ≡ suc (suc (max (suc (suc n)) m - 2)) = omega arith in rw e

raise-strictest : (n : ℕ) (v : Verdict) → raise (strictest n) v ≡ strictest (max n (severity v))
unfolding raise severity strictest
raise-strictest zero v = ground (arith, eq_iff v "block", eq_iff v "flag")
raise-strictest (suc zero) v = ground (arith, eq_iff v "block", eq_iff v "flag")
raise-strictest (suc (suc n)) v =
    ground (arith, eq_iff v "block", eq_iff v "flag", max-two n (severity v))

abbrev at : ℕ → List Reason → List String → Tally
at n reasons ids = record { verdict = strictest n; reasons = reasons; evaluated = ids }

max_assoc : (a b c : ℕ) → max (max a b) c ≡ max a (max b c)
max_assoc a b c = omega arith

severity-le : (v : Verdict) → severity v ≤ 2
unfolding severity
severity-le v = ground arith

pub worst-le : (rs : List RuleResult) → worst rs ≤ 2
unfolding worst
worst-le [] = omega arith
worst-le (r ∷ rs) = ground (arith, severity-le r.verdict, worst-le rs)

tally-at :
    (n : ℕ) (reasons : List Reason) (ids : List String) (r : RuleResult)
    → tally (at n reasons ids) r
      ≡ at (max n (weight r)) (reasons ++ reasons_of (r ∷ [])) (ids ++ r.rule_id ∷ [])
unfolding tally weight reasons_of
tally-at n reasons ids r = ground (arith, raise-strictest n r.verdict, append-nil reasons)

reasons_of-cons :
    (r : RuleResult) (rs : List RuleResult)
    → reasons_of (r ∷ []) ++ reasons_of rs ≡ reasons_of (r ∷ rs)
unfolding reasons_of
reasons_of-cons r rs = ground arith

tally_all-at :
    (n : ℕ) (reasons : List Reason) (ids : List String) (rs : List RuleResult)
    → tally_all (at n reasons ids) rs
      ≡ at (max n (worst rs)) (reasons ++ reasons_of rs) (ids ++ map (λ r. r.rule_id) rs)
unfolding tally_all worst
tally_all-at n reasons ids [] =
    unfold reasons_of in ground (arith, append-nil reasons, append-nil ids)
tally_all-at n reasons ids (r ∷ rs) = rw (
  tally-at n reasons ids r,
  tally_all-at (max n (weight r)) (reasons ++ reasons_of (r ∷ [])) (ids ++ r.rule_id ∷ []) rs,
  append_assoc reasons,
  append_assoc ids,
  reasons_of-cons r rs,
  max_assoc n (weight r) (worst rs),
)

-- `Combine` returns the strictest verdict among the matched results, the reasons of the matched
-- results that have a code, and the id of every result, the last two in the order of the results.
pub combine_lem :
    (rs : List RuleResult)
    → ((combine rs).verdict ≡ strictest (worst rs))
      × ((combine rs).reasons ≡ reasons_of rs)
      × ((combine rs).evaluated_rules ≡ map (λ r. r.rule_id) rs)
unfolding combine strictest
combine_lem rs = rw (tally_all-at 0 [] [] rs) (ap strictest (omega arith), refl, refl)

abbrev pub Raises : Verdict → RuleResult → Type 0
Raises v r = (r.matched ≡ true) × (r.verdict ≡ v)

worst-eq-two_iff : (rs : List RuleResult) → (worst rs ≡ 2) ↔ Any (Raises verdict_block) rs
unfolding worst severity
worst-eq-two_iff [] = ground arith
worst-eq-two_iff (r ∷ rs) =
    ground
      (arith, worst-eq-two_iff rs, worst-le rs, eq_iff r.verdict "block", eq_iff r.verdict "flag")

worst-pos_iff :
    (rs : List RuleResult)
    → (1 ≤ worst rs) ↔ (Any (Raises verdict_block) rs ⊎ Any (Raises verdict_flag) rs)
unfolding worst severity
worst-pos_iff [] = ground arith
worst-pos_iff (r ∷ rs) =
    ground (arith, worst-pos_iff rs, worst-le rs, eq_iff r.verdict "block", eq_iff r.verdict "flag")

-- One of the three verdicts.
abbrev pub IsVerdict : Verdict → Type 0
IsVerdict v = (v ≡ verdict_allow) ⊎ ((v ≡ verdict_flag) ⊎ (v ≡ verdict_block))

pub strictest-IsVerdict : (n : ℕ) → IsVerdict (strictest n)
unfolding strictest
strictest-IsVerdict zero = inl refl
strictest-IsVerdict (suc zero) = inr (inl refl)
strictest-IsVerdict (suc (suc n)) = inr (inr refl)

strictest_cases :
    (n : ℕ)
    → n ≤ 2
    → ((strictest n ≡ verdict_block) ↔ (n ≡ 2))
      × ((strictest n ≡ verdict_flag) ↔ (n ≡ 1))
      × ((strictest n ≡ verdict_allow) ↔ (n ≡ 0))
unfolding strictest
strictest_cases zero h = ground (arith, eq_iff "allow" "block", eq_iff "allow" "flag")
strictest_cases (suc zero) h = ground (arith, eq_iff "flag" "block", eq_iff "flag" "allow")
strictest_cases (suc (suc zero)) h = ground (arith, eq_iff "block" "flag", eq_iff "block" "allow")
strictest_cases (suc (suc (suc n))) h = absurd (omega arith)

-- The decision blocks exactly when some matched result blocks, flags exactly when none blocks and
-- some matched result flags, and allows in every other case.
pub combine_precedence :
    (rs : List RuleResult)
    → ((combine rs).verdict ≡ verdict_block ↔ Any (Raises verdict_block) rs)
      × ((combine rs).verdict ≡ verdict_flag
          ↔ ((¬ Any (Raises verdict_block) rs) × Any (Raises verdict_flag) rs))
      × ((combine rs).verdict ≡ verdict_allow
          ↔ ((¬ Any (Raises verdict_block) rs) × (¬ Any (Raises verdict_flag) rs)))
combine_precedence rs = rw ((combine_lem rs).0) (
    ground (
      arith,
      strictest_cases (worst rs) (worst-le rs),
      worst-eq-two_iff rs,
      worst-pos_iff rs,
      worst-le rs,
    ))
