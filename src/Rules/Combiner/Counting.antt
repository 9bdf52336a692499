-- ===== src/Rules/Combiner/Counting.antt =====
-- The loop over the dependencies of `EvaluateWithResults` (internal/rules/combiner.go).
use policy_decision_service.Prelude.{
  if◌then◌else◌, Bool, false, ◌+◌, ◌≤◌, ◌<◌, String, true, List, [], ◌∷◌, Option, some, none,
  Option-cases, ◌≡◌, refl, ◌↔◌, inl, inr, ok, err, arith, length, All, Any,
}
use policy_decision_service.Prelude.Dict.{lookup}
use policy_decision_service.Errors.{Error, message}
use policy_decision_service.Telemetry.{World}
use policy_decision_service.Engine.Types.{RuleResult}
use policy_decision_service.Engine.Rules.{Results}
use policy_decision_service.Rules.Combiner.{Count, count_dep, count_deps}

-- A result that matched and is no error.
abbrev pub is_clean : Option Error → Bool → Bool
is_clean none matched = matched
is_clean (some e) matched = false

abbrev pub is_hit : Option RuleResult → Bool
is_hit none = false
is_hit (some r) = is_clean r.error r.matched

module _ (prior : Results) where
  -- The dependency has a result.
  abbrev pub IsKnown : String → Type 0
  IsKnown ref = (r : RuleResult) × (lookup ref prior ≡ some r)

  -- The dependency matched, and did not fail.
  abbrev pub Hit : String → Type 0
  Hit ref = is_hit (lookup ref prior) ≡ true

  module _ {X : Type 0} (id : String) where
    -- A dependency without a result ends the loop with an error.
    pub count_deps-unknown :
        (refs : List String) (c : Count) (w : World X)
        → Any (λ ref. lookup ref prior ≡ none) refs
        → (count_deps id prior refs c w).0
          ≡ err (message "combiner dependency has not been evaluated")
    unfolding count_deps
    count_deps-unknown [] c w h = absurd h
    count_deps-unknown (ref ∷ refs) c w h = elim (Option-cases (lookup ref prior)) [
      | inl missing ↦ rw (missing, count_deps)
      | inr (r, found) ↦
          let later : Any (λ ref. lookup ref prior ≡ none) refs = later_of found h in
          let (c', w') = count_dep id ref r c w in
          rw (found, count_deps) (count_deps-unknown refs c' w' later)
    ]
      where
        later_of :
            {r : RuleResult}
            → lookup ref prior ≡ some r
            → Any (λ ref. lookup ref prior ≡ none) (ref ∷ refs)
            → Any (λ ref. lookup ref prior ≡ none) refs
        later_of found (inl missing) = cc
        later_of found (inr later) = later

    count_dep-matched :
        (ref : String) (r : RuleResult) (c : Count) (w : World X)
        → (count_dep id ref r c w).0.matched
          ≡ (if is_clean r.error r.matched then c.matched + 1 else c.matched)
    count_dep-matched ref r c w = ground arith

    pub count_deps-known :
        (refs : List String) (c : Count) (w : World X)
        → All IsKnown refs
        → (c' : Count) × ((count_deps id prior refs c w).0 ≡ ok c')
          × (c.matched ≤ c'.matched)
          × (c'.matched ≤ c.matched + length refs)
          × ((c'.matched ≡ c.matched + length refs) ↔ All Hit refs)
          × ((c.matched < c'.matched) ↔ Any Hit refs)
    unfolding count_deps
    count_deps-known [] c w h = (c, refl, omega arith, omega arith, ground arith, ground arith)
    count_deps-known (ref ∷ refs) c w ((r, found), h) =
        let (c1, w1) = count_dep id ref r c w in
        let (c', e, lo, hi, all, any) = count_deps-known refs c1 w1 h in
        let step = count_dep-matched ref r c w in
        (
          c',
          rw (found, count_deps) e,
          ground (arith, step),
          ground (arith, step),
          rw (found, is_hit) (ground (arith, step)),
          rw (found, is_hit) (ground (arith, step)),
        )
