-- ===== src/Rules/Combiner/Provenance.antt =====
-- What a combiner leaves behind about dependencies that failed (internal/rules/combiner.go).
use mathlib.Core.List.{append_assoc, append-nil}
use policy_decision_service.Prelude.{
  String, Bool, true, false, List, [], ◌∷◌, ◌++◌, map, Option, some, none, Option-cases, ◌≡◌, ap,
  ◌∙◌, inl, inr, Result, ok, err, arith, All, Any, if◌then◌else◌, Bool-cases,
}
use policy_decision_service.Prelude.Dict.{lookup}
use policy_decision_service.Prelude.Text.{join}
use policy_decision_service.Errors.{Error}
use policy_decision_service.Telemetry.{World, Host, poll, emit, combiner_dep_errors_total}
use policy_decision_service.Engine.Types.{EvalState, RuleResult}
use policy_decision_service.Engine.Combine.{combine}
use policy_decision_service.Engine.Combine.Precedence.{reasons_of, combine_lem}
use policy_decision_service.Engine.Rules.{Results}
use policy_decision_service.Rules.Combiner.{
  CombinerRule, Count, start, count_dep, count_deps, skipped_dep, combiner_result, finish,
}
use policy_decision_service.Rules.Combiner.Counting.{IsKnown, Hit, is_hit}
use policy_decision_service.Rules.Combiner.Meaning.{run, counted, evaluate-All, run-live}

abbrev pub has_error : Option RuleResult → Bool
has_error none = false
has_error (some r) = elim r.error [ none ↦ false | some e ↦ true ]

-- The dependencies whose results are errors, in order.
unfoldable pub failed_deps : Results → List String → List String
failed_deps prior [] = []
failed_deps prior (ref ∷ refs) =
    let rest = failed_deps prior refs in if has_error (lookup ref prior) then ref ∷ rest else rest

unfoldable pub emit_all : {X : Type 0} → String → List String → World X → World X
emit_all id [] w = w
emit_all id (ref ∷ refs) w = emit_all id refs (emit (combiner_dep_errors_total id ref) w)

count_dep-skipped :
    {X : Type 0} (id ref : String) (r : RuleResult) (c : Count) (w : World X)
    → ((count_dep id ref r c w).0.skipped
        ≡ (if has_error (some r) then c.skipped ++ skipped_dep ref ∷ [] else c.skipped))
      × ((count_dep id ref r c w).1
          ≡ (if has_error (some r) then emit (combiner_dep_errors_total id ref) w else w))
count_dep-skipped id ref r c w = ground arith

count_deps-skipped :
    {X : Type 0} (id : String) (prior : Results) (refs : List String) (c c' : Count)
    (w w' : World X)
    → count_deps id prior refs c w ≡ (ok c', w')
    → (c'.skipped ≡ c.skipped ++ map skipped_dep (failed_deps prior refs))
      × (w' ≡ emit_all id (failed_deps prior refs) w)
unfolding count_deps failed_deps emit_all
count_deps-skipped id prior [] c c' w w' h = (ground (arith, append-nil c.skipped), ground arith)
count_deps-skipped id prior (ref ∷ refs) c c' w w' h = elim (Option-cases (lookup ref prior)) [
  | inl missing ↦ cc (rw (missing, count_deps) at h)
  | inr (r, found) ↦
      let (c1, w1) = count_dep id ref r c w in
      let (s, t) = count_deps-skipped id prior refs c1 c' w1 w' (rw (found, count_deps) at h) in
      let (p, q) = count_dep-skipped id ref r c w in
      rw found (elim (Bool-cases (has_error (some r))) [
        | inl e ↦ rw e (
          s
              ∙ ap (λ l. l ++ map skipped_dep (failed_deps prior refs)) (rw e at p)
              ∙ append_assoc c.skipped (skipped_dep ref ∷ []) _,
          t ∙ ap (emit_all id (failed_deps prior refs)) (rw e at q),
        )
        | inr e ↦ rw e (
          s ∙ ap (λ l. l ++ map skipped_dep (failed_deps prior refs)) (rw e at p),
          t ∙ ap (emit_all id (failed_deps prior refs)) (rw e at q),
        )
      ])
]

combiner_result-detail :
    (r : CombinerRule) (c : Count) → (combiner_result r c).reason.detail ≡ join "; " c.skipped
unfolding combiner_result
combiner_result-detail r c = ground arith

finish-eq :
    {X : Type 0} (r : CombinerRule) (o : Result Error Count × World X) {result : RuleResult}
    {w' : World X}
    → finish r o ≡ (ok result, w')
    → (c : Count) × (o ≡ (ok c, w')) × (result ≡ combiner_result r c)
finish-eq r (ok c, w) h = (c, ground arith, ground arith)
finish-eq r (err e, w) h = cc

not-All-Hit :
    (prior : Results) (refs : List String)
    → Any (λ ref. has_error (lookup ref prior) ≡ true) refs
    → ¬ All (Hit prior) refs
not-All-Hit prior [] h a = absurd h
not-All-Hit prior (ref ∷ refs) (inl e) a = clash (lookup ref prior) e a.0
  where
    clash : (o : Option RuleResult) → has_error o ≡ true → ¬ (is_hit o ≡ true)
    clash none p q = cc
    clash (some r) p q = ground arith
not-All-Hit prior (ref ∷ refs) (inr h) a = not-All-Hit prior refs h a.1

reasons_of-unmatched :
    (xs ys : List RuleResult) (r : RuleResult)
    → r.matched ≡ false
    → reasons_of (xs ++ r ∷ ys) ≡ reasons_of (xs ++ ys)
unfolding reasons_of
reasons_of-unmatched [] ys r h = rw h
reasons_of-unmatched (x ∷ xs) ys r h = rw (reasons_of-unmatched xs ys r h)

module _ {X : Type 0} (host : Host X) (r : CombinerRule) (state : EvalState) (prior : Results)
    (w : World X) where
  -- A combiner that returns a result at a context that is not done has updated the error metric
  -- once for each failed
  -- dependency, and its reason's detail lists these in order; it did nothing else to the world.
  pub evaluate-provenance :
      {result : RuleResult} {w' : World X}
      → (poll host w).0 ≡ none
      → run host r state prior w ≡ (ok result, w')
      → (result.reason.detail ≡ join "; " (map skipped_dep (failed_deps prior r.of)))
        × (w' ≡ emit_all r.id (failed_deps prior r.of) (poll host w).1)
  evaluate-provenance live h =
      let (c, e, same) =
        finish-eq r (counted host r state prior w) (rw (run-live host r state prior w live) at h) in
      let (skipped, left) = count_deps-skipped r.id prior r.of start c (poll host w).1 _ e in
      (ap (λ x. x.reason.detail) same ∙ combiner_result-detail r c ∙ ap (join "; ") skipped, left)

  -- When some dependency of a combiner with op "all" failed, all of them have results and the
  -- context is not done, the detail about the failure never reaches a decision: wherever the
  -- combiner's result stands among the results, the decision has the reasons of the others.
  pub evaluate-All_hidden :
      {result : RuleResult}
      → (poll host w).0 ≡ none
      → r.op ≡ "all"
      → All (IsKnown prior) r.of
      → Any (λ ref. has_error (lookup ref prior) ≡ true) r.of
      → (run host r state prior w).0 ≡ ok result
      → (xs ys : List RuleResult)
      → (combine (xs ++ result ∷ ys)).reasons ≡ (combine (xs ++ ys)).reasons
  evaluate-All_hidden {result} live op known failed h xs ys =
      let (res, e, iff) = evaluate-All host r state prior w live op known in
      let missed : result.matched ≡ false = ground (arith, iff, not-All-Hit prior r.of failed) in
      rw ((combine_lem (xs ++ result ∷ ys)).1, (combine_lem (xs ++ ys)).1)
        (reasons_of-unmatched xs ys result missed)
