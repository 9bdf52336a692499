-- ===== src/Rules/Combiner/Meaning.antt =====
-- When a combiner matches, and what it does about dependencies without a result.
use policy_decision_service.Prelude.{
  true, some, none, Option-cases, ◌≡◌, ◌↔◌, inl, inr, Result, ok, err, arith, All, Any, eq_iff,
}
use policy_decision_service.Prelude.Dict.{lookup}
use policy_decision_service.Errors.{Error, message}
use policy_decision_service.Telemetry.{World, Host, poll}
use policy_decision_service.Engine.Types.{EvalState, RuleResult}
use policy_decision_service.Engine.Rules.{Results, Outcome}
use policy_decision_service.Engine.Evaluate.{call}
use policy_decision_service.Engine.Evaluate.Response.{IsHonest}
use policy_decision_service.Rules.Combiner.{
  CombinerRule, Count, start, is_matched, combiner_result, count_deps, finish,
  evaluate_with_results, combiner_rule,
}
use policy_decision_service.Rules.Combiner.Counting.{
  IsKnown, Hit, count_deps-unknown, count_deps-known,
}

-- What a combiner reports when its count is `c`: its own id, no error, and if it matched its
-- verdict and code.
pub record Reports (r : CombinerRule) (c : Count) (result : RuleResult) : Type 0 where
  pub id : result.rule_id ≡ r.id
  pub clean : result.error ≡ none
  pub matched : result.matched ≡ is_matched r c.matched
  pub verdict : result.matched ≡ true → result.verdict ≡ r.on_match.verdict
  pub code : result.matched ≡ true → result.reason.code ≡ r.on_match.code

pub combiner_result-Reports : (r : CombinerRule) (c : Count) → Reports r c (combiner_result r c)
unfolding combiner_result
combiner_result-Reports r c = ground arith

module _ {X : Type 0} (host : Host X) (r : CombinerRule) (state : EvalState) (prior : Results)
    (w : World X) where
  -- The combiner evaluated at `w`, on the earlier results.
  abbrev pub run : Outcome X
  run = evaluate_with_results host r state (some prior) w

  abbrev pub counted : Result Error Count × World X
  counted = count_deps r.id prior r.of start (poll host w).1

  pub run-live : (poll host w).0 ≡ none → run ≡ finish r counted
  unfolding evaluate_with_results
  run-live live = rw (live, evaluate_with_results)

  pub finish-known :
      (c : Count) → (poll host w).0 ≡ none → counted.0 ≡ ok c → run.0 ≡ ok (combiner_result r c)
  finish-known c live e = rw (run-live live, e)

  -- While the context is not done, a combiner with op "all" whose dependencies all have results
  -- returns a result, which matches exactly when every dependency matched without an error.
  pub evaluate-All :
      (poll host w).0 ≡ none
      → r.op ≡ "all"
      → All (IsKnown prior) r.of
      → (result : RuleResult) × (run.0 ≡ ok result)
        × ((result.matched ≡ true) ↔ All (Hit prior) r.of)
  unfolding is_matched
  evaluate-All live op known =
      let (c, e, lo, hi, all, any) = count_deps-known prior r.id r.of start (poll host w).1 known in
      let reports = combiner_result-Reports r c in
      (
        combiner_result r c,
        finish-known c live e,
        ground (arith, reports, eq_iff r.op "any", eq_iff "all" "any", all),
      )

  -- While the context is not done, a combiner with op "any" whose dependencies all have results
  -- returns a result, which matches exactly when some dependency matched without an error.
  pub evaluate-Any :
      (poll host w).0 ≡ none
      → r.op ≡ "any"
      → All (IsKnown prior) r.of
      → (result : RuleResult) × (run.0 ≡ ok result)
        × ((result.matched ≡ true) ↔ Any (Hit prior) r.of)
  unfolding is_matched
  evaluate-Any live op known =
      let (c, e, lo, hi, all, any) = count_deps-known prior r.id r.of start (poll host w).1 known in
      let reports = combiner_result-Reports r c in
      (combiner_result r c, finish-known c live e, ground (arith, reports, eq_iff r.op "any", any))

  -- While the context is not done, a combiner one of whose dependencies has no result returns the
  -- error that a dependency has not been evaluated.
  pub evaluate-unknown :
      (poll host w).0 ≡ none
      → Any (λ ref. lookup ref prior ≡ none) r.of
      → run.0 ≡ err (message "combiner dependency has not been evaluated")
  evaluate-unknown live missing =
      rw (run-live live, count_deps-unknown prior r.id r.of start (poll host w).1 missing)

finish-id :
    {X : Type 0} (r : CombinerRule) (o : Result Error Count × World X) (result : RuleResult)
    → (finish r o).0 ≡ ok result
    → result.rule_id ≡ r.id
finish-id r (ok c, w) result h = ground (arith, combiner_result-Reports r c)
finish-id r (err e, w) result h = cc

-- A combiner reports under its own id.
pub combiner_rule-IsHonest :
    {X : Type 0} (host : Host X) (r : CombinerRule) → IsHonest (combiner_rule host r)
unfolding combiner_rule call
combiner_rule-IsHonest host r state by_id w result h = elim (Option-cases (poll host w).0) [
  | inr (e, done) ↦ unfold evaluate_with_results in cc (rw (done, evaluate_with_results) at h)
  | inl live ↦
      finish-id r (counted host r state by_id w) result
        (rw (run-live host r state by_id w live) at h)
]
