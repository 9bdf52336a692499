-- ===== src/Tests/Combining.antt =====
-- Combiners over a rule that flags and a rule that failed.
use policy_decision_service.Prelude.{
  ℕ, true, false, [], ◌∷◌, map, none, ◌≡◌, ◌↔◌, refl, All, Any, inl, inr, ok, err,
}
use policy_decision_service.Prelude.Text.{join}
use policy_decision_service.Errors.{message}
use policy_decision_service.Telemetry.{World, poll}
use policy_decision_service.Engine.Types.{RuleResult}
use policy_decision_service.Engine.Combine.{combine}
use policy_decision_service.Engine.Evaluate.{failed}
use policy_decision_service.Rules.Combiner.{
  evaluate_with_results, count_deps, combiner_result, is_matched, skipped_dep,
}
use policy_decision_service.Rules.Combiner.Counting.{IsKnown, Hit}
use policy_decision_service.Rules.Combiner.Meaning.{
  run, evaluate-All, evaluate-Any, evaluate-unknown,
}
use policy_decision_service.Rules.Combiner.Provenance.{
  failed_deps, emit_all, evaluate-provenance, evaluate-All_hidden,
}
use policy_decision_service.Tests.Data.{
  host, world, state, prior, matching, broken, any_combiner, all_combiner,
}

known : All (IsKnown prior) all_combiner.of
known = ((matching "a" "flag", refl), ((failed "b" broken, refl), tt))

evaluate-All_example :
    (result : RuleResult) × ((run host all_combiner state prior world).0 ≡ ok result)
    × ((result.matched ≡ true) ↔ All (Hit prior) all_combiner.of)
evaluate-All_example = evaluate-All host all_combiner state prior world refl refl known

evaluate-Any_example :
    (result : RuleResult) × ((run host any_combiner state prior world).0 ≡ ok result)
    × ((result.matched ≡ true) ↔ Any (Hit prior) any_combiner.of)
evaluate-Any_example = evaluate-Any host any_combiner state prior world refl refl known

evaluate-unknown_example :
    (run host any_combiner state [] world).0
    ≡ err (message "combiner dependency has not been evaluated")
evaluate-unknown_example = evaluate-unknown host any_combiner state [] world refl (inl refl)

abbrev matched_any : RuleResult
matched_any = record {
  rule_id = "c";
  matched = true;
  verdict = "block";
  reason = record { code = "combined"; rule = "c"; detail = skipped_dep "b" };
  error = none;
}

abbrev after_any : World ℕ
after_any = emit_all "c" ("b" ∷ []) world

ran_any : run host any_combiner state prior world ≡ (ok matched_any, after_any)
unfolding evaluate_with_results count_deps combiner_result is_matched join emit_all
ran_any = refl

evaluate-provenance_example :
    (matched_any.reason.detail ≡ join "; " (map skipped_dep (failed_deps prior any_combiner.of)))
    × (after_any ≡ emit_all "c" (failed_deps prior any_combiner.of) (poll host world).1)
evaluate-provenance_example = evaluate-provenance host any_combiner state prior world refl ran_any

abbrev missed_all : RuleResult
missed_all = record {
  rule_id = "c";
  matched = false;
  verdict = "allow";
  reason = record { code = ""; rule = "c"; detail = skipped_dep "b" };
  error = none;
}

ran_all : (run host all_combiner state prior world).0 ≡ ok missed_all
unfolding evaluate_with_results count_deps combiner_result is_matched join
ran_all = refl

evaluate-All_hidden_example :
    (combine (matching "a" "flag" ∷ missed_all ∷ [])).reasons
    ≡ (combine (matching "a" "flag" ∷ [])).reasons
evaluate-All_hidden_example =
    evaluate-All_hidden host all_combiner state prior world refl refl known (inr (inl refl)) ran_all
      (matching "a" "flag" ∷ []) []
