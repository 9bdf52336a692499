-- ===== src/Tests/Decisions.antt =====
-- Decisions of an engine with a rule that flags, a rule that fails and a combiner of both.
use policy_decision_service.Prelude.{
  ℕ, List, [], ◌∷◌, none, some, ◌≡◌, ◌↔◌, refl, Any, ok, err, if◌then◌else◌,
}
use policy_decision_service.Prelude.Text.{join}
use policy_decision_service.Errors.{canceled}
use policy_decision_service.Telemetry.{World, poll, read_clock}
use policy_decision_service.Engine.Types.{DecideResponse, EvalState, RuleResult}
use policy_decision_service.Engine.Combine.{combine, tally_all, tally, raise}
use policy_decision_service.Engine.Evaluate.{
  evaluate, evaluate_live, evaluate_rules, evaluate_rule, call, prepare, conclude, enqueue_audit,
  with_audit_sink, failed,
}
use policy_decision_service.Engine.Evaluate.Loop.{Run}
use policy_decision_service.Engine.Evaluate.FailOpen.{evaluate_total, evaluate-err}
use policy_decision_service.Engine.Evaluate.Response.{Answers, evaluate_lem}
use policy_decision_service.Engine.Evaluate.Audit.{
  deliver, is_degraded, evaluate-with_audit_sink, evaluate-metadata,
}
use policy_decision_service.Engine.Combine.Precedence.{
  combine_lem, combine_precedence, strictest, worst, reasons_of, Raises,
}
use policy_decision_service.Engine.Types.{verdict_block, verdict_flag, verdict_allow}
use policy_decision_service.Rules.Combiner.{
  combiner_rule, evaluate_with_results, count_deps, combiner_result, is_matched, skipped_dep,
}
use policy_decision_service.Tests.Data.{
  host, canceled_host, world, request, state, engine, broken_rule, broken, counting_sink, matching,
  degraded_provider,
}

abbrev answer : DecideResponse
answer = record {
  decision_id = "id";
  verdict = "block";
  score = 0;
  reasons =
      record { code = "code"; rule = "a"; detail = "" }
      ∷ record { code = "combined"; rule = "c"; detail = skipped_dep "b" }
      ∷ [];
  evaluated_rules = "a" ∷ "b" ∷ "c" ∷ [];
  rules_version = "v1";
  latency_ms = 4;
  metadata = some ("feature_provider_unavailable" ∷ []);
}

answered : (evaluate host engine request world).0 ≡ ok answer
unfolding evaluate evaluate_live prepare evaluate_rules evaluate_rule call conclude enqueue_audit
    combiner_rule evaluate_with_results count_deps combiner_result is_matched join combine tally_all
    tally raise
answered = refl

combine_lem_example :
    ((combine (matching "a" "flag" ∷ failed "b" broken ∷ [])).verdict
      ≡ strictest (worst (matching "a" "flag" ∷ failed "b" broken ∷ [])))
    × ((combine (matching "a" "flag" ∷ failed "b" broken ∷ [])).reasons
        ≡ reasons_of (matching "a" "flag" ∷ failed "b" broken ∷ []))
    × ((combine (matching "a" "flag" ∷ failed "b" broken ∷ [])).evaluated_rules ≡ "a" ∷ "b" ∷ [])
combine_lem_example = combine_lem (matching "a" "flag" ∷ failed "b" broken ∷ [])

abbrev two : List RuleResult
two = matching "a" "flag" ∷ matching "d" "block" ∷ []

combine_precedence_example :
    ((combine two).verdict ≡ verdict_block ↔ Any (Raises verdict_block) two)
    × ((combine two).verdict ≡ verdict_flag
        ↔ ((¬ Any (Raises verdict_block) two) × Any (Raises verdict_flag) two))
    × ((combine two).verdict ≡ verdict_allow
        ↔ ((¬ Any (Raises verdict_block) two) × (¬ Any (Raises verdict_flag) two)))
combine_precedence_example = combine_precedence two

never_done : (x : ℕ) → (host.ctx_err x).0 ≡ none
never_done x = refl

evaluate_total_example :
    (resp : DecideResponse) × ((evaluate host engine request world).0 ≡ ok resp)
evaluate_total_example = evaluate_total host never_done engine request world

refused : (evaluate canceled_host engine request world).0 ≡ err canceled
unfolding evaluate
refused = refl

evaluate-err_example : (x : ℕ) × ((canceled_host.ctx_err x).0 ≡ some canceled)
evaluate-err_example = evaluate-err canceled_host engine request world canceled refused

called : call broken_rule.body state [] world ≡ (err broken, world)
unfolding call
called = refl

evaluate_lem_example :
    (state : EvalState) × (w1 w2 : World ℕ) × (rs : List RuleResult) × Run host state engine.rules
      [] w1 rs w2
    × Answers host engine answer rs
evaluate_lem_example = evaluate_lem host engine request world answer answered

evaluate-with_audit_sink_example :
    evaluate host (with_audit_sink engine counting_sink) request world
    ≡ deliver host counting_sink request 7 (evaluate host engine request world)
evaluate-with_audit_sink_example =
    evaluate-with_audit_sink host engine counting_sink request world refl

evaluate-metadata_example : answer.metadata ≡ (
    if is_degraded host (some degraded_provider) request (poll host (read_clock host world).1).1
    then some ("feature_provider_unavailable" ∷ [])
    else none)
evaluate-metadata_example = evaluate-metadata host engine request world answer answered
