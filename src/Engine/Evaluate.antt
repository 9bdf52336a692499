-- ===== src/Engine/Evaluate.antt =====
-- internal/engine/engine.go: `RuleEngine` and `AllowEngine`.
pub mod Feeding
pub mod Loop
pub mod FailOpen
pub mod Response
pub mod Audit
use policy_decision_service.Prelude.{
  ℕ, ◌-◌, ◌/◌, String, Bool, false, List, [], ◌∷◌, ◌++◌, Option, none, some, ◌==◌, Result, ok, err,
  if◌then◌else◌,
}
use policy_decision_service.Prelude.Int.{pos}
use policy_decision_service.Errors.{Error}
use policy_decision_service.Telemetry.{
  decisions_total, decision_latency, rule_evaluations_total, rule_eval_errors_total, World, emit,
  Host, poll, read_clock, draw_uuid,
}
use policy_decision_service.Engine.Types.{
  verdict_allow, DecideRequest, DecideResponse, EvalState, ActorFeatures, AuditRecord, Reason,
  RuleResult,
}
use policy_decision_service.Engine.Combine.{combine}
use policy_decision_service.Engine.Rules.{
  Results, Outcome, Rule, Body, plain, result_aware, FeatureProvider, AuditSink,
}

pub record RuleEngine (X : Type 0) : Type 0 where
  pub rules_version : String
  pub rules : List (Rule X)
  pub audit : Option (AuditSink X)
  pub feature_provider : Option (FeatureProvider X)

abbrev pub or_bootstrap : String → String
or_bootstrap version = if version == "" then "bootstrap" else version

-- The zero values of `Reason` and `ActorFeatures`.
abbrev pub no_reason : Reason
no_reason = record { code = ""; rule = ""; detail = "" }

abbrev pub no_features : ActorFeatures
no_features = record {
  actor_id = "";
  publishes_5m = pos 0;
  publishes_1h = pos 0;
  publishes_24h = pos 0;
  blocks_24h = pos 0;
  flags_7d = pos 0;
  comment_burst_1m = pos 0;
  as_of = "";
  from_cache = false;
}

-- time.Duration.Milliseconds and Microseconds of nanoseconds
abbrev milliseconds : ℕ → ℕ
milliseconds ns = ns / 1000000

abbrev microseconds : ℕ → ℕ
microseconds ns = ns / 1000

-- The result that stands for an error.
abbrev pub failed : String → Error → RuleResult
failed id e = record {
  rule_id = id;
  matched = false;
  verdict = verdict_allow;
  reason = no_reason;
  error = some e;
}

module _ {X : Type 0} where
  unfoldable pub new_rule_engine : String → List (Rule X) → RuleEngine X
  new_rule_engine version rules = record {
    rules_version = or_bootstrap version;
    rules = rules;
    audit = none;
    feature_provider = none;
  }

  unfoldable pub with_audit_sink : RuleEngine X → AuditSink X → RuleEngine X
  with_audit_sink e sink = record e { audit = some sink }

  unfoldable pub with_feature_provider : RuleEngine X → FeatureProvider X → RuleEngine X
  with_feature_provider e provider = record e { feature_provider = some provider }

  -- The call of one rule: a `ResultAwareRule` is also given the earlier results.
  unfoldable pub call : Body X → EvalState → Results → World X → Outcome X
  call (plain evaluate) state by_id w = evaluate state w
  call (result_aware _ evaluate) state by_id w = evaluate state by_id w

  -- The handling of `err`.
  abbrev pub settle : String → Result Error RuleResult → World X → RuleResult × World X
  settle id (ok result) w = (result, w)
  settle id (err e) w = (failed id e, emit (rule_eval_errors_total id) w)

  -- One rule, with its two metrics.
  unfoldable pub evaluate_rule : Rule X → EvalState → Results → World X → RuleResult × World X
  unfolding call
  evaluate_rule rule state by_id w =
      let (outcome, w1) = call rule.body state by_id w in
      let (result, w2) = settle rule.id outcome w1 in
      (result, emit (rule_evaluations_total rule.id result.matched) w2)

  module _ (host : Host X) where
    -- The loop over the rules; `ctx.Done()` is polled before each.
    unfoldable pub evaluate_rules :
        EvalState
        → List (Rule X)
        → List RuleResult
        → Results
        → World X
        → Result Error (List RuleResult) × World X
    evaluate_rules state [] results by_id w = (ok results, w)
    evaluate_rules state (rule ∷ rules) results by_id w =
        let (done, w1) = poll host w in
        let (result, w2) = evaluate_rule rule state by_id w1 in
        let rest =
          evaluate_rules state rules (results ++ result ∷ []) ((rule.id, result) ∷ by_id) w2 in
        elim done [ some e ↦ (err e, w1) | none ↦ rest ]

-- The state that the rules see. A degraded lookup leaves a warning.
abbrev pub start_state : DecideRequest → EvalState
start_state req = record {
  request = req;
  features = no_features;
  feature_degraded = false;
  degraded_warnings = [];
}

abbrev pub with_features : EvalState → ActorFeatures × Bool → EvalState
with_features state (features, degraded) = record state {
  features = features;
  feature_degraded = degraded;
  degraded_warnings =
      if degraded
      then state.degraded_warnings ++ "feature_provider_unavailable" ∷ []
      else state.degraded_warnings;
}

abbrev pub warnings_metadata : List String → Option (List String)
warnings_metadata [] = none
warnings_metadata (x ∷ xs) = some (x ∷ xs)

-- The response: what `Combine` returns, with the fields that `Evaluate` sets.
abbrev pub respond : String → EvalState → List RuleResult → String → ℕ → DecideResponse
respond version state results id latency = record (combine results) {
  decision_id = id;
  rules_version = version;
  latency_ms = latency;
  metadata = warnings_metadata state.degraded_warnings;
}

-- The record that goes to the audit sink.
abbrev pub audit_record : DecideRequest → DecideResponse → ℕ → AuditRecord
audit_record req response latency = record {
  decision_id = response.decision_id;
  actor_id = req.actor_id;
  action_type = req.action.type;
  platform = req.action.platform;
  verdict = response.verdict;
  score = response.score;
  reasons = response.reasons;
  evaluated_rules = response.evaluated_rules;
  request = req;
  latency_us = latency;
  rules_version = response.rules_version;
  client = req.client_id;
}

module _ {X : Type 0} where
  unfoldable pub prepare :
      Option (FeatureProvider X) → DecideRequest → World X → EvalState × World X
  prepare none req w = (start_state req, w)
  prepare (some provider) req w =
      let (found, w1) = provider req.actor_id w in (with_features (start_state req) found, w1)

  module _ (host : Host X) where
    unfoldable pub enqueue_audit :
        Option (AuditSink X) → DecideRequest → DecideResponse → ℕ → World X → World X
    enqueue_audit none req response started w = w
    enqueue_audit (some sink) req response started w =
        let (t, w1) = read_clock host w in
        sink (audit_record req response (microseconds (t - started))) w1

    -- What follows the loop of `Evaluate`.
    unfoldable pub conclude :
        RuleEngine X
        → DecideRequest
        → EvalState
        → ℕ
        → Result Error (List RuleResult)
        → World X
        → Result Error DecideResponse × World X
    conclude e req state started (err error) w = (err error, w)
    conclude e req state started (ok results) w =
        let (t1, w1) = read_clock host w in
        let w2 = emit (decision_latency req.action.type (t1 - started)) w1 in
        let verdict = (combine results).verdict in
        let w3 = emit (decisions_total verdict req.action.type req.client_id) w2 in
        let (id, w4) = draw_uuid host w3 in
        let (t2, w5) = read_clock host w4 in
        let latency = milliseconds (t2 - started) in
        let response = respond e.rules_version state results id latency in
        (ok response, enqueue_audit e.audit req response started w5)

    -- `Evaluate` of a context that is not done at the start.
    unfoldable pub evaluate_live :
        RuleEngine X → DecideRequest → ℕ → World X → Result Error DecideResponse × World X
    evaluate_live e req started w =
        let (state, w1) = prepare e.feature_provider req w in
        let (results, w2) = evaluate_rules host state e.rules [] [] w1 in
        conclude e req state started results w2

    -- `RuleEngine.Evaluate`
    unfoldable pub evaluate :
        RuleEngine X → DecideRequest → World X → Result Error DecideResponse × World X
    evaluate e req w =
        let (started, w1) = read_clock host w in
        let (done, w2) = poll host w1 in
        elim done [ some error ↦ (err error, w2) | none ↦ evaluate_live e req started w2 ]

    -- `AllowEngine`, the engine of a router that is given none. Its state is the version.
    unfoldable pub allow_engine_evaluate :
        String → DecideRequest → World X → Result Error DecideResponse × World X
    allow_engine_evaluate version req w =
        let (started, w1) = read_clock host w in
        let (done, w2) = poll host w1 in
        elim done [
          | some error ↦ (err error, w2)
          | none ↦
              let (id, w3) = draw_uuid host w2 in
              let (t1, w4) = read_clock host w3 in
              let (t2, w5) = read_clock host w4 in
              let response : DecideResponse = record {
                decision_id = id;
                verdict = verdict_allow;
                score = 0;
                reasons = [];
                evaluated_rules = [];
                rules_version = version;
                latency_ms = milliseconds (t1 - started);
                metadata = none;
              } in
              let w6 = emit (decision_latency req.action.type (t2 - started)) w5 in
              (ok response, emit (decisions_total verdict_allow req.action.type req.client_id) w6)
        ]

unfoldable pub new_allow_engine : String → String
new_allow_engine version = or_bootstrap version
