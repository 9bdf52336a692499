-- ===== src/Engine/Evaluate/Response.antt =====
-- The fields of a response of `RuleEngine.Evaluate`, from the rules that ran.
use policy_decision_service.Prelude.{
  ℕ, String, List, [], map, ◌≡◌, refl, ◌∙◌, Option-cases, Result, ok, err, arith, inl, inr, All,
}
use policy_decision_service.Errors.{Error}
use policy_decision_service.Telemetry.{World, Host, poll, read_clock}
use policy_decision_service.Engine.Types.{DecideRequest, DecideResponse, EvalState, RuleResult}
use policy_decision_service.Engine.Rules.{Results, Rule, Outcome}
use policy_decision_service.Engine.Combine.Precedence.{worst, reasons_of, combine_lem, strictest}
use policy_decision_service.Engine.Evaluate.{
  RuleEngine, call, settle, evaluate_rule, evaluate_rules, prepare, conclude, evaluate_live,
  evaluate,
}
use policy_decision_service.Engine.Evaluate.Loop.{Run, finished, ran, Run-of-evaluate_rules}

module _ {X : Type 0} where
  -- The rule puts its own id into its results.
  abbrev pub IsHonest : Rule X → Type 0
  IsHonest rule =
      (state : EvalState) (by_id : Results) (w : World X) (result : RuleResult)
      → (call rule.body state by_id w).0 ≡ ok result
      → result.rule_id ≡ rule.id

  settle-id :
      (id : String) (outcome : Outcome X)
      → ((result : RuleResult) → outcome.0 ≡ ok result → result.rule_id ≡ id)
      → (settle id outcome.0 outcome.1).0.rule_id ≡ id
  settle-id id (ok result, w) h = h result refl
  settle-id id (err e, w) h = refl

  pub evaluate_rule-id :
      (rule : Rule X) (state : EvalState) (by_id : Results) (w : World X)
      → IsHonest rule
      → (evaluate_rule rule state by_id w).0.rule_id ≡ rule.id
  unfolding evaluate_rule
  evaluate_rule-id rule state by_id w h =
      settle-id rule.id (call rule.body state by_id w) (h state by_id w)

  Run-ids :
      (host : Host X) (state : EvalState) {rules : List (Rule X)} {by_id : Results} {w w' : World X}
      {rs : List RuleResult}
      → Run host state rules by_id w rs w'
      → All IsHonest rules
      → map (λ r. r.rule_id) rs ≡ map (λ rule. rule.id) rules
  Run-ids host state finished h = refl
  Run-ids host state (ran {rule} {by_id} {w} live e run) h =
      rw (e, evaluate_rule-id rule state by_id (poll host w).1 h.0, Run-ids host state run h.1)

module _ {X : Type 0} (host : Host X) where
  -- What a response is, made from the results `rs`.
  pub record Answers (e : RuleEngine X) (resp : DecideResponse) (rs : List RuleResult)
      : Type 0 where
    pub verdict : resp.verdict ≡ strictest (worst rs)
    pub reasons : resp.reasons ≡ reasons_of rs
    pub evaluated : resp.evaluated_rules ≡ map (λ r. r.rule_id) rs
    pub version : resp.rules_version ≡ e.rules_version

  conclude-Answers :
      (e : RuleEngine X) (req : DecideRequest) (state : EvalState) (started : ℕ)
      (outcome : Result Error (List RuleResult)) (w : World X) (resp : DecideResponse)
      → (conclude host e req state started outcome w).0 ≡ ok resp
      → (rs : List RuleResult) × (outcome ≡ ok rs) × Answers e resp rs
  unfolding conclude
  conclude-Answers e req state started (err error) w resp h = cc
  conclude-Answers e req state started (ok rs) w resp h =
      let (verdict, reasons, evaluated) = combine_lem rs in (rs, refl, ground arith)

  -- A response comes from a complete run of the rules on one state: its verdict is the strictest
  -- of the matched results, its reasons are theirs in order, and it names the rules' version.
  pub evaluate_lem :
      (e : RuleEngine X) (req : DecideRequest) (w : World X) (resp : DecideResponse)
      → (evaluate host e req w).0 ≡ ok resp
      → (state : EvalState) × (w1 w2 : World X) × (rs : List RuleResult) × Run host state e.rules []
          w1 rs w2
        × Answers e resp rs
  unfolding evaluate evaluate_live
  evaluate_lem e req w resp h =
      let (started, w1) = read_clock host w in
      let (state, w3) = prepare e.feature_provider req (poll host w1).1 in
      elim (Option-cases (poll host w1).0) [
        | inr (e', done) ↦ cc (rw (done, evaluate) at h)
        | inl live ↦
            let (outcome, w4) = evaluate_rules host state e.rules [] [] w3 in
            let (rs, ends, answers) =
              conclude-Answers e req state started outcome w4 resp (rw (live, evaluate) at h) in
            let (rs', same, run) =
              Run-of-evaluate_rules host state e.rules [] [] w3 w4 rs (λ i. (ends i, w4)) in
            (state, w3, w4, rs, rw same run, answers)
      ]

  -- If every rule puts its own id into its results, a response lists the ids of all rules of the
  -- engine, in the engine's order, matched or failed.
  pub evaluate-evaluated_rules :
      (e : RuleEngine X) (req : DecideRequest) (w : World X) (resp : DecideResponse)
      → All IsHonest e.rules
      → (evaluate host e req w).0 ≡ ok resp
      → resp.evaluated_rules ≡ map (λ rule. rule.id) e.rules
  evaluate-evaluated_rules e req w resp honest h =
      let (state, w1, w2, rs, run, answers) = evaluate_lem e req w resp h in
      answers.evaluated ∙ Run-ids host state run honest
