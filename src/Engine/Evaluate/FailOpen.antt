-- ===== src/Engine/Evaluate/FailOpen.antt =====
-- What rule errors and the end of the context do to `Evaluate` of internal/engine/engine.go.
use policy_decision_service.Prelude.{
  ℕ, String, List, [], ◌∷◌, ◌++◌, ◌≡◌, refl, ap, none, some, Option-cases, Result, ok, err, arith,
  inl, inr, false,
}
use policy_decision_service.Errors.{Error}
use policy_decision_service.Telemetry.{
  World, Host, poll, read_clock, emit, rule_evaluations_total, rule_eval_errors_total,
}
use policy_decision_service.Engine.Types.{DecideRequest, DecideResponse, EvalState, RuleResult}
use policy_decision_service.Engine.Rules.{Results, Rule}
use policy_decision_service.Engine.Combine.{combine}
use policy_decision_service.Engine.Combine.Precedence.{worst, reasons_of, combine_lem, strictest}
use policy_decision_service.Engine.Evaluate.{
  RuleEngine, call, failed, evaluate_rule, evaluate_rules, prepare, conclude, evaluate_live,
  evaluate,
}
use policy_decision_service.Engine.Evaluate.Loop.{evaluate_rules-ok, evaluate_rules-err}

worst-failed :
    (xs ys : List RuleResult) (id : String) (e : Error)
    → worst (xs ++ failed id e ∷ ys) ≡ worst (xs ++ ys)
unfolding worst
worst-failed [] ys id e = omega arith
worst-failed (x ∷ xs) ys id e = omega (arith, worst-failed xs ys id e)

reasons_of-failed :
    (xs ys : List RuleResult) (id : String) (e : Error)
    → reasons_of (xs ++ failed id e ∷ ys) ≡ reasons_of (xs ++ ys)
unfolding reasons_of
reasons_of-failed [] ys id e = refl
reasons_of-failed (x ∷ xs) ys id e = rw (reasons_of-failed xs ys id e)

module _ {X : Type 0} (host : Host X) where
  conclude-ok :
      (e : RuleEngine X) (req : DecideRequest) (state : EvalState) (started : ℕ)
      (results : List RuleResult) (w : World X)
      → (resp : DecideResponse) × ((conclude host e req state started (ok results) w).0 ≡ ok resp)
  unfolding conclude
  conclude-ok e req state started results w = (_, refl)

  conclude-err :
      (e : RuleEngine X) (req : DecideRequest) (state : EvalState) (started : ℕ)
      (outcome : Result Error (List RuleResult)) (w : World X) (error : Error)
      → (conclude host e req state started outcome w).0 ≡ err error
      → outcome ≡ err error
  unfolding conclude
  conclude-err e req state started (ok results) w error h = cc
  conclude-err e req state started (err error') w error h = ground arith

  -- While the context is not done, `Evaluate` answers every request with a response, whatever the
  -- rules and the feature provider do, errors included.
  pub evaluate_total :
      ((x : X) → (host.ctx_err x).0 ≡ none)
      → (e : RuleEngine X) (req : DecideRequest) (w : World X)
      → (resp : DecideResponse) × ((evaluate host e req w).0 ≡ ok resp)
  unfolding evaluate evaluate_live
  evaluate_total live e req w =
      let (started, w1) = read_clock host w in
      let (state, w3) = prepare e.feature_provider req (poll host w1).1 in
      let (results, ran) = evaluate_rules-ok host state live e.rules [] [] w3 in
      rw (live w1.outside, evaluate) (rw ran (conclude-ok e req state started results _))

  -- When `Evaluate` fails, its error is one that the context gave.
  pub evaluate-err :
      (e : RuleEngine X) (req : DecideRequest) (w : World X) (error : Error)
      → (evaluate host e req w).0 ≡ err error
      → (x : X) × ((host.ctx_err x).0 ≡ some error)
  unfolding evaluate evaluate_live
  evaluate-err e req w error h =
      let (started, w1) = read_clock host w in
      let (state, w3) = prepare e.feature_provider req (poll host w1).1 in
      elim (Option-cases (poll host w1).0) [
        | inr (e', done) ↦ (w1.outside, ground (arith, rw (done, evaluate) at h))
        | inl live ↦
            let loop = evaluate_rules host state e.rules [] [] w3 in
            evaluate_rules-err host state e.rules [] [] w3 error
              (conclude-err e req state started loop.0 loop.1 error (rw (live, evaluate) at h))
      ]

module _ {X : Type 0} where
  -- A rule that returns an error counts as not matched, under its id, with the error kept for the
  -- combiners, and both metrics are updated.
  pub evaluate_rule-err :
      (rule : Rule X) (state : EvalState) (by_id : Results) (w w' : World X) (e : Error)
      → call rule.body state by_id w ≡ (err e, w')
      → evaluate_rule rule state by_id w ≡ (
        failed rule.id e,
        emit (rule_evaluations_total rule.id false) (emit (rule_eval_errors_total rule.id) w'),
      )
  unfolding evaluate_rule
  evaluate_rule-err rule state by_id w w' e h = rw h

-- A rule that failed changes the decision in nothing but the list of evaluated rules.
pub combine-failed :
    (xs ys : List RuleResult) (id : String) (e : Error)
    → ((combine (xs ++ failed id e ∷ ys)).verdict ≡ (combine (xs ++ ys)).verdict)
      × ((combine (xs ++ failed id e ∷ ys)).reasons ≡ (combine (xs ++ ys)).reasons)
combine-failed xs ys id e =
    rw
      (
        (combine_lem (xs ++ failed id e ∷ ys)).0,
        (combine_lem (xs ++ failed id e ∷ ys)).1,
        (combine_lem (xs ++ ys)).0,
        (combine_lem (xs ++ ys)).1,
      )
      (ap strictest (worst-failed xs ys id e), reasons_of-failed xs ys id e)
