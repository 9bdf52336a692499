-- ===== src/Engine/Evaluate/Loop.antt =====
-- The loop over the rules in `RuleEngine.Evaluate`, as a relation between what it starts from and
-- what it ends with: the rules run in order, each on the results before it.
use mathlib.Core.List.{append_assoc, append-nil}
use policy_decision_service.Prelude.{
  List, [], ◌∷◌, ◌++◌, ◌≡◌, refl, ap, ◌∙◌, none, some, Option-cases, ok, err, arith, subst, inl,
  inr,
}
use policy_decision_service.Errors.{Error}
use policy_decision_service.Telemetry.{World, Host, poll}
use policy_decision_service.Engine.Types.{EvalState, RuleResult}
use policy_decision_service.Engine.Rules.{Results, Rule}
use policy_decision_service.Engine.Evaluate.{evaluate_rule, evaluate_rules}

module _ {X : Type 0} (host : Host X) (state : EvalState) where
  -- `Run rules by_id w results w'`: the loop ran to its end and was not cancelled.
  pub data Run : List (Rule X) → Results → World X → List RuleResult → World X → Type 0 where
    finished : {by_id : Results} {w : World X} → Run [] by_id w [] w
    ran :
        {rule : Rule X} {rules : List (Rule X)} {by_id : Results} {w w' : World X}
        {rs : List RuleResult} {result : RuleResult}
        → (poll host w).0 ≡ none
        → result ≡ (evaluate_rule rule state by_id (poll host w).1).0
        → Run rules
            ((rule.id, result) ∷ by_id)
            (evaluate_rule rule state by_id (poll host w).1).1
            rs
            w'
        → Run (rule ∷ rules) by_id w (result ∷ rs) w'

  pub Run-of-evaluate_rules :
      (rules : List (Rule X)) (acc : List RuleResult) (by_id : Results) (w w' : World X)
      (results : List RuleResult)
      → evaluate_rules host state rules acc by_id w ≡ (ok results, w')
      → (rs : List RuleResult) × (results ≡ acc ++ rs) × Run rules by_id w rs w'
  unfolding evaluate_rules
  Run-of-evaluate_rules [] acc by_id w w' results h = (
    [],
    ground (arith, append-nil acc),
    subst (λ v. Run [] by_id w [] v) (ap (λ p. p.1) h) finished,
  )
  Run-of-evaluate_rules (rule ∷ rules) acc by_id w w' results h =
      elim (Option-cases (poll host w).0) [
        | inl live ↦
            let (result, w2) = evaluate_rule rule state by_id (poll host w).1 in
            let (rs, e, run) =
              Run-of-evaluate_rules rules (acc ++ result ∷ []) ((rule.id, result) ∷ by_id) w2 w'
                results (rw (live, evaluate_rules) at h) in
            (result ∷ rs, e ∙ append_assoc acc (result ∷ []) rs, ran live refl run)
        | inr (e, done) ↦ cc (rw (done, evaluate_rules) at h)
      ]

  -- A loop that is not cancelled ends, whatever the rules do.
  pub evaluate_rules-ok :
      ((x : X) → (host.ctx_err x).0 ≡ none)
      → (rules : List (Rule X)) (acc : List RuleResult) (by_id : Results) (w : World X)
      → (results : List RuleResult) × ((evaluate_rules host state rules acc by_id w).0 ≡ ok results)
  unfolding evaluate_rules
  evaluate_rules-ok live [] acc by_id w = (acc, refl)
  evaluate_rules-ok live (rule ∷ rules) acc by_id w =
      rw (live w.outside, evaluate_rules) (evaluate_rules-ok live rules _ _ _)

  -- The loop fails only with the error of a context that is done.
  pub evaluate_rules-err :
      (rules : List (Rule X)) (acc : List RuleResult) (by_id : Results) (w : World X) (e : Error)
      → (evaluate_rules host state rules acc by_id w).0 ≡ err e
      → (x : X) × ((host.ctx_err x).0 ≡ some e)
  unfolding evaluate_rules
  evaluate_rules-err [] acc by_id w e h = cc
  evaluate_rules-err (rule ∷ rules) acc by_id w e h =
      elim (Option-cases (host.ctx_err w.outside).0) [
        | inl live ↦ evaluate_rules-err rules _ _ _ e (rw (live, evaluate_rules) at h)
        | inr (e', done) ↦ (w.outside, ground (arith, rw (done, evaluate_rules) at h))
      ]
