-- ===== src/Engine/Evaluate/Audit.antt =====
-- The audit sink and the metadata of a response of `RuleEngine.Evaluate`.
use policy_decision_service.Prelude.{
  ℕ, ◌-◌, ◌/◌, List, [], ◌∷◌, ◌≡◌, refl, Bool, ◌∙◌, Option, none, some, Option-cases, Result, ok,
  err, arith, inl, inr, false, if◌then◌else◌,
}
use policy_decision_service.Errors.{Error}
use policy_decision_service.Telemetry.{World, Host, poll, read_clock}
use policy_decision_service.Engine.Types.{DecideRequest, DecideResponse, EvalState, RuleResult}
use policy_decision_service.Engine.Rules.{AuditSink, FeatureProvider}
use policy_decision_service.Engine.Evaluate.{
  RuleEngine, warnings_metadata, with_audit_sink, evaluate_rules, prepare, enqueue_audit,
  audit_record, conclude, evaluate_live, evaluate,
}

module _ {X : Type 0} (host : Host X) where
  -- One record of a response to a sink; an error leaves no record.
  unfoldable pub deliver :
      AuditSink X
      → DecideRequest
      → ℕ
      → Result Error DecideResponse × World X
      → Result Error DecideResponse × World X
  deliver sink req started (err error, w) = (err error, w)
  deliver sink req started (ok resp, w) =
      let (t, w1) = read_clock host w in
      (ok resp, sink (audit_record req resp ((t - started) / 1000)) w1)

  conclude-with_audit_sink :
      (e : RuleEngine X) (sink : AuditSink X) (req : DecideRequest) (state : EvalState)
      (started : ℕ) (outcome : Result Error (List RuleResult)) (w : World X)
      → e.audit ≡ none
      → conclude host (with_audit_sink e sink) req state started outcome w
        ≡ deliver sink req started (conclude host e req state started outcome w)
  unfolding conclude deliver enqueue_audit with_audit_sink
  conclude-with_audit_sink e sink req state started (ok rs) w h = rw (h, enqueue_audit)
  conclude-with_audit_sink e sink req state started (err error) w h = refl

  -- An engine that is given its first audit sink answers as without one, and hands the sink one
  -- record for each response, made of the request and that response, and none for an error.
  pub evaluate-with_audit_sink :
      (e : RuleEngine X) (sink : AuditSink X) (req : DecideRequest) (w : World X)
      → e.audit ≡ none
      → evaluate host (with_audit_sink e sink) req w
        ≡ deliver sink req (read_clock host w).0 (evaluate host e req w)
  unfolding evaluate evaluate_live with_audit_sink deliver
  evaluate-with_audit_sink e sink req w h =
      let (started, w1) = read_clock host w in
      let (state, w3) = prepare e.feature_provider req (poll host w1).1 in
      elim (Option-cases (poll host w1).0) [
        | inr (e', done) ↦ rw (done, evaluate)
        | inl live ↦
            rw (live, evaluate)
              (conclude-with_audit_sink e sink req state started
                (evaluate_rules host state e.rules [] [] w3).0
                (evaluate_rules host state e.rules [] [] w3).1 h)
      ]

  -- Whether the feature provider, asked at `w`, reports that it could not answer.
  unfoldable pub is_degraded : Option (FeatureProvider X) → DecideRequest → World X → Bool
  is_degraded none req w = false
  is_degraded (some provider) req w = (provider req.actor_id w).0.1

  prepare-warnings :
      (provider : Option (FeatureProvider X)) (req : DecideRequest) (w : World X)
      → warnings_metadata (prepare provider req w).0.degraded_warnings
        ≡ (if is_degraded provider req w then some ("feature_provider_unavailable" ∷ []) else none)
  unfolding prepare is_degraded
  prepare-warnings none req w = refl
  prepare-warnings (some provider) req w = ground arith

  conclude-metadata :
      (e : RuleEngine X) (req : DecideRequest) (state : EvalState) (started : ℕ)
      (outcome : Result Error (List RuleResult)) (w : World X) (resp : DecideResponse)
      → (conclude host e req state started outcome w).0 ≡ ok resp
      → resp.metadata ≡ warnings_metadata state.degraded_warnings
  unfolding conclude
  conclude-metadata e req state started (err error) w resp h = cc
  conclude-metadata e req state started (ok rs) w resp h = ground arith

  -- A response carries the warning "feature_provider_unavailable", and nothing else in its
  -- metadata, exactly when the engine has a feature provider that reported itself degraded.
  pub evaluate-metadata :
      (e : RuleEngine X) (req : DecideRequest) (w : World X) (resp : DecideResponse)
      → (evaluate host e req w).0 ≡ ok resp
      → resp.metadata ≡ (
          if is_degraded e.feature_provider req (poll host (read_clock host w).1).1
          then some ("feature_provider_unavailable" ∷ [])
          else none)
  unfolding evaluate evaluate_live
  evaluate-metadata e req w resp h =
      let (started, w1) = read_clock host w in
      let (state, w3) = prepare e.feature_provider req (poll host w1).1 in
      elim (Option-cases (poll host w1).0) [
        | inr (e', done) ↦ cc (rw (done, evaluate) at h)
        | inl live ↦
            let (outcome, w4) = evaluate_rules host state e.rules [] [] w3 in
            conclude-metadata e req state started outcome w4 resp (rw (live, evaluate) at h)
            ∙ prepare-warnings e.feature_provider req (poll host w1).1
      ]
