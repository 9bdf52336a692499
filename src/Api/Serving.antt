-- ===== src/Api/Serving.antt =====
-- The handlers of internal/api in front of the rule engine of internal/engine/engine.go.
use policy_decision_service.Prelude.{
  String, false, ◌≡◌, ◌≢◌, sym, subst, ◌==◌, eq_iff, arith, Result, ok, err, none,
}
use policy_decision_service.Prelude.Text.{trim_space}
use policy_decision_service.Errors.{Error}
use policy_decision_service.Telemetry.{World, Host}
use policy_decision_service.Engine.Types.{DecideRequest, DecideResponse}
use policy_decision_service.Engine.Combine.Precedence.{IsVerdict, strictest-IsVerdict, worst}
use policy_decision_service.Engine.Evaluate.{RuleEngine, evaluate}
use policy_decision_service.Engine.Evaluate.FailOpen.{evaluate_total}
use policy_decision_service.Engine.Evaluate.Response.{evaluate_lem}
use policy_decision_service.Api.Http.{
  HttpRequest, write_json, decision, request_id, answered, decide,
}
use policy_decision_service.Api.Grpc.{
  GrpcRequest, Structs, grpc_request_to_engine, engine_response_to_grpc, grpc_answered, grpc_decide,
}
use policy_decision_service.Api.Answers.{IsValid, IsValid-validate}

module _ {X : Type 0} (host : Host X) where
  -- A decision that the engine made: one of the three verdicts, by its version of the rules.
  pub record Decides (e : RuleEngine X) (resp : DecideResponse) : Type 0 where
    pub verdict : IsVerdict resp.verdict
    pub version : resp.rules_version ≡ e.rules_version
    pub evaluated : (req : DecideRequest) × (w : World X) × ((evaluate host e req w).0 ≡ ok resp)

  evaluate-Decides :
      ((x : X) → (host.ctx_err x).0 ≡ none)
      → (e : RuleEngine X) (req : DecideRequest) (w : World X)
      → (resp : DecideResponse) × ((evaluate host e req w).0 ≡ ok resp) × Decides e resp
  evaluate-Decides live e req w =
      let (resp, ends) = evaluate_total host live e req w in
      let (state, w1, w2, rs, run, answers) = evaluate_lem host e req w resp ends in
      (
        resp,
        ends,
        record {
          verdict = subst IsVerdict (sym answers.verdict) (strictest-IsVerdict (worst rs));
          version = answers.version;
          evaluated = (req, w, ends);
        },
      )

  module _ (decode : String → Result Error DecideRequest) where
    answered-ok :
        (o : Result Error DecideResponse × World X) (resp : DecideResponse)
        → o.0 ≡ ok resp
        → (answered host decode o).0 ≡ write_json 200 (decision resp)
    answered-ok (ok r, w) resp h = ground arith
    answered-ok (err e, w) resp h = cc

    -- While the context is not done, the rule engine behind the HTTP handler decides every request
    -- that names its client and decodes to a named actor and action: status 200 with one of the
    -- three verdicts, by the engine's version of the rules, whatever errors the rules return.
    pub decide-evaluate :
        ((x : X) → (host.ctx_err x).0 ≡ none)
        → (e : RuleEngine X) (r : HttpRequest) (body : DecideRequest) (w : World X)
        → trim_space (r.header "X-Client-Id") ≢ ""
        → decode r.body ≡ ok body
        → IsValid body
        → (resp : DecideResponse) × ((decide host decode (evaluate host e) r w).0
            ≡ write_json 200 (decision resp))
          × Decides e resp
    unfolding decide
    decide-evaluate live e r body w named decodes valid =
        let client_id = trim_space (r.header "X-Client-Id") in
        let (id, w1) = request_id host decode (trim_space (r.header "X-Request-Id")) w in
        let sent : DecideRequest = record body { client_id = client_id; request_id = id } in
        let (resp, ends, decides) = evaluate-Decides live e sent w1 in
        let present : (client_id == "") ≡ false = ground (arith, eq_iff client_id "") in
        (
          resp,
          rw (present, decodes, IsValid-validate body valid) (answered-ok _ resp ends),
          decides,
        )

  module _ (s : Structs) where
    grpc_answered-ok :
        (o : Result Error DecideResponse × World X) (resp : DecideResponse)
        → o.0 ≡ ok resp
        → (grpc_answered s o).0 ≡ ok (engine_response_to_grpc s resp)
    grpc_answered-ok (ok r, w) resp h = ground arith
    grpc_answered-ok (err e, w) resp h = cc

    -- While the context is not done, the rule engine behind the gRPC handler decides every request
    -- with a named actor and action, with one of the three verdicts, by the engine's version of
    -- the rules, whatever errors the rules return.
    pub grpc_decide-evaluate :
        ((x : X) → (host.ctx_err x).0 ≡ none)
        → (e : RuleEngine X) (req : GrpcRequest) (w : World X)
        → IsValid (grpc_request_to_engine s req)
        → (resp : DecideResponse) × ((grpc_decide s (evaluate host e) req w).0
            ≡ ok (engine_response_to_grpc s resp))
          × Decides e resp
    unfolding grpc_decide
    grpc_decide-evaluate live e req w valid =
        let sent = grpc_request_to_engine s req in
        let (resp, ends, decides) = evaluate-Decides live e sent w in
        (resp, rw (IsValid-validate sent valid) (grpc_answered-ok _ resp ends), decides)
