-- ===== src/Server/Reload/Serving.antt =====
-- The handlers of internal/api in front of the holder of cmd/server/main.go.
use policy_decision_service.Prelude.{
  String, map, Option, some, none, ◌≡◌, ◌≢◌, sym, ap, ◌∙◌, subst, Result, ok,
}
use policy_decision_service.Prelude.Text.{trim_space}
use policy_decision_service.Errors.{Error}
use policy_decision_service.Telemetry.{World, Host}
use policy_decision_service.Engine.Types.{DecideRequest, DecideResponse}
use policy_decision_service.Engine.Rules.{AuditSink, FeatureProvider}
use policy_decision_service.Engine.Combine.Precedence.{IsVerdict}
use policy_decision_service.Engine.Evaluate.{RuleEngine, evaluate}
use policy_decision_service.Rules.Loader.{Environment, Snapshot, load_file}
use policy_decision_service.Api.Http.{HttpRequest, write_json, decision, decide}
use policy_decision_service.Api.Answers.{IsValid}
use policy_decision_service.Api.Serving.{Decides, decide-evaluate}
use policy_decision_service.Server.{EngineHolder, build_engine, evaluate_current, holder_evaluate}
use policy_decision_service.Server.Reload.{Serves, last_loaded, Serves-IsLoaded, Serves-response}

module _ {X : Type 0} (F : Type 0) (host : Host X) (provider : FeatureProvider X)
    (sink : Option (AuditSink X)) (path dir : String) where
  -- A decision by one snapshot of the rules file: one of the three verdicts, by the snapshot's
  -- version, with the ids of all of its rules.
  pub record DecidedBy (env : Environment X F) (resp : DecideResponse) : Type 0 where
    pub snapshot : Snapshot X
    pub loads : load_file env path dir "" ≡ ok snapshot
    pub verdict : IsVerdict resp.verdict
    pub version : resp.rules_version ≡ snapshot.version
    pub evaluated : resp.evaluated_rules ≡ map (λ rule. rule.id) snapshot.rules

  holder_evaluate-current :
      (h : EngineHolder X) (e : RuleEngine X)
      → h.current ≡ some e
      → evaluate host e ≡ holder_evaluate host h
  unfolding holder_evaluate
  holder_evaluate-current h e current = ap (λ c. evaluate_current host c) (sym current)

  Decides-DecidedBy :
      {h : EngineHolder X} (e : RuleEngine X) (resp : DecideResponse)
      (serves : Serves F host provider sink path dir h)
      → h.current ≡ some e
      → Decides host e resp
      → DecidedBy (last_loaded F host provider sink path dir serves) resp
  Decides-DecidedBy {h} e resp serves current d =
      let (req, w, ends) = d.evaluated in
      let runs = ap (λ f. (f req w).0) (sym (holder_evaluate-current h e current)) ∙ ends in
      let (snapshot, loads, version, evaluated) =
        Serves-response F host provider sink path dir req w resp serves runs in
      record {
        snapshot = snapshot;
        loads = loads;
        verdict = d.verdict;
        version = version;
        evaluated = evaluated;
      }

  -- Whatever reloads a server has gone through, failed ones included, while the context is not done
  -- it answers each HTTP request that names its client and decodes to a named actor and action:
  -- with status 200 and one of the three verdicts, by the rules file as it was at the start or at
  -- the last reload without an error, whose version it names and all of whose rules it lists.
  pub decide-Serves :
      (decode : String → Result Error DecideRequest)
      → ((x : X) → (host.ctx_err x).0 ≡ none)
      → {h : EngineHolder X} (r : HttpRequest) (body : DecideRequest) (w : World X)
        (serves : Serves F host provider sink path dir h)
      → trim_space (r.header "X-Client-Id") ≢ ""
      → decode r.body ≡ ok body
      → IsValid body
      → (resp : DecideResponse) × ((decide host decode (holder_evaluate host h) r w).0
          ≡ write_json 200 (decision resp))
        × DecidedBy (last_loaded F host provider sink path dir serves) resp
  decide-Serves decode live {h} r body w serves named decodes valid =
      let (snapshot, loads, current) = Serves-IsLoaded F host provider sink path dir serves in
      let engine = build_engine provider sink snapshot in
      let (resp, replies, d) =
        decide-evaluate host decode live engine r body w named decodes valid in
      (
        resp,
        subst (λ f. (decide host decode f r w).0 ≡ write_json 200 (decision resp))
            (holder_evaluate-current h engine current) replies,
        Decides-DecidedBy engine resp serves current d,
      )
