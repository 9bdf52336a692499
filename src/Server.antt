-- ===== src/Server.antt =====
-- cmd/server/main.go: the engine behind the handlers, the reload of the rules, the readiness check
-- and the choice of the sinks. The interface value in `engineHolder` is always a rule engine.
pub mod Reload
pub mod System
pub mod Startup
pub mod Shutdown
pub mod Wiring
pub mod Routes
use policy_decision_service.Prelude.{
  String, Bool, List, [], ◌∷◌, map, Option, some, none, Result, ok, err,
}
use policy_decision_service.Errors.{Error, message}
use policy_decision_service.Telemetry.{World, Host, poll}
use policy_decision_service.Engine.Types.{DecideResponse}
use policy_decision_service.Engine.Rules.{AuditSink, FeatureProvider}
use policy_decision_service.Engine.Evaluate.{
  RuleEngine, new_rule_engine, with_audit_sink, with_feature_provider, evaluate,
}
use policy_decision_service.Rules.Loader.{Environment, Snapshot, load_file}
use policy_decision_service.Sink.Multi.{multi_enqueue}
use policy_decision_service.Api.Request.{DecisionEngine}
use policy_decision_service.Api.Http.{Check}

pub record EngineHolder (X : Type 0) : Type 0 where
  pub current : Option (RuleEngine X)

module _ {X : Type 0} where
  unfoldable pub new_engine_holder : RuleEngine X → EngineHolder X
  new_engine_holder initial = record { current = some initial }

  -- `engineHolder.Store`
  unfoldable pub store : RuleEngine X → EngineHolder X → EngineHolder X
  store next h = record h { current = some next }

  -- The engine that was loaded from the atomic value, if it was there.
  abbrev pub evaluate_current : Host X → Option (RuleEngine X) → DecisionEngine X
  evaluate_current host none req w = (err (message "decision engine is not loaded"), w)
  evaluate_current host (some engine) req w = evaluate host engine req w

  -- `engineHolder.Evaluate`
  unfoldable pub holder_evaluate : Host X → EngineHolder X → DecisionEngine X
  holder_evaluate host h req w = evaluate_current host h.current req w

  -- The sink of the engine, of the sinks that are there.
  unfoldable pub choose_sink : List (AuditSink X) → Option (AuditSink X)
  choose_sink [] = none
  choose_sink (sink ∷ []) = some sink
  choose_sink (first ∷ second ∷ sinks) =
      some (multi_enqueue (map (λ sink. some sink) (first ∷ second ∷ sinks)))

  abbrev pub audited : Option (AuditSink X) → RuleEngine X → RuleEngine X
  audited none e = e
  audited (some sink) e = with_audit_sink e sink

  -- `buildEngine`
  unfoldable pub build_engine : FeatureProvider X → Option (AuditSink X) → Snapshot X → RuleEngine X
  build_engine provider sink snapshot =
      audited sink
        (with_feature_provider (new_rule_engine snapshot.version snapshot.rules) provider)

  -- The readiness check: what the stores gave at the start, then their health.
  unfoldable pub ready : Option Error → Option Error → Check X → Check X → Check X
  ready (some e) redis_err postgres_health redis_health w = (some e, w)
  ready none (some e) postgres_health redis_health w = (some e, w)
  ready none none postgres_health redis_health w =
      let (e, w1) = postgres_health w in
      elim e [ some error ↦ (some error, w1) | none ↦ redis_health w1 ]

  -- The part of `reload` behind the load of the file.
  abbrev pub install :
      FeatureProvider X
      → Option (AuditSink X)
      → Host X
      → Result Error (Snapshot X)
      → EngineHolder X
      → World X
      → Option Error × EngineHolder X × World X
  install provider sink host (err e) h w = (some e, h, w)
  install provider sink host (ok snapshot) h w =
      let (done, w1) = poll host w in
      elim done [
        | some e ↦ (some e, h, w1)
        | none ↦ (none, store (build_engine provider sink snapshot) h, w1)
      ]

  module _ {F : Type 0} (provider : FeatureProvider X) (sink : Option (AuditSink X))
      (path dir : String) where
    -- The load of the rules when the server starts; an error is fatal. `dir` is the directory of
    -- the path.
    unfoldable pub load_engine : Environment X F → Result Error (EngineHolder X)
    load_engine env = elim (load_file env path dir "") [
      | err e ↦ err e
      | ok snapshot ↦ ok (new_engine_holder (build_engine provider sink snapshot))
    ]

    -- `reload`. The environment is that of the moment: the file may have changed.
    unfoldable pub reload :
        Host X
        → Environment X F
        → EngineHolder X
        → World X
        → Option Error × EngineHolder X × World X
    reload host env h w =
        let (done, w1) = poll host w in
        elim done [
          | some e ↦ (some e, h, w1)
          | none ↦ install provider sink host (load_file env path dir "") h w1
        ]

    -- The goroutine behind SIGHUP, until its context has ended: each signal with the files as they
    -- are then and the world that it arrives in. The error of a reload is only logged.
    unfoldable pub reload_on_hangups :
        Host X → List (Environment X F × World X) → EngineHolder X → EngineHolder X
    reload_on_hangups host [] h = h
    reload_on_hangups host ((env, w) ∷ signals) h =
        reload_on_hangups host signals (reload host env h w).1
