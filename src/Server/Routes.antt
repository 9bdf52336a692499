-- ===== src/Server/Routes.antt =====
-- The routes of internal/api/http.go over the engine, the reload and the readiness check of
-- cmd/server/main.go.
use policy_decision_service.Prelude.{
  String, List, [], ◌∷◌, Option, some, none, Option-cases, ◌≡◌, refl, sym, subst, Result, ok, err,
  inl, inr,
}
use policy_decision_service.Errors.{Error}
use policy_decision_service.Telemetry.{World, Host, poll}
use policy_decision_service.Engine.Types.{DecideRequest}
use policy_decision_service.Engine.Rules.{AuditSink, FeatureProvider}
use policy_decision_service.Rules.Loader.{Environment, Snapshot, load_file}
use policy_decision_service.Api.Http.{
  Check, Handler, HttpReply, HttpRequest, new_router, reloaded, write_error, write_json, texts,
}
use policy_decision_service.Engine.Evaluate.{
  RuleEngine, new_rule_engine, with_feature_provider, with_audit_sink,
}
use policy_decision_service.Server.Reload.{
  load_file-IsSnapshot, build_engine-version, build_engine-rules,
}
use policy_decision_service.Server.{
  EngineHolder, build_engine, holder_evaluate, install, store, reload,
}

-- The router while the holder is in this state. `metrics` is the handler of the metrics library.
unfoldable pub routes :
    {X : Type 0}
    → Host X
    → (String → Result Error DecideRequest)
    → (Error → String)
    → Handler X
    → EngineHolder X
    → (ready_check reload_check : Check X) → List (String × String × Handler X)
routes host decode print metrics h ready_check reload_check =
    new_router host decode print metrics (record {
      engine = some (holder_evaluate host h);
      ready = some ready_check;
      reload = some reload_check;
    })

store-current : {X : Type 0} (e : RuleEngine X) (h : EngineHolder X) → (store e h).current ≡ some e
unfolding store
store-current e h = refl

module _ {X : Type 0} (provider : FeatureProvider X) where
  build_engine-provided :
      (sink : Option (AuditSink X)) (snapshot : Snapshot X)
      → (build_engine provider sink snapshot).feature_provider ≡ some provider
  unfolding build_engine new_rule_engine with_feature_provider with_audit_sink
  build_engine-provided none snapshot = refl
  build_engine-provided (some sink) snapshot = refl

  build_engine-audited :
      (sink : Option (AuditSink X)) (snapshot : Snapshot X)
      → (build_engine provider sink snapshot).audit ≡ sink
  unfolding build_engine new_rule_engine with_feature_provider with_audit_sink
  build_engine-audited none snapshot = refl
  build_engine-audited (some sink) snapshot = refl

-- The engine that answers by a snapshot, with the server's feature provider and its sink.
pub record IsEngineOf {X : Type 0} (provider : FeatureProvider X) (sink : Option (AuditSink X))
    (snapshot : Snapshot X) (engine : RuleEngine X) : Type 0 where
  pub version : engine.rules_version ≡ snapshot.version
  pub rules : engine.rules ≡ snapshot.rules
  pub provided : engine.feature_provider ≡ some provider
  pub audited : engine.audit ≡ sink

module _ {X F : Type 0} (provider : FeatureProvider X) (sink : Option (AuditSink X))
    (path dir : String) (host : Host X) (print : Error → String) where
  -- The route `/v1/admin/reload`, with what it does to the holder.
  unfoldable pub answer_reload :
      Environment X F
      → EngineHolder X
      → HttpRequest
      → World X
      → HttpReply × EngineHolder X × World X
  answer_reload env h r w =
      let (e, h1, w1) = reload provider sink path dir host env h w in (reloaded print e, h1, w1)

  build_engine-IsEngineOf :
      (env : Environment X F) (snapshot : Snapshot X)
      → load_file env path dir "" ≡ ok snapshot
      → IsEngineOf provider sink snapshot (build_engine provider sink snapshot)
  build_engine-IsEngineOf env snapshot l = record {
    version =
        build_engine-version F host provider sink path dir snapshot
          (load_file-IsSnapshot env path dir "" snapshot l).version;
    rules = build_engine-rules F host provider sink path dir snapshot;
    provided = build_engine-provided provider sink snapshot;
    audited = build_engine-audited provider sink snapshot;
  }

  -- Why a reload fails: the file does not load, or the context has ended.
  pub data Fails (env : Environment X F) (e : Error) : Type 0 where
    unloadable : load_file env path dir "" ≡ err e → Fails env e
    cut_off : (v : World X) → (poll host v).0 ≡ some e → Fails env e

  -- What a reload does to the holder.
  pub data Reloaded (env : Environment X F) (h : EngineHolder X)
      : Option Error × EngineHolder X × World X → Type 0 where
    replaced :
        (snapshot : Snapshot X) (engine : RuleEngine X) (h1 : EngineHolder X) (w : World X)
        → load_file env path dir "" ≡ ok snapshot
        → IsEngineOf provider sink snapshot engine
        → h1.current ≡ some engine
        → Reloaded env h (none, h1, w)
    refused : (e : Error) (w : World X) → Fails env e → Reloaded env h (some e, h, w)

  install-Reloaded :
      (env : Environment X F) (h : EngineHolder X) (found : Result Error (Snapshot X)) (w : World X)
      → load_file env path dir "" ≡ found
      → Reloaded env h (install provider sink host found h w)
  install-Reloaded env h (err e) w l = refused e w (unloadable l)
  install-Reloaded env h (ok snapshot) w l = elim (Option-cases (poll host w).0) [
    | inl live ↦ subst (Reloaded env h) (sym (rw (live, install) refl)) (
        replaced snapshot (build_engine provider sink snapshot) _ (poll host w).1 l
          (build_engine-IsEngineOf env snapshot l) (store-current _ h))
    | inr (e, over) ↦
        subst (Reloaded env h) (sym (rw (over, install) refl))
          (refused e (poll host w).1 (cut_off w over))
  ]

  reload-Reloaded :
      (env : Environment X F) (h : EngineHolder X) (w : World X)
      → Reloaded env h (reload provider sink path dir host env h w)
  unfolding reload
  reload-Reloaded env h w = elim (Option-cases (poll host w).0) [
    | inl live ↦
        subst (Reloaded env h) (sym (rw (live, reload) refl))
          (install-Reloaded env h (load_file env path dir "") (poll host w).1 refl)
    | inr (e, over) ↦
        subst (Reloaded env h) (sym (rw (over, reload) refl))
          (refused e (poll host w).1 (cut_off w over))
  ]

  -- The reply to a reload, and the holder behind it.
  pub data Answered (env : Environment X F) (h : EngineHolder X)
      : HttpReply × EngineHolder X × World X → Type 0 where
    done :
        (snapshot : Snapshot X) (engine : RuleEngine X) (h1 : EngineHolder X) (w : World X)
        → load_file env path dir "" ≡ ok snapshot
        → IsEngineOf provider sink snapshot engine
        → h1.current ≡ some engine
        → Answered env h (write_json 200 (texts (("status", "reloaded") ∷ [])), h1, w)
    failed :
        (e : Error) (w : World X) → Fails env e → Answered env h (write_error 500 (print e), h, w)

  answered :
      (env : Environment X F) (h : EngineHolder X) (o : Option Error × EngineHolder X × World X)
      → Reloaded env h o
      → Answered env h (reloaded print o.0, o.1, o.2)
  answered env h o (replaced snapshot engine h1 w l e c) = done snapshot engine h1 w l e c
  answered env h o (refused e w why) = failed e w why

  -- A call of `/v1/admin/reload` is answered with status 200 when the rules file has loaded and the
  -- holder has an engine with the version and the rules of what was loaded, the server's feature
  -- provider and its sink; or, when the file does not load or the context has ended, it is
  -- answered with status 500 and the text of that error, and the holder is as it was.
  pub answer_reload_lem :
      (env : Environment X F) (h : EngineHolder X) (r : HttpRequest) (w : World X)
      → Answered env h (answer_reload env h r w)
  unfolding answer_reload
  answer_reload_lem env h r w = answered env h _ (reload-Reloaded env h w)
