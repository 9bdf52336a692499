-- ===== src/Server/Startup/Offline.antt =====
-- A start of cmd/server/main.go that finds no Redis.
use policy_decision_service.Prelude.{
  String, Option, none, ◌≡◌, refl, ok, err, inl, inr, Result-cases, >>=-eq-ok, All, subst,
}
use policy_decision_service.Errors.{Error}
use policy_decision_service.Telemetry.{World}
use policy_decision_service.Config.{Config}
use policy_decision_service.Engine.Rules.{AuditSink, FeatureProvider}
use policy_decision_service.Rules.Raw.{RuleFile}
use policy_decision_service.Rules.Loader.{Environment, Snapshot, load_rules, load_bytes, load_file}
use policy_decision_service.Rules.Loader.Offline.{IsOffline, load_rules-IsOffline}
use policy_decision_service.Store.Redis.{client_of}
use policy_decision_service.Server.{EngineHolder, load_engine}
use policy_decision_service.Server.System.{System}
use policy_decision_service.Server.Startup.{
  Outside, Stores, Started, provider, decision_sink, open_stores, start, loader_environment,
  value_of,
}
use policy_decision_service.Server.Startup.Outcome.{Outcome, up, IsUp, start_lem}

-- The entries of the rules file, none of which is an enabled rate limit.
pub record OfflineFile {X F : Type 0} (env : Environment X F) (path : String) : Type 0 where
  pub text : String
  pub parsed : RuleFile
  pub read : env.read_file path ≡ ok text
  pub decoded : env.unmarshal text ≡ ok parsed
  pub offline : All (IsOffline env) parsed.rules

module _ {X F : Type 0} (env : Environment X F) where
  load_file-OfflineFile :
      (path dir base : String) (snapshot : Snapshot X)
      → env.redis ≡ none
      → load_file env path dir base ≡ ok snapshot
      → OfflineFile env path
  unfolding load_file load_bytes
  load_file-OfflineFile path dir base snapshot without h =
      let (text, read, h1) = >>=-eq-ok (env.read_file path) _ h in
      let (parsed, decoded, h2) = >>=-eq-ok (env.unmarshal text) _ h1 in
      let (rules, built, h3) = >>=-eq-ok (load_rules env parsed _) _ h2 in
      record {
        text = text;
        parsed = parsed;
        read = read;
        decoded = decoded;
        offline = load_rules-IsOffline env parsed _ rules built without;
      }

  load_engine-OfflineFile :
      (provider : FeatureProvider X) (sink : Option (AuditSink X)) (path dir : String)
      (h : EngineHolder X)
      → env.redis ≡ none
      → load_engine provider sink path dir env ≡ ok h
      → OfflineFile env path
  unfolding load_engine
  load_engine-OfflineFile provider sink path dir h without l =
      elim (Result-cases (load_file env path dir "")) [
        | inl (snapshot, loads) ↦ load_file-OfflineFile path dir "" snapshot without loads
        | inr (e, fails) ↦ cc (rw (fails, load_engine) at l)
      ]

module _ {Y P O C K F : Type 0} (o : Outside Y P O C K F) (cfg : Config) where
  -- A start that ended well.
  ends-IsUp :
      {stores : Stores P C} {s : Started Y P C K} {w : World (System Y)}
      → Outcome o cfg stores (ok s, w)
      → IsUp o cfg stores s w
  ends-IsUp (up s w h) = h

  no_client : (y : Y) → (loader_environment o cfg none y).redis ≡ none
  unfolding client_of
  no_client y = refl

  without_redis :
      {stores : Stores P C} {s : Started Y P C K} {w : World (System Y)} (e : Error)
      → stores.redis ≡ err e
      → IsUp o cfg stores s w
      → (y : Y) × OfflineFile (loader_environment o cfg none y) cfg.rules_path
  without_redis {stores} {s} e down h = (
    h.read_in,
    load_engine-OfflineFile (loader_environment o cfg none h.read_in) (provider o cfg)
        (decision_sink o cfg stores) cfg.rules_path (o.directory cfg.rules_path) s.holder
        (no_client h.read_in)
        (subst
          (λ r.
            load_engine (provider o cfg) (decision_sink o cfg stores) cfg.rules_path
              (o.directory cfg.rules_path) (loader_environment o cfg (value_of r) h.read_in)
            ≡ ok s.holder)
          down h.loads),
  )

  -- A server that started although Redis could not be opened has read a rules file in which no
  -- rate limit is enabled: with one that is, the start is fatal.
  pub start-OfflineFile :
      (w w' : World (System Y)) (s : Started Y P C K) (e : Error)
      → w.outside.audit_writer ≡ none
      → w.outside.kafka_sink ≡ none
      → (open_stores o cfg w).0.redis ≡ err e
      → start o cfg w ≡ (ok s, w')
      → (y : Y) × OfflineFile (loader_environment o cfg none y) cfg.rules_path
  start-OfflineFile w w' s e unaudited unpublished down runs = without_redis e down (
      ends-IsUp (
        subst (Outcome o cfg (open_stores o cfg w).0) runs
          (start_lem o cfg w unaudited unpublished)))
