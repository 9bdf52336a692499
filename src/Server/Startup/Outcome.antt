-- ===== src/Server/Startup/Outcome.antt =====
-- What the start of cmd/server/main.go ends in.
use policy_decision_service.Prelude.{
  subst, String, Bool, true, false, Option, some, none, ◌≡◌, refl, ◌∙◌, sym, ap, Result, ok, err,
  if◌then◌else◌, arith, Result-cases, inl, inr,
}
use policy_decision_service.Errors.{Error}
use policy_decision_service.Telemetry.{World}
use policy_decision_service.Config.{Config}
use policy_decision_service.Engine.Rules.{AuditSink, FeatureProvider}
use policy_decision_service.Rules.Loader.{Environment, load_file}
use policy_decision_service.Store.Audit.{AuditWriter, new_audit_writer}
use policy_decision_service.Store.Postgres.{Postgres, pool_of}
use policy_decision_service.Sink.Franz.{new_franz_publisher}
use policy_decision_service.Sink.Kafka.{KafkaSink, new_kafka_sink, open_kafka_sink}
use policy_decision_service.Server.{EngineHolder, load_engine}
use policy_decision_service.Server.Reload.{Serves, started}
use policy_decision_service.Server.System.{System, within}
use policy_decision_service.Server.Startup.{
  Outside, Stores, Started, Fatal, kafka_publisher_init_failed, rules_load_failed,
  grpc_listen_failed, value_of, step_outside, provider, loader_environment, start_audit_writer,
  with_publisher, start_kafka, decision_sink, listening, with_rules, with_sinks, open_stores, start,
}

err_inj : {E A : Type 0} (a b : E) → ◌≡◌ {A = Result E A} (err a) (err b) → a ≡ b
err_inj a b h = ground arith

load_engine-failed :
    {X F : Type 0} (provider : FeatureProvider X) (sink : Option (AuditSink X)) (path dir : String)
    (env : Environment X F) (e : Error)
    → load_engine provider sink path dir env ≡ err e
    → load_file env path dir "" ≡ err e
unfolding load_engine
load_engine-failed provider sink path dir env e h =
    elim (Result-cases (load_file env path dir "")) [
      | inl (snapshot, loads) ↦ cc (rw (loads, load_engine) at h)
      | inr (e', fails) ↦ fails ∙ ap err (err_inj e' e (rw (fails, load_engine) at h))
    ]

module _ {Y P O C K F : Type 0} (o : Outside Y P O C K F) (cfg : Config) where
  -- The audit writer of a start that opened PostgreSQL or failed to.
  abbrev pub writer_for : Result Error (Postgres P) → Option AuditWriter
  writer_for (err e) = none
  writer_for (ok postgres) = some (new_audit_writer true cfg.audit_queue_size cfg.audit_batch_size)

  abbrev pub kafka_for : Bool → Option KafkaSink
  kafka_for enabled =
      if enabled then some (new_kafka_sink cfg.kafka_decision_topic cfg.kafka_queue_size) else none

  abbrev pub HasSinks : Option AuditWriter → Option KafkaSink → World (System Y) → Type 0
  HasSinks writer kafka w = (w.outside.audit_writer ≡ writer) × (w.outside.kafka_sink ≡ kafka)

  -- The server that was started, with the world that it was started in.
  pub record IsUp (stores : Stores P C) (s : Started Y P C K) (w : World (System Y)) : Type 0 where
    pub stores_kept : s.stores ≡ stores
    pub sink_made : s.sink ≡ decision_sink o cfg stores
    pub read_in : Y
    pub loads :
        load_engine
          (provider o cfg)
          (decision_sink o cfg stores)
          cfg.rules_path
          (o.directory cfg.rules_path)
          (loader_environment o cfg (value_of stores.redis) read_in)
        ≡ ok s.holder
    pub serves :
        Serves F
          (within o.host)
          (provider o cfg)
          (decision_sink o cfg stores)
          cfg.rules_path
          (o.directory cfg.rules_path)
          s.holder
    pub has_sinks : HasSinks (writer_for stores.postgres) (kafka_for cfg.kafka_enabled) w

  pub data Outcome (stores : Stores P C)
      : Result Fatal (Started Y P C K) × World (System Y) → Type 0 where
    up : (s : Started Y P C K) (w : World (System Y)) → IsUp stores s w → Outcome stores (ok s, w)
    no_publisher :
        (e : Error) (y : Y) (w : World (System Y))
        → cfg.kafka_enabled ≡ true
        → (new_franz_publisher o.franz cfg.kafka_brokers cfg.kafka_client_id y).0 ≡ err e
        → Outcome stores (err (kafka_publisher_init_failed e), w)
    no_rules :
        (e : Error) (y : Y) (w : World (System Y))
        → load_file
            (loader_environment o cfg (value_of stores.redis) y)
            cfg.rules_path
            (o.directory cfg.rules_path)
            ""
          ≡ err e
        → Outcome stores (err (rules_load_failed e), w)
    no_port :
        (e : Error) (y : Y) (w : World (System Y))
        → (o.listen cfg.grpc_addr y).0 ≡ some e
        → Outcome stores (err (grpc_listen_failed e), w)

  start_audit_writer-HasSinks :
      (found : Result Error (Postgres P)) (w : World (System Y))
      → HasSinks none none w
      → HasSinks (writer_for found) none (start_audit_writer o cfg (value_of found) w)
  unfolding start_audit_writer pool_of
  start_audit_writer-HasSinks (err e) w h = h
  start_audit_writer-HasSinks (ok postgres) w h = (refl, h.1)

  -- What the start has come to behind the sinks.
  abbrev Connected : Result Fatal (Option K) × World (System Y) → Option AuditWriter → Type 0
  Connected (ok publisher, w) writer = HasSinks writer (kafka_for cfg.kafka_enabled) w
  Connected (err fatal, w) writer =
      (e : Error) × (y : Y) × (fatal ≡ kafka_publisher_init_failed e)
      × (cfg.kafka_enabled ≡ true)
      × ((new_franz_publisher o.franz cfg.kafka_brokers cfg.kafka_client_id y).0 ≡ err e)

  with_publisher-Connected :
      (found : Result Error K × World (System Y)) (writer : Option AuditWriter) (y : Y)
      → (new_franz_publisher o.franz cfg.kafka_brokers cfg.kafka_client_id y).0 ≡ found.0
      → cfg.kafka_enabled ≡ true
      → HasSinks writer none found.1
      → Connected (with_publisher o cfg found) writer
  unfolding open_kafka_sink
  with_publisher-Connected (err e, w) writer y found on h = (e, y, refl, on, found)
  with_publisher-Connected (ok publisher, w) writer y found on h = (h.0, rw (on))

  start_kafka-Connected :
      (enabled : Bool) (writer : Option AuditWriter) (w : World (System Y))
      → cfg.kafka_enabled ≡ enabled
      → HasSinks writer none w
      → Connected (start_kafka o cfg enabled w) writer
  unfolding start_kafka
  start_kafka-Connected false writer w off h = (h.0, h.1 ∙ sym (rw off))
  start_kafka-Connected true writer w on h =
      with_publisher-Connected _ writer w.outside.rest refl on h

  listening-Outcome :
      (stores : Stores P C) (s : Started Y P C K) (found : Option Error × World (System Y)) (y : Y)
      → (o.listen cfg.grpc_addr y).0 ≡ found.0
      → IsUp stores s found.1
      → Outcome stores (listening o cfg s found)
  listening-Outcome stores s (none, w) y l up_then = up s w up_then
  listening-Outcome stores s (some e, w) y l up_then = no_port e y w l

  with_rules-Outcome :
      (stores : Stores P C) (publisher : Option K) (y : Y)
      (found : Result Error (EngineHolder (System Y))) (w : World (System Y))
      → load_engine
          (provider o cfg)
          (decision_sink o cfg stores)
          cfg.rules_path
          (o.directory cfg.rules_path)
          (loader_environment o cfg (value_of stores.redis) y)
        ≡ found
      → HasSinks (writer_for stores.postgres) (kafka_for cfg.kafka_enabled) w
      → Outcome stores (with_rules o cfg stores publisher found w)
  with_rules-Outcome stores publisher y (err e) w l h =
      no_rules e y w (load_engine-failed (provider o cfg) (decision_sink o cfg stores) _ _ _ e l)
  with_rules-Outcome stores publisher y (ok holder) w l h =
      let s : Started Y P C K = record {
        stores = stores;
        publisher = publisher;
        sink = decision_sink o cfg stores;
        holder = holder;
      } in
      listening-Outcome stores s (step_outside (o.listen cfg.grpc_addr) w) w.outside.rest refl
        (record {
          stores_kept = refl;
          sink_made = refl;
          read_in = y;
          loads = l;
          serves = started _ l;
          has_sinks = h;
        })

  with_sinks-Outcome :
      (stores : Stores P C) (found : Result Fatal (Option K) × World (System Y))
      → Connected found (writer_for stores.postgres)
      → Outcome stores (with_sinks o cfg stores found)
  with_sinks-Outcome stores (err fatal, w) (e, y, is_kafka, on, failed) =
      subst (λ f. Outcome stores (err f, w)) (sym is_kafka) (no_publisher e y w on failed)
  with_sinks-Outcome stores (ok publisher, w) h =
      with_rules-Outcome stores publisher w.outside.rest _ w refl h

  pub start_lem :
      (w : World (System Y))
      → w.outside.audit_writer ≡ none
      → w.outside.kafka_sink ≡ none
      → Outcome (open_stores o cfg w).0 (start o cfg w)
  unfolding start open_stores
  start_lem w unaudited unpublished =
      let (stores, w1) = open_stores o cfg w in
      with_sinks-Outcome stores _ (
        start_kafka-Connected cfg.kafka_enabled (writer_for stores.postgres) _ refl
          (start_audit_writer-HasSinks stores.postgres w1 (unaudited, unpublished)))
