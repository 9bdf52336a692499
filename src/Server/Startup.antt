-- ===== src/Server/Startup.antt =====
-- The start of `main` in cmd/server/main.go, up to the first call that is served: the stores, the
-- sinks, the rules and the port of gRPC. The goroutines are started here and run later; the log is
-- left out. An error that is fatal ends the process.
pub mod Outcome
pub mod Offline
use policy_decision_service.Prelude.{
  String, Bool, true, false, Option, some, none, Result, ok, err, if◌then◌else◌,
}
use policy_decision_service.Errors.{Error}
use policy_decision_service.Telemetry.{World, Host}
use policy_decision_service.Config.{Config}
use policy_decision_service.Engine.Rules.{AuditSink, FeatureProvider}
use policy_decision_service.Rules.Loader.{Environment, is_some}
use policy_decision_service.Rules.RateLimit as RateLimit
use policy_decision_service.Profile.{Http, new_http_feature_provider, get_actor_features}
use policy_decision_service.Store.Audit.{new_audit_writer}
use policy_decision_service.Store.Postgres.{Driver, Postgres, new_postgres, pool_of}
use policy_decision_service.Store.Postgres as Postgres
use policy_decision_service.Store.Redis.{Library, Redis, new_redis, client_of}
use policy_decision_service.Store.Redis as Redis
use policy_decision_service.Sink.Franz.{Franz, new_franz_publisher}
use policy_decision_service.Sink.Kafka.{open_kafka_sink}
use policy_decision_service.Api.Http.{Check}
use policy_decision_service.Server.{EngineHolder, choose_sink, load_engine, ready}
use policy_decision_service.Server.System.{
  System, within, set_audit_writer, set_kafka_sink, decision_sinks,
}

-- `logger.Fatal()`
pub data Fatal : Type 0 where
  kafka_publisher_init_failed rules_load_failed grpc_listen_failed : Error → Fatal

-- What lies outside: the libraries of the stores, of Kafka and of HTTP, the files, the commands
-- that a Redis client serves, `filepath.Dir`, and the listening socket. `pick_done` is the choice
-- of a select in the Kafka sink.
pub record Outside (Y P O C K F : Type 0) : Type 0 where
  pub host : Host Y
  pub driver : Driver Y P
  pub library : Library Y O C
  pub franz : Franz Y K
  pub http : Http (System Y)
  pub environment : Y → Environment (System Y) F
  pub commands : C → RateLimit.Redis (System Y)
  pub directory : String → String
  pub listen : String → Y → Option Error × Y
  pub pick_done : Bool

-- The two stores, each with the error of its opening.
pub record Stores (P C : Type 0) : Type 0 where
  pub postgres : Result Error (Postgres P)
  pub redis : Result Error (Redis C)

pub record Started (Y P C K : Type 0) : Type 0 where
  pub stores : Stores P C
  pub publisher : Option K
  pub sink : Option (AuditSink (System Y))
  pub holder : EngineHolder (System Y)

-- Go's two results of a call: a nil pointer where there is an error.
abbrev pub value_of : {A : Type 0} → Result Error A → Option A
value_of (ok a) = some a
value_of (err e) = none

abbrev pub error_of : {A : Type 0} → Result Error A → Option Error
error_of (ok a) = none
error_of (err e) = some e

-- A library's step, which leaves the sinks of the process alone.
abbrev pub step_outside : {Y A : Type 0} → (Y → A × Y) → World (System Y) → A × World (System Y)
step_outside f w =
    let (a, y) = f w.outside.rest in (a, record w { outside = record w.outside { rest = y } })

module _ {Y P O C K F : Type 0} (o : Outside Y P O C K F) (cfg : Config) where
  abbrev pub provider : FeatureProvider (System Y)
  provider =
      get_actor_features o.http (within o.host)
        (new_http_feature_provider cfg.feature_provider_url cfg.feature_provider_timeout)

  -- The loader's options hold the Redis client, if there is one.
  abbrev pub loader_environment : Option (Redis C) → Y → Environment (System Y) F
  loader_environment redis y = record (o.environment y) {
    redis = elim (client_of redis) [ none ↦ none | some client ↦ some (o.commands client) ];
  }

  -- The audit writer, if PostgreSQL was opened.
  unfoldable pub start_audit_writer : Option (Postgres P) → World (System Y) → World (System Y)
  start_audit_writer none w = w
  start_audit_writer (some postgres) w = set_audit_writer o.host (
    new_audit_writer (is_some (pool_of (some postgres))) cfg.audit_queue_size cfg.audit_batch_size,
    w,
  )

  abbrev pub with_publisher :
      Result Error K × World (System Y) → Result Fatal (Option K) × World (System Y)
  with_publisher (err e, w) = (err (kafka_publisher_init_failed e), w)
  with_publisher (ok publisher, w) = (
    ok (some publisher),
    set_kafka_sink o.host (open_kafka_sink cfg.kafka_decision_topic cfg.kafka_queue_size w),
  )

  -- The publisher and the Kafka sink, if Kafka is enabled.
  unfoldable pub start_kafka : Bool → World (System Y) → Result Fatal (Option K) × World (System Y)
  start_kafka false w = (ok none, w)
  start_kafka true w =
      with_publisher
        (step_outside (new_franz_publisher o.franz cfg.kafka_brokers cfg.kafka_client_id) w)

  abbrev pub decision_sink : Stores P C → Option (AuditSink (System Y))
  decision_sink stores =
      choose_sink
        (decision_sinks o.host o.pick_done (is_some (value_of stores.postgres)) cfg.kafka_enabled)

  abbrev pub listening :
      Started Y P C K
      → Option Error × World (System Y)
      → Result Fatal (Started Y P C K) × World (System Y)
  listening s (some e, w) = (err (grpc_listen_failed e), w)
  listening s (none, w) = (ok s, w)

  abbrev pub with_rules :
      Stores P C
      → Option K
      → Result Error (EngineHolder (System Y))
      → World (System Y)
      → Result Fatal (Started Y P C K) × World (System Y)
  with_rules stores publisher (err e) w = (err (rules_load_failed e), w)
  with_rules stores publisher (ok holder) w =
      let s : Started Y P C K = record {
        stores = stores;
        publisher = publisher;
        sink = decision_sink stores;
        holder = holder;
      } in
      listening s (step_outside (o.listen cfg.grpc_addr) w)

  abbrev pub with_sinks :
      Stores P C
      → Result Fatal (Option K) × World (System Y)
      → Result Fatal (Started Y P C K) × World (System Y)
  with_sinks stores (err fatal, w) = (err fatal, w)
  with_sinks stores (ok publisher, w) =
      let env = loader_environment (value_of stores.redis) w.outside.rest in
      with_rules stores publisher
        (load_engine (provider) (decision_sink stores) cfg.rules_path (o.directory cfg.rules_path)
          env)
        w

  unfoldable pub open_stores : World (System Y) → Stores P C × World (System Y)
  open_stores w =
      let (postgres, w1) = step_outside (new_postgres o.driver cfg.database_url) w in
      let (redis, w2) = step_outside (new_redis o.library cfg.redis_url) w1 in
      (record { postgres = postgres; redis = redis }, w2)

  -- `main` up to `net.Listen`
  unfoldable pub start : World (System Y) → Result Fatal (Started Y P C K) × World (System Y)
  start w =
      let (stores, w1) = open_stores w in
      with_sinks stores
        (start_kafka cfg.kafka_enabled (start_audit_writer (value_of stores.postgres) w1))

  -- The health of a store that was opened. A store that was not is never asked.
  abbrev pub probe : {A : Type 0} → (A → Y → Option Error × Y) → Result Error A → Check (System Y)
  probe health (err e) w = (some e, w)
  probe health (ok store) w = step_outside (health store) w

  -- The readiness check of the server that has started.
  abbrev pub ready_check : Stores P C → Check (System Y)
  ready_check stores =
      ready (error_of stores.postgres) (error_of stores.redis)
        (probe (Postgres.health o.driver) stores.postgres)
        (probe (Redis.health o.library) stores.redis)
