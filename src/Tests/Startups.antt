-- ===== src/Tests/Startups.antt =====
-- A process over a database that answers, without Redis, with Kafka enabled, and a rules file in
-- which no rate limit is enabled.
use policy_decision_service.Prelude.{
  ℕ, suc, ◌-◌, ◌/◌, true, false, List, [], ◌∷◌, some, none, ◌≡◌, refl, ap, ok, err,
}
use policy_decision_service.Prelude.Int.{pos}
use policy_decision_service.Prelude.Text.{trim_space}
use policy_decision_service.Errors.{Error, message}
use policy_decision_service.Telemetry.{World, read_clock}
use policy_decision_service.Config.{Config}
use policy_decision_service.Engine.Types.{DecideResponse}
use policy_decision_service.Engine.Rules.{Rule, plain}
use policy_decision_service.Engine.Combine.{combine, tally_all, tally, raise}
use policy_decision_service.Engine.Evaluate.{
  no_features, RuleEngine, evaluate, evaluate_live, evaluate_rules, evaluate_rule, call, prepare,
  conclude, enqueue_audit, audit_record,
}
use policy_decision_service.Rules.Action.{validate}
use policy_decision_service.Rules.Raw.{dependencies, known_rule_type, rule_enabled}
use policy_decision_service.Rules.Order.{index, visit_all, visit_found, visit, order_rules}
use policy_decision_service.Rules.Cel.{new_cel_rule, cel_rule}
use policy_decision_service.Rules.Combiner.{new_combiner_rule, combiner_rule}
use policy_decision_service.Rules.Loader.{
  Environment, check_rules, check_refs, check_references, build_cel, build_combiner, build_rule,
  build_rules, load_rules, load_bytes, load_file,
}
use policy_decision_service.Store.Audit.{AuditWriter, new_audit_writer}
use policy_decision_service.Store.Postgres.{new_postgres}
use policy_decision_service.Store.Redis.{new_redis}
use policy_decision_service.Sink.Franz.{new_franz_publisher}
use policy_decision_service.Sink.Kafka.{KafkaSink, new_kafka_sink}
use policy_decision_service.Server.{
  build_engine, new_engine_holder, load_engine, audited, choose_sink,
}
use policy_decision_service.Server.System.{System, within, decision_sinks}
use policy_decision_service.Server.System.Delivery.{BothOffered, evaluate-both_sinks}
use policy_decision_service.Server.Startup.{
  Outside, Stores, Started, open_stores, start, start_audit_writer, start_kafka, provider,
  decision_sink, loader_environment,
}
use policy_decision_service.Server.Startup.Outcome.{Outcome}
use policy_decision_service.Server.Startup.Offline.{OfflineFile, start-OfflineFile}
use policy_decision_service.Tests.Data.{
  host, request, rule_file, always, float, cel, combiner, matching,
}

abbrev fresh : World (System ℕ)
fresh = record {
  updates = [];
  outside = record { audit_writer = none; kafka_sink = none; rest = 7 };
}

abbrev config : Config
config = record {
  http_addr = ":8080";
  grpc_addr = ":9090";
  metrics_addr = ":8081";
  database_url = "postgres://d";
  redis_url = "redis://r";
  rules_path = "rules.yaml";
  audit_queue_size = pos 4;
  audit_batch_size = pos 2;
  fail_open = true;
  feature_provider_url = "";
  feature_provider_timeout = pos 100;
  kafka_enabled = true;
  kafka_brokers = "b:9092" ∷ [];
  kafka_decision_topic = "t";
  kafka_client_id = "pds";
  kafka_queue_size = pos 1;
}

abbrev files : Environment (System ℕ) ℕ
files = record {
  host = within host;
  read_file = λ path. ok "";
  unmarshal = λ text. ok rule_file;
  sha256_hex = λ text. "00";
  parse_duration = λ text. ok (pos 60);
  compile = λ expr. ok always;
  wide = λ c. c;
  order = λ n edges. edges;
  float = float;
  redis = none;
  unix_now = λ x. (x.rest, x);
  is_abs = λ path. true;
  join_path = λ base path. path;
}

abbrev down : Error
down = message "connection refused"

abbrev outside : Outside ℕ (Unit {0}) (Unit {0}) (Unit {0}) (Unit {0}) ℕ
outside = record {
  host = host;
  driver = record {
    connect = λ url x. (ok tt, suc x);
    ping = λ pool x. (none, x);
    close = λ pool x. x - 1;
  };
  library = record {
    parse_url = λ url. ok tt;
    new_client = λ options x. (tt, x);
    ping = λ client x. (some down, x);
    close = λ client x. (none, x);
  };
  franz = record {
    new_client = λ options x. (ok tt, x);
    produce_sync = λ client timeout topic key value x. (none, x);
    close = λ client x. x;
  };
  http = record {
    path_escape = λ s. s;
    new_request = λ s. none;
    send = λ timeout endpoint x. (err down, x);
    decode = λ body. ok no_features;
  };
  environment = λ x. files;
  commands = λ client. record {
    incr = λ key x. (err down, x);
    expire = λ key ttl x. (err down, x);
    get = λ key x. (err down, x);
  };
  directory = λ path. ".";
  listen = λ addr x. (none, x);
  pick_done = false;
}

abbrev loader : Environment (System ℕ) ℕ
loader = loader_environment outside config none 8

abbrev rules_loaded : List (Rule (System ℕ))
rules_loaded = cel_rule (within host) cel ∷ combiner_rule (within host) combiner ∷ []

abbrev stores : Stores (Unit {0}) (Unit {0})
stores = record { postgres = ok (record { pool = tt }); redis = err down }

abbrev running : Started ℕ (Unit {0}) (Unit {0}) (Unit {0})
running = record {
  stores = stores;
  publisher = some tt;
  sink = decision_sink outside config stores;
  holder = record {
    current = some (
        build_engine (provider outside config) (decision_sink outside config stores)
          (record { version = "sha256:00"; rules = rules_loaded }));
  };
}

stores_opened : (open_stores outside config fresh).0.redis ≡ err down
unfolding open_stores new_redis
stores_opened = refl

runs : start outside config fresh ≡ (ok running, (start outside config fresh).1)
unfolding start open_stores new_postgres new_redis start_audit_writer start_kafka
    new_franz_publisher load_engine new_engine_holder load_file load_bytes load_rules check_rules
    check_references check_refs order_rules visit visit_all visit_found index dependencies
    build_rules build_rule build_cel build_combiner new_cel_rule new_combiner_rule validate
    known_rule_type rule_enabled trim_space
runs = refl

start-OfflineFile_example :
    (y : ℕ) × OfflineFile (loader_environment outside config none y) "rules.yaml"
start-OfflineFile_example =
    start-OfflineFile outside config fresh (start outside config fresh).1 running down refl refl
      stores_opened runs

-- Both sinks, and an engine whose only rule flags.
abbrev writer : AuditWriter
writer = new_audit_writer true (pos 4) (pos 2)

abbrev sink : KafkaSink
sink = new_kafka_sink "t" (pos 1)

abbrev with_both : World (System ℕ)
with_both = record fresh {
  outside = record fresh.outside { audit_writer = some writer; kafka_sink = some sink };
}

abbrev flagging : RuleEngine (System ℕ)
flagging = record {
  rules_version = "v1";
  rules = record { id = "a"; body = plain (λ s w. (ok (matching "a" "flag"), w)) } ∷ [];
  audit = none;
  feature_provider = none;
}

abbrev flagged : DecideResponse
flagged = record {
  decision_id = "id";
  verdict = "flag";
  score = 0;
  reasons = record { code = "code"; rule = "a"; detail = "" } ∷ [];
  evaluated_rules = "a" ∷ [];
  rules_version = "v1";
  latency_ms = 4;
  metadata = none;
}

decides : (evaluate (within host) flagging request with_both).0 ≡ ok flagged
unfolding evaluate evaluate_live prepare evaluate_rules evaluate_rule call conclude enqueue_audit
    combine tally_all tally raise
decides = refl

abbrev decided : World (System ℕ)
decided = (evaluate (within host) flagging request with_both).1

decides_all : evaluate (within host) flagging request with_both ≡ (ok flagged, decided)
decides_all = ap (λ r. (r, decided)) decides

sinks_kept : (decided.outside.audit_writer ≡ some writer) × (decided.outside.kafka_sink ≡ some sink)
unfolding evaluate evaluate_live prepare evaluate_rules evaluate_rule call conclude enqueue_audit
    combine tally_all tally raise
sinks_kept = (refl, refl)

evaluate-both_sinks_example :
    let (t, w2) = read_clock (within host) decided in
    let r = audit_record request flagged ((t - 7) / 1000) in
    let engine = audited (choose_sink (decision_sinks host false true true)) flagging in
    ((evaluate (within host) engine request with_both).0 ≡ ok flagged)
    × BothOffered host false r writer sink w2 (evaluate (within host) engine request with_both).1
evaluate-both_sinks_example =
    evaluate-both_sinks host false flagging request with_both decided flagged writer sink refl
      decides_all sinks_kept.0 sinks_kept.1
