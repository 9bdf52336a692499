-- ===== src/Tests/Sinks.antt =====
-- A Kafka sink for one record, which two are offered to.
use policy_decision_service.Prelude.{
  ℕ, suc, String, true, false, List, [], ◌∷◌, ◌++◌, Option, some, none, ◌≡◌, refl, ok,
}
use policy_decision_service.Prelude.Int.{pos}
use policy_decision_service.Engine.Types.{AuditRecord}
use policy_decision_service.Sink.Kafka.{
  KafkaSink, Publishing, new_kafka_sink, offer, enqueue, shut_down, turn,
}
use policy_decision_service.Errors.{Error}
use policy_decision_service.Telemetry.{World, Host}
use policy_decision_service.Sink.Kafka.Delivery.{Logs, Handed, turn-Handed}
use policy_decision_service.Sink.Kafka.Steps.{
  Reaches, created, enqueued, IsSound, Reaches-IsSound, shut_down_drained,
}
use policy_decision_service.Tests.Data.{host, world, request, broken}

abbrev publishing : Publishing ℕ
publishing = record {
  publisher = some (λ topic key payload x. (none, suc x));
  marshal = λ event. ok "{}";
  now_text = λ x. ("now", x);
  drain_ends = λ x. (false, x);
}

abbrev pub entry : AuditRecord
entry = record {
  decision_id = "id";
  actor_id = "u1";
  action_type = "publish";
  platform = "web";
  verdict = "allow";
  score = 0;
  reasons = [];
  evaluated_rules = [];
  request = request;
  latency_us = 3;
  rules_version = "v1";
  client = "tests";
}

abbrev fresh : KafkaSink
fresh = new_kafka_sink "" (pos 1)

abbrev full : KafkaSink
full = record {
  topic = "pds.decisions.v1";
  queue = entry ∷ [];
  capacity = 1;
  closed = false;
  dropped = 1;
}

reached : Reaches host publishing "" (pos 1) (entry ∷ entry ∷ []) [] full
unfolding enqueue offer new_kafka_sink
reached = enqueued false entry world (enqueued false entry world created)

Reaches-IsSound_example : IsSound (entry ∷ entry ∷ []) [] full
Reaches-IsSound_example = Reaches-IsSound host publishing "" (pos 1) reached

shut_down_drained_example :
    ((shut_down host publishing [] full world).0.queue ≡ [])
    × ((shut_down host publishing [] full world).0.closed ≡ true)
    × ((enqueue host false entry (shut_down host publishing [] full world).0 world).0
        ≡ (shut_down host publishing [] full world).0)
shut_down_drained_example =
    shut_down_drained host publishing (λ x. refl) [] full world false entry world

-- What lies outside is the topics and keys that were published.
abbrev Published : Type 0
Published = List (String × String)

abbrev log_host : Host Published
log_host = record { ctx_err = λ x. (none, x); now = λ x. (0, x); new_uuid = λ x. ("id", x) }

abbrev publish_to : String → String → String → Published → Option Error × Published
publish_to topic key value x = (some broken, x ++ (topic, key) ∷ [])

abbrev log_publishing : Publishing Published
log_publishing = record {
  publisher = some publish_to;
  marshal = λ event. ok "{}";
  now_text = λ x. ("now", x);
  drain_ends = λ x. (false, x);
}

log_publishing-Logs : Logs log_host log_publishing publish_to (λ x. x)
log_publishing-Logs = record {
  there = refl;
  appends = λ topic key value x. refl;
  keeps_uuid = λ x. refl;
  keeps_ctx = λ x. refl;
  keeps_now = λ x. refl;
  keeps_drain = λ x. refl;
  encodes = λ event. ("{}", refl);
}

abbrev log_world : World Published
log_world = record { updates = []; outside = [] }

turn-Handed_example :
    Handed log_host log_publishing publish_to
      (λ x. x)
      log_publishing-Logs
      full.topic
      full.queue
      (turn log_host log_publishing true full log_world).1.queue
      log_world
      (turn log_host log_publishing true full log_world).2
turn-Handed_example =
    turn-Handed log_host log_publishing publish_to (λ x. x) log_publishing-Logs true full log_world
