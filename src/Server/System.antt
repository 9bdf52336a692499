-- ===== src/Server/System.antt =====
-- What the handlers of a process share beside the engine: the two sinks that `main` of
-- cmd/server/main.go makes. A sink that is not made is a nil pointer, whose `Enqueue` does nothing.
pub mod Delivery
use policy_decision_service.Prelude.{
  ℕ, String, Bool, true, false, List, [], ◌∷◌, ◌++◌, Option, some, none, if◌then◌else◌,
}
use policy_decision_service.Telemetry.{World, Host}
use policy_decision_service.Engine.Types.{AuditRecord}
use policy_decision_service.Engine.Rules.{AuditSink}
use policy_decision_service.Store.Audit.{AuditWriter}
use policy_decision_service.Store.Audit
use policy_decision_service.Sink.Kafka.{KafkaSink}
use policy_decision_service.Sink.Kafka

pub record System (Y : Type 0) : Type 0 where
  pub audit_writer : Option AuditWriter
  pub kafka_sink : Option KafkaSink
  pub rest : Y

module _ {Y : Type 0} (host : Host Y) where
  -- The host, seen by code that acts on the whole system.
  abbrev pub within : Host (System Y)
  within = record {
    ctx_err = λ s. let (e, y) = host.ctx_err s.rest in (e, record s { rest = y });
    now = λ s. let (t, y) = host.now s.rest in (t, record s { rest = y });
    new_uuid = λ s. let (u, y) = host.new_uuid s.rest in (u, record s { rest = y });
  }

  abbrev pub set_audit_writer : AuditWriter × World (System Y) → World (System Y)
  set_audit_writer (a, w) = record w { outside = record w.outside { audit_writer = some a } }

  abbrev pub set_kafka_sink : KafkaSink × World (System Y) → World (System Y)
  set_kafka_sink (k, w) = record w { outside = record w.outside { kafka_sink = some k } }

  -- `AuditWriter.Enqueue`, whose receiver may be nil
  abbrev pub enqueue_audit : Option AuditWriter → AuditSink (System Y)
  enqueue_audit none r w = w
  enqueue_audit (some a) r w = set_audit_writer (Audit.enqueue within r a w)

  -- The process's writer, as a sink
  abbrev pub audit_sink : AuditSink (System Y)
  audit_sink r w = enqueue_audit w.outside.audit_writer r w

  -- `KafkaDecisionSink.Enqueue`, whose receiver may be nil; `pick_done` is the choice of its select.
  abbrev pub enqueue_kafka : Bool → Option KafkaSink → AuditSink (System Y)
  enqueue_kafka pick_done none r w = w
  enqueue_kafka pick_done (some k) r w = set_kafka_sink (Kafka.enqueue within pick_done r k w)

  -- The process's Kafka sink, as a sink
  abbrev pub kafka_decision_sink : Bool → AuditSink (System Y)
  kafka_decision_sink pick_done r w = enqueue_kafka pick_done w.outside.kafka_sink r w

  -- `decisionSinks`: the writer if PostgreSQL was opened, and the Kafka sink if it is enabled.
  unfoldable pub decision_sinks : Bool → Bool → Bool → List (AuditSink (System Y))
  decision_sinks pick_done postgres kafka =
      (if postgres then audit_sink ∷ [] else [])
      ++ (if kafka then kafka_decision_sink pick_done ∷ [] else [])
