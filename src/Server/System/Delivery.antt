-- ===== src/Server/System/Delivery.antt =====
-- What a decision leaves in the sinks of cmd/server/main.go.
use policy_decision_service.Prelude.{
  ◌-◌, ◌/◌, Bool, true, [], ◌∷◌, some, none, ◌≡◌, sym, subst, arith, ◌∙◌, ap, ok,
}
use policy_decision_service.Telemetry.{World, Host, read_clock}
use policy_decision_service.Engine.Types.{DecideRequest, DecideResponse, AuditRecord}
use policy_decision_service.Engine.Evaluate.{RuleEngine, audit_record, evaluate}
use policy_decision_service.Engine.Evaluate.Audit.{deliver, evaluate-with_audit_sink}
use policy_decision_service.Engine.Rules.{AuditSink}
use policy_decision_service.Sink.Multi.{multi_enqueue}
use policy_decision_service.Store.Audit.{AuditWriter}
use policy_decision_service.Store.Audit
use policy_decision_service.Sink.Kafka.{KafkaSink}
use policy_decision_service.Sink.Kafka
use policy_decision_service.Server.{audited, choose_sink}
use policy_decision_service.Server.System.{
  System, within, enqueue_audit, enqueue_kafka, set_audit_writer, set_kafka_sink, audit_sink,
  kafka_decision_sink, decision_sinks,
}

module _ {Y : Type 0} (host : Host Y) where
  audit-keeps_kafka :
      (r : AuditRecord) (a : AuditWriter) (w : World (System Y))
      → (Audit.enqueue (within host) r a w).1.outside.kafka_sink ≡ w.outside.kafka_sink
  unfolding Audit.enqueue
  audit-keeps_kafka r a w = ground arith

  offer-keeps_audit :
      (stop pick : Bool) (r : AuditRecord) (k : KafkaSink) (w : World (System Y))
      → (Kafka.offer stop pick r k w).1.outside.audit_writer ≡ w.outside.audit_writer
  unfolding Kafka.offer
  offer-keeps_audit stop pick r k w = ground arith

  kafka-keeps_audit :
      (pick : Bool) (r : AuditRecord) (k : KafkaSink) (w : World (System Y))
      → (Kafka.enqueue (within host) pick r k w).1.outside.audit_writer ≡ w.outside.audit_writer
  unfolding Kafka.enqueue Kafka.offer
  kafka-keeps_audit pick r k w = ground arith

  audit_sink-some :
      (r : AuditRecord) (a : AuditWriter) (w : World (System Y))
      → w.outside.audit_writer ≡ some a
      → audit_sink host r w ≡ set_audit_writer host (Audit.enqueue (within host) r a w)
  audit_sink-some r a w at = ap (λ o. enqueue_audit host o r w) at

  kafka_decision_sink-some :
      (pick : Bool) (r : AuditRecord) (k : KafkaSink) (w : World (System Y))
      → w.outside.kafka_sink ≡ some k
      → kafka_decision_sink host pick r w
        ≡ set_kafka_sink host (Kafka.enqueue (within host) pick r k w)
  kafka_decision_sink-some pick r k w at = ap (λ o. enqueue_kafka host pick o r w) at

  -- What the two sinks hold after a record was handed to both.
  pub record BothOffered (pick : Bool) (r : AuditRecord) (a : AuditWriter) (k : KafkaSink)
      (w after : World (System Y)) : Type 0 where
    pub audited : after.outside.audit_writer ≡ some (Audit.enqueue (within host) r a w).0
    pub published :
        after.outside.kafka_sink
        ≡ some (Kafka.enqueue (within host) pick r k (audit_sink host r w)).0

  both_sinks :
      (pick : Bool) (r : AuditRecord) (a : AuditWriter) (k : KafkaSink) (w : World (System Y))
      → w.outside.audit_writer ≡ some a
      → w.outside.kafka_sink ≡ some k
      → BothOffered pick r a k w (kafka_decision_sink host pick r (audit_sink host r w))
  both_sinks pick r a k w at at' =
      let w1 = audit_sink host r w in
      let first = audit_sink-some r a w at in
      let still : w1.outside.kafka_sink ≡ some k =
        ap (λ v. v.outside.kafka_sink) first ∙ audit-keeps_kafka r a w ∙ at' in
      let second = kafka_decision_sink-some pick r k w1 still in
      record {
        audited =
            ap (λ v. v.outside.audit_writer) second
            ∙ kafka-keeps_audit pick r k w1
            ∙ ap (λ v. v.outside.audit_writer) first;
        published = ap (λ v. v.outside.kafka_sink) second;
      }

  -- With both sinks, a decision is the one without a sink, and its record is offered once to the
  -- audit writer and once to the Kafka sink: what the writer does with it does not depend on the
  -- Kafka sink, which may be full or closed.
  pub evaluate-both_sinks :
      (pick : Bool) (e : RuleEngine (System Y)) (req : DecideRequest) (w w1 : World (System Y))
      (resp : DecideResponse) (a : AuditWriter) (k : KafkaSink)
      → e.audit ≡ none
      → evaluate (within host) e req w ≡ (ok resp, w1)
      → w1.outside.audit_writer ≡ some a
      → w1.outside.kafka_sink ≡ some k
      → let (t, w2) = read_clock (within host) w1 in
        let r = audit_record req resp ((t - (read_clock (within host) w).0) / 1000) in
        let engine = audited (choose_sink (decision_sinks host pick true true)) e in
        ((evaluate (within host) engine req w).0 ≡ ok resp)
        × BothOffered pick r a k w2 (evaluate (within host) engine req w).1
  unfolding decision_sinks choose_sink multi_enqueue deliver
  evaluate-both_sinks pick e req w w1 resp a k unaudited runs at at' =
      let both : AuditSink (System Y) =
        multi_enqueue (some (audit_sink host) ∷ some (kafka_decision_sink host pick) ∷ []) in
      let same =
        evaluate-with_audit_sink (within host) e both req w unaudited
        ∙ ap (deliver (within host) both req (read_clock (within host) w).0) runs in
      let (t, w2) = read_clock (within host) w1 in
      let r = audit_record req resp ((t - (read_clock (within host) w).0) / 1000) in
      (
        ap (λ o. o.0) same,
        subst (λ o. BothOffered pick r a k w2 o.1) (sym same) (both_sinks pick r a k w2 at at'),
      )
