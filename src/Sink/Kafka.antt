-- ===== src/Sink/Kafka.antt =====
-- internal/sink/kafka.go: the bounded queue in front of Kafka, and the goroutine that publishes.
-- The queue is the contents of the channel; the mutex makes `enqueue` and `close` atomic.
pub mod Steps
pub mod Running
pub mod Delivery
use policy_decision_service.Prelude.{
  ℕ, suc, ◌+◌, String, Bool, true, false, not, ◌&&◌, ◌||◌, List, [], ◌∷◌, ◌++◌, Option, some, none,
  ◌==◌, Result, ok, err, length, ltb, if◌then◌else◌,
}
use policy_decision_service.Prelude.Int.{ℤ, pos_part, is_positive}
use policy_decision_service.Errors.{Error}
use policy_decision_service.Telemetry.{
  World, Host, poll, draw_uuid, emit, kafka_sink_queue_depth, kafka_sink_dropped_total,
  kafka_sink_publish_errors_total,
}
use policy_decision_service.Engine.Types.{Verdict, Reason, AuditRecord}

pub record DecisionEvent : Type 0 where
  pub event_id : String
  pub topic_version : String
  pub actor_id : String
  pub action_type : String
  pub platform : String
  pub verdict : Verdict
  pub score : ℕ
  pub reasons : List Reason
  pub decision_id : String
  pub client : String
  pub occurred_at : String

-- The publisher, which may be nil, the JSON encoder, the wall clock as RFC 3339 text, and whether the select in
-- `drain` takes the end of its context: it may once the context has ended.
pub record Publishing (X : Type 0) : Type 0 where
  pub publisher : Option (String → String → String → X → Option Error × X)
  pub marshal : DecisionEvent → Result Error String
  pub now_text : X → String × X
  pub drain_ends : X → Bool × X

pub record KafkaSink : Type 0 where
  pub topic : String
  pub queue : List AuditRecord
  pub capacity : ℕ
  pub closed : Bool
  pub dropped : ℕ

-- The sink of `NewKafkaDecisionSink`
unfoldable pub new_kafka_sink : String → ℤ → KafkaSink
new_kafka_sink topic queue_size = record {
  topic = if topic == "" then "pds.decisions.v1" else topic;
  queue = [];
  capacity = if is_positive queue_size then pos_part queue_size else 10000;
  closed = false;
  dropped = 0;
}

-- `Dropped`
unfoldable pub dropped_records : Option KafkaSink → ℕ
dropped_records none = 0
dropped_records (some s) = s.dropped

abbrev pub is_done : Option Error → Bool
is_done none = false
is_done (some e) = true

module _ {X : Type 0} where
  -- `updateQueueDepth`
  abbrev pub update_queue_depth : KafkaSink → World X → World X
  update_queue_depth s w = emit (kafka_sink_queue_depth (length s.queue)) w

  -- `NewKafkaDecisionSink`, with its update of the gauge
  unfoldable pub open_kafka_sink : String → ℤ → World X → KafkaSink × World X
  open_kafka_sink topic queue_size w =
      let s = new_kafka_sink topic queue_size in (s, update_queue_depth s w)

  -- The select in `Enqueue`. Where the context is done and the queue has room, Go picks either
  -- case: `pick_done` is that choice.
  unfoldable pub offer : Bool → Bool → AuditRecord → KafkaSink → World X → KafkaSink × World X
  offer is_done pick_done r s w =
      let room = ltb (length s.queue) s.capacity in
      if is_done && (pick_done || not room)
      then (s, w)
      else if room
      then (let s' : KafkaSink = record s { queue = s.queue ++ r ∷ [] } in
          (s', update_queue_depth s' w))
      else (
        record s { dropped = s.dropped + 1 },
        update_queue_depth s (emit kafka_sink_dropped_total w),
      )

  module _ (host : Host X) where
    -- `Enqueue`
    unfoldable pub enqueue : Bool → AuditRecord → KafkaSink → World X → KafkaSink × World X
    enqueue pick_done r s w =
        let (first, w1) = poll host w in
        let (second, w2) = poll host w1 in
        if is_done first
        then (s, w1)
        else if s.closed
        then (s, w1)
        else offer (is_done second) pick_done r s w2

    module _ (p : Publishing X) where
      abbrev pub count_error : Option Error → World X → Option Error × World X
      count_error none w = (none, w)
      count_error (some e) w = (some e, emit kafka_sink_publish_errors_total w)

      -- The encoded event is handed to the publisher.
      abbrev pub send :
          (String → String → String → X → Option Error × X)
          → String
          → AuditRecord
          → Result Error String
          → World X
          → Option Error × World X
      send publish_to topic r (err e) w = count_error (some e) w
      send publish_to topic r (ok payload) w =
          let (e, x) = publish_to topic r.actor_id payload w.outside in
          count_error e (record w { outside = x })

      -- `publish` behind the test for a nil publisher
      abbrev pub publish_event :
          (String → String → String → X → Option Error × X)
          → String
          → AuditRecord
          → World X
          → Option Error × World X
      publish_event publish_to topic r w =
          let (id, w1) = draw_uuid host w in
          let (at, x) = p.now_text w1.outside in
          let event : DecisionEvent = record {
            event_id = id;
            topic_version = topic;
            actor_id = r.actor_id;
            action_type = r.action_type;
            platform = r.platform;
            verdict = r.verdict;
            score = r.score;
            reasons = r.reasons;
            decision_id = r.decision_id;
            client = r.client;
            occurred_at = at;
          } in
          send publish_to topic r (p.marshal event) (record w1 { outside = x })

      unfoldable pub publish : String → AuditRecord → World X → Option Error × World X
      publish topic r w = elim p.publisher [
        | none ↦ (none, w)
        | some publish_to ↦ publish_event publish_to topic r w
      ]

      unfoldable pub publish_and_count : String → AuditRecord → World X → World X
      publish_and_count topic r w = (publish topic r w).1

      -- The first loop of `drain`, over its arguments.
      unfoldable pub publish_initial : List AuditRecord → KafkaSink → World X → World X
      publish_initial [] s w = w
      publish_initial (r ∷ rs) s w =
          publish_initial rs s (update_queue_depth s (publish_and_count s.topic r w))

      -- The second loop of `drain`. Nothing is queued any more, since the sink is closed. The
      -- result has the records that are left when the context ends first.
      unfoldable pub drain_queue : String → List AuditRecord → World X → List AuditRecord × World X
      drain_queue topic [] w = ([], emit (kafka_sink_queue_depth 0) w)
      drain_queue topic (r ∷ rs) w =
          let (ends, x) = p.drain_ends w.outside in
          let w1 : World X = record w { outside = x } in
          let rest = drain_queue topic rs (
            emit (kafka_sink_queue_depth (length rs))
              (publish_and_count topic r (emit (kafka_sink_queue_depth (length rs)) w1))) in
          if ends then (r ∷ rs, emit (kafka_sink_queue_depth (suc (length rs))) w1) else rest

      -- `close`, then `drain`.
      unfoldable pub shut_down : List AuditRecord → KafkaSink → World X → KafkaSink × World X
      shut_down initial s w =
          let s' : KafkaSink = record s { closed = true } in
          let (left, w') = drain_queue s.topic s.queue (publish_initial initial s' w) in
          (record s' { queue = left }, w')

      -- The second case of the select in `Run`, for the record `r` that was received: whether the
      -- loop goes on, and the state.
      unfoldable pub receive :
          AuditRecord → List AuditRecord → KafkaSink → World X → Bool × KafkaSink × World X
      receive r rest s w =
          let s1 : KafkaSink = record s { queue = rest } in
          let (done, w1) = poll host (update_queue_depth s1 w) in
          if is_done done
          then (let (s2, w2) = shut_down (r ∷ []) s1 w1 in (false, s2, w2))
          else (true, s1, update_queue_depth s1 (publish_and_count s1.topic r w1))

      -- The receiving case of the select in `Run`, which waits for a record.
      abbrev pub take : List AuditRecord → KafkaSink → World X → Bool × KafkaSink × World X
      take [] s w = (true, s, w)
      take (r ∷ rest) s w = receive r rest s w

      -- The select in `Run`: `ends` is its choice of the context, which it has once that has ended.
      unfoldable pub turn : Bool → KafkaSink → World X → Bool × KafkaSink × World X
      turn ends s w =
          if ends then (let (s', w') = shut_down [] s w in (false, s', w')) else take s.queue s w
