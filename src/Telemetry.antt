-- ===== src/Telemetry.antt =====
-- internal/telemetry/metrics.go: the collectors, a constructor for each with its labels and, for a
-- histogram or a gauge, the value (a duration in nanoseconds). A counter is incremented by one
-- each time. The world of the handlers is the updates made so far, the newest first, and what
-- lies outside of the process: `X` with the operations of `Host`.
pub mod Labels
use policy_decision_service.Prelude.{ℕ, String, Bool, Option, List, [], ◌∷◌, if◌then◌else◌}
use policy_decision_service.Errors.{Error}

pub data Update : Type 0 where
  decisions_total : (verdict action_type client : String) → Update
  decision_latency : (action_type : String) (elapsed : ℕ) → Update
  rule_evaluations_total : (rule_id : String) (matched : Bool) → Update
  rule_eval_errors_total : (rule_id : String) → Update
  combiner_dep_errors_total : (rule_id dep_id : String) → Update
  feature_lookup_latency : (elapsed : ℕ) → Update
  feature_lookup_degraded_total : Update
  kafka_sink_queue_depth : (depth : ℕ) → Update
  kafka_sink_dropped_total : Update
  kafka_sink_publish_errors_total : Update
  audit_write_errors_total : Update

pub data Kind : Type 0 where
  counter histogram gauge : Kind

-- What a collector is registered with.
pub record Collector : Type 0 where
  pub name : String
  pub kind : Kind
  pub labels : List String

abbrev labelled : String → Kind → List String → Collector
labelled name kind labels = record { name = name; kind = kind; labels = labels }

-- The collector that an update goes to.
unfoldable pub collector_of : Update → Collector
collector_of (decisions_total verdict action_type client) =
    labelled "pds_decisions_total" counter ("verdict" ∷ "action_type" ∷ "client" ∷ [])
collector_of (decision_latency action_type elapsed) =
    labelled "pds_decision_latency_seconds" histogram ("action_type" ∷ [])
collector_of (rule_evaluations_total rule_id matched) =
    labelled "pds_rule_evaluations_total" counter ("rule_id" ∷ "matched" ∷ [])
collector_of (rule_eval_errors_total rule_id) =
    labelled "pds_rule_eval_errors_total" counter ("rule_id" ∷ [])
collector_of (combiner_dep_errors_total rule_id dep_id) =
    labelled "pds_combiner_dependency_errors_total" counter ("rule_id" ∷ "dep_id" ∷ [])
collector_of (feature_lookup_latency elapsed) =
    labelled "pds_feature_lookup_latency_seconds" histogram []
collector_of feature_lookup_degraded_total = labelled "pds_feature_lookup_degraded_total" counter []
collector_of (kafka_sink_queue_depth depth) = labelled "pds_kafka_sink_queue_depth" gauge []
collector_of kafka_sink_dropped_total = labelled "pds_kafka_sink_dropped_total" counter []
collector_of kafka_sink_publish_errors_total =
    labelled "pds_kafka_sink_publish_errors_total" counter []
collector_of audit_write_errors_total = labelled "pds_audit_write_errors_total" counter []

-- The label values of an update, as its call passes them.
unfoldable pub label_values : Update → List String
label_values (decisions_total verdict action_type client) = verdict ∷ action_type ∷ client ∷ []
label_values (decision_latency action_type elapsed) = action_type ∷ []
label_values (rule_evaluations_total rule_id matched) =
    rule_id ∷ (if matched then "true" else "false") ∷ []
label_values (rule_eval_errors_total rule_id) = rule_id ∷ []
label_values (combiner_dep_errors_total rule_id dep_id) = rule_id ∷ dep_id ∷ []
label_values (feature_lookup_latency elapsed) = []
label_values feature_lookup_degraded_total = []
label_values (kafka_sink_queue_depth depth) = []
label_values kafka_sink_dropped_total = []
label_values kafka_sink_publish_errors_total = []
label_values audit_write_errors_total = []

pub record World (X : Type 0) : Type 0 where
  pub updates : List Update
  pub outside : X

-- An update of a collector.
abbrev pub emit : {X : Type 0} → Update → World X → World X
emit u w = record w { updates = u ∷ w.updates }

-- The context of the call, the monotonic clock in nanoseconds, and `uuid.NewString`.
pub record Host (X : Type 0) : Type 0 where
  pub ctx_err : X → Option Error × X
  pub now : X → ℕ × X
  pub new_uuid : X → String × X

module _ {X : Type 0} (host : Host X) where
  abbrev pub poll : World X → Option Error × World X
  poll w = let (e, x) = host.ctx_err w.outside in (e, record w { outside = x })

  abbrev pub read_clock : World X → ℕ × World X
  read_clock w = let (t, x) = host.now w.outside in (t, record w { outside = x })

  abbrev pub draw_uuid : World X → String × World X
  draw_uuid w = let (u, x) = host.new_uuid w.outside in (u, record w { outside = x })
