-- ===== src/Telemetry/Labels.antt =====
-- The labels of the collectors of internal/telemetry/metrics.go.
use policy_decision_service.Prelude.{◌≡◌, refl, length}
use policy_decision_service.Telemetry.{
  Update, decisions_total, decision_latency, rule_evaluations_total, rule_eval_errors_total,
  combiner_dep_errors_total, feature_lookup_latency, feature_lookup_degraded_total,
  kafka_sink_queue_depth, kafka_sink_dropped_total, kafka_sink_publish_errors_total,
  audit_write_errors_total, collector_of, label_values,
}

-- Every update has a value for each label of its collector; `WithLabelValues` panics otherwise.
pub label_values-length : (u : Update) → length (label_values u) ≡ length (collector_of u).labels
unfolding label_values collector_of
label_values-length (decisions_total verdict action_type client) = refl
label_values-length (decision_latency action_type elapsed) = refl
label_values-length (rule_evaluations_total rule_id matched) = refl
label_values-length (rule_eval_errors_total rule_id) = refl
label_values-length (combiner_dep_errors_total rule_id dep_id) = refl
label_values-length (feature_lookup_latency elapsed) = refl
label_values-length feature_lookup_degraded_total = refl
label_values-length (kafka_sink_queue_depth depth) = refl
label_values-length kafka_sink_dropped_total = refl
label_values-length kafka_sink_publish_errors_total = refl
label_values-length audit_write_errors_total = refl
