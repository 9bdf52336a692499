-- ===== src/Sink/Multi.antt =====
-- internal/sink/sink.go. `none` is a nil sink in the list.
use policy_decision_service.Prelude.{List, [], ◌∷◌, Option, none, some}
use policy_decision_service.Engine.Rules.{AuditSink}

unfoldable pub multi_enqueue : {X : Type 0} → List (Option (AuditSink X)) → AuditSink X
multi_enqueue [] r w = w
multi_enqueue (none ∷ sinks) r w = multi_enqueue sinks r w
multi_enqueue (some sink ∷ sinks) r w = multi_enqueue sinks r (sink r w)
