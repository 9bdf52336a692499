-- ===== src/Server/Wiring.antt =====
-- The sinks and the readiness check of cmd/server/main.go.
use policy_decision_service.Prelude.{
  List, [], ◌∷◌, map, Option, some, none, Option-cases, ◌≡◌, refl, arith, inl, inr, ◌↔◌,
}
use policy_decision_service.Errors.{Error}
use policy_decision_service.Telemetry.{World}
use policy_decision_service.Engine.Types.{AuditRecord}
use policy_decision_service.Engine.Rules.{AuditSink}
use policy_decision_service.Sink.Multi.{multi_enqueue}
use policy_decision_service.Api.Http.{Check}
use policy_decision_service.Server.{choose_sink, ready}

-- A record that an engine hands on, if it has a sink.
abbrev pub deliver_to : {X : Type 0} → Option (AuditSink X) → AuditSink X
deliver_to none r w = w
deliver_to (some sink) r w = sink r w

-- However many sinks there are, a record goes to each of them, in their order.
pub choose_sink_lem :
    {X : Type 0} (sinks : List (AuditSink X)) (r : AuditRecord) (w : World X)
    → deliver_to (choose_sink sinks) r w ≡ multi_enqueue (map (λ sink. some sink) sinks) r w
unfolding choose_sink multi_enqueue
choose_sink_lem [] r w = refl
choose_sink_lem (sink ∷ []) r w = refl
choose_sink_lem (first ∷ second ∷ sinks) r w = refl

-- The server is ready exactly when both stores could be opened at the start and both are healthy
-- now, the second asked after the first.
pub ready_lem :
    {X : Type 0} (pg_err redis_err : Option Error) (pg redis : Check X) (w : World X)
    → ((ready pg_err redis_err pg redis w).0 ≡ none)
      ↔ ((pg_err ≡ none) × (redis_err ≡ none) × ((pg w).0 ≡ none) × ((redis (pg w).1).0 ≡ none))
unfolding ready
ready_lem (some e) redis_err pg redis w = ground arith
ready_lem none (some e) pg redis w = ground arith
ready_lem none none pg redis w = elim (Option-cases (pg w).0) [
  | inl well ↦ rw (well, ready) (ground (arith, well))
  | inr (e, ill) ↦ rw (ill, ready) (ground (arith, ill))
]
