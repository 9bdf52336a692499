-- ===== src/Sink/Kafka/Running.antt =====
-- `Run` of internal/sink/kafka.go, turn by turn.
use mathlib.Core.List.{append-nil}
use policy_decision_service.Prelude.{
  Bool, true, false, String, List, [], ◌∷◌, ◌++◌, ◌≡◌, refl, sym, subst, inl, inr, Bool-cases,
}
use policy_decision_service.Prelude.Int.{ℤ}
use policy_decision_service.Telemetry.{World, Host, poll}
use policy_decision_service.Engine.Types.{AuditRecord}
use policy_decision_service.Sink.Kafka.{
  KafkaSink, Publishing, is_done, update_queue_depth, receive, shut_down, take, turn,
}
use policy_decision_service.Sink.Kafka.Steps.{Reaches, received, stopped, drain_queue-rest}

module _ {X : Type 0} (host : Host X) (p : Publishing X) (topic : String) (size : ℤ) where
  -- The records of the queue that `Run` takes in one turn.
  abbrev pub Takes : List AuditRecord → List AuditRecord → KafkaSink → Type 0
  Takes es ts s = (more : List AuditRecord) × Reaches host p topic size es (ts ++ more) s

  stops :
      {es ts : List AuditRecord} {s : KafkaSink} (initial rest : List AuditRecord) (w : World X)
      → s.queue ≡ initial ++ rest
      → Reaches host p topic size es ts s
      → Takes es ts (shut_down host p initial (record s { queue = rest }) w).0
  unfolding shut_down
  stops {es} {ts} {s} initial rest w q h =
      let (front, e) = drain_queue-rest host p s.topic rest _ in
      (initial ++ front, stopped initial front w q e h)

  receives :
      {es ts : List AuditRecord} {s : KafkaSink} (r : AuditRecord) (rest : List AuditRecord)
      (w : World X)
      → s.queue ≡ r ∷ rest
      → Reaches host p topic size es ts s
      → Takes es ts (receive host p r rest s w).1
  unfolding receive
  receives {es} {ts} {s} r rest w q h =
      let shown = update_queue_depth (record s { queue = rest }) w in
      elim (Bool-cases (is_done (poll host shown).0)) [
        | inl over ↦ rw (over, receive) (stops (r ∷ []) rest (poll host shown).1 q h)
        | inr live ↦ (r ∷ [], received r w q (rw (live, receive)) h)
      ]

  takes :
      {es ts : List AuditRecord} {s : KafkaSink} (queue : List AuditRecord) (w : World X)
      → s.queue ≡ queue
      → Reaches host p topic size es ts s
      → Takes es ts (take host p queue s w).1
  takes {es} {ts} {s} [] w q h =
      ([], subst (λ l. Reaches host p topic size es l s) (sym (append-nil ts)) h)
  takes (r ∷ rest) w q h = receives r rest w q h

  -- A turn of `Run` leads from a state that the sink reaches to another one, whatever its select
  -- finds and chooses, with some more records taken.
  pub turn-Takes :
      {es ts : List AuditRecord} {s : KafkaSink} (ends : Bool) (w : World X)
      → Reaches host p topic size es ts s
      → Takes es ts (turn host p ends s w).1
  unfolding turn
  turn-Takes {es} {ts} {s} true w h = stops [] s.queue w refl h
  turn-Takes {es} {ts} {s} false w h = takes s.queue w refl h
