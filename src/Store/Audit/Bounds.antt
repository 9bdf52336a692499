-- ===== src/Store/Audit/Bounds.antt =====
-- The queue of the audit writer of internal/store/audit.go.
use policy_decision_service.Prelude.{ℕ, ◌≤◌, List, [], ◌∷◌, ◌≡◌, ap, arith, length, length-append}
use policy_decision_service.Prelude.Int.{ℤ, pos, negsuc}
use policy_decision_service.Telemetry.{World, Host}
use policy_decision_service.Engine.Types.{AuditRecord}
use policy_decision_service.Store.Audit.{
  Database, AuditWriter, positive_or, new_audit_writer, offer, enqueue, flush_batch, shut_down,
  tick, receive,
}
use policy_decision_service.Store.Audit.Running.{
  Runs, starts, enqueues, receives, ticks, receive-queue, tick-queue,
}

offer_bounded :
    (r : AuditRecord) (s : AuditWriter)
    → length s.queue ≤ s.capacity
    → length (offer r s).queue ≤ (offer r s).capacity
unfolding offer
offer_bounded r s h = ground (arith, length-append s.queue (r ∷ []))

-- `Enqueue` keeps the queue within its capacity.
pub enqueue_bounded :
    {X : Type 0} (host : Host X) (r : AuditRecord) (s : AuditWriter) (w : World X)
    → length s.queue ≤ s.capacity
    → length (enqueue host r s w).0.queue ≤ (enqueue host r s w).0.capacity
unfolding enqueue
enqueue_bounded host r s w h = ground (arith, offer_bounded r s h)

-- The queue is within its capacity, which is at least one.
abbrev pub IsBounded : AuditWriter → Type 0
IsBounded s = (length s.queue ≤ s.capacity) × (1 ≤ s.capacity)

positive_or-positive : (n : ℕ) (z : ℤ) → 1 ≤ n → 1 ≤ positive_or n z
positive_or-positive n (pos m) h = ground arith
positive_or-positive n (negsuc m) h = ground arith

module _ {X : Type 0} (host : Host X) (db : Database X) where
  enqueue-capacity :
      (r : AuditRecord) (s : AuditWriter) (w : World X)
      → (enqueue host r s w).0.capacity ≡ s.capacity
  unfolding enqueue offer
  enqueue-capacity r s w = ground arith

  tick-capacity : (s : AuditWriter) (w : World X) → (tick db s w).0.capacity ≡ s.capacity
  unfolding tick flush_batch
  tick-capacity s w = ground arith

  receive-capacity :
      (r : AuditRecord) (rest : List AuditRecord) (s : AuditWriter) (w : World X)
      → (receive db host r rest s w).1.capacity ≡ s.capacity
  unfolding receive flush_batch shut_down
  receive-capacity r rest s w = ground arith

  -- In every state that a running audit writer reaches, however calls of `Enqueue`, received
  -- records and ticks take turns, the queue is not longer than its capacity, and that is at least
  -- one, whatever size is configured.
  pub Runs-IsBounded :
      {s : AuditWriter} {accepted : List AuditRecord} → Runs host db s accepted → IsBounded s
  unfolding new_audit_writer
  Runs-IsBounded (starts has_pool queue_size batch_size) =
      (omega arith, positive_or-positive 10000 queue_size (omega arith))
  Runs-IsBounded (enqueues {s} r w run) =
      let (room, useful) = Runs-IsBounded run in
      (enqueue_bounded host r s w room, omega (arith, useful, enqueue-capacity r s w))
  Runs-IsBounded (receives {s} r rest w run e live) =
      let (room, useful) = Runs-IsBounded run in
      (
        omega (
          arith,
          room,
          ap length e,
          ap length (receive-queue host db r rest s w live),
          receive-capacity r rest s w,
        ),
        omega (arith, useful, receive-capacity r rest s w),
      )
  Runs-IsBounded (ticks {s} w run) =
      let (room, useful) = Runs-IsBounded run in
      (
        omega (arith, room, ap length (tick-queue host db s w), tick-capacity s w),
        omega (arith, useful, tick-capacity s w),
      )
