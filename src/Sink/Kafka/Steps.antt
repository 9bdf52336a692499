-- ===== src/Sink/Kafka/Steps.antt =====
-- The Kafka sink as a state machine: any interleaving of `Enqueue` by the handlers with the
-- goroutine of `Run`, over internal/sink/kafka.go.
use mathlib.Core.List.{append_assoc}
use policy_decision_service.Prelude.{
  ◌+◌, ◌≤◌, ◌<◌, Bool, true, false, String, List, [], ◌∷◌, ◌++◌, ◌≡◌, refl, sym, ap, ◌∙◌, subst,
  arith, length, length-append, inl, inr, Bool-cases, Option-cases, ltb, ltb→lt, if◌then◌else◌, not,
  ◌&&◌, ◌||◌,
}
use policy_decision_service.Prelude.Int.{ℤ, pos, negsuc}
use policy_decision_service.Telemetry.{World, Host, poll, emit, kafka_sink_queue_depth}
use policy_decision_service.Engine.Types.{AuditRecord}
use policy_decision_service.Sink.Kafka.{
  KafkaSink, Publishing, new_kafka_sink, offer, enqueue, receive, shut_down, drain_queue,
  publish_and_count,
}

-- What one call of `Enqueue` does to the sink: it leaves it alone, appends the record, or counts
-- it as dropped because the queue is full.
pub data Offered (r : AuditRecord) (s : KafkaSink) : KafkaSink → Type 0 where
  ignored : Offered r s s
  accepted :
      s.closed ≡ false
      → length s.queue < s.capacity
      → Offered r s (record s { queue = s.queue ++ r ∷ [] })
  refused :
      s.closed ≡ false
      → s.capacity ≤ length s.queue
      → Offered r s (record s { dropped = s.dropped + 1 })

offer-Offered :
    {X : Type 0} (stop pick : Bool) (r : AuditRecord) (s : KafkaSink) (w : World X)
    → s.closed ≡ false
    → Offered r s (offer stop pick r s w).0
unfolding offer
offer-Offered stop pick r s w ready =
    elim (Bool-cases (stop && (pick || not (ltb (length s.queue) s.capacity)))) [
      | inl out ↦ rw (out, offer) ignored
      | inr stay ↦ elim (Bool-cases (ltb (length s.queue) s.capacity)) [
        | inl room ↦ rw (stay, room, offer) (accepted ready (ltb→lt _ _ room))
        | inr full ↦ rw (stay, full, offer) (refused ready (ground arith))
      ]
    ]

unless-Offered :
    {X : Type 0} (shut : Bool) (r : AuditRecord) (s : KafkaSink) (w : World X)
    (offered : KafkaSink × World X)
    → (shut ≡ false → Offered r s offered.0)
    → Offered r s (if shut then (s, w) else offered).0
unless-Offered true r s w offered h = ignored
unless-Offered false r s w offered h = h refl

module _ {X : Type 0} (host : Host X) where
  -- Each call of `Enqueue` appends its record at the back of an open queue with room, or counts it
  -- as dropped at an open queue that is full, or leaves the sink alone, and nothing else.
  pub enqueue-Offered :
      (pick : Bool) (r : AuditRecord) (s : KafkaSink) (w : World X)
      → Offered r s (enqueue host pick r s w).0
  unfolding enqueue
  enqueue-Offered pick r s w = elim (Option-cases (poll host w).0) [
    | inr (e, over) ↦ rw (over, enqueue) ignored
    | inl live ↦
        rw (live, enqueue)
          (unless-Offered s.closed r s _ _ (λ ready. offer-Offered _ pick r s _ ready))
  ]

  module _ (p : Publishing X) where
    -- `drain` leaves the records that it did not come to.
    pub drain_queue-rest :
        (topic : String) (rs : List AuditRecord) (w : World X)
        → (front : List AuditRecord) × (rs ≡ front ++ (drain_queue host p topic rs w).0)
    unfolding drain_queue
    drain_queue-rest topic [] w = ([], refl)
    drain_queue-rest topic (r ∷ rs) w = elim (Bool-cases (p.drain_ends w.outside).0) [
      | inl ends ↦ ([], rw (ends, drain_queue))
      | inr goes ↦
          let w1 : World X = record w { outside = (p.drain_ends w.outside).1 } in
          let shown = emit (kafka_sink_queue_depth (length rs)) in
          let (front, e) =
            drain_queue-rest topic rs (shown (publish_and_count host p topic r (shown w1))) in
          (r ∷ front, rw (goes, drain_queue) (ap (λ l. r ∷ l) e))
    ]

    drain_queue-empty :
        ((x : X) → (p.drain_ends x).0 ≡ false)
        → (topic : String) (rs : List AuditRecord) (w : World X)
        → (drain_queue host p topic rs w).0 ≡ []
    unfolding drain_queue
    drain_queue-empty on topic [] w = refl
    drain_queue-empty on topic (r ∷ rs) w =
        rw (on w.outside, drain_queue) (drain_queue-empty on topic rs _)

    -- `close` and `drain`, while the drain's context does not end, leave a closed sink with an
    -- empty queue, and further calls of `Enqueue` leave that sink as it is.
    pub shut_down_drained :
        ((x : X) → (p.drain_ends x).0 ≡ false)
        → (initial : List AuditRecord) (s : KafkaSink) (w : World X)
        → (pick : Bool) (r : AuditRecord) (w' : World X)
        → ((shut_down host p initial s w).0.queue ≡ [])
          × ((shut_down host p initial s w).0.closed ≡ true)
          × ((enqueue host pick r (shut_down host p initial s w).0 w').0
              ≡ (shut_down host p initial s w).0)
    unfolding shut_down enqueue
    shut_down_drained on initial s w pick r w' =
        (drain_queue-empty on s.topic s.queue _, refl, ground arith)

-- `Subsequence xs ys`: `xs` is `ys` without some of its elements.
pub data Subsequence {A : Type 0} : List A → List A → Type 0 where
  empty : Subsequence [] []
  without : {xs ys : List A} (y : A) → Subsequence xs ys → Subsequence xs (ys ++ y ∷ [])
  with_last :
      {xs ys : List A} (y : A) → Subsequence xs ys → Subsequence (xs ++ y ∷ []) (ys ++ y ∷ [])

-- What is asked of a state.
pub record IsSound (es ts : List AuditRecord) (s : KafkaSink) : Type 0 where
  pub in_order : Subsequence (ts ++ s.queue) es
  pub room : length s.queue ≤ s.capacity
  pub useful : 1 ≤ s.capacity
  pub counted : length (ts ++ s.queue) + s.dropped ≤ length es

module _ {X : Type 0} (host : Host X) (p : Publishing X) (topic : String) (size : ℤ) where
  -- `Reaches enqueued taken s`: a sink for `topic` and `size` is in the state `s` after calls of
  -- `Enqueue` with the records `enqueued` and steps of `Run` that received the records `taken`.
  -- `stopped` is both ways out of `Run`: `initial` is empty, or the record received last.
  pub data Reaches : List AuditRecord → List AuditRecord → KafkaSink → Type 0 where
    created : Reaches [] [] (new_kafka_sink topic size)
    enqueued :
        {es ts : List AuditRecord} {s : KafkaSink} (pick : Bool) (r : AuditRecord) (w : World X)
        → Reaches es ts s
        → Reaches (es ++ r ∷ []) ts (enqueue host pick r s w).0
    received :
        {es ts rest : List AuditRecord} {s : KafkaSink} (r : AuditRecord) (w : World X)
        → s.queue ≡ r ∷ rest
        → (receive host p r rest s w).0 ≡ true
        → Reaches es ts s
        → Reaches es (ts ++ r ∷ []) (receive host p r rest s w).1
    stopped :
        {es ts rest : List AuditRecord} {s : KafkaSink} (initial front : List AuditRecord)
        (w : World X)
        → s.queue ≡ initial ++ rest
        → rest ≡ front ++ (shut_down host p initial (record s { queue = rest }) w).0.queue
        → Reaches es ts s
        → Reaches es
            (ts ++ (initial ++ front))
            (shut_down host p initial (record s { queue = rest }) w).0

Offered-IsSound :
    {r : AuditRecord} {s s' : KafkaSink} (es ts : List AuditRecord)
    → Offered r s s'
    → IsSound es ts s
    → IsSound (es ++ r ∷ []) ts s'
Offered-IsSound {r} es ts ignored h = record {
  in_order = without r h.in_order;
  room = h.room;
  useful = h.useful;
  counted = omega (arith, h.counted, length-append es (r ∷ []));
}
Offered-IsSound {r} {s} es ts (accepted ready space) h = record {
  in_order =
      subst (λ l. Subsequence l (es ++ r ∷ [])) (append_assoc ts s.queue (r ∷ []))
        (with_last r h.in_order);
  room = omega (arith, space, length-append s.queue (r ∷ []));
  useful = h.useful;
  counted =
      rw⁻¹ (append_assoc ts s.queue (r ∷ [])) (
        omega
          (arith, h.counted, length-append es (r ∷ []), length-append (ts ++ s.queue) (r ∷ [])));
}
Offered-IsSound {r} es ts (refused ready full) h = record {
  in_order = without r h.in_order;
  room = h.room;
  useful = h.useful;
  counted = omega (arith, h.counted, length-append es (r ∷ []));
}

-- Records that leave the front of the queue, in a sink that is otherwise alike.
taken-IsSound :
    (es ts front : List AuditRecord) (s s' : KafkaSink)
    → s.queue ≡ front ++ s'.queue
    → s'.capacity ≡ s.capacity
    → s'.dropped ≡ s.dropped
    → IsSound es ts s
    → IsSound es (ts ++ front) s'
taken-IsSound es ts front s s' q c d h =
    let same : ts ++ s.queue ≡ (ts ++ front) ++ s'.queue =
      ap (λ l. ts ++ l) q ∙ sym (append_assoc ts front s'.queue) in
    record {
      in_order = subst (λ l. Subsequence l es) same h.in_order;
      room = omega (arith, h.room, ap length q, length-append front s'.queue, c);
      useful = omega (arith, h.useful, c);
      counted = omega (arith, h.counted, ap length same, d);
    }

new_kafka_sink-IsSound : (topic : String) (size : ℤ) → IsSound [] [] (new_kafka_sink topic size)
unfolding new_kafka_sink
new_kafka_sink-IsSound topic (pos n) = record {
  in_order = empty;
  room = omega arith;
  useful = ground arith;
  counted = omega arith;
}
new_kafka_sink-IsSound topic (negsuc n) = record {
  in_order = empty;
  room = omega arith;
  useful = ground arith;
  counted = omega arith;
}

module _ {X : Type 0} (host : Host X) (p : Publishing X) where
  -- A record after which the loop goes on has only left the queue.
  receive-goes_on :
      (r : AuditRecord) (rest : List AuditRecord) (s : KafkaSink) (w : World X)
      → (receive host p r rest s w).0 ≡ true
      → (receive host p r rest s w).1 ≡ record s { queue = rest }
  unfolding receive
  receive-goes_on r rest s w = ground arith

  shut_down-rest :
      (initial : List AuditRecord) (s : KafkaSink) (w : World X)
      → ((shut_down host p initial s w).0.capacity ≡ s.capacity)
        × ((shut_down host p initial s w).0.dropped ≡ s.dropped)
        × ((shut_down host p initial s w).0.closed ≡ true)
  unfolding shut_down
  shut_down-rest initial s w = (refl, refl, refl)

  -- In every state that a Kafka sink reaches, however the calls of `Enqueue` and the steps of its
  -- goroutine interleave: the queue is not longer than its capacity, which is at least one; the
  -- records received so far followed by the queue are records that were enqueued, in that order
  -- and each at most once; and together with the dropped ones they are no more than were enqueued.
  pub Reaches-IsSound :
      (topic : String) (size : ℤ) {es ts : List AuditRecord} {s : KafkaSink}
      → Reaches host p topic size es ts s
      → IsSound es ts s
  Reaches-IsSound topic size created = new_kafka_sink-IsSound topic size
  Reaches-IsSound topic size (enqueued {es} {ts} {s} pick r w before) =
      Offered-IsSound es ts (enqueue-Offered host pick r s w) (Reaches-IsSound topic size before)
  Reaches-IsSound topic size (received {es} {ts} {rest} {s} r w front on before) =
      let same = receive-goes_on r rest s w on in
      taken-IsSound es ts (r ∷ []) s _ (front ∙ ap (λ k. r ∷ k.queue) (sym same))
        (ap (λ k. k.capacity) same) (ap (λ k. k.dropped) same) (Reaches-IsSound topic size before)
  Reaches-IsSound topic size (stopped {es} {ts} {rest} {s} initial front w q e before) =
      let (c, d, _) = shut_down-rest initial (record s { queue = rest }) w in
      taken-IsSound es ts (initial ++ front) s _
        (q ∙ ap (λ l. initial ++ l) e ∙ sym (append_assoc initial front _)) c d
        (Reaches-IsSound topic size before)
