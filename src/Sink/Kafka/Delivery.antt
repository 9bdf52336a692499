-- ===== src/Sink/Kafka/Delivery.antt =====
-- What `Run` of internal/sink/kafka.go hands to its publisher.
use mathlib.Core.List.{append_assoc, append-nil}
use policy_decision_service.Prelude.{
  String, Bool, true, false, List, [], ◌∷◌, ◌++◌, map, Option, some, none, ◌≡◌, refl, sym, ap, ◌∙◌,
  Result, ok, err, inl, inr, Bool-cases, length, subst,
}
use policy_decision_service.Errors.{Error}
use policy_decision_service.Telemetry.{World, Host, poll, emit, kafka_sink_queue_depth}
use policy_decision_service.Engine.Types.{AuditRecord}
use policy_decision_service.Sink.Kafka.{
  DecisionEvent, KafkaSink, Publishing, is_done, update_queue_depth, count_error, send, publish,
  publish_and_count, publish_initial, drain_queue, shut_down, receive, take, turn,
}

-- `log x` is the topics and keys that were handed to the publisher, whatever it made of them. The
-- other operations hand nothing to it, and events can be encoded.
pub record Logs {X : Type 0} (host : Host X) (p : Publishing X)
    (publish_to : String → String → String → X → Option Error × X)
    (log : X → List (String × String)) : Type 0 where
  pub there : p.publisher ≡ some publish_to
  pub appends :
      (topic key value : String) (x : X)
      → log (publish_to topic key value x).1 ≡ log x ++ (topic, key) ∷ []
  pub keeps_uuid : (x : X) → log (host.new_uuid x).1 ≡ log x
  pub keeps_ctx : (x : X) → log (host.ctx_err x).1 ≡ log x
  pub keeps_now : (x : X) → log (p.now_text x).1 ≡ log x
  pub keeps_drain : (x : X) → log (p.drain_ends x).1 ≡ log x
  pub encodes : (event : DecisionEvent) → (text : String) × (p.marshal event ≡ ok text)

abbrev pub entry_of : String → AuditRecord → String × String
entry_of topic r = (topic, r.actor_id)

module _ {X : Type 0} (host : Host X) (p : Publishing X)
    (publish_to : String → String → String → X → Option Error × X)
    (log : X → List (String × String)) (logs : Logs host p publish_to log) where
  count_error-outside :
      (e : Option Error) (w : World X) → (count_error host p e w).1.outside ≡ w.outside
  count_error-outside none w = refl
  count_error-outside (some e) w = refl

  send-log :
      (topic : String) (r : AuditRecord) (encoded : Result Error String) (text : String)
      (w : World X)
      → encoded ≡ ok text
      → log (send host p publish_to topic r encoded w).1.outside
        ≡ log w.outside ++ entry_of topic r ∷ []
  send-log topic r (ok payload) text w h =
      ap log (count_error-outside (publish_to topic r.actor_id payload w.outside).0 _)
      ∙ logs.appends topic r.actor_id payload w.outside
  send-log topic r (err e) text w h = cc

  publish-log :
      (topic : String) (r : AuditRecord) (w : World X)
      → log (publish_and_count host p topic r w).outside ≡ log w.outside ++ entry_of topic r ∷ []
  unfolding publish_and_count publish
  publish-log topic r w =
      let x = (host.new_uuid w.outside).1 in
      let (text, encoded) = logs.encodes _ in
      rw (logs.there, publish)
        (send-log topic r _ text _ encoded
          ∙ ap (λ l. l ++ entry_of topic r ∷ []) (logs.keeps_now x ∙ logs.keeps_uuid w.outside))

  -- From a world with `before` queued to one with `after` queued: the records between were handed
  -- to the publisher, in their order and once each.
  pub record Handed (topic : String) (before after : List AuditRecord) (w w' : World X)
      : Type 0 where
    pub handed : List AuditRecord
    pub split : before ≡ handed ++ after
    pub logged : log w'.outside ≡ log w.outside ++ map (entry_of topic) handed

  hands_none :
      (topic : String) (queue : List AuditRecord) (w w' : World X)
      → log w'.outside ≡ log w.outside
      → Handed topic queue queue w w'
  hands_none topic queue w w' same = record {
    handed = [];
    split = refl;
    logged = same ∙ sym (append-nil (log w.outside));
  }

  -- One record, and then others.
  hands_first :
      (topic : String) (r : AuditRecord) (before after : List AuditRecord) (w w1 w' : World X)
      → log w1.outside ≡ log w.outside ++ entry_of topic r ∷ []
      → Handed topic before after w1 w'
      → Handed topic (r ∷ before) after w w'
  hands_first topic r before after w w1 w' one rest = record {
    handed = r ∷ rest.handed;
    split = ap (λ l. r ∷ l) rest.split;
    logged =
        rest.logged
        ∙ ap (λ l. l ++ map (entry_of topic) rest.handed) one
        ∙ append_assoc (log w.outside) (entry_of topic r ∷ []) (map (entry_of topic) rest.handed);
  }

  drain_queue-Handed :
      (topic : String) (rs : List AuditRecord) (w : World X)
      → Handed topic rs (drain_queue host p topic rs w).0 w (drain_queue host p topic rs w).1
  unfolding drain_queue
  drain_queue-Handed topic [] w = hands_none topic [] w _ refl
  drain_queue-Handed topic (r ∷ rs) w =
      let w1 : World X = record w { outside = (p.drain_ends w.outside).1 } in
      let w2 = emit (kafka_sink_queue_depth (length rs)) w1 in
      elim (Bool-cases (p.drain_ends w.outside).0) [
        | inl ends ↦
            rw (ends, drain_queue) (hands_none topic (r ∷ rs) w _ (logs.keeps_drain w.outside))
        | inr goes ↦
            rw (goes, drain_queue)
              (hands_first topic r rs _ w
                (emit (kafka_sink_queue_depth (length rs)) (publish_and_count host p topic r w2)) _
                (publish-log topic r w2
                  ∙ ap (λ l. l ++ entry_of topic r ∷ []) (logs.keeps_drain w.outside))
                (drain_queue-Handed topic rs _))
      ]

  publish_initial-Handed :
      (rs queue after : List AuditRecord) (s : KafkaSink) (w w' : World X)
      → Handed s.topic queue after (publish_initial host p rs s w) w'
      → Handed s.topic (rs ++ queue) after w w'
  unfolding publish_initial
  publish_initial-Handed [] queue after s w w' h = h
  publish_initial-Handed (r ∷ rs) queue after s w w' h =
      let w1 = update_queue_depth s (publish_and_count host p s.topic r w) in
      hands_first s.topic r (rs ++ queue) after w w1 w' (publish-log s.topic r w)
        (publish_initial-Handed rs queue after s w1 w' h)

  shut_down-Handed :
      (initial : List AuditRecord) (s : KafkaSink) (w : World X)
      → Handed s.topic
          (initial ++ s.queue)
          (shut_down host p initial s w).0.queue
          w
          (shut_down host p initial s w).1
  unfolding shut_down
  shut_down-Handed initial s w =
      publish_initial-Handed initial s.queue _ (record s { closed = true }) w _
        (drain_queue-Handed s.topic s.queue _)

  hands_after :
      (topic : String) (before after : List AuditRecord) (w w1 w' : World X)
      → log w1.outside ≡ log w.outside
      → Handed topic before after w1 w'
      → Handed topic before after w w'
  hands_after topic before after w w1 w' same h = record {
    handed = h.handed;
    split = h.split;
    logged = h.logged ∙ ap (λ l. l ++ map (entry_of topic) h.handed) same;
  }

  receive-Handed :
      (r : AuditRecord) (rest : List AuditRecord) (s : KafkaSink) (w : World X)
      → Handed s.topic
          (r ∷ rest)
          (receive host p r rest s w).1.queue
          w
          (receive host p r rest s w).2
  unfolding receive
  receive-Handed r rest s w =
      let s1 : KafkaSink = record s { queue = rest } in
      let (done, w1) = poll host (update_queue_depth s1 w) in
      let same = logs.keeps_ctx w.outside in
      elim (Bool-cases (is_done done)) [
        | inl over ↦
            rw (over, receive)
              (hands_after s.topic (r ∷ rest) _ w w1 _ same (shut_down-Handed (r ∷ []) s1 w1))
        | inr live ↦
            rw (live, receive)
              (hands_after s.topic (r ∷ rest) _ w w1 _ same (
                hands_first s.topic r rest rest w1 (publish_and_count host p s.topic r w1) _
                  (publish-log s.topic r w1) (hands_none s.topic rest _ _ refl)))
      ]

  take-Handed :
      (queue : List AuditRecord) (s : KafkaSink) (w : World X)
      → s.queue ≡ queue
      → Handed s.topic queue (take host p queue s w).1.queue w (take host p queue s w).2
  take-Handed [] s w e =
      subst (λ q. Handed s.topic [] q w w) (sym e) (hands_none s.topic [] w w refl)
  take-Handed (r ∷ rest) s w e = receive-Handed r rest s w

  -- While there is a publisher and the events can be encoded: in each turn of `Run`, the last one
  -- with its drain included, the records that leave the queue are those at its front, and they are
  -- handed to the publisher in that order, once each, under the topic of the sink and keyed by the
  -- actor. Nothing else is handed to it, and what the drain does not come to is still queued.
  pub turn-Handed :
      (ends : Bool) (s : KafkaSink) (w : World X)
      → Handed s.topic s.queue (turn host p ends s w).1.queue w (turn host p ends s w).2
  unfolding turn
  turn-Handed true s w = shut_down-Handed [] s w
  turn-Handed false s w = take-Handed s.queue s w refl
