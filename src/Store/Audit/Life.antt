-- ===== src/Store/Audit/Life.antt =====
-- The life of the audit writer of internal/store/audit.go in one world that goes on: the calls of
-- `Enqueue`, the turns of `Run`, and what other code does in between.
use mathlib.Core.List.{append_assoc}
use policy_decision_service.Prelude.{
  String, Bool, true, false, List, [], ◌∷◌, ◌++◌, some, none, ◌≡◌, refl, sym, ap, ◌∙◌, subst, ◌⊎◌,
  inl, inr, Bool-cases, Option-cases, All, All-mono, All-append, All-at, Elem, Any-append_left,
  Any-append_right, Any-append_cases, length, ltb, leb, if◌then◌else◌,
}
use policy_decision_service.Prelude.Int.{ℤ}
use policy_decision_service.Errors.{Error}
use policy_decision_service.Telemetry.{World, Host, poll}
use policy_decision_service.Engine.Types.{AuditRecord}
use policy_decision_service.Store.Audit.{
  Database, AuditWriter, Ready, context_ended, record_queued, ticker_fired, new_audit_writer,
  enqueue, flush_batch, tick, receive, take, turn,
}
use policy_decision_service.Store.Audit.Running.{accepts, enqueue-accepts}
use policy_decision_service.Store.Audit.Stored.{
  Table, IsStored, Keeps, IsStored-later, KeptOrStored, flush-Keeps, flush_batch-KeptOrStored,
  flush_batch-queue,
}

module _ {X : Type 0} (host : Host X) (db : Database X) (has : X → String → Type 0)
    (table : Table db has) where
  -- The table has a row for the record, or the record is with the writer.
  abbrev pub IsHeld : AuditWriter → World X → AuditRecord → Type 0
  IsHeld s w r = IsStored db has table w.outside r ⊎ Elem r (s.batch ++ s.queue)

  -- A step from `w`, with these records in the batch and the queue before any flush.
  record Step (batch queue : List AuditRecord) (w : World X) (out : AuditWriter × World X)
      : Type 0 where
    kept : KeptOrStored db has table batch out
    same_queue : out.0.queue ≡ queue
    keeps : Keeps db has table w.outside out.1.outside

  Step-IsHeld :
      (x : AuditRecord) (batch queue : List AuditRecord) (w : World X) (out : AuditWriter × World X)
      → Step batch queue w out
      → IsStored db has table w.outside x ⊎ Elem x (batch ++ queue)
      → IsHeld out.0 out.1 x
  Step-IsHeld x batch queue w out step (inl there) =
      inl (IsStored-later db has table x step.keeps there)
  Step-IsHeld x batch queue w out step (inr m) =
      elim (Any-append_cases (λ y. x ≡ y) batch queue m) [
        | inr waits ↦ inr (
            Any-append_right (λ y. x ≡ y) out.0.batch out.0.queue
              (subst (Elem x) (sym step.same_queue) waits))
        | inl held ↦ elim step.kept [
          | inl kept ↦ inr (
              Any-append_left (λ y. x ≡ y) out.0.batch out.0.queue (subst (Elem x) (sym kept) held))
          | inr (emptied, stored) ↦
              inl (All-at (IsStored db has table out.1.outside) x batch stored held)
        ]
      ]

  module _ (ctx_keeps : (x : X) → Keeps db has table x (host.ctx_err x).1) where
    flush_batch-Keeps :
        (s : AuditWriter) (w : World X)
        → Keeps db has table w.outside (flush_batch db s w).1.outside
    unfolding flush_batch
    flush_batch-Keeps s w other h = flush-Keeps db has table s.batch w other h

    tick-Step : (s : AuditWriter) (w : World X) → Step s.batch s.queue w (tick db s w)
    unfolding tick
    tick-Step s w = elim (Bool-cases (ltb 0 (length s.batch))) [
      | inl some_left ↦
          rw (some_left, tick)
            (record {
              kept = flush_batch-KeptOrStored db has table s w;
              same_queue = flush_batch-queue db has table s w;
              keeps = flush_batch-Keeps s w;
            })
      | inr none_left ↦
          rw (none_left, tick) (record { kept = inl refl; same_queue = refl; keeps = λ other h. h })
    ]

    receive-Step :
        (r : AuditRecord) (rest : List AuditRecord) (s : AuditWriter) (w : World X)
        → (poll host w).0 ≡ none
        → let (on, s1, w1) = receive db host r rest s w in Step (s.batch ++ r ∷ []) rest w (s1, w1)
    unfolding receive
    receive-Step r rest s w live =
        let s1 : AuditWriter = record s { queue = rest; batch = s.batch ++ r ∷ [] } in
        let w1 = (poll host w).1 in
        let Goal : Bool × AuditWriter × World X → Type 0 =
          λ o. Step (s.batch ++ r ∷ []) rest w (o.1, o.2) in
        elim (Bool-cases (leb s.batch_size (length (s.batch ++ r ∷ [])))) [
          | inl full ↦
              let o = flush_batch db s1 w1 in
              let same : receive db host r rest s w ≡ (true, o.0, o.1) =
                rw (live, full, receive) refl in
              subst Goal (sym same) (record {
                kept = flush_batch-KeptOrStored db has table s1 w1;
                same_queue = flush_batch-queue db has table s1 w1;
                keeps = λ other h. flush_batch-Keeps s1 w1 other (ctx_keeps w.outside other h);
              })
          | inr room ↦
              let same : receive db host r rest s w ≡ (true, s1, w1) =
                rw (live, room, receive) refl in
              subst Goal (sym same)
                (record { kept = inl refl; same_queue = refl; keeps = ctx_keeps w.outside })
        ]

    receive-over :
        (e : Error) (r : AuditRecord) (rest : List AuditRecord) (s : AuditWriter) (w : World X)
        → (poll host w).0 ≡ some e
        → (receive db host r rest s w).0 ≡ false
    unfolding receive
    receive-over e r rest s w over = rw (over, receive) refl

    take-IsHeld :
        (x : AuditRecord) (queue : List AuditRecord) (s : AuditWriter) (w : World X)
        → s.queue ≡ queue
        → (take db host queue s w).0 ≡ true
        → IsHeld s w x
        → IsHeld (take db host queue s w).1 (take db host queue s w).2 x
    take-IsHeld x [] s w e on h = h
    take-IsHeld x (r ∷ rest) s w e on h = elim (Option-cases (poll host w).0) [
      | inr (error, over) ↦ cc (receive-over error r rest s w over)
      | inl live ↦ Step-IsHeld x (s.batch ++ r ∷ []) rest w _ (receive-Step r rest s w live) (
          subst (λ l. IsStored db has table w.outside x ⊎ Elem x l)
            (ap (λ q. s.batch ++ q) e ∙ sym (append_assoc s.batch (r ∷ []) rest)) h)
    ]

    turn-IsHeld :
        (x : AuditRecord) (e : Ready) (s : AuditWriter) (w : World X)
        → (turn db host e s w).0 ≡ true
        → IsHeld s w x
        → IsHeld (turn db host e s w).1 (turn db host e s w).2 x
    unfolding turn
    turn-IsHeld x context_ended s w on h = cc
    turn-IsHeld x record_queued s w on h = take-IsHeld x s.queue s w refl on h
    turn-IsHeld x ticker_fired s w on h =
        Step-IsHeld x s.batch s.queue w (tick db s w) (tick-Step s w) h

    enqueue-Keeps :
        (r : AuditRecord) (s : AuditWriter) (w : World X)
        → Keeps db has table w.outside (enqueue host r s w).1.outside
    unfolding enqueue
    enqueue-Keeps r s w other h = elim (Bool-cases s.has_pool) [
      | inl pool ↦ rw (pool, enqueue) (ctx_keeps w.outside other h)
      | inr nil ↦ rw (nil, enqueue) h
    ]

    kept_by_enqueue :
        (x r : AuditRecord) (s : AuditWriter) (w : World X)
        → IsHeld s w x
        → IsHeld (enqueue host r s w).0 (enqueue host r s w).1 x
    kept_by_enqueue x r s w (inl there) =
        inl (IsStored-later db has table x (enqueue-Keeps r s w) there)
    kept_by_enqueue x r s w (inr m) = inr (elim (enqueue-accepts host db r s w) [
      | inl (accepted, same) ↦
          subst (λ t. Elem x (t.batch ++ t.queue)) (sym same)
            (subst (Elem x) (append_assoc s.batch s.queue (r ∷ []))
              (Any-append_left (λ y. x ≡ y) (s.batch ++ s.queue) (r ∷ []) m))
      | inr (refused, same_batch, same_queue) ↦
          subst (λ q. Elem x ((enqueue host r s w).0.batch ++ q)) (sym same_queue)
            (subst (λ b. Elem x (b ++ s.queue)) (sym same_batch) m)
    ])

    enqueue-IsHeld :
        (r : AuditRecord) (s : AuditWriter) (w : World X) (accepted : List AuditRecord)
        → All (IsHeld s w) accepted
        → All
            (IsHeld (enqueue host r s w).0 (enqueue host r s w).1)
            (if accepts host db s w then accepted ++ r ∷ [] else accepted)
    enqueue-IsHeld r s w accepted h =
        let After = IsHeld (enqueue host r s w).0 (enqueue host r s w).1 in
        let kept = All-mono (IsHeld s w) After accepted (λ x. kept_by_enqueue x r s w) h in
        elim (enqueue-accepts host db r s w) [
          | inl (takes, same) ↦
              let waits : Elem r ((s.batch ++ s.queue) ++ r ∷ []) =
                Any-append_right (λ y. r ≡ y) (s.batch ++ s.queue) (r ∷ []) (inl refl) in
              subst (λ b. All After (if b then accepted ++ r ∷ [] else accepted)) (sym takes)
                (All-append After accepted (r ∷ []) kept (
                  inr (
                      subst (λ t. Elem r (t.batch ++ t.queue)) (sym same)
                        (subst (Elem r) (append_assoc s.batch s.queue (r ∷ [])) waits)),
                  tt,
                ))
          | inr (refused, same_batch, same_queue) ↦
              subst (λ b. All After (if b then accepted ++ r ∷ [] else accepted)) (sym refused) kept
        ]

    -- `Lives s w accepted`: a writer that has put `accepted` into its queue is in the state `s` and
    -- the world `w`, after calls of `Enqueue`, turns of `Run` behind which the loop went on, and
    -- other code that takes no row away, in any order.
    pub data Lives : AuditWriter → World X → List AuditRecord → Type 0 where
      starts :
          (has_pool : Bool) (queue_size batch_size : ℤ) (w : World X)
          → Lives (new_audit_writer has_pool queue_size batch_size) w []
      elsewhere :
          {s : AuditWriter} {w : World X} {accepted : List AuditRecord} (w' : World X)
          → Keeps db has table w.outside w'.outside
          → Lives s w accepted
          → Lives s w' accepted
      enqueues :
          {s : AuditWriter} {w : World X} {accepted : List AuditRecord} (r : AuditRecord)
          → Lives s w accepted
          → Lives
              (enqueue host r s w).0
              (enqueue host r s w).1
              (if accepts host db s w then accepted ++ r ∷ [] else accepted)
      turns :
          {s : AuditWriter} {w : World X} {accepted : List AuditRecord} (e : Ready)
          → (turn db host e s w).0 ≡ true
          → Lives s w accepted
          → Lives (turn db host e s w).1 (turn db host e s w).2 accepted

    -- Where the context's test takes no row away: however calls of `Enqueue`, turns of `Run` and
    -- other code follow each other, and whatever insertions fail, every record that `Enqueue` put
    -- into the queue has a row in the table under its id, or is still in the batch or in the queue.
    pub Lives-IsHeld :
        {s : AuditWriter} {w : World X} {accepted : List AuditRecord}
        → Lives s w accepted
        → All (IsHeld s w) accepted
    Lives-IsHeld (starts has_pool queue_size batch_size w) = tt
    Lives-IsHeld (elsewhere {s} {w} {accepted} w' keeps before) =
        All-mono (IsHeld s w) (IsHeld s w') accepted
          (λ x h. elim h [
            | inl there ↦ inl (IsStored-later db has table x keeps there)
            | inr held ↦ inr held
          ])
          (Lives-IsHeld before)
    Lives-IsHeld (enqueues {s} {w} {accepted} r before) =
        enqueue-IsHeld r s w accepted (Lives-IsHeld before)
    Lives-IsHeld (turns {s} {w} {accepted} e on before) =
        All-mono (IsHeld s w) (IsHeld (turn db host e s w).1 (turn db host e s w).2) accepted
          (λ x. turn-IsHeld x e s w on) (Lives-IsHeld before)
