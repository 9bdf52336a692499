-- ===== src/Store/Audit/Running.antt =====
-- The audit writer of internal/store/audit.go between its start and its end: requests that enqueue
-- records while `Run` receives them and its ticker fires.
use mathlib.Core.List.{append_assoc}
use policy_decision_service.Prelude.{
  Bool, true, false, not, ◌&&◌, List, [], ◌∷◌, ◌++◌, none, ◌≡◌, refl, sym, subst, length, ltb, leb,
  arith, ◌⊎◌, inl, inr, Bool-cases, All, All-mono, All-append, All-at, Elem, Any-append_left,
  Any-append_right, Any-append_cases, if◌then◌else◌,
}
use policy_decision_service.Prelude.Int.{ℤ}
use policy_decision_service.Telemetry.{World, Host, poll}
use policy_decision_service.Engine.Types.{AuditRecord}
use policy_decision_service.Store.Audit.{
  Database, AuditWriter, new_audit_writer, is_done, offer, enqueue, flush, flush_batch, tick,
  receive,
}
use policy_decision_service.Store.Audit.Batches.{
  WasInserted, KeptOrWritten, receive-KeptOrWritten, tick-KeptOrWritten,
}

module _ {X : Type 0} (host : Host X) (db : Database X) where
  -- `Enqueue` puts a record into the queue.
  abbrev pub accepts : AuditWriter → World X → Bool
  accepts s w =
      s.has_pool
      && (not (is_done (poll host w).0) && (not s.closed && ltb (length s.queue) s.capacity))

  -- `Runs s accepted`: `s` is a state of a writer that has put the records `accepted` into its
  -- queue, after any sequence of calls of `Enqueue`, records received and ticks. Each happens in a
  -- world of its own, since other code runs in between.
  pub data Runs : AuditWriter → List AuditRecord → Type 0 where
    starts :
        (has_pool : Bool) (queue_size batch_size : ℤ)
        → Runs (new_audit_writer has_pool queue_size batch_size) []
    enqueues :
        {s : AuditWriter} {accepted : List AuditRecord} (r : AuditRecord) (w : World X)
        → Runs s accepted
        → Runs (enqueue host r s w).0 (if accepts s w then accepted ++ r ∷ [] else accepted)
    receives :
        {s : AuditWriter} {accepted : List AuditRecord} (r : AuditRecord) (rest : List AuditRecord)
        (w : World X)
        → Runs s accepted
        → s.queue ≡ r ∷ rest
        → (poll host w).0 ≡ none
        → Runs (receive db host r rest s w).1 accepted
    ticks :
        {s : AuditWriter} {accepted : List AuditRecord} (w : World X)
        → Runs s accepted
        → Runs (tick db s w).0 accepted

  -- The record is in the database, or with the writer.
  abbrev pub IsSafe : AuditWriter → AuditRecord → Type 0
  IsSafe s r = WasInserted db r ⊎ Elem r (s.batch ++ s.queue)

  flush_batch-queue : (s : AuditWriter) (w : World X) → (flush_batch db s w).0.queue ≡ s.queue
  unfolding flush_batch
  flush_batch-queue s w = elim (Bool-cases (is_done (flush db s.batch w).0)) [
    | inl bad ↦ rw (bad, flush_batch) refl
    | inr good ↦ rw (good, flush_batch) refl
  ]

  pub tick-queue : (s : AuditWriter) (w : World X) → (tick db s w).0.queue ≡ s.queue
  unfolding tick
  tick-queue s w = elim (Bool-cases (ltb 0 (length s.batch))) [
    | inl some_left ↦ rw (some_left, tick) (flush_batch-queue s w)
    | inr none_left ↦ rw (none_left, tick) refl
  ]

  pub receive-queue :
      (r : AuditRecord) (rest : List AuditRecord) (s : AuditWriter) (w : World X)
      → (poll host w).0 ≡ none
      → (receive db host r rest s w).1.queue ≡ rest
  unfolding receive
  receive-queue r rest s w live =
      let s1 : AuditWriter = record s { queue = rest; batch = s.batch ++ r ∷ [] } in
      elim (Bool-cases (leb s.batch_size (length (s.batch ++ r ∷ [])))) [
        | inl full ↦ rw (live, receive) (rw full (flush_batch-queue s1 (poll host w).1))
        | inr room ↦ rw (live, receive) (rw room refl)
      ]

  -- A batch that is kept or written, in front of a queue, loses nothing.
  kept-IsSafe :
      (x : AuditRecord) (batch queue : List AuditRecord) (s : AuditWriter)
      → KeptOrWritten db batch s
      → s.queue ≡ queue
      → WasInserted db x ⊎ Elem x (batch ++ queue)
      → IsSafe s x
  kept-IsSafe x batch queue s k e (inl inserted) = inl inserted
  kept-IsSafe x batch queue s k e (inr m) = elim (Any-append_cases (λ y. x ≡ y) batch queue m) [
    | inr waits ↦ inr (Any-append_right (λ y. x ≡ y) s.batch s.queue (subst (Elem x) (sym e) waits))
    | inl held ↦ elim k [
      | inl kept ↦
          inr (Any-append_left (λ y. x ≡ y) s.batch s.queue (subst (Elem x) (sym kept) held))
      | inr (emptied, written) ↦ inl (All-at (WasInserted db) x batch written held)
    ]
  ]

  pub offered-IsSafe :
      (x r : AuditRecord) (s : AuditWriter)
      → WasInserted db x ⊎ Elem x (s.batch ++ s.queue)
      → WasInserted db x ⊎ Elem x (s.batch ++ (s.queue ++ r ∷ []))
  offered-IsSafe x r s (inl inserted) = inl inserted
  offered-IsSafe x r s (inr m) = inr (elim (Any-append_cases (λ y. x ≡ y) s.batch s.queue m) [
    | inl held ↦ Any-append_left (λ y. x ≡ y) s.batch (s.queue ++ r ∷ []) held
    | inr waits ↦
        Any-append_right (λ y. x ≡ y) s.batch (s.queue ++ r ∷ [])
          (Any-append_left (λ y. x ≡ y) s.queue (r ∷ []) waits)
  ])

  pub enqueue-accepts :
      (r : AuditRecord) (s : AuditWriter) (w : World X)
      → ((accepts s w ≡ true) × ((enqueue host r s w).0 ≡ record s { queue = s.queue ++ r ∷ [] }))
        ⊎ ((accepts s w ≡ false)
            × ((enqueue host r s w).0.batch ≡ s.batch)
            × ((enqueue host r s w).0.queue ≡ s.queue))
  unfolding enqueue offer
  enqueue-accepts r s w = ground arith

  enqueue-IsSafe :
      (r : AuditRecord) (s : AuditWriter) (w : World X) (accepted : List AuditRecord)
      → All (IsSafe s) accepted
      → All (IsSafe (enqueue host r s w).0) (if accepts s w then accepted ++ r ∷ [] else accepted)
  enqueue-IsSafe r s w accepted h = elim (enqueue-accepts r s w) [
    | inl (yes_it_does, e) ↦
        let s1 : AuditWriter = record s { queue = s.queue ++ r ∷ [] } in
        subst
          (λ b. All (IsSafe (enqueue host r s w).0) (if b then accepted ++ r ∷ [] else accepted))
          (sym yes_it_does)
          (subst (λ t. All (IsSafe t) (accepted ++ r ∷ [])) (sym e)
            (All-append (IsSafe s1) accepted (r ∷ [])
              (All-mono (IsSafe s) (IsSafe s1) accepted (λ x. offered-IsSafe x r s) h)
              (
                inr (
                    Any-append_right (λ y. r ≡ y) s.batch (s.queue ++ r ∷ [])
                      (Any-append_right (λ y. r ≡ y) s.queue (r ∷ []) (inl refl))),
                tt,
              )))
    | inr (refused, same_batch, same_queue) ↦
        subst
          (λ b. All (IsSafe (enqueue host r s w).0) (if b then accepted ++ r ∷ [] else accepted))
          (sym refused)
          (All-mono (IsSafe s) (IsSafe (enqueue host r s w).0) accepted
            (λ x. kept-IsSafe x s.batch s.queue (enqueue host r s w).0 (inl same_batch) same_queue)
            h)
  ]

  -- Until the writer is stopped, every record that `Enqueue` put into the queue was inserted into
  -- the database, or is still in the batch or in the queue, whatever insertions fail, and however
  -- the requests, the receiver and the ticker take turns.
  pub Runs-IsSafe :
      {s : AuditWriter} {accepted : List AuditRecord} → Runs s accepted → All (IsSafe s) accepted
  Runs-IsSafe (starts has_pool queue_size batch_size) = tt
  Runs-IsSafe (enqueues {s} {accepted} r w run) = enqueue-IsSafe r s w accepted (Runs-IsSafe run)
  Runs-IsSafe (receives {s} {accepted} r rest w run e live) =
      let after = (receive db host r rest s w).1 in
      All-mono (IsSafe s) (IsSafe after) accepted
        (λ x h.
          kept-IsSafe x (s.batch ++ r ∷ []) rest after
            (receive-KeptOrWritten db host r rest s w live).1 (receive-queue r rest s w live)
            (subst (λ l. WasInserted db x ⊎ Elem x l) (sym (append_assoc s.batch (r ∷ []) rest))
              (subst (λ q. WasInserted db x ⊎ Elem x (s.batch ++ q)) e h)))
        (Runs-IsSafe run)
  Runs-IsSafe (ticks {s} {accepted} w run) =
      let after = (tick db s w).0 in
      All-mono (IsSafe s) (IsSafe after) accepted
        (λ x h. kept-IsSafe x s.batch s.queue after (tick-KeptOrWritten db s w) (tick-queue s w) h)
        (Runs-IsSafe run)
