-- ===== src/Store/Audit/Ending.antt =====
-- The end of `Run` of internal/store/audit.go.
use mathlib.Core.List.{append_assoc}
use policy_decision_service.Prelude.{
  String, true, false, List, [], ◌∷◌, ◌++◌, Option, some, none, Option-cases, ◌≡◌, ◌≢◌, refl, sym,
  ap, ◌∙◌, arith, Result, ok, err, length, inl, inr, All, All-mono, All-at, Elem, subst,
}
use policy_decision_service.Errors.{Error}
use policy_decision_service.Telemetry.{World, Host, poll, Update, audit_write_errors_total}
use policy_decision_service.Engine.Types.{AuditRecord}
use policy_decision_service.Store.Audit.{
  Database, AuditWriter, Ready, context_ended, record_queued, receive, take, is_done, offer,
  enqueue, executed, write_request, write, flush, shut_down, turn,
}
use policy_decision_service.Store.Audit.Stored.{
  Table, IsStored, Keeps, IsStored-later, flush-Keeps, flush-IsStored,
}
use policy_decision_service.Store.Audit.Life.{IsHeld, Lives, Lives-IsHeld}

grows : {A : Type 0} (x : A) (xs : List A) → x ∷ xs ≢ xs
grows x xs e = omega (arith, ap length e)

module _ {X : Type 0} (host : Host X) (db : Database X) where
  -- The writer as `Run` leaves it: it takes no further record.
  pub record HasEnded (s : AuditWriter) : Type 0 where
    pub closed : s.closed ≡ true
    pub drained : s.queue ≡ []
    pub refuses : (r : AuditRecord) (w : World X) → (enqueue host r s w).0 ≡ s

  shut_down-HasEnded : (s : AuditWriter) (w : World X) → HasEnded (shut_down db s w).0
  unfolding shut_down enqueue offer
  shut_down-HasEnded s w = record { closed = refl; drained = refl; refuses = λ r w'. ground arith }

  -- The updates behind a step of the flush that was tried in `w`.
  abbrev counted : Option Error → World X → List Update
  counted none w = w.updates
  counted (some e) w = audit_write_errors_total ∷ w.updates

  counted-same :
      (e : Option Error) (w w' : World X) → w.updates ≡ w'.updates → counted e w ≡ counted e w'
  counted-same none w w' same = same
  counted-same (some e) w w' same = ap (λ us. audit_write_errors_total ∷ us) same

  executed-counted :
      (o : Option Error × X) (w : World X)
      → (executed db o w).1.updates ≡ counted (executed db o w).0 w
  executed-counted (none, x) w = refl
  executed-counted (some e, x) w = refl

  write_request-counted :
      (r : AuditRecord) (reasons : String) (request : Result Error String) (w : World X)
      → (write_request db r reasons request w).1.updates
        ≡ counted (write_request db r reasons request w).0 w
  write_request-counted r reasons (err e) w = refl
  write_request-counted r reasons (ok request) w = executed-counted _ w

  write-counted :
      (r : AuditRecord) (reasons : Result Error String) (w : World X)
      → (write db r reasons w).1.updates ≡ counted (write db r reasons w).0 w
  write-counted r (err e) w = refl
  write-counted r (ok reasons) w = write_request-counted r reasons _ w

  -- A flush counts its error, if it meets one.
  flush-counted :
      (rs : List AuditRecord) (w : World X)
      → (flush db rs w).1.updates ≡ counted (flush db rs w).0 w
  unfolding flush
  flush-counted [] w = refl
  flush-counted (r ∷ rs) w =
      let (e, w1) = write db r (db.marshal_reasons r.reasons) w in
      let first = write-counted r (db.marshal_reasons r.reasons) w in
      elim (Option-cases e) [
        | inl well ↦
            rw (well, flush)
              (flush-counted rs w1
                ∙ counted-same (flush db rs w1).0 w1 w (first ∙ ap (λ e. counted e w) well))
        | inr (error, ill) ↦ rw (ill, flush) (first ∙ ap (λ e. counted e w) ill)
      ]

  flush-quiet :
      (rs : List AuditRecord) (w : World X)
      → (flush db rs w).1.updates ≡ w.updates
      → is_done (flush db rs w).0 ≡ false
  flush-quiet rs w quiet = elim (Option-cases (flush db rs w).0) [
    | inl well ↦ ground (arith, well)
    | inr (e, ill) ↦
        elim (grows audit_write_errors_total w.updates
          (sym (flush-counted rs w ∙ ap (λ e. counted e w) ill) ∙ quiet)) [ ]
  ]

  module _ (has : X → String → Type 0) (table : Table db has)
      (ctx_keeps : (x : X) → Keeps db has table x (host.ctx_err x).1) where
    -- What the end of the loop leaves, in the state `s` and the world `w`.
    pub record Finished (accepted : List AuditRecord) (s : AuditWriter) (w : World X) : Type 0 where
      pub ended : HasEnded s
      pub stored : All (IsStored db has table w.outside) accepted

    shut_down-Finished :
        (accepted : List AuditRecord) (s : AuditWriter) (w : World X)
        → All (IsHeld host db has table s w) accepted
        → (shut_down db s w).1.updates ≡ w.updates
        → Finished accepted (shut_down db s w).0 (shut_down db s w).1
    unfolding shut_down
    shut_down-Finished accepted s w all quiet =
        let last = s.batch ++ s.queue in
        let Stored = IsStored db has table (flush db last w).1.outside in
        let written = flush-IsStored db has table last w (flush-quiet last w quiet) in
        record {
          ended = shut_down-HasEnded s w;
          stored =
              All-mono (IsHeld host db has table s w) Stored accepted
                (λ x held. elim held [
                  | inl there ↦
                      IsStored-later db has table x (flush-Keeps db has table last w) there
                  | inr with_writer ↦ All-at Stored x last written with_writer
                ])
                all;
        }

    -- How `Run` comes to know that its context has ended: its select finds it, or its test after
    -- the receipt of a record does.
    pub data Learns (s : AuditWriter) (w : World X) : Ready → Type 0 where
      told : Learns s w context_ended
      noticed :
          (r : AuditRecord) (rest : List AuditRecord) (e : Error)
          → s.queue ≡ r ∷ rest
          → (poll host w).0 ≡ some e
          → Learns s w record_queued

    received-IsHeld :
        (r : AuditRecord) (rest : List AuditRecord) (s : AuditWriter) (w : World X)
        → s.queue ≡ r ∷ rest
        → (x : AuditRecord) → IsHeld host db has table s w x
        → IsHeld host db has table
            (record s { queue = rest; batch = s.batch ++ r ∷ [] })
            (poll host w).1
            x
    received-IsHeld r rest s w q x (inl there) =
        inl (IsStored-later db has table x (ctx_keeps w.outside) there)
    received-IsHeld r rest s w q x (inr m) =
        inr (subst (Elem x) (ap (λ l. s.batch ++ l) q ∙ sym (append_assoc s.batch (r ∷ []) rest)) m)

    receive-over :
        (r : AuditRecord) (rest : List AuditRecord) (e : Error) (s : AuditWriter) (w : World X)
        → s.queue ≡ r ∷ rest
        → (poll host w).0 ≡ some e
        → turn db host record_queued s w ≡ (
            let s1 : AuditWriter = record s { queue = rest; batch = s.batch ++ r ∷ [] } in
            let (s2, w2) = shut_down db s1 (poll host w).1 in (false, s2, w2))
    unfolding turn receive
    receive-over r rest e s w q over = ap (λ l. take db host l s w) q ∙ rw (over, receive) refl

    -- Where the context's test takes no row away: when the context of `Run` has ended, in whatever
    -- state the writer is by then, and `Run` learns of it from its select or when it has received a
    -- record, and then counts no error of writing, its loop ends with a closed writer and an empty
    -- queue, which no later call of `Enqueue` changes, and the table has a row, under its id, for
    -- every record that `Enqueue` ever put into the queue.
    pub Lives-ends :
        {s : AuditWriter} {w : World X} {accepted : List AuditRecord} {e : Ready}
        → Lives host db has table ctx_keeps s w accepted
        → Learns s w e
        → (turn db host e s w).2.updates ≡ w.updates
        → ((turn db host e s w).0 ≡ false)
          × Finished accepted (turn db host e s w).1 (turn db host e s w).2
    unfolding turn
    Lives-ends {s} {w} {accepted} lives told quiet = (
      refl,
      shut_down-Finished accepted s w (Lives-IsHeld host db has table ctx_keeps lives) quiet,
    )
    Lives-ends {s} {w} {accepted} lives (noticed r rest e q over) quiet =
        let s1 : AuditWriter = record s { queue = rest; batch = s.batch ++ r ∷ [] } in
        let w1 = (poll host w).1 in
        let same = receive-over r rest e s w q over in
        let held =
          All-mono (IsHeld host db has table s w) (IsHeld host db has table s1 w1) accepted
            (received-IsHeld r rest s w q) (Lives-IsHeld host db has table ctx_keeps lives) in
        subst (λ o. (o.0 ≡ false) × Finished accepted o.1 o.2) (sym same)
          (refl, shut_down-Finished accepted s1 w1 held (ap (λ o. o.2.updates) (sym same) ∙ quiet))
