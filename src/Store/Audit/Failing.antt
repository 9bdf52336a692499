-- ===== src/Store/Audit/Failing.antt =====
-- The audit writer of internal/store/audit.go while the database refuses every row.
use mathlib.Core.List.{append_assoc, append-nil}
use policy_decision_service.Prelude.{
  String, true, List, [], ◌∷◌, ◌++◌, Option, some, none, Bool-cases, ◌≡◌, ◌≢◌, refl, sym, ap, ◌∙◌,
  arith, Result, ok, err, inl, inr, length, leb,
}
use policy_decision_service.Errors.{Error}
use policy_decision_service.Telemetry.{World, Host, poll}
use policy_decision_service.Engine.Types.{AuditRecord}
use policy_decision_service.Store.Audit.{
  Database, Row, AuditWriter, is_done, executed, write_request, write, flush, flush_batch, receive,
}

module _ {X : Type 0} (host : Host X) (db : Database X) where
  -- The writer behind the receipt of the records, one turn of `Run` after the other.
  abbrev pub receive_each : List AuditRecord → AuditWriter → World X → AuditWriter × World X
  receive_each [] s w = (s, w)
  receive_each (r ∷ rs) s w = let (on, s1, w1) = receive db host r rs s w in receive_each rs s1 w1

  module _ (refuses : (row : Row) (x : X) → (db.insert row x).0 ≢ none) where
    executed-fails :
        (o : Option Error × X) (w : World X) → o.0 ≢ none → is_done (executed db o w).0 ≡ true
    executed-fails (none, x) w h = ground arith
    executed-fails (some e, x) w h = refl

    write_request-fails :
        (r : AuditRecord) (reasons : String) (request : Result Error String) (w : World X)
        → is_done (write_request db r reasons request w).0 ≡ true
    write_request-fails r reasons (err e) w = refl
    write_request-fails r reasons (ok request) w = executed-fails _ w (refuses _ w.outside)

    write-fails :
        (r : AuditRecord) (reasons : Result Error String) (w : World X)
        → is_done (write db r reasons w).0 ≡ true
    write-fails r (err e) w = refl
    write-fails r (ok reasons) w = write_request-fails r reasons _ w

    flush-fails :
        (rs : List AuditRecord) (r : AuditRecord) (w : World X)
        → is_done (flush db (rs ++ r ∷ []) w).0 ≡ true
    unfolding flush
    flush-fails [] r w = rw (write-fails r _ w, flush) (write-fails r _ w)
    flush-fails (q ∷ rs) r w = rw (write-fails q _ w, flush) (write-fails q _ w)

    receive-refused :
        (r : AuditRecord) (rest : List AuditRecord) (s : AuditWriter) (w : World X)
        → (poll host w).0 ≡ none
        → (receive db host r rest s w).1 ≡ record s { queue = rest; batch = s.batch ++ r ∷ [] }
    unfolding receive flush_batch
    receive-refused r rest s w live =
        elim (Bool-cases (leb s.batch_size (length (s.batch ++ r ∷ [])))) [
          | inl full ↦ rw (live, full, flush-fails s.batch r (poll host w).1, receive) refl
          | inr room ↦ rw (live, room, receive) refl
        ]

    -- While the context of `Run` is not done and the database refuses every row, `Run` moves all
    -- records of the queue into the batch, whatever the batch size is: none is counted as dropped,
    -- the queue has room again, and the batch is longer by all of them.
    pub receive_each-grows :
        ((x : X) → (host.ctx_err x).0 ≡ none)
        → (rs : List AuditRecord) (s : AuditWriter) (w : World X) → s.queue ≡ rs
        → ((receive_each rs s w).0.batch ≡ s.batch ++ rs)
          × ((receive_each rs s w).0.queue ≡ [])
          × ((receive_each rs s w).0.dropped ≡ s.dropped)
    receive_each-grows live [] s w all = (sym (append-nil s.batch), all, refl)
    receive_each-grows live (r ∷ rs) s w all =
        let s1 : AuditWriter = record s { queue = rs; batch = s.batch ++ r ∷ [] } in
        let (on, s2, w2) = receive db host r rs s w in
        let same : s2 ≡ s1 = receive-refused r rs s w (live w.outside) in
        let (batch, queue, dropped) = receive_each-grows live rs s2 w2 (ap (λ t. t.queue) same) in
        (
          batch ∙ ap (λ t. t.batch ++ rs) same ∙ append_assoc s.batch (r ∷ []) rs,
          queue,
          dropped ∙ ap (λ t. t.dropped) same,
        )
