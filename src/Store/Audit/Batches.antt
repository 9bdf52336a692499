-- ===== src/Store/Audit/Batches.antt =====
-- What becomes of the records that the goroutine of internal/store/audit.go has received.
use policy_decision_service.Prelude.{
  String, true, false, List, [], ◌∷◌, ◌++◌, Option, some, none, ◌≡◌, refl, Result, ok, err, length,
  ltb, leb, ◌⊎◌, inl, inr, Bool-cases, All,
}
use policy_decision_service.Errors.{Error}
use policy_decision_service.Telemetry.{World, Host, poll}
use policy_decision_service.Engine.Types.{AuditRecord}
use policy_decision_service.Store.Audit.{
  Database, AuditWriter, row, is_done, executed, write, flush, flush_batch, tick, receive,
}

module _ {X : Type 0} (db : Database X) where
  -- The row of the record was inserted at `x`, with its reasons and its request encoded.
  pub record WasInserted (r : AuditRecord) : Type 0 where
    pub reasons : String
    pub request : String
    pub x : X
    pub encoded_reasons : db.marshal_reasons r.reasons ≡ ok reasons
    pub encoded_request : db.marshal_request r.request ≡ ok request
    pub inserted : (db.insert (row r reasons request) x).0 ≡ none

  is_done-executed :
      (o : Option Error × X) (w : World X) → is_done (executed db o w).0 ≡ false → o.0 ≡ none
  is_done-executed (none, x) w h = refl
  is_done-executed (some e, x) w h = cc

  write-WasInserted :
      (r : AuditRecord) (reasons request : Result Error String) (w : World X)
      → db.marshal_reasons r.reasons ≡ reasons
      → db.marshal_request r.request ≡ request
      → is_done (write db r reasons w).0 ≡ false
      → WasInserted r
  write-WasInserted r (err e) request w p q h = cc
  write-WasInserted r (ok reasons) (err e) w p q h = cc (rw q at h)
  write-WasInserted r (ok reasons) (ok request) w p q h = record {
    reasons = reasons;
    request = request;
    x = w.outside;
    encoded_reasons = p;
    encoded_request = q;
    inserted = is_done-executed (db.insert (row r reasons request) w.outside) w (rw q at h);
  }

  pub flush-WasInserted :
      (rs : List AuditRecord) (w : World X) → is_done (flush db rs w).0 ≡ false → All WasInserted rs
  unfolding flush
  flush-WasInserted [] w h = tt
  flush-WasInserted (r ∷ rs) w h =
      let (e, w1) = write db r (db.marshal_reasons r.reasons) w in
      elim (Bool-cases (is_done (write db r (db.marshal_reasons r.reasons) w).0)) [
        | inl bad ↦ cc (rw (bad, flush) at h, bad)
        | inr good ↦ (
          write-WasInserted r (db.marshal_reasons r.reasons) (db.marshal_request r.request) w refl
              refl good,
          flush-WasInserted rs w1 (rw (good, flush) at h),
        )
      ]

  -- What becomes of the batch `rs`: it is kept, or all of its records were inserted and it is
  -- empty.
  abbrev pub KeptOrWritten : List AuditRecord → AuditWriter → Type 0
  KeptOrWritten rs s = (s.batch ≡ rs) ⊎ ((s.batch ≡ []) × All WasInserted rs)

  flush_batch-KeptOrWritten :
      (s : AuditWriter) (w : World X) → KeptOrWritten s.batch (flush_batch db s w).0
  unfolding flush_batch
  flush_batch-KeptOrWritten s w = elim (Bool-cases (is_done (flush db s.batch w).0)) [
    | inl bad ↦ rw (bad, flush_batch) (inl refl)
    | inr good ↦ rw (good, flush_batch) (inr (refl, flush-WasInserted s.batch w good))
  ]

  -- When the loop goes on after a record was received, the batch is the earlier one with that
  -- record at its end, or all of these were inserted, each with its encoded reasons and request,
  -- and the batch is empty.
  pub receive-KeptOrWritten :
      (host : Host X) (r : AuditRecord) (rest : List AuditRecord) (s : AuditWriter) (w : World X)
      → (poll host w).0 ≡ none
      → ((receive db host r rest s w).0 ≡ true)
        × KeptOrWritten (s.batch ++ r ∷ []) (receive db host r rest s w).1
  unfolding receive
  receive-KeptOrWritten host r rest s w live =
      elim (Bool-cases (leb s.batch_size (length (s.batch ++ r ∷ [])))) [
        | inl full ↦
            let s1 : AuditWriter = record s { queue = rest; batch = s.batch ++ r ∷ [] } in
            rw (live, receive) (rw full (refl, flush_batch-KeptOrWritten s1 (poll host w).1))
        | inr room ↦ rw (live, receive) (rw room (refl, inl refl))
      ]

  -- A tick keeps the batch, or has inserted all of its records and empties it.
  pub tick-KeptOrWritten : (s : AuditWriter) (w : World X) → KeptOrWritten s.batch (tick db s w).0
  unfolding tick
  tick-KeptOrWritten s w = elim (Bool-cases (ltb 0 (length s.batch))) [
    | inl some_left ↦ rw (some_left, tick) (flush_batch-KeptOrWritten s w)
    | inr none_left ↦ rw (none_left, tick) (inl refl)
  ]
