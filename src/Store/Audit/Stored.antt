-- ===== src/Store/Audit/Stored.antt =====
-- The rows that the goroutine of internal/store/audit.go leaves in the database.
use policy_decision_service.Prelude.{
  String, false, List, [], ◌∷◌, Option, some, none, Option-cases, Bool-cases, ◌≡◌, refl, sym, ap,
  ◌∙◌, subst, Result, ok, err, ◌⊎◌, inl, inr, All, arith,
}
use policy_decision_service.Errors.{Error}
use policy_decision_service.Telemetry.{World}
use policy_decision_service.Engine.Types.{AuditRecord}
use policy_decision_service.Store.Audit.{
  Database, Row, row, AuditWriter, is_done, executed, write, flush, flush_batch,
}

-- `has x id`: the table has a row with this id. As PostgreSQL documents, it has one after an INSERT
-- ON CONFLICT DO NOTHING that meets no error, and an INSERT, refused or not, takes no row away.
pub record Table {X : Type 0} (db : Database X) (has : X → String → Type 0) : Type 0 where
  pub inserts : (row : Row) (x : X) → (db.insert row x).0 ≡ none → has (db.insert row x).1 row.id
  pub keeps : (row : Row) (id : String) (x : X) → has x id → has (db.insert row x).1 id

module _ {X : Type 0} (db : Database X) (has : X → String → Type 0) (table : Table db has) where
  -- The table has a row for the record, under the id of its decision.
  abbrev pub IsStored : X → AuditRecord → Type 0
  IsStored x r = has x r.decision_id

  -- No row is taken away between `x` and `x'`.
  abbrev pub Keeps : X → X → Type 0
  Keeps x x' = (id : String) → has x id → has x' id

  pub IsStored-later : {x x' : X} (r : AuditRecord) → Keeps x x' → IsStored x r → IsStored x' r
  IsStored-later r k h = k r.decision_id h

  executed-outside : (o : Option Error × X) (w : World X) → (executed db o w).1.outside ≡ o.1
  executed-outside (none, x) w = refl
  executed-outside (some e, x) w = refl

  executed-result : (o : Option Error × X) (w : World X) → (executed db o w).0 ≡ o.0
  executed-result (none, x) w = refl
  executed-result (some e, x) w = refl

  write-Keeps :
      (r : AuditRecord) (reasons request : Result Error String) (w : World X)
      → db.marshal_request r.request ≡ request
      → Keeps w.outside (write db r reasons w).1.outside
  write-Keeps r (err e) request w q other h = h
  write-Keeps r (ok reasons) (err e) w q other h = rw q h
  write-Keeps r (ok reasons) (ok request) w q other h = rw q (
      subst (λ x. has x other)
        (sym (executed-outside (db.insert (row r reasons request) w.outside) w))
        (table.keeps (row r reasons request) other w.outside h))

  write-IsStored :
      (r : AuditRecord) (reasons request : Result Error String) (w : World X)
      → db.marshal_reasons r.reasons ≡ reasons
      → db.marshal_request r.request ≡ request
      → (write db r reasons w).0 ≡ none
      → IsStored (write db r reasons w).1.outside r
  unfolding row
  write-IsStored r (err e) request w p q h = cc
  write-IsStored r (ok reasons) (err e) w p q h = cc
  write-IsStored r (ok reasons) (ok request) w p q h =
      let o = db.insert (row r reasons request) w.outside in
      rw q (
        subst (λ x. has x r.decision_id) (sym (executed-outside o w))
          (table.inserts (row r reasons request) w.outside (sym (executed-result o w) ∙ rw q at h)))

  pub flush-Keeps :
      (rs : List AuditRecord) (w : World X) → Keeps w.outside (flush db rs w).1.outside
  unfolding flush
  flush-Keeps [] w other h = h
  flush-Keeps (r ∷ rs) w other h =
      let reasons = db.marshal_reasons r.reasons in
      let first = write-Keeps r reasons _ w refl other h in
      elim (Option-cases (write db r reasons w).0) [
        | inl well ↦ rw (well, flush) (flush-Keeps rs (write db r reasons w).1 other first)
        | inr (e, ill) ↦ rw (ill, flush) first
      ]

  pub flush-IsStored :
      (rs : List AuditRecord) (w : World X)
      → is_done (flush db rs w).0 ≡ false
      → All (IsStored (flush db rs w).1.outside) rs
  unfolding flush
  flush-IsStored [] w h = tt
  flush-IsStored (r ∷ rs) w h =
      let reasons = db.marshal_reasons r.reasons in
      elim (Option-cases (write db r reasons w).0) [
        | inl well ↦
            let w1 = (write db r reasons w).1 in
            let same : flush db (r ∷ rs) w ≡ flush db rs w1 = rw (well, flush) refl in
            subst (λ o. All (IsStored o.1.outside) (r ∷ rs)) (sym same)
              (
                IsStored-later r (flush-Keeps rs w1) (write-IsStored r reasons _ w refl refl well),
                flush-IsStored rs w1 (ap (λ o. is_done o.0) (sym same) ∙ h),
              )
        | inr (e, ill) ↦ cc (rw (ill, flush) at h)
      ]

  -- What becomes of the batch `rs`: it is kept, or it is empty and all of its rows are there.
  abbrev pub KeptOrStored : List AuditRecord → AuditWriter × World X → Type 0
  KeptOrStored rs (s, w) = (s.batch ≡ rs) ⊎ ((s.batch ≡ []) × All (IsStored w.outside) rs)

  pub flush_batch-KeptOrStored :
      (s : AuditWriter) (w : World X) → KeptOrStored s.batch (flush_batch db s w)
  unfolding flush_batch
  flush_batch-KeptOrStored s w = elim (Bool-cases (is_done (flush db s.batch w).0)) [
    | inl bad ↦ inl (rw (bad, flush_batch) refl)
    | inr good ↦ inr (rw (good, flush_batch) refl, flush-IsStored s.batch w good)
  ]

  pub flush_batch-queue : (s : AuditWriter) (w : World X) → (flush_batch db s w).0.queue ≡ s.queue
  unfolding flush_batch
  flush_batch-queue s w = ground arith
