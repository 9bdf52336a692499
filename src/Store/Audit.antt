-- ===== src/Store/Audit.antt =====
-- internal/store/audit.go: the bounded queue of the audit writer, and the goroutine that writes
-- the records in batches. The queue is the contents of the channel; the batch is the variable of
-- `Run`; the mutex makes `enqueue` and `close` atomic.
pub mod Batches
pub mod Running
pub mod Bounds
pub mod Stored
pub mod Life
pub mod Ending
pub mod Failing
use policy_decision_service.Prelude.{
  ℕ, ◌+◌, String, ◌==◌, Bool, true, false, not, List, [], ◌∷◌, ◌++◌, Option, some, none, Result, ok,
  err, length, ltb, leb, if◌then◌else◌,
}
use policy_decision_service.Prelude.Int.{ℤ, pos_part, is_positive}
use policy_decision_service.Errors.{Error}
use policy_decision_service.Telemetry.{World, Host, poll, emit, audit_write_errors_total}
use policy_decision_service.Engine.Types.{Verdict, Reason, DecideRequest, AuditRecord}

-- The columns of `pds.decisions`, in the order of the INSERT.
pub record Row : Type 0 where
  pub id : String
  pub actor_id : String
  pub action_type : String
  pub platform : Option String
  pub verdict : Verdict
  pub score : ℕ
  pub reasons : String
  pub evaluated_rules : List String
  pub request : String
  pub latency_us : ℕ
  pub rules_version : String
  pub client : Option String

unfoldable pub empty_string_to_nil : String → Option String
empty_string_to_nil value = if value == "" then none else some value

-- The arguments of the INSERT, with the encoded reasons and request.
unfoldable pub row : AuditRecord → String → String → Row
row r reasons request = record {
  id = r.decision_id;
  actor_id = r.actor_id;
  action_type = r.action_type;
  platform = empty_string_to_nil r.platform;
  verdict = r.verdict;
  score = r.score;
  reasons = reasons;
  evaluated_rules = r.evaluated_rules;
  request = request;
  latency_us = r.latency_us;
  rules_version = r.rules_version;
  client = empty_string_to_nil r.client;
}

-- The JSON encoder, and the INSERT of one row.
pub record Database (X : Type 0) : Type 0 where
  pub marshal_reasons : List Reason → Result Error String
  pub marshal_request : DecideRequest → Result Error String
  pub insert : Row → X → Option Error × X

-- `has_pool`: the pool is not nil.
pub record AuditWriter : Type 0 where
  pub has_pool : Bool
  pub queue : List AuditRecord
  pub capacity : ℕ
  pub batch_size : ℕ
  pub closed : Bool
  pub dropped : ℕ
  pub batch : List AuditRecord

abbrev pub positive_or : ℕ → ℤ → ℕ
positive_or fallback n = if is_positive n then pos_part n else fallback

unfoldable pub new_audit_writer : Bool → ℤ → ℤ → AuditWriter
new_audit_writer has_pool queue_size batch_size = record {
  has_pool = has_pool;
  queue = [];
  capacity = positive_or 10000 queue_size;
  batch_size = positive_or 100 batch_size;
  closed = false;
  dropped = 0;
  batch = [];
}

-- The part of `Enqueue` behind its tests.
unfoldable pub offer : AuditRecord → AuditWriter → AuditWriter
offer r s =
    if s.closed
    then s
    else if ltb (length s.queue) s.capacity
    then record s { queue = s.queue ++ r ∷ [] }
    else record s { dropped = s.dropped + 1 }

-- `Dropped`
unfoldable pub dropped_records : Option AuditWriter → ℕ
dropped_records none = 0
dropped_records (some s) = s.dropped

abbrev pub is_done : Option Error → Bool
is_done none = false
is_done (some e) = true

module _ {X : Type 0} (host : Host X) where
  unfoldable pub enqueue : AuditRecord → AuditWriter → World X → AuditWriter × World X
  enqueue r s w =
      let (done, w1) = poll host w in
      if not s.has_pool then (s, w) else (if is_done done then s else offer r s, w1)

-- The cases of the select in `Run`.
pub data Ready : Type 0 where
  context_ended record_queued ticker_fired : Ready

module _ {X : Type 0} (db : Database X) where
  -- A failed step of `flush`.
  abbrev pub failing : Error → World X → Option Error × World X
  failing e w = (some e, emit audit_write_errors_total w)

  abbrev pub executed : Option Error × X → World X → Option Error × World X
  executed (none, x) w = (none, record w { outside = x })
  executed (some e, x) w = failing e (record w { outside = x })

  abbrev pub write_request :
      AuditRecord → String → Result Error String → World X → Option Error × World X
  write_request r reasons (err e) w = failing e w
  write_request r reasons (ok request) w = executed (db.insert (row r reasons request) w.outside) w

  -- The body of the loop of `flush`.
  abbrev pub write : AuditRecord → Result Error String → World X → Option Error × World X
  write r (err e) w = failing e w
  write r (ok reasons) w = write_request r reasons (db.marshal_request r.request) w

  unfoldable pub flush : List AuditRecord → World X → Option Error × World X
  flush [] w = (none, w)
  flush (r ∷ rs) w =
      let (e, w1) = write r (db.marshal_reasons r.reasons) w in
      let rest = flush rs w1 in if is_done e then (e, w1) else rest

  -- `if err := w.flush(ctx, batch); err == nil { batch = batch[:0] }`
  unfoldable pub flush_batch : AuditWriter → World X → AuditWriter × World X
  flush_batch s w =
      let (e, w1) = flush s.batch w in (if is_done e then s else record s { batch = [] }, w1)

  -- `close`, `drainQueued` and the last flush, whose error is ignored.
  unfoldable pub shut_down : AuditWriter → World X → AuditWriter × World X
  shut_down s w =
      let rest = s.batch ++ s.queue in
      (record s { closed = true; queue = []; batch = rest }, (flush rest w).1)

  -- The ticker's case of the select in `Run`.
  unfoldable pub tick : AuditWriter → World X → AuditWriter × World X
  tick s w = if ltb 0 (length s.batch) then flush_batch s w else (s, w)

  -- The case of a record `r` that was received: whether the loop goes on, and the state.
  unfoldable pub receive :
      Host X → AuditRecord → List AuditRecord → AuditWriter → World X → Bool × AuditWriter × World X
  receive host r rest s w =
      let s1 : AuditWriter = record s { queue = rest; batch = s.batch ++ r ∷ [] } in
      let (done, w1) = poll host w in
      if is_done done
      then (let (s2, w2) = shut_down s1 w1 in (false, s2, w2))
      else if leb s1.batch_size (length s1.batch)
      then (let (s2, w2) = flush_batch s1 w1 in (true, s2, w2))
      else (true, s1, w1)

  -- The receiving case of the select in `Run`, which waits for a record.
  abbrev pub take : Host X → List AuditRecord → AuditWriter → World X → Bool × AuditWriter × World X
  take host [] s w = (true, s, w)
  take host (r ∷ rest) s w = receive host r rest s w

  -- The select in `Run`, over the case that it takes: whether the loop goes on, and the state.
  unfoldable pub turn : Host X → Ready → AuditWriter → World X → Bool × AuditWriter × World X
  turn host context_ended s w = let (s1, w1) = shut_down s w in (false, s1, w1)
  turn host record_queued s w = take host s.queue s w
  turn host ticker_fired s w = let (s1, w1) = tick s w in (true, s1, w1)
