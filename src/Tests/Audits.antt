-- ===== src/Tests/Audits.antt =====
-- A writer that has received the record of one request, and one whose batch is full.
use policy_decision_service.Prelude.{
  map, String, All, Elem, inl, inr, Bool, List, ℕ, suc, true, false, [], ◌∷◌, some, none, ◌≡◌, refl,
  ok,
}
use policy_decision_service.Prelude.Int.{pos}
use policy_decision_service.Telemetry.{World, Host}
use policy_decision_service.Store.Audit.{
  Database, Row, record_queued, AuditWriter, new_audit_writer, enqueue, offer, receive, row,
  shut_down, flush, turn,
}
use policy_decision_service.Store.Audit.Bounds.{IsBounded, Runs-IsBounded}
use policy_decision_service.Store.Audit.Failing.{receive_each, receive_each-grows}
use policy_decision_service.Store.Audit.Ending.{Learns, noticed, Finished, Lives-ends}
use policy_decision_service.Store.Audit.Stored.{Table}
use policy_decision_service.Store.Audit.Life.{Lives, turns, IsHeld, Lives-IsHeld}
use policy_decision_service.Store.Audit.Life
use policy_decision_service.Store.Audit.Running.{Runs, starts, enqueues, receives}
use policy_decision_service.Tests.Data.{host, world, broken}
use policy_decision_service.Errors.{canceled}
use policy_decision_service.Tests.Sinks.{entry}

abbrev database : Database ℕ
database = record {
  marshal_reasons = λ reasons. ok "[]";
  marshal_request = λ req. ok "{}";
  insert = λ row x. (none, suc x);
}

abbrev writer : AuditWriter
writer = record {
  has_pool = true;
  queue = entry ∷ [];
  capacity = 4;
  batch_size = 2;
  closed = false;
  dropped = 0;
  batch = entry ∷ [];
}

-- A writer that has received the record of one request.
abbrev received : AuditWriter
received =
    (receive database host entry []
      (enqueue host entry (new_audit_writer true (pos 4) (pos 2)) world).0 world).1

received-Runs : Runs host database received (entry ∷ [])
unfolding new_audit_writer enqueue offer receive
received-Runs =
    receives entry [] world (enqueues entry world (starts true (pos 4) (pos 2))) refl refl

Runs-IsBounded_example : IsBounded received
Runs-IsBounded_example = Runs-IsBounded host database received-Runs

-- What lies outside is the rows of the table.
abbrev row_host : Host (List Row)
row_host = record { ctx_err = λ x. (none, x); now = λ x. (0, x); new_uuid = λ x. ("id", x) }

abbrev rows : Database (List Row)
rows = record {
  marshal_reasons = λ reasons. ok "[]";
  marshal_request = λ req. ok "{}";
  insert = λ row x. (none, row ∷ x);
}

abbrev HasRow : List Row → String → Type 0
HasRow x id = Elem id (map (λ row. row.id) x)

rows-Table : Table rows HasRow
rows-Table = record { inserts = λ row x done. inl refl; keeps = λ row id x there. inr there }

abbrev no_rows : World (List Row)
no_rows = record { updates = []; outside = [] }

abbrev enqueued : AuditWriter × World (List Row)
enqueued = enqueue row_host entry (new_audit_writer true (pos 4) (pos 2)) no_rows

abbrev taken : Bool × AuditWriter × World (List Row)
taken = turn rows row_host record_queued enqueued.0 enqueued.1

to_taken : Lives row_host rows HasRow rows-Table (λ x row there. there) taken.1 taken.2 (entry ∷ [])
unfolding new_audit_writer enqueue offer receive turn
to_taken = turns record_queued refl (Life.enqueues entry (Life.starts true (pos 4) (pos 2) no_rows))

Lives-IsHeld_example : All (IsHeld row_host rows HasRow rows-Table taken.1 taken.2) (entry ∷ [])
Lives-IsHeld_example = Lives-IsHeld row_host rows HasRow rows-Table (λ x row there. there) to_taken

-- A context that ends when some row is in the table.
abbrev ending_host : Host (List Row)
ending_host = record row_host {
  ctx_err = λ x. (elim x [ [] ↦ none | first ∷ rest ↦ some canceled ], x);
}

abbrev queued : AuditWriter × World (List Row)
queued = enqueue ending_host entry (new_audit_writer true (pos 4) (pos 2)) no_rows

-- Other code has inserted a row, and the context has ended.
abbrev later : World (List Row)
later = record { updates = []; outside = row entry "[]" "{}" ∷ [] }

to_queued :
    Lives ending_host rows HasRow rows-Table (λ x id there. there) queued.0 later (entry ∷ [])
unfolding new_audit_writer enqueue offer
to_queued =
    Life.elsewhere later (λ id there. inr there)
      (Life.enqueues entry (Life.starts true (pos 4) (pos 2) no_rows))

learns :
    Learns ending_host rows HasRow rows-Table (λ x id there. there) queued.0 later record_queued
unfolding new_audit_writer enqueue offer
learns = noticed entry [] canceled refl refl

quiet : (turn rows ending_host record_queued queued.0 later).2.updates ≡ later.updates
unfolding new_audit_writer enqueue offer receive flush turn shut_down
quiet = refl

Lives-ends_example :
    ((turn rows ending_host record_queued queued.0 later).0 ≡ false)
    × Finished ending_host rows HasRow rows-Table
        (λ x id there. there)
        (entry ∷ [])
        (turn rows ending_host record_queued queued.0 later).1
        (turn rows ending_host record_queued queued.0 later).2
Lives-ends_example =
    Lives-ends ending_host rows HasRow rows-Table (λ x id there. there) to_queued learns quiet

-- A database that refuses every row, and a batch that is full already.
abbrev refusing : Database ℕ
refusing = record database { insert = λ row x. (some broken, x) }

receive_each-grows_example :
    ((receive_each host refusing (entry ∷ []) writer world).0.batch ≡ entry ∷ entry ∷ [])
    × ((receive_each host refusing (entry ∷ []) writer world).0.queue ≡ [])
    × ((receive_each host refusing (entry ∷ []) writer world).0.dropped ≡ 0)
receive_each-grows_example =
    receive_each-grows host refusing (λ row x h. cc) (λ x. refl) (entry ∷ []) writer world refl
