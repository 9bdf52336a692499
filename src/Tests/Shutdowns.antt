-- ===== src/Tests/Shutdowns.antt =====
-- A server with both sinks that is interrupted while a call is being served.
use policy_decision_service.Prelude.{true, false, ◌≡◌, refl, arith}
use policy_decision_service.Server.Shutdown.{
  Process, stopped, awaiting_sinks, returned, interrupted, http_begins, http_ends, main_done,
  stop_begins, http_drained, grpc_drained, sinks_stopped, audit_ended, kafka_ended, sinks_ended,
  publisher_closed, Moves, here, then, started,
}
use policy_decision_service.Server.Shutdown.Order.{calls_meet_sinks}

abbrev busy : Process
busy = record (started true true) { http_calls = 1; signalled = true }

to_busy : Moves (started true true) busy
unfolding started
to_busy = then (then here (http_begins refl)) interrupted

calls_meet_sinks_example :
    (busy.audit_running ≡ true) × (busy.kafka_running ≡ true) × (busy.publisher_open ≡ true)
unfolding started
calls_meet_sinks_example = calls_meet_sinks true true to_busy refl (ground arith)

-- The same server behind the end of that call, up to its own end.
abbrev ended : Process
ended = record (started true true) {
  main = returned;
  stopper = stopped;
  signalled = true;
  sinks_told = true;
  http_open = false;
  grpc_open = false;
  audit_running = false;
  kafka_running = false;
  publisher_open = false;
}

sinks_left : Moves (started true true) (record ended {
  main = awaiting_sinks;
  audit_running = true;
  kafka_running = true;
  publisher_open = true;
})
unfolding started
sinks_left =
    let asked = then (then to_busy (http_ends 0 refl)) (main_done refl refl) in
    let closed = then (then asked (stop_begins refl refl)) (http_drained refl refl) in
    then (then closed (grpc_drained refl refl)) (sinks_stopped refl refl)

to_ended : Moves (started true true) ended
unfolding started
to_ended =
    then
      (then (then (then sinks_left (audit_ended refl)) (kafka_ended refl))
        (sinks_ended refl refl refl))
      (publisher_closed refl)
