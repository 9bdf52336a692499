-- ===== src/Server/Shutdown/Order.antt =====
-- The order in which `main` of cmd/server/main.go lets go of its parts.
use policy_decision_service.Prelude.{Bool, true, false, not, ◌&&◌, ◌≡◌, ◌≢◌, ◌+◌, arith}
use policy_decision_service.Server.Shutdown.{
  MainPc, serving, awaiting_stop, awaiting_sinks, closing, returned, StopPc, idle, draining_http,
  stopping_grpc, forcing_grpc, stopped, Process, Move, interrupted, http_begins, http_ends,
  grpc_begins, grpc_ends, main_done, server_failed, stop_begins, time_runs_out, http_drained,
  http_closed, grpc_drained, grpc_forced, grpc_stopped, sinks_stopped, audit_ended, kafka_ended,
  sinks_ended, publisher_closed, Moves, here, then, started,
}

abbrev pub has_told : MainPc → Bool
has_told serving = false
has_told awaiting_stop = false
has_told awaiting_sinks = true
has_told closing = true
has_told returned = true

abbrev pub has_awaited : MainPc → Bool
has_awaited serving = false
has_awaited awaiting_stop = false
has_awaited awaiting_sinks = false
has_awaited closing = true
has_awaited returned = true

abbrev pub has_returned : MainPc → Bool
has_returned serving = false
has_returned awaiting_stop = false
has_returned awaiting_sinks = false
has_returned closing = false
has_returned returned = true

abbrev pub has_begun : StopPc → Bool
has_begun idle = false
has_begun draining_http = true
has_begun stopping_grpc = true
has_begun forcing_grpc = true
has_begun stopped = true

abbrev pub has_left_http : StopPc → Bool
has_left_http idle = false
has_left_http draining_http = false
has_left_http stopping_grpc = true
has_left_http forcing_grpc = true
has_left_http stopped = true

abbrev pub has_stopped : StopPc → Bool
has_stopped idle = false
has_stopped draining_http = false
has_stopped stopping_grpc = false
has_stopped forcing_grpc = false
has_stopped stopped = true

abbrev pub is_forcing : StopPc → Bool
is_forcing idle = false
is_forcing draining_http = false
is_forcing stopping_grpc = false
is_forcing forcing_grpc = true
is_forcing stopped = false

-- What holds of every state of a process with these sinks.
pub record IsOrderly (audit kafka : Bool) (s : Process) : Type 0 where
  pub told : s.sinks_told ≡ has_told s.main
  pub stopped_first : has_told s.main ≡ true → has_stopped s.stopper ≡ true
  pub audit_awaited : has_awaited s.main ≡ true → s.audit_running ≡ false
  pub kafka_awaited : has_awaited s.main ≡ true → s.kafka_running ≡ false
  pub audit_kept : s.sinks_told ≡ false → s.audit_running ≡ audit
  pub kafka_kept : s.sinks_told ≡ false → s.kafka_running ≡ kafka
  pub publishing : s.publisher_open ≡ kafka && not (has_returned s.main)
  pub signalled : has_begun s.stopper ≡ true → s.signalled ≡ true
  pub http_shut : has_begun s.stopper ≡ true → s.http_open ≡ false
  pub grpc_shut : has_left_http s.stopper ≡ true → s.grpc_open ≡ false
  pub forced : is_forcing s.stopper ≡ true → s.timed_out ≡ true
  pub http_idle : has_left_http s.stopper ≡ true → s.timed_out ≡ false → s.http_calls ≡ 0
  pub grpc_idle : has_stopped s.stopper ≡ true → s.timed_out ≡ false → s.grpc_calls ≡ 0

pub Move-IsOrderly :
    {audit kafka : Bool} {s t : Process}
    → Move s t
    → IsOrderly audit kafka s
    → IsOrderly audit kafka t
Move-IsOrderly interrupted h = ground arith
Move-IsOrderly (http_begins o) h = ground arith
Move-IsOrderly (http_ends n e) h = ground arith
Move-IsOrderly (grpc_begins o) h = ground arith
Move-IsOrderly (grpc_ends n e) h = ground arith
Move-IsOrderly (main_done e f) h = ground arith
Move-IsOrderly (server_failed e) h = ground arith
Move-IsOrderly (stop_begins e f) h = ground arith
Move-IsOrderly (time_runs_out e) h = ground arith
Move-IsOrderly (http_drained e f) h = ground arith
Move-IsOrderly (http_closed e f) h = ground arith
Move-IsOrderly (grpc_drained e f) h = ground arith
Move-IsOrderly (grpc_forced e f) h = ground arith
Move-IsOrderly (grpc_stopped e) h = ground arith
Move-IsOrderly (sinks_stopped e f) h = ground arith
Move-IsOrderly (audit_ended e) h = ground arith
Move-IsOrderly (kafka_ended e) h = ground arith
Move-IsOrderly (sinks_ended e f g) h = ground arith
Move-IsOrderly (publisher_closed e) h = ground arith

started-IsOrderly : (audit kafka : Bool) → IsOrderly audit kafka (started audit kafka)
unfolding started
started-IsOrderly audit kafka = ground arith

pub Moves-IsOrderly :
    (audit kafka : Bool) {s : Process} → Moves (started audit kafka) s → IsOrderly audit kafka s
Moves-IsOrderly audit kafka here = started-IsOrderly audit kafka
Moves-IsOrderly audit kafka (then ms m) = Move-IsOrderly m (Moves-IsOrderly audit kafka ms)

-- With Kafka enabled, however the goroutines and the calls take turns: once the publisher is closed,
-- both sinks have ended, and neither server lets a call in.
pub publisher_last :
    (audit : Bool) {s : Process}
    → Moves (started audit true) s
    → s.publisher_open ≡ false
    → (s.audit_running ≡ false)
      × (s.kafka_running ≡ false)
      × (s.http_open ≡ false)
      × (s.grpc_open ≡ false)
publisher_last audit ms closed = let h = Moves-IsOrderly audit true ms in ground (arith, closed)

-- Until the five seconds of the shutdown have run out, every call that is being served, over HTTP
-- or gRPC, finds the sinks that were started running, and the Kafka publisher open if there is one.
pub calls_meet_sinks :
    (audit kafka : Bool) {s : Process}
    → Moves (started audit kafka) s
    → s.timed_out ≡ false
    → s.http_calls + s.grpc_calls ≢ 0
    → (s.audit_running ≡ audit) × (s.kafka_running ≡ kafka) × (s.publisher_open ≡ kafka)
calls_meet_sinks audit kafka ms in_time busy =
    let h = Moves-IsOrderly audit kafka ms in ground (arith, in_time, busy)
