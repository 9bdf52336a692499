-- ===== src/Server/Shutdown/Completion.antt =====
-- The end of `main` of cmd/server/main.go, while no call that is being served ends.
use policy_decision_service.Prelude.{ℕ, Bool, true, false, not, ◌≡◌, ◌+◌, ◌<◌}
use policy_decision_service.Server.Shutdown.{
  MainPc, serving, awaiting_stop, awaiting_sinks, closing, returned, StopPc, idle, draining_http,
  stopping_grpc, forcing_grpc, stopped, Process, Move, interrupted, http_begins, http_ends,
  grpc_begins, grpc_ends, main_done, server_failed, stop_begins, time_runs_out, http_drained,
  http_closed, grpc_drained, grpc_forced, grpc_stopped, sinks_stopped, audit_ended, kafka_ended,
  sinks_ended, publisher_closed,
}

-- The moves that are neither the end nor the begin of a call.
abbrev pub IsOwn : {s t : Process} → Move s t → Type 0
IsOwn interrupted = Unit {0}
IsOwn (http_begins o) = ⊥
IsOwn (http_ends n e) = ⊥
IsOwn (grpc_begins o) = ⊥
IsOwn (grpc_ends n e) = ⊥
IsOwn (main_done e f) = Unit {0}
IsOwn (server_failed e) = Unit {0}
IsOwn (stop_begins e f) = Unit {0}
IsOwn (time_runs_out e) = Unit {0}
IsOwn (http_drained e f) = Unit {0}
IsOwn (http_closed e f) = Unit {0}
IsOwn (grpc_drained e f) = Unit {0}
IsOwn (grpc_forced e f) = Unit {0}
IsOwn (grpc_stopped e) = Unit {0}
IsOwn (sinks_stopped e f) = Unit {0}
IsOwn (audit_ended e) = Unit {0}
IsOwn (kafka_ended e) = Unit {0}
IsOwn (sinks_ended e f g) = Unit {0}
IsOwn (publisher_closed e) = Unit {0}

-- Moves while every call that is being served goes on.
pub data OwnMoves (s : Process) : Process → Type 0 where
  none_yet : OwnMoves s s
  and_then : {t u : Process} → OwnMoves s t → (m : Move t u) → IsOwn m → OwnMoves s u

-- The moves that are left.
abbrev main_work : MainPc → ℕ
main_work serving = 4
main_work awaiting_stop = 3
main_work awaiting_sinks = 2
main_work closing = 1
main_work returned = 0

abbrev stop_work : StopPc → ℕ
stop_work idle = 4
stop_work draining_http = 3
stop_work stopping_grpc = 2
stop_work forcing_grpc = 1
stop_work stopped = 0

abbrev running_work : Bool → ℕ
running_work true = 1
running_work false = 0

abbrev work : Process → ℕ
work s =
    main_work s.main
    + stop_work s.stopper
    + running_work (not s.timed_out)
    + running_work s.audit_running
    + running_work s.kafka_running

-- A move of the shutdown.
record Progress (s : Process) : Type 0 where
  next : Process
  move : Move s next
  own : IsOwn move
  less : work next < work s
  still : next.signalled ≡ true
