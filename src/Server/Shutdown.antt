-- ===== src/Server/Shutdown.antt =====
-- The end of `main` in cmd/server/main.go: the goroutine that stops the two servers, the goroutines
-- of the sinks, and what `main` waits for. A move is one step of a goroutine, of a call that is
-- being served, or of the clock. As documented, `Shutdown` of the HTTP server returns when no call
-- is being served or its context has ended, `Close` waits for nothing, `GracefulStop` returns when
-- no call is being served or after `Stop`, and none of them lets a new call in.
pub mod Order
pub mod Completion
use policy_decision_service.Prelude.{ℕ, suc, Bool, true, false, ◌≡◌, ◌≢◌}

-- Where `main` stands: at the last select, at `<-shutdownDone`, at `sinksWG.Wait()`, behind it, and
-- at its end.
pub data MainPc : Type 0 where
  serving awaiting_stop awaiting_sinks closing returned : MainPc

-- Where the goroutine behind `shutdownDone` stands: at `<-ctx.Done()`, in `server.Shutdown`, at its
-- select, at the second `<-stopGRPC`, and at its end.
pub data StopPc : Type 0 where
  idle draining_http stopping_grpc forcing_grpc stopped : StopPc

pub record Process : Type 0 where
  pub main : MainPc
  pub stopper : StopPc
  -- `ctx`, `shutdownCtx` and `sinkCtx` have ended.
  pub signalled : Bool
  pub timed_out : Bool
  pub sinks_told : Bool
  pub http_open : Bool
  pub grpc_open : Bool
  -- The calls that are being served.
  pub http_calls : ℕ
  pub grpc_calls : ℕ
  -- `Run` of the two sinks.
  pub audit_running : Bool
  pub kafka_running : Bool
  pub publisher_open : Bool

-- `main` at its last select, with the sinks that are there.
unfoldable pub started : (audit kafka : Bool) → Process
started audit kafka = record {
  main = serving;
  stopper = idle;
  signalled = false;
  timed_out = false;
  sinks_told = false;
  http_open = true;
  grpc_open = true;
  http_calls = 0;
  grpc_calls = 0;
  audit_running = audit;
  kafka_running = kafka;
  publisher_open = kafka;
}

pub data Move (s : Process) : Process → Type 0 where
  interrupted : Move s (record s { signalled = true })
  http_begins : s.http_open ≡ true → Move s (record s { http_calls = suc s.http_calls })
  http_ends : (n : ℕ) → s.http_calls ≡ suc n → Move s (record s { http_calls = n })
  grpc_begins : s.grpc_open ≡ true → Move s (record s { grpc_calls = suc s.grpc_calls })
  grpc_ends : (n : ℕ) → s.grpc_calls ≡ suc n → Move s (record s { grpc_calls = n })
  -- The select at the end of `main`: the context, or an error of a server and then `stop()`.
  main_done : s.main ≡ serving → s.signalled ≡ true → Move s (record s { main = awaiting_stop })
  server_failed : s.main ≡ serving → Move s (record s { main = awaiting_stop; signalled = true })
  stop_begins :
      s.stopper ≡ idle
      → s.signalled ≡ true
      → Move s (record s { stopper = draining_http; http_open = false })
  -- Five seconds after that.
  time_runs_out : s.stopper ≢ idle → Move s (record s { timed_out = true })
  http_drained :
      s.stopper ≡ draining_http
      → s.http_calls ≡ 0
      → Move s (record s { stopper = stopping_grpc; grpc_open = false })
  -- `Shutdown` fails, and `Close`.
  http_closed :
      s.stopper ≡ draining_http
      → s.timed_out ≡ true
      → Move s (record s { stopper = stopping_grpc; grpc_open = false })
  grpc_drained :
      s.stopper ≡ stopping_grpc → s.grpc_calls ≡ 0 → Move s (record s { stopper = stopped })
  grpc_forced :
      s.stopper ≡ stopping_grpc → s.timed_out ≡ true → Move s (record s { stopper = forcing_grpc })
  grpc_stopped : s.stopper ≡ forcing_grpc → Move s (record s { stopper = stopped })
  -- `<-shutdownDone`, and `stopSinks()`.
  sinks_stopped :
      s.main ≡ awaiting_stop
      → s.stopper ≡ stopped
      → Move s (record s { main = awaiting_sinks; sinks_told = true })
  audit_ended : s.sinks_told ≡ true → Move s (record s { audit_running = false })
  kafka_ended : s.sinks_told ≡ true → Move s (record s { kafka_running = false })
  sinks_ended :
      s.main ≡ awaiting_sinks
      → s.audit_running ≡ false
      → s.kafka_running ≡ false
      → Move s (record s { main = closing })
  publisher_closed :
      s.main ≡ closing → Move s (record s { main = returned; publisher_open = false })

-- Any number of moves.
pub data Moves (s : Process) : Process → Type 0 where
  here : Moves s s
  then : {t u : Process} → Moves s t → Move t u → Moves s u
