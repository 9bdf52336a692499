-- ===== src/Lib.antt =====
-- The policy decision service: it answers whether an actor's action is allowed, flagged or
-- blocked, by evaluating a file of rules on the request. Paths are from the repository's root.
--
-- A request comes over HTTP or gRPC (internal/api), is validated, and reaches the engine through
-- the holder of cmd/server/main.go, which a reload of the rules replaces. It reaches
-- `RuleEngine.Evaluate` (internal/engine/engine.go), which asks the feature provider for the
-- actor's features, runs the rules in order, gives a combiner the results before it, combines the
-- results into a verdict (internal/engine/combine.go), and hands an audit record to the sinks.
-- The rules come from a YAML file that internal/rules/loader.go checks, orders by dependency and
-- builds.
--
--   Telemetry            internal/telemetry/metrics.go: the collectors, and their updates as a list
--                        in the world of the handlers
--   Errors               the errors that the program makes or passes on
--   Engine.Types         internal/engine/types.go
--   Engine.Combine       internal/engine/combine.go: `Combine` is `combine`
--   Engine.Rules         the interfaces of internal/engine/engine.go
--   Engine.Evaluate      internal/engine/engine.go: `Evaluate` is `evaluate`, its loop is
--                        `evaluate_rules`, and what follows the loop is `conclude`
--   Rules.Action         internal/rules/rule.go
--   Rules.Combiner       internal/rules/combiner.go
--   Rules.RateLimit      internal/rules/rate_limit.go
--   Rules.Keyword        internal/rules/keyword.go
--   Rules.Aho            internal/rules/aho_matcher.go; its children follow the construction: the
--                        words of the nodes, the tree, the links, the queue, the search in a text
--   Rules.Cel            internal/rules/cel.go
--   Rules.Raw, Order     internal/rules/loader.go: the decoded file, and `orderRules`
--   Rules.Loader         internal/rules/loader.go: `LoadFile`, `LoadBytes` and `buildRule`
--   Sink.Kafka, Multi    internal/sink/kafka.go and internal/sink/sink.go
--   Sink.Franz           internal/sink/franz.go
--   Profile              internal/profile/http_provider.go and internal/profile/provider.go
--   Store.Audit          internal/store/audit.go
--   Store.Postgres, Redis
--                        internal/store/postgres.go and internal/store/redis.go
--   Config               internal/config/config.go
--   Api.Request, Http    internal/api/http.go and internal/api/middleware.go
--   Api.Grpc             internal/api/grpc.go
--   Server               cmd/server/main.go: `engineHolder`, `buildEngine`, `reload`, SIGHUP, the
--                        readiness check and the choice of the sinks
--   Server.Routes        cmd/server/main.go: the router over the holder, and the call of a reload
--   Server.System        cmd/server/main.go: the two sinks that every handler shares
--   Server.Startup       cmd/server/main.go: `main` up to the listening socket is `start`
--   Server.Shutdown      cmd/server/main.go: the end of `main` and the goroutine that stops the two
--                        servers, as the relation `Move` on what they have come to
--   Tests                concrete inputs, and runs on them
--
-- The world (`World X`) is the metrics updated so far with what lies outside of the process, of
-- any type `X`; the context of a call, the clock and the identifiers are the operations `Host` on
-- it. A call of an interface takes the world and returns it, so every effect is in the order of the
-- code. An error is a value of `Error`, and a fallible call returns a `Result`.
--
-- Numbers: durations are nanoseconds, and the only product that can leave the range of int64, twice
-- the window of a rate limit, is wrapped. The clock does not run backwards within a call. float64
-- is a parameter with the operations that the code uses.
--
-- Fuel: `visit` of the ordering runs on one more than the number of rules, since each nested
-- call marks a further rule. In the matcher the failure links are followed with one more than
-- the number of nodes, which is enough since a link leads to a node with a shorter word and a word
-- is shorter than the number of nodes; the queue is worked off with the number of nodes, which is
-- enough since no node is queued twice.
--
-- Parameters stand for code outside the repository: the file system, the YAML decoder, SHA-256,
-- time.ParseDuration, cel-go, Redis, the HTTP client, the Kafka publisher and franz-go, PostgreSQL,
-- JSON, structpb, chi, Unicode lower case past ASCII, and the iteration order of Go maps.
--
-- Goroutines: the audit writer, the Kafka sink and the end of `main` are step relations, in which
-- the steps of the goroutines, of the calls and of the clock come in any order. A select between
-- two cases that are both ready is an argument of the step.
--
-- Not modelled: the log, with internal/telemetry/logging.go, which sets it up; the timeouts of the
-- HTTP server, which is a library; and the generated protocol code.
pub mod Prelude
pub mod Errors
pub mod Telemetry
pub mod Engine
pub mod Rules
pub mod Sink
pub mod Profile
pub mod Store
pub mod Config
pub mod Api
pub mod Server
pub mod Tests
