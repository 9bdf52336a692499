-- ===== src/Sink/Franz.antt =====
-- internal/sink/franz.go. The client library (franz-go) is a parameter: the client of some
-- options, one record produced with a timeout in nanoseconds, and the close.
use policy_decision_service.Prelude.{
  ℕ, String, List, [], ◌∷◌, ◌++◌, Option, some, none, ◌==◌, Result, if◌then◌else◌,
}
use policy_decision_service.Errors.{Error}

pub data Opt : Type 0 where
  seed_brokers : List String → Opt
  client_id : String → Opt

pub record Franz (X C : Type 0) : Type 0 where
  pub new_client : List Opt → X → Result Error C × X
  pub produce_sync : C → ℕ → String → String → String → X → Option Error × X
  pub close : C → X → X

abbrev pub publish_timeout : ℕ
publish_timeout = 5000000000

unfoldable pub options : List String → String → List Opt
options brokers id = (seed_brokers brokers ∷ []) ++ (if id == "" then [] else client_id id ∷ [])

module _ {X C : Type 0} (f : Franz X C) where
  unfoldable pub new_franz_publisher : List String → String → X → Result Error C × X
  new_franz_publisher brokers id x = f.new_client (options brokers id) x

  -- `Publish`, of a publisher that is there.
  unfoldable pub franz_publish : C → String → String → String → X → Option Error × X
  franz_publish client topic key value x = f.produce_sync client publish_timeout topic key value x

  -- `Close`
  unfoldable pub franz_close : Option C → X → X
  franz_close none x = x
  franz_close (some client) x = f.close client x
