-- ===== src/Store/Redis.antt =====
-- internal/store/redis.go. The client library (go-redis) is a parameter; a nil pointer is `none`.
use policy_decision_service.Prelude.{String, Option, some, none, Result, ok, err}
use policy_decision_service.Errors.{Error}

pub record Library (X O C : Type 0) : Type 0 where
  pub parse_url : String → Result Error O
  pub new_client : O → X → C × X
  pub ping : C → X → Option Error × X
  pub close : C → X → Option Error × X

pub record Redis (C : Type 0) : Type 0 where
  pub client : C

module _ {X O C : Type 0} (l : Library X O C) where
  -- The ping of a new client; what its close returns is dropped.
  abbrev pub checked : C × X → Result Error (Redis C) × X
  checked (client, x) =
      let (e, x1) = l.ping client x in
      elim e [
        | some error ↦ (err error, (l.close client x1).1)
        | none ↦ (ok (record { client = client }), x1)
      ]

  abbrev pub connected : Result Error O → X → Result Error (Redis C) × X
  connected (err e) x = (err e, x)
  connected (ok options) x = checked (l.new_client options x)

  unfoldable pub new_redis : String → X → Result Error (Redis C) × X
  new_redis redis_url x = connected (l.parse_url redis_url) x

  unfoldable pub health : Redis C → X → Option Error × X
  health r x = l.ping r.client x

  -- `Close`
  unfoldable pub shut : Option (Redis C) → X → Option Error × X
  shut none x = (none, x)
  shut (some r) x = l.close r.client x

-- `Client`
unfoldable pub client_of : {C : Type 0} → Option (Redis C) → Option C
client_of none = none
client_of (some r) = some r.client
