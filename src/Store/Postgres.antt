-- ===== src/Store/Postgres.antt =====
-- internal/store/postgres.go. The driver (pgx) is a parameter; a nil pointer is `none`.
use policy_decision_service.Prelude.{String, Option, some, none, Result, ok, err}
use policy_decision_service.Errors.{Error}

-- `connect` is `pgxpool.New`.
pub record Driver (X P : Type 0) : Type 0 where
  pub connect : String → X → Result Error P × X
  pub ping : P → X → Option Error × X
  pub close : P → X → X

pub record Postgres (P : Type 0) : Type 0 where
  pub pool : P

module _ {X P : Type 0} (d : Driver X P) where
  -- The ping of a new pool.
  abbrev pub checked : Result Error P × X → Result Error (Postgres P) × X
  checked (err e, x) = (err e, x)
  checked (ok pool, x) =
      let (e, x1) = d.ping pool x in
      elim e [
        | some error ↦ (err error, d.close pool x1)
        | none ↦ (ok (record { pool = pool }), x1)
      ]

  unfoldable pub new_postgres : String → X → Result Error (Postgres P) × X
  new_postgres database_url x = checked (d.connect database_url x)

  unfoldable pub health : Postgres P → X → Option Error × X
  health p x = d.ping p.pool x

  -- `Close`
  unfoldable pub shut : Option (Postgres P) → X → X
  shut none x = x
  shut (some p) x = d.close p.pool x

-- `Pool`
unfoldable pub pool_of : {P : Type 0} → Option (Postgres P) → Option P
pool_of none = none
pool_of (some p) = some p.pool
