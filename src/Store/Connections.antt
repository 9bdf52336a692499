-- ===== src/Store/Connections.antt =====
-- The connections that internal/store/postgres.go and internal/store/redis.go leave open.
use policy_decision_service.Prelude.{
  ℕ, ◌+◌, ◌-◌, String, Option-cases, ◌≡◌, arith, Result, ok, err, inl, inr,
}
use policy_decision_service.Errors.{Error}
use policy_decision_service.Store.Postgres.{Driver, new_postgres}
use policy_decision_service.Store.Redis.{Library, Redis, new_redis}
use policy_decision_service.Store.Redis as R
use policy_decision_service.Store.Postgres as Pg

-- One for a result, none for an error.
abbrev pub gained : {A : Type 0} → Result Error A → ℕ
gained (ok a) = 1
gained (err e) = 0

-- `count` is the number of open pools: a pool that is made counts until it is closed.
pub record CountsPools {X P : Type 0} (d : Driver X P) (count : X → ℕ) : Type 0 where
  pub connects :
      (url : String) (x : X) → count (d.connect url x).1 ≡ count x + gained (d.connect url x).0
  pub pings : (p : P) (x : X) → count (d.ping p x).1 ≡ count x
  pub closes : (p : P) (x : X) → count (d.close p x) ≡ count x - 1

checked_balanced :
    {X P : Type 0} (d : Driver X P) (count : X → ℕ)
    → CountsPools d count
    → (o : Result Error P × X) (n : ℕ) → count o.1 ≡ n + gained o.0
    → count (Pg.checked d o).1 ≡ n + gained (Pg.checked d o).0
checked_balanced d count c (err e, x) n h = h
checked_balanced d count c (ok pool, x) n h = elim (Option-cases (d.ping pool x).0) [
  | inl well ↦ rw (well, Pg.checked) (omega (arith, h, c.pings pool x))
  | inr (e, ill) ↦
      rw (ill, Pg.checked) (omega (arith, h, c.pings pool x, c.closes pool (d.ping pool x).1))
]

-- Opening PostgreSQL leaves one more pool open if it succeeds, and none if it fails.
pub new_postgres_balanced :
    {X P : Type 0} (d : Driver X P) (count : X → ℕ)
    → CountsPools d count
    → (url : String) (x : X)
    → count (new_postgres d url x).1 ≡ count x + gained (new_postgres d url x).0
unfolding new_postgres
new_postgres_balanced d count c url x =
    checked_balanced d count c (d.connect url x) (count x) (c.connects url x)

-- The same of Redis, whose clients are made without an error.
pub record CountsClients {X O C : Type 0} (l : Library X O C) (count : X → ℕ) : Type 0 where
  pub connects : (o : O) (x : X) → count (l.new_client o x).1 ≡ count x + 1
  pub pings : (client : C) (x : X) → count (l.ping client x).1 ≡ count x
  pub closes : (client : C) (x : X) → count (l.close client x).1 ≡ count x - 1

client_balanced :
    {X O C : Type 0} (l : Library X O C) (count : X → ℕ)
    → CountsClients l count
    → (o : C × X) (n : ℕ) → count o.1 ≡ n + 1
    → count (R.checked l o).1 ≡ n + gained (R.checked l o).0
client_balanced l count c (client, x) n h = elim (Option-cases (l.ping client x).0) [
  | inl well ↦ rw (well, R.checked) (omega (arith, h, c.pings client x))
  | inr (e, ill) ↦
      rw (ill, R.checked) (omega (arith, h, c.pings client x, c.closes client (l.ping client x).1))
]

connected_balanced :
    {X O C : Type 0} (l : Library X O C) (count : X → ℕ)
    → CountsClients l count
    → (options : Result Error O) (x : X)
    → count (R.connected l options x).1 ≡ count x + gained (R.connected l options x).0
connected_balanced l count c (err e) x = omega arith
connected_balanced l count c (ok o) x =
    client_balanced l count c (l.new_client o x) (count x) (c.connects o x)

-- Opening Redis leaves one more client open if it succeeds, and none if it fails.
pub new_redis_balanced :
    {X O C : Type 0} (l : Library X O C) (count : X → ℕ)
    → CountsClients l count
    → (url : String) (x : X) → count (new_redis l url x).1 ≡ count x + gained (new_redis l url x).0
unfolding new_redis
new_redis_balanced l count c url x = connected_balanced l count c (l.parse_url url) x
