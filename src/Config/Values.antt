-- ===== src/Config/Values.antt =====
-- What the variables of internal/config/config.go are read as.
use policy_decision_service.Prelude.{
  String, List, [], ◌∷◌, Option, some, ◌≡◌, ◌≢◌, refl, ◌==◌, eq_iff, arith, All, Bool-cases, inl,
  inr,
}
use policy_decision_service.Prelude.Int.{ℤ}
use policy_decision_service.Prelude.Text.{codes, split, keep_trimmed, trim_space}
use policy_decision_service.Prelude.Numerals.{atoi, decimal_int}
use policy_decision_service.Prelude.Numerals.Reading.{IsInt64, atoi-decimal_int}
use policy_decision_service.Config.{env_int, env_csv, items_or, load}

empty_text : {A : Type 0} (z : ℤ) → atoi (codes "") ≡ some z → A
unfolding atoi
empty_text z h = cc

-- An int64 that is put into a variable as decimal text is read back, whatever the fallback is.
pub env_int_roundtrip :
    (getenv : String → String) (key : String) (z fallback : ℤ)
    → IsInt64 z
    → getenv key ≡ decimal_int z
    → env_int getenv key fallback ≡ z
unfolding env_int
env_int_roundtrip getenv key z fallback h set = elim (Bool-cases (getenv key == "")) [
  | inl unset ↦
      let empty : decimal_int z ≡ "" = ground (arith, eq_iff (getenv key) "") in
      empty_text z (rw empty at (atoi-decimal_int z h))
  | inr given ↦ rw (given, set, atoi-decimal_int z h) refl
]

abbrev pub IsItem : String → Type 0
IsItem s = s ≢ ""

keep_trimmed-IsItem : (pieces : List String) → All IsItem (keep_trimmed pieces)
unfolding keep_trimmed
keep_trimmed-IsItem [] = tt
keep_trimmed-IsItem (piece ∷ pieces) =
    ground (arith, keep_trimmed-IsItem pieces, eq_iff (trim_space piece) "")

items_or-IsItem :
    (items fallback : List String)
    → All IsItem items
    → All IsItem fallback
    → fallback ≢ []
    → (items_or items fallback ≢ []) × All IsItem (items_or items fallback)
items_or-IsItem [] fallback h k n = (n, k)
items_or-IsItem (item ∷ items) fallback h k n = (λ e. cc, h)

env_csv-IsItem :
    (getenv : String → String) (key : String) (fallback : List String)
    → All IsItem fallback
    → fallback ≢ []
    → (env_csv getenv key fallback ≢ []) × All IsItem (env_csv getenv key fallback)
unfolding env_csv
env_csv-IsItem getenv key fallback k n = elim (Bool-cases (getenv key == "")) [
  | inl unset ↦ rw unset (n, k)
  | inr given ↦ rw given (
      items_or-IsItem (keep_trimmed (split b',' (getenv key))) fallback (keep_trimmed-IsItem _) k n)
]

-- Whatever the environment holds, the configuration has Kafka brokers, and none is the empty text.
pub load-kafka_brokers :
    (getenv : String → String) (parse_duration : String → Option ℤ)
    → ((load getenv parse_duration).kafka_brokers ≢ [])
      × All (λ broker. broker ≢ "") (load getenv parse_duration).kafka_brokers
unfolding load
load-kafka_brokers getenv parse_duration =
    env_csv-IsItem getenv "PDS_KAFKA_BROKERS" ("redpanda:9092" ∷ [])
      (ground (arith, eq_iff "redpanda:9092" ""), tt) (λ e. cc)
