-- ===== src/Rules/RateLimit/Replies.antt =====
-- The replies of Redis that `int64FromRedis` of internal/rules/rate_limit.go reads: INCR answers
-- with an integer, GET with its decimal text.
use policy_decision_service.Prelude.{ok, ◌≡◌, refl}
use policy_decision_service.Prelude.Int.{ℤ}
use policy_decision_service.Prelude.Numerals.{decimal_int}
use policy_decision_service.Prelude.Numerals.Reading.{IsInt64, scan_int-decimal_int}
use policy_decision_service.Rules.RateLimit.{int, bulk, int64_from_redis}

-- A counter that fits an int64 is read as the same number from the integer that INCR replies and
-- from the decimal text that a later GET replies.
pub int64_from_redis_roundtrip :
    (z : ℤ)
    → IsInt64 z
    → (int64_from_redis (int z) ≡ ok z) × (int64_from_redis (bulk (decimal_int z)) ≡ ok z)
unfolding int64_from_redis
int64_from_redis_roundtrip z h = (refl, rw (scan_int-decimal_int z h, int64_from_redis) refl)
