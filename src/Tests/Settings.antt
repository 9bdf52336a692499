-- ===== src/Tests/Settings.antt =====
-- An environment that sets a variable, and a counter of Redis.
use policy_decision_service.Prelude.{String, ◌≡◌, refl, ◌==◌, if◌then◌else◌, ok, arith}
use policy_decision_service.Prelude.Int.{pos, negsuc}
use policy_decision_service.Prelude.Numerals.{decimal_int}
use policy_decision_service.Config.{env_int}
use policy_decision_service.Config.Values.{env_int_roundtrip}
use policy_decision_service.Rules.RateLimit.{int, bulk, int64_from_redis}
use policy_decision_service.Rules.RateLimit.Replies.{int64_from_redis_roundtrip}

abbrev getenv : String → String
getenv key = if key == "PDS_AUDIT_QUEUE_SIZE" then decimal_int (negsuc 4) else ""

env_int_roundtrip_example : env_int getenv "PDS_AUDIT_QUEUE_SIZE" (pos 10000) ≡ negsuc 4
env_int_roundtrip_example =
    env_int_roundtrip getenv "PDS_AUDIT_QUEUE_SIZE" (negsuc 4) (pos 10000) (omega arith) refl

int64_from_redis_roundtrip_example :
    (int64_from_redis (int (pos 17)) ≡ ok (pos 17))
    × (int64_from_redis (bulk (decimal_int (pos 17))) ≡ ok (pos 17))
int64_from_redis_roundtrip_example = int64_from_redis_roundtrip (pos 17) (omega arith)
