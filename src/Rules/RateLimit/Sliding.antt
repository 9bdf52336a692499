-- ===== src/Rules/RateLimit/Sliding.antt =====
-- The sliding window of internal/rules/rate_limit.go for the integers that Redis holds.
use Prim.Native.String
use policy_decision_service.Prelude.{
  ℕ, ◌+◌, ◌*◌, String, true, false, ◌++◌, none, ◌≡◌, ◌⊎◌, ok, leb,
}
use policy_decision_service.Prelude.Int.{ℤ, pos, is_positive}
use policy_decision_service.Prelude.Numerals.{decimal}
use policy_decision_service.Prelude.Numerals.Reading.{IsInt64}
use policy_decision_service.Engine.Types.{verdict_allow, RuleResult}
use policy_decision_service.Rules.RateLimit.{Redis, int, bulk, nil, Float, RateLimitRule}

-- What Redis documents of the replies: INCR replies the new integer if it fits an
-- int64, EXPIRE with a positive time
-- replies 1 for a key that is there, GET replies nil or the decimal text.
pub record Replies {X : Type 0} (redis : Redis X) (count : X → String → ℕ) : Type 0 where
  pub new_integer :
      (key : String) (x : X)
      → IsInt64 (pos (count x key + 1))
      → (redis.incr key x).0 ≡ ok (int (pos (count x key + 1)))
  pub is_set :
      (key : String) (ttl : ℤ) (x : X)
      → is_positive ttl ≡ true
      → (redis.expire key ttl x).0 ≡ ok (int (pos 1))
  pub text :
      (key : String) (x : X)
      → ((count x key ≡ 0) × ((redis.get key x).0 ≡ ok nil))
        ⊎ ((redis.get key x).0 ≡ ok (bulk (decimal (count x key))))

-- The key of a window, by its number.
abbrev pub window_key : String → ℕ → String
window_key prefix bucket = String.◌++◌ prefix (String.◌++◌ ":" (decimal bucket))

-- The test of the code, for `current` requests in this window, this one included, `previous` in the
-- one before and `left` of the `width` seconds to go: float64 does not round it to the other side.
abbrev pub IsExact : {F : Type 0} → Float F → (current previous left width limit : ℕ) → Type 0
IsExact fl current previous left width limit =
    fl.leq
      (fl.add (fl.of_int (pos current))
        (fl.mul (fl.of_int (pos previous)) (fl.div (fl.of_int (pos left)) (fl.of_int (pos width)))))
      (fl.of_int (pos limit))
    ≡ leb (current * width + previous * left) (limit * width)

-- The two results of a rule.
abbrev pub passed : RateLimitRule → RuleResult
passed r = record {
  rule_id = r.id;
  matched = false;
  verdict = verdict_allow;
  reason = record { code = ""; rule = ""; detail = "" };
  error = none;
}

abbrev pub limited : RateLimitRule → RuleResult
limited r = record {
  rule_id = r.id;
  matched = true;
  verdict = r.on_exceed.verdict;
  reason = record { code = r.on_exceed.code; rule = r.id; detail = "" };
  error = none;
}
