-- ===== src/Tests/Rules.antt =====
-- Two limits that share a counter, and a limit that is not exceeded and one that is.
use Prim.Native.String
use policy_decision_service.Prelude.{
  ℕ, ◌+◌, ◌*◌, ◌-◌, ◌/◌, leb, String, [], ◌∷◌, ◌≡◌, refl, inr, ok, true, All, arith, eq_iff,
  if◌then◌else◌, ◌==◌,
}
use policy_decision_service.Prelude.Int.{pos, pos_part, is_positive}
use policy_decision_service.Prelude.Numerals.{decimal}
use policy_decision_service.Rules.RateLimit.{
  Float, Redis, int, bulk, RateLimitRule, seconds, ttl_seconds,
}
use policy_decision_service.Telemetry.{World}
use policy_decision_service.Rules.RateLimit.Shared.{
  Counts, IsLimit, IsPrefix, by_action, evaluate_in_turn, evaluate_in_turn-count,
}
use policy_decision_service.Tests.Data.{state, request, block_action, float}

abbrev limit_rule : RateLimitRule
limit_rule = record {
  id = "l";
  scope = "actor";
  action = "publish";
  window = 60000000000;
  limit = 2;
  on_exceed = block_action;
}

minute : float.trunc (seconds float (pos 60000000000)) ≡ pos 60
unfolding seconds
minute = refl

lasting : is_positive (ttl_seconds float 60000000000) ≡ true
unfolding seconds ttl_seconds
lasting = refl

-- Counters as a function of the key.
abbrev counters : Redis (String → ℕ)
counters = record {
  incr = λ key x. (ok (int (pos (x key + 1))), λ other. x other + (if other == key then 1 else 0));
  expire = λ key ttl x. (ok (int (pos 1)), x);
  get = λ key x. (ok (bulk (decimal (x key))), x);
}

abbrev still_now : (String → ℕ) → ℕ × (String → ℕ)
still_now x = (90, x)

counters-Counts : Counts counters still_now (λ x. x)
counters-Counts = record {
  increments = λ key other x fits. refl;
  expires = λ key other ttl x lasts. refl;
  gets = λ key other x. refl;
  reads = λ other x. refl;
}

abbrev flag_limit : RateLimitRule
flag_limit = record limit_rule { id = "f"; limit = 1 }

abbrev no_counts : World (String → ℕ)
no_counts = record { updates = []; outside = λ key. 0 }

itself : (r : RateLimitRule) → IsLimit r.scope r.action r.window r
itself r = record { same_scope = refl; same_action = refl; same_window = refl }

limits : All (IsLimit "actor" "publish" 60000000000) (flag_limit ∷ limit_rule ∷ [])
limits = (itself flag_limit, (itself limit_rule, tt))

prefix : IsPrefix "actor" "publish" request "pds:rl:u1:publish"
prefix =
    by_action (ground (arith, eq_iff "actor" "global"))
      (ground (arith, eq_iff "actor" "actor+action"))

in_turn : (x : String → ℕ) → (still_now x).0 / 60 ≡ 1
in_turn x = refl

evaluate_in_turn-count_example :
    (evaluate_in_turn counters still_now float
        (flag_limit ∷ limit_rule ∷ [])
        state
        no_counts).outside
      (String.◌++◌ "pds:rl:u1:publish" (String.◌++◌ ":" (decimal 1)))
    ≡ 0 + 2
evaluate_in_turn-count_example =
    evaluate_in_turn-count counters still_now float (λ x. x) counters-Counts "actor" "publish"
      60000000000 59 1 (flag_limit ∷ limit_rule ∷ []) state "pds:rl:u1:publish" no_counts limits
      (inr refl) minute lasting in_turn prefix (omega arith)

-- Three requests in the minute before, none in this one.
abbrev three_before : World (String → ℕ)
three_before = record {
  updates = [];
  outside = λ key. if key == "pds:rl:u1:publish:0" then 3 else 0;
}

-- Fractions for float64.
abbrev fractions : Float (ℕ × ℕ)
fractions = record {
  of_int = λ z. (pos_part z, 1);
  add = λ p q. (p.0 * q.1 + q.0 * p.1, p.1 * q.1);
  mul = λ p q. (p.0 * q.0, p.1 * q.1);
  div = λ p q. (p.0 * q.1, p.1 * q.0);
  leq = λ p q. leb (p.0 * q.1) (q.0 * p.1);
  ceil = λ p. ((p.0 + p.1 - 1) / p.1, 1);
  trunc = λ p. pos (p.0 / p.1);
}
