-- ===== src/Rules/RateLimit.antt =====
-- internal/rules/rate_limit.go. Redis, the wall clock and the float64 arithmetic are interfaces:
-- the script runs the commands of `Redis` in one go, as Redis does.
pub mod Shared
pub mod Replies
pub mod Sliding
use Prim.Native.String
use policy_decision_service.Prelude.{
  ℕ, suc, ◌*◌, ◌/◌, ◌%◌, String, Bool, true, false, not, ◌&&◌, some, none, ◌==◌, Result, ok, err,
  ◌>>=◌, ◌>>◌, reject_if, if◌then◌else◌,
}
use policy_decision_service.Prelude.Int.{
  ℤ, pos, negsuc, opposite, pos_part, sub_ℕ, wrap64, is_positive,
}
use policy_decision_service.Prelude.Text.{codes, trim_space}
use policy_decision_service.Prelude.Numerals.{decimal, decimal_int, scan_int}
use policy_decision_service.Errors.{Error, message}
use policy_decision_service.Telemetry.{World}
use policy_decision_service.Engine.Types.{verdict_allow, DecideRequest, EvalState, RuleResult}
use policy_decision_service.Engine.Rules.{Outcome, Rule, plain}
use policy_decision_service.Engine.Evaluate.{no_reason}
use policy_decision_service.Rules.Action.{RuleAction, validate}

-- A reply of Redis.
pub data Reply : Type 0 where
  int : ℤ → Reply
  bulk : String → Reply
  nil : Reply

-- The commands that the script calls; an error ends the script.
pub record Redis (X : Type 0) : Type 0 where
  pub incr : String → X → Result Error Reply × X
  pub expire : String → ℤ → X → Result Error Reply × X
  pub get : String → X → Result Error Reply × X

-- float64: `F` with the operations that the code uses. `trunc` is the conversion to int64.
pub record Float (F : Type 0) : Type 0 where
  pub of_int : ℤ → F
  pub add : F → F → F
  pub mul : F → F → F
  pub div : F → F → F
  pub leq : F → F → Bool
  pub ceil : F → F
  pub trunc : F → ℤ

-- The window is a positive number of nanoseconds, and the limit is positive.
pub record RateLimitRule : Type 0 where
  pub id : String
  pub scope : String
  pub action : String
  pub window : ℕ
  pub limit : ℕ
  pub on_exceed : RuleAction

pub record RateLimitRuleConfig : Type 0 where
  pub id : String
  pub scope : String
  pub action : String
  pub window : ℤ
  pub limit : ℤ
  pub on_exceed : RuleAction

abbrev pub default_scope : String → String
default_scope scope = if scope == "" then "actor" else scope

-- `NewRateLimitRule`; `client` says whether there is a Redis client.
unfoldable pub new_rate_limit_rule : RateLimitRuleConfig → Bool → Result Error RateLimitRule
new_rate_limit_rule cfg client = do
  reject_if (trim_space cfg.id == "") (message "rate limit rule id is required")
  reject_if (not client) (message "rate limit rule requires redis client")
  let scope = default_scope cfg.scope
  reject_if (not (scope == "actor") && not (scope == "actor+action") && not (scope == "global"))
      (message "rate limit scope must be actor, actor+action, or global")
  reject_if (not (is_positive cfg.window)) (message "rate limit window must be positive")
  reject_if (not (is_positive cfg.limit)) (message "rate limit limit must be positive")
  validate cfg.on_exceed "rate limit on_exceed"
  ok (record {
    id = cfg.id;
    scope = scope;
    action = cfg.action;
    window = pos_part cfg.window;
    limit = pos_part cfg.limit;
    on_exceed = cfg.on_exceed;
  })

abbrev pub colon : String → String → String
colon a b = String.◌++◌ a (String.◌++◌ ":" b)

unfoldable pub key_prefix : RateLimitRule → DecideRequest → String
key_prefix r req =
    if r.scope == "global"
    then "pds:rl:global"
    else if r.scope == "actor+action"
    then colon (colon "pds:rl" req.actor_id) req.action.type
    else colon (colon "pds:rl" req.actor_id) r.action

-- `int64FromRedis`
unfoldable pub int64_from_redis : Reply → Result Error ℤ
int64_from_redis (int n) = ok n
int64_from_redis (bulk s) = elim (scan_int (codes s)) [
  | none ↦ err (message "expected integer")
  | some n ↦ ok n
]
int64_from_redis nil = err (message "unexpected redis integer type")

abbrev pub or_zero : Reply → Reply
or_zero nil = bulk "0"
or_zero r = r

module _ {X : Type 0} where
  abbrev pub then_call :
      {A B : Type 0} → Result Error A × X → (A → X → Result Error B × X) → Result Error B × X
  then_call (ok a, x) k = k a x
  then_call (err e, x) k = (err e, x)

  -- `rateLimitScript`: the replies `{current, previous}`.
  unfoldable pub rate_limit_script :
      Redis X → String → String → ℤ → X → Result Error (Reply × Reply) × X
  rate_limit_script redis key1 key2 ttl x = then_call (redis.incr key1 x) λ current x1.
      then_call (redis.expire key1 ttl x1)
        λ _ x2. then_call (redis.get key2 x2) λ previous x3. (ok (current, or_zero previous), x3)

module _ {F : Type 0} (fl : Float F) where
  whole_and_rest : ℤ → ℤ → F
  whole_and_rest sec nsec =
      fl.add (fl.of_int sec) (fl.div (fl.of_int nsec) (fl.of_int (pos 1000000000)))

  -- time.Duration.Seconds; Go divides towards zero.
  unfoldable pub seconds : ℤ → F
  unfolding whole_and_rest
  seconds (pos ns) = whole_and_rest (pos (ns / 1000000000)) (pos (ns % 1000000000))
  seconds (negsuc n) =
      whole_and_rest (opposite (suc n / 1000000000)) (opposite (suc n % 1000000000))

  -- `2 * r.window` is an int64 product.
  unfoldable pub ttl_seconds : ℕ → ℤ
  unfolding seconds
  ttl_seconds window = fl.trunc (fl.ceil (seconds (wrap64 (2 * window))))

  -- The estimate of the requests in the sliding window.
  unfoldable pub estimated : ℤ → ℤ → ℕ → ℕ → F
  estimated current previous window_seconds elapsed = fl.add (fl.of_int current) (
      fl.mul (fl.of_int previous)
        (fl.div (fl.of_int (sub_ℕ window_seconds elapsed)) (fl.of_int (pos window_seconds))))

abbrev pub not_matched : String → RuleResult
not_matched id = record {
  rule_id = id;
  matched = false;
  verdict = verdict_allow;
  reason = no_reason;
  error = none;
}

abbrev pub matched_by : String → RuleAction → RuleResult
matched_by id action = record {
  rule_id = id;
  matched = true;
  verdict = action.verdict;
  reason = record { code = action.code; rule = id; detail = "" };
  error = none;
}

module _ {X F : Type 0} (redis : Redis X) (unix_now : X → ℕ × X) (fl : Float F) where
  unfoldable pub judge : RateLimitRule → ℕ → ℕ → Reply × Reply → Result Error RuleResult
  judge r window_seconds elapsed (r1, r2) = do
    current ← int64_from_redis r1
    previous ← int64_from_redis r2
    ok (
        if fl.leq (estimated fl current previous window_seconds elapsed) (fl.of_int (pos r.limit))
        then not_matched r.id
        else matched_by r.id r.on_exceed)

  -- `Evaluate` once the window is known to be of a second or more.
  unfoldable pub count_request : RateLimitRule → DecideRequest → ℕ → X → Result Error RuleResult × X
  count_request r req window_seconds x =
      let (now, x1) = unix_now x in
      let bucket = now / window_seconds in
      let prefix = key_prefix r req in
      then_call
        (rate_limit_script redis (colon prefix (decimal bucket))
          (colon prefix (decimal_int (sub_ℕ bucket 1))) (ttl_seconds fl r.window) x1)
        λ replies x2. (judge r window_seconds (now % window_seconds) replies, x2)

  -- The part of `Evaluate` behind the test of the action, over what lies outside.
  unfoldable pub check_window : RateLimitRule → DecideRequest → X → Result Error RuleResult × X
  check_window r req x = elim (fl.trunc (seconds fl (pos r.window))) [
    | pos (suc n) ↦ count_request r req (suc n) x
    | _ ↦ (err (message "rate limit window is below one second"), (unix_now x).1)
  ]

  -- `Evaluate`
  unfoldable pub evaluate_rate_limit : RateLimitRule → EvalState → World X → Outcome X
  evaluate_rate_limit r state w =
      if not (r.action == "") && not (state.request.action.type == r.action)
      then (ok (not_matched r.id), w)
      else (let (result, x) = check_window r state.request w.outside in
          (result, record w { outside = x }))

  unfoldable pub rate_limit_rule : RateLimitRule → Rule X
  rate_limit_rule r = record { id = r.id; body = plain (evaluate_rate_limit r) }
