-- ===== src/Rules/RateLimit/Shared.antt =====
-- The counters of internal/rules/rate_limit.go when several rules are evaluated on one request.
use Prim.Native.String
use policy_decision_service.Prelude.{
  ℕ, suc, ◌+◌, ◌/◌, String, true, false, List, [], ◌∷◌, ◌==◌, ◌≡◌, ◌≢◌, refl, ap, ◌∙◌, ◌⊎◌, arith,
  Result, ok, not, ◌&&◌, err, if◌then◌else◌, All, length, eq_iff, eq_refl,
}
use policy_decision_service.Prelude.Int.{ℤ, pos, is_positive}
use policy_decision_service.Prelude.Numerals.{decimal}
use policy_decision_service.Prelude.Numerals.Reading.{IsInt64}
use policy_decision_service.Errors.{Error}
use policy_decision_service.Telemetry.{World}
use policy_decision_service.Engine.Types.{DecideRequest, EvalState}
use policy_decision_service.Rules.RateLimit.{
  Redis, Float, RateLimitRule, key_prefix, then_call, rate_limit_script, seconds, ttl_seconds,
  count_request, check_window, evaluate_rate_limit,
}

-- The rule is about the action of the request.
abbrev pub Covers : RateLimitRule → DecideRequest → Type 0
Covers r req = (r.action ≡ "") ⊎ (req.action.type ≡ r.action)

pub Covers-test :
    (r : RateLimitRule) (req : DecideRequest)
    → Covers r req
    → (not (r.action == "") && not (req.action.type == r.action)) ≡ false
Covers-test r req h = ground (arith, eq_iff r.action "", eq_iff req.action.type r.action, h)

-- `count x key` is the integer that Redis holds under a key, 0 for none. As Redis documents, INCR
-- adds one to its key if that fits an int64, EXPIRE with a positive time and GET change no value, and the clock is not
-- Redis. That no key expires in the meantime is what "on one request" comes to.
pub record Counts {X : Type 0} (redis : Redis X) (unix_now : X → ℕ × X) (count : X → String → ℕ)
    : Type 0 where
  pub increments :
      (key other : String) (x : X)
      → IsInt64 (pos (count x key + 1))
      → count (redis.incr key x).1 other ≡ count x other + (if other == key then 1 else 0)
  pub expires :
      (key other : String) (ttl : ℤ) (x : X)
      → is_positive ttl ≡ true
      → count (redis.expire key ttl x).1 other ≡ count x other
  pub gets : (key other : String) (x : X) → count (redis.get key x).1 other ≡ count x other
  pub reads : (other : String) (x : X) → count (unix_now x).1 other ≡ count x other

-- The text in front of the window's number in the key of a limit of this scope and action.
pub data IsPrefix (scope action : String) (req : DecideRequest) : String → Type 0 where
  global : scope ≡ "global" → IsPrefix scope action req "pds:rl:global"
  by_type :
      scope ≡ "actor+action"
      → IsPrefix scope action req (
          String.◌++◌
            (String.◌++◌ "pds:rl" (String.◌++◌ ":" req.actor_id))
            (String.◌++◌ ":" req.action.type))
  by_action :
      scope ≢ "global"
      → scope ≢ "actor+action"
      → IsPrefix scope action req (
          String.◌++◌
            (String.◌++◌ "pds:rl" (String.◌++◌ ":" req.actor_id))
            (String.◌++◌ ":" action))

-- The code puts that text in front.
pub key_prefix-IsPrefix :
    (r : RateLimitRule) (req : DecideRequest) (prefix : String)
    → IsPrefix r.scope r.action req prefix
    → key_prefix r req ≡ prefix
unfolding key_prefix
key_prefix-IsPrefix r req prefix (global g) = rw (g, key_prefix) refl
key_prefix-IsPrefix r req prefix (by_type t) = rw (t, key_prefix) refl
key_prefix-IsPrefix r req prefix (by_action g t) =
    let not_global : (r.scope == "global") ≡ false = ground (arith, eq_iff r.scope "global", g) in
    let not_typed : (r.scope == "actor+action") ≡ false =
      ground (arith, eq_iff r.scope "actor+action", t) in
    rw (not_global, not_typed, key_prefix) refl

-- A rule with this scope, action and window, whatever its id, its limit and its verdict are.
pub record IsLimit (scope action : String) (window : ℕ) (r : RateLimitRule) : Type 0 where
  pub same_scope : r.scope ≡ scope
  pub same_action : r.action ≡ action
  pub same_window : r.window ≡ window

then_call-keeps :
    {X A B : Type 0} (count : X → ℕ) (n : ℕ) (o : Result Error A × X)
    (k : A → X → Result Error B × X)
    → count o.1 ≡ n
    → ((a : A) (x : X) → count x ≡ n → count (k a x).1 ≡ n)
    → count (then_call o k).1 ≡ n
then_call-keeps count n (ok a, x) k h step = step a x h
then_call-keeps count n (err e, x) k h step = h

module _ {X F : Type 0} (redis : Redis X) (unix_now : X → ℕ × X) (fl : Float F) where
  -- The world behind the evaluation of the rules, one after the other.
  abbrev pub evaluate_in_turn : List RateLimitRule → EvalState → World X → World X
  evaluate_in_turn [] state w = w
  evaluate_in_turn (r ∷ rs) state w =
      evaluate_in_turn rs state (evaluate_rate_limit redis unix_now fl r state w).1

  module _ (count : X → String → ℕ) (counts : Counts redis unix_now count) where
    rate_limit_script-count :
        (key1 key2 other : String) (ttl : ℤ) (x : X)
        → is_positive ttl ≡ true
        → IsInt64 (pos (count x key1 + 1))
        → count (rate_limit_script redis key1 key2 ttl x).1 other
          ≡ count x other + (if other == key1 then 1 else 0)
    unfolding rate_limit_script
    rate_limit_script-count key1 key2 other ttl x lasts fits =
        let n = count x other + (if other == key1 then 1 else 0) in
        then_call-keeps (λ x. count x other) n (redis.incr key1 x) _
          (counts.increments key1 other x fits)
          λ current x1 h1.
            then_call-keeps (λ x. count x other) n (redis.expire key1 ttl x1) _
              (counts.expires key1 other ttl x1 lasts ∙ h1)
              λ done x2 h2.
                then_call-keeps (λ x. count x other) n (redis.get key2 x2) _
                  (counts.gets key2 other x2 ∙ h2) λ previous x3 h3. h3

    -- A rule counts the request under its key in the window of the clock.
    count_request-count :
        (r : RateLimitRule) (req : DecideRequest) (n : ℕ) (prefix : String) (bucket : ℕ) (x : X)
        → key_prefix r req ≡ prefix
        → (unix_now x).0 / suc n ≡ bucket
        → is_positive (ttl_seconds fl r.window) ≡ true
        → let key = String.◌++◌ prefix (String.◌++◌ ":" (decimal bucket)) in
          IsInt64 (pos (count x key + 1))
          → count (count_request redis unix_now fl r req (suc n) x).1 key ≡ count x key + 1
    unfolding count_request
    count_request-count r req n prefix bucket x same at lasts fits =
        let key = String.◌++◌ prefix (String.◌++◌ ":" (decimal bucket)) in
        rw (same, at, count_request)
          (then_call-keeps (λ x. count x key) (count x key + 1)
            (rate_limit_script redis key _ (ttl_seconds fl r.window) (unix_now x).1) _
            (rate_limit_script-count key _ key _ (unix_now x).1 lasts (rw (counts.reads key x) fits)
              ∙ ap (λ b. count (unix_now x).1 key + (if b then 1 else 0)) (eq_refl key)
              ∙ ap (λ c. c + 1) (counts.reads key x))
            (λ replies x1 h. h))

    evaluate_rate_limit-count :
        (r : RateLimitRule) (state : EvalState) (n : ℕ) (prefix : String) (bucket : ℕ) (w : World X)
        → Covers r state.request
        → fl.trunc (seconds fl (pos r.window)) ≡ pos (suc n)
        → key_prefix r state.request ≡ prefix
        → (unix_now w.outside).0 / suc n ≡ bucket
        → is_positive (ttl_seconds fl r.window) ≡ true
        → let key = String.◌++◌ prefix (String.◌++◌ ":" (decimal bucket)) in
          IsInt64 (pos (count w.outside key + 1))
          → count (evaluate_rate_limit redis unix_now fl r state w).1.outside key
            ≡ count w.outside key + 1
    unfolding evaluate_rate_limit check_window
    evaluate_rate_limit-count r state n prefix bucket w covers whole same at lasts fits =
        rw (Covers-test r state.request covers, evaluate_rate_limit)
          (rw (whole, check_window)
            (count_request-count r state.request n prefix bucket w.outside same at lasts fits))

    -- Rate limits of one scope, action and window that are evaluated on one request share one
    -- counter of Redis, with the fixed prefix of the global scope or else named by the actor and an
    -- action, never by the rule or the window, and each counts the request once more: n of them
    -- add n to it. This holds for limits that are about the request's action, if Redis counts as
    -- it documents, if the window, cut to whole seconds, is `suc n` and the time to live of its
    -- keys is positive, if no key expires in the meantime, if the clock stays in one window, and
    -- if the sum fits an int64.
    pub evaluate_in_turn-count :
        (scope action : String) (window n bucket : ℕ) (rs : List RateLimitRule) (state : EvalState)
        (prefix : String) (w : World X)
        → All (IsLimit scope action window) rs
        → (action ≡ "") ⊎ (state.request.action.type ≡ action)
        → fl.trunc (seconds fl (pos window)) ≡ pos (suc n)
        → is_positive (ttl_seconds fl window) ≡ true
        → ((x : X) → (unix_now x).0 / suc n ≡ bucket)
        → IsPrefix scope action state.request prefix
        → let key = String.◌++◌ prefix (String.◌++◌ ":" (decimal bucket)) in
          IsInt64 (pos (count w.outside key + length rs))
          → count (evaluate_in_turn rs state w).outside key ≡ count w.outside key + length rs
    evaluate_in_turn-count scope action window n bucket [] state prefix w limits about whole lasts
          clock named fits =
        omega arith
    evaluate_in_turn-count scope action window n bucket (r ∷ rs) state prefix w (l, limits) about
          whole lasts clock named fits =
        let w1 = (evaluate_rate_limit redis unix_now fl r state w).1 in
        let same =
          key_prefix-IsPrefix r state.request prefix (rw (l.same_scope, l.same_action) named) in
        let one =
          evaluate_rate_limit-count r state n prefix bucket w (rw (l.same_action) about)
            (rw (l.same_window) whole) same (clock w.outside) (rw (l.same_window) lasts)
            (omega (arith, fits)) in
        let more =
          evaluate_in_turn-count scope action window n bucket rs state prefix w1 limits about whole
            lasts clock named (omega (arith, fits, one)) in
        omega (arith, more, one)
