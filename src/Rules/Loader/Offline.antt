-- ===== src/Rules/Loader/Offline.antt =====
-- The load of internal/rules/loader.go without a Redis client, as when Redis cannot be reached at
-- the start of the server.
use Prim.Native.String
use policy_decision_service.Prelude.{
  String, false, List, [], ◌∷◌, none, ◌≡◌, ◌≢◌, ◌⊎◌, inl, inr, ok, ◌>>=◌, >>=-eq-ok, All, All-at,
  All-of_Elem, Bool-cases,
}
use policy_decision_service.Prelude.Int.{ℤ}
use policy_decision_service.Engine.Rules.{Rule}
use policy_decision_service.Rules.Raw.{RawRule, RuleFile, rule_enabled}
use policy_decision_service.Rules.RateLimit.{rate_limit_rule, new_rate_limit_rule}
use policy_decision_service.Rules.Order.Complete.{Elem-ordered}
use policy_decision_service.Rules.Loader.{
  Environment, build_rate_limit, rate_limit_of, build_rule, build_rules, load_rules, with_redis,
  wrap_error, rate_limit_config, is_some,
}
use policy_decision_service.Rules.Loader.Soundness.{load_rules-Loaded}

module _ {X F : Type 0} (env : Environment X F) where
  rate_limit_of-online :
      (raw : RawRule) (window : ℤ) (rule : Rule X)
      → rate_limit_of env raw window ≡ ok rule
      → env.redis ≢ none
  unfolding rate_limit_of
  rate_limit_of-online raw window rule h offline =
      let (r, e, h1) =
        >>=-eq-ok (new_rate_limit_rule (rate_limit_config raw window) (is_some env.redis))
          (λ r. with_redis env env.redis (λ redis. rate_limit_rule redis env.unix_now env.float r))
          h in
      cc (rw (offline, with_redis) at h1)

  build_rule-online :
      (raw : RawRule) (base : String) (rule : Rule X)
      → build_rule env raw base ≡ ok rule
      → env.redis ≡ none
      → raw.type ≢ "rate_limit"
  unfolding build_rate_limit build_rule rate_limit_of
  build_rule-online raw base rule h offline t =
      let (window, e, h1) =
        >>=-eq-ok
          (wrap_error (String.◌++◌ "rate limit rule " (String.◌++◌ raw.id " window"))
            (env.parse_duration raw.window))
          (rate_limit_of env raw) (rw (t, build_rule) at h) in
      rate_limit_of-online raw window rule h1 offline

  -- The entry is off, or it needs no Redis.
  abbrev pub IsOffline : RawRule → Type 0
  IsOffline raw = (rule_enabled raw.enabled ≡ false) ⊎ (raw.type ≢ "rate_limit")

  build_rules-IsOffline :
      (raws : List RawRule) (base : String) (rules : List (Rule X))
      → build_rules env raws base ≡ ok rules
      → env.redis ≡ none
      → All IsOffline raws
  unfolding build_rules
  build_rules-IsOffline [] base rules h offline = tt
  build_rules-IsOffline (raw ∷ raws) base rules h offline =
      elim (Bool-cases (rule_enabled raw.enabled)) [
        | inr off ↦
            (inl off, build_rules-IsOffline raws base rules (rw (off, build_rules) at h) offline)
        | inl on ↦
            let rest =
              λ (rule : Rule X). build_rules env raws base >>= λ rules. ok (rule ∷ rules) in
            let (rule, e, h1) =
              >>=-eq-ok (build_rule env raw base) rest (rw (on, build_rules) at h) in
            let (tail, e', h2) =
              >>=-eq-ok (build_rules env raws base) (λ rules. ok (rule ∷ rules)) h1 in
            (
              inr (build_rule-online raw base rule e offline),
              build_rules-IsOffline raws base tail e' offline,
            )
      ]

  -- Without a Redis client a file loads only if none of its rate limit rules is enabled.
  pub load_rules-IsOffline :
      (parsed : RuleFile) (base : String) (rules : List (Rule X))
      → load_rules env parsed base ≡ ok rules
      → env.redis ≡ none
      → All IsOffline parsed.rules
  load_rules-IsOffline parsed base rules h offline =
      let l = load_rules-Loaded env parsed base rules h in
      let built = build_rules-IsOffline l.marks.ordered base rules l.build offline in
      All-of_Elem IsOffline parsed.rules (λ raw k.
        All-at IsOffline raw l.marks.ordered built
          (Elem-ordered parsed.rules l.marks raw l.distinct l.ordered k))
