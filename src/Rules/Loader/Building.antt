-- ===== src/Rules/Loader/Building.antt =====
-- The rules that `buildRule` makes, beside their entries in the file (internal/rules/loader.go).
use Prim.Native.String
use policy_decision_service.Prelude.{
  ℕ, zero, suc, String, Bool, List, [], ◌∷◌, Option, some, none, Option-cases, ◌≡◌, refl, subst,
  ◌==◌, eq_iff, arith, inl, inr, Result, ok, err, ◌>>=◌, >>=-eq-ok, Bool-cases, if◌then◌else◌,
}
use policy_decision_service.Errors.{Error}
use policy_decision_service.Telemetry.{Host, poll}
use policy_decision_service.Prelude.Int.{ℤ, pos, negsuc}
use policy_decision_service.Engine.Types.{DecideRequest, RuleResult}
use policy_decision_service.Engine.Rules.{Rule}
use policy_decision_service.Engine.Evaluate.{call}
use policy_decision_service.Engine.Evaluate.Response.{IsHonest}
use policy_decision_service.Engine.Evaluate.Feeding.{body_dependencies}
use policy_decision_service.Rules.Action.{KeywordRuleConfig, CelRuleConfig, CombinerRuleConfig}
use policy_decision_service.Rules.Raw.{RawRule, dependencies, rule_enabled}
use policy_decision_service.Rules.RateLimit.{
  RateLimitRule, RateLimitRuleConfig, Redis, Float, new_rate_limit_rule, rate_limit_rule,
  evaluate_rate_limit, check_window, count_request, judge, then_call, Reply, seconds,
}
use policy_decision_service.Rules.Aho.{Edges}
use policy_decision_service.Rules.Keyword.{
  KeywordRule, new_keyword_rule, keyword_rule, evaluate_keyword,
}
use policy_decision_service.Rules.Cel.{CelRule, Program, new_cel_rule, cel_rule, evaluate_cel}
use policy_decision_service.Rules.Combiner.{CombinerRule, new_combiner_rule, combiner_rule}
use policy_decision_service.Rules.Combiner.Meaning.{combiner_rule-IsHonest}
use policy_decision_service.Rules.Loader.{
  keyword_config, rate_limit_config, cel_config, combiner_config, keyword_of, rate_limit_of,
  read_keywords, wrap_error, is_some, Environment, build_keyword, build_rate_limit, build_cel,
  build_combiner, build_rule, build_rules, with_redis,
}

new_keyword_rule-id :
    (wide : ℕ → ℕ) (order : ℕ → Edges → Edges) (cfg : KeywordRuleConfig) (r : KeywordRule)
    → new_keyword_rule wide order cfg ≡ ok r
    → r.id ≡ cfg.id
unfolding new_keyword_rule
new_keyword_rule-id wide order cfg r h = ground arith

new_cel_rule-id :
    (compile : String → Result Error Program) (cfg : CelRuleConfig) (r : CelRule)
    → new_cel_rule compile cfg ≡ ok r
    → r.id ≡ cfg.id
unfolding new_cel_rule
new_cel_rule-id compile cfg r h = ground arith

new_combiner_rule-lem :
    (cfg : CombinerRuleConfig) (r : CombinerRule)
    → new_combiner_rule cfg ≡ ok r
    → (r.id ≡ cfg.id) × (r.of ≡ cfg.of)
unfolding new_combiner_rule
new_combiner_rule-lem cfg r h = ground arith

new_rate_limit_rule-id :
    (cfg : RateLimitRuleConfig) (client : Bool) (r : RateLimitRule)
    → new_rate_limit_rule cfg client ≡ ok r
    → r.id ≡ cfg.id
unfolding new_rate_limit_rule
new_rate_limit_rule-id cfg client r h = ground arith

ok_inj : {E A : Type 0} {a b : A} → ◌≡◌ {A = Result E A} (ok a) (ok b) → a ≡ b
ok_inj h = ground arith

module _ {X : Type 0} (host : Host X) where
  pub keyword_rule-IsHonest : (wide : ℕ → ℕ) (r : KeywordRule) → IsHonest (keyword_rule wide host r)
  unfolding keyword_rule evaluate_keyword call
  keyword_rule-IsHonest wide r state by_id w result h = elim (Option-cases (poll host w).0) [
    | inl live ↦ ground arith
    | inr (e, done) ↦ ground arith
  ]

  pub cel_rule-IsHonest : (r : CelRule) → IsHonest (cel_rule host r)
  unfolding cel_rule evaluate_cel call
  cel_rule-IsHonest r state by_id w result h = ground arith

module _ {X F : Type 0} (redis : Redis X) (unix_now : X → ℕ × X) (fl : Float F) where
  judge-id :
      (r : RateLimitRule) (n e : ℕ) (replies : Reply × Reply) (result : RuleResult)
      → judge redis unix_now fl r n e replies ≡ ok result
      → result.rule_id ≡ r.id
  unfolding judge
  judge-id r n e (r1, r2) result h = ground arith

  then_call-judge :
      (r : RateLimitRule) (n e : ℕ) (o : Result Error (Reply × Reply) × X) (result : RuleResult)
      → (then_call o (λ replies x. (judge redis unix_now fl r n e replies, x))).0 ≡ ok result
      → result.rule_id ≡ r.id
  then_call-judge r n e (ok replies, x) result h = judge-id r n e replies result h
  then_call-judge r n e (err error, x) result h = cc

  check_window-id :
      (r : RateLimitRule) (req : DecideRequest) (x : X) (result : RuleResult)
      → (check_window redis unix_now fl r req x).0 ≡ ok result
      → result.rule_id ≡ r.id
  unfolding check_window count_request
  check_window-id r req x result h = from_window (fl.trunc (seconds fl (pos r.window))) refl
    where
      from_window : (z : ℤ) → fl.trunc (seconds fl (pos r.window)) ≡ z → result.rule_id ≡ r.id
      from_window (pos (suc n)) e = then_call-judge r (suc n) _ _ result (rw (e, check_window) at h)
      from_window (pos zero) e = cc (rw (e, check_window) at h)
      from_window (negsuc n) e = cc (rw (e, check_window) at h)

  pub rate_limit_rule-IsHonest :
      (r : RateLimitRule) → IsHonest (rate_limit_rule redis unix_now fl r)
  unfolding rate_limit_rule evaluate_rate_limit call
  rate_limit_rule-IsHonest r state by_id w result h =
      ground (arith, check_window-id r state.request w.outside result)

-- What a rule has from its entry.
pub record Built {X : Type 0} (raw : RawRule) (rule : Rule X) : Type 0 where
  pub id : rule.id ≡ raw.id
  pub honest : IsHonest rule
  pub deps : body_dependencies rule.body ≡ dependencies raw

module _ {X F : Type 0} (env : Environment X F) where
  keyword_of-Built :
      (raw : RawRule) (keywords : List String) (rule : Rule X)
      → raw.type ≡ "keyword_match"
      → keyword_of env raw keywords ≡ ok rule
      → Built raw rule
  unfolding keyword_of keyword_rule dependencies
  keyword_of-Built raw keywords rule t h =
      let made = new_keyword_rule env.wide env.order (keyword_config raw keywords) in
      let (r, e, h1) = >>=-eq-ok made (λ r. ok (keyword_rule env.wide env.host r)) h in
      subst (Built raw) (ok_inj h1) (record {
        id = new_keyword_rule-id env.wide env.order (keyword_config raw keywords) r e;
        honest = keyword_rule-IsHonest env.host env.wide r;
        deps = ground (arith, eq_iff raw.type "combiner", eq_iff "keyword_match" "combiner");
      })

  build_keyword-Built :
      (raw : RawRule) (base : String) (rule : Rule X)
      → raw.type ≡ "keyword_match"
      → build_keyword env raw base ≡ ok rule
      → Built raw rule
  unfolding build_keyword
  build_keyword-Built raw base rule t h =
      let file =
        wrap_error (String.◌++◌ "keyword rule " raw.id)
          (read_keywords env raw.keywords_file base) in
      let (keywords, _, h1) = >>=-eq-ok file (keyword_of env raw) h in
      keyword_of-Built raw keywords rule t h1

  build_cel-Built :
      (raw : RawRule) (rule : Rule X)
      → raw.type ≡ "cel"
      → build_cel env raw ≡ ok rule
      → Built raw rule
  unfolding build_cel cel_rule dependencies
  build_cel-Built raw rule t h =
      let (r, e, h1) =
        >>=-eq-ok (new_cel_rule env.compile (cel_config raw)) (λ r. ok (cel_rule env.host r)) h in
      subst (Built raw) (ok_inj h1) (record {
        id = new_cel_rule-id env.compile (cel_config raw) r e;
        honest = cel_rule-IsHonest env.host r;
        deps = ground (arith, eq_iff raw.type "combiner", eq_iff "cel" "combiner");
      })

  build_combiner-Built :
      (raw : RawRule) (rule : Rule X)
      → raw.type ≡ "combiner"
      → build_combiner env raw ≡ ok rule
      → Built raw rule
  unfolding build_combiner combiner_rule dependencies
  build_combiner-Built raw rule t h =
      let (r, e, h1) =
        >>=-eq-ok (new_combiner_rule (combiner_config raw)) (λ r. ok (combiner_rule env.host r))
          h in
      let (same, of) = new_combiner_rule-lem (combiner_config raw) r e in
      subst (Built raw) (ok_inj h1) (record {
        id = same;
        honest = combiner_rule-IsHonest env.host r;
        deps = ground (arith, eq_iff raw.type "combiner", of);
      })

  with_redis-Built :
      (raw : RawRule) (rule : Rule X) (r : RateLimitRule) (client : Option (Redis X))
      → raw.type ≡ "rate_limit"
      → r.id ≡ raw.id
      → with_redis env client (λ redis. rate_limit_rule redis env.unix_now env.float r) ≡ ok rule
      → Built raw rule
  unfolding rate_limit_rule dependencies
  with_redis-Built raw rule r none t e h = cc
  with_redis-Built raw rule r (some redis) t e h = subst (Built raw) (ok_inj h) (record {
    id = e;
    honest = rate_limit_rule-IsHonest redis env.unix_now env.float r;
    deps = ground (arith, eq_iff raw.type "combiner", eq_iff "rate_limit" "combiner");
  })

  rate_limit_of-Built :
      (raw : RawRule) (window : ℤ) (rule : Rule X)
      → raw.type ≡ "rate_limit"
      → rate_limit_of env raw window ≡ ok rule
      → Built raw rule
  unfolding rate_limit_of
  rate_limit_of-Built raw window rule t h =
      let made = new_rate_limit_rule (rate_limit_config raw window) (is_some env.redis) in
      let finish = λ (r : RateLimitRule).
        with_redis env env.redis (λ redis. rate_limit_rule redis env.unix_now env.float r) in
      let (r, e, h1) = >>=-eq-ok made finish h in
      with_redis-Built raw rule r env.redis t
        (new_rate_limit_rule-id (rate_limit_config raw window) (is_some env.redis) r e) h1

  build_rate_limit-Built :
      (raw : RawRule) (rule : Rule X)
      → raw.type ≡ "rate_limit"
      → build_rate_limit env raw ≡ ok rule
      → Built raw rule
  unfolding build_rate_limit
  build_rate_limit-Built raw rule t h =
      let parsed =
        wrap_error (String.◌++◌ "rate limit rule " (String.◌++◌ raw.id " window"))
          (env.parse_duration raw.window) in
      let (window, _, h1) = >>=-eq-ok parsed (rate_limit_of env raw) h in
      rate_limit_of-Built raw window rule t h1

  pub build_rule-Built :
      (raw : RawRule) (base : String) (rule : Rule X)
      → build_rule env raw base ≡ ok rule
      → Built raw rule
  unfolding build_rule
  build_rule-Built raw base rule h = elim (Bool-cases (raw.type == "keyword_match")) [
    | inl t ↦ build_keyword-Built raw base rule ((eq_iff _ _).0 t) (rw (t, build_rule) at h)
    | inr t1 ↦ elim (Bool-cases (raw.type == "rate_limit")) [
      | inl t ↦ build_rate_limit-Built raw rule ((eq_iff _ _).0 t) (rw (t1, t, build_rule) at h)
      | inr t2 ↦ elim (Bool-cases (raw.type == "cel")) [
        | inl t ↦ build_cel-Built raw rule ((eq_iff _ _).0 t) (rw (t1, t2, t, build_rule) at h)
        | inr t3 ↦ elim (Bool-cases (raw.type == "combiner")) [
          | inl t ↦
              build_combiner-Built raw rule ((eq_iff _ _).0 t) (rw (t1, t2, t3, t, build_rule) at h)
          | inr t4 ↦ cc (rw (t1, t2, t3, t4, build_rule) at h)
        ]
      ]
    ]
  ]

  -- The rules that a file leaves enabled.
  unfoldable pub enabled_of : List RawRule → List RawRule
  enabled_of [] = []
  enabled_of (raw ∷ raws) =
      let rest = enabled_of raws in if rule_enabled raw.enabled then raw ∷ rest else rest

  -- Each entry with its rule, in the same order.
  abbrev pub AllBuilt : List RawRule → List (Rule X) → Type 0
  AllBuilt [] [] = Unit
  AllBuilt (raw ∷ raws) (rule ∷ rules) = Built raw rule × AllBuilt raws rules
  AllBuilt _ _ = ⊥

  -- The rules built are the enabled entries, in order.
  pub build_rules-AllBuilt :
      (raws : List RawRule) (base : String) (rules : List (Rule X))
      → build_rules env raws base ≡ ok rules
      → AllBuilt (enabled_of raws) rules
  unfolding build_rules enabled_of
  build_rules-AllBuilt [] base rules h = subst (AllBuilt []) (ok_inj h) tt
  build_rules-AllBuilt (raw ∷ raws) base rules h = elim (Bool-cases (rule_enabled raw.enabled)) [
    | inr off ↦ rw off (build_rules-AllBuilt raws base rules (rw (off, build_rules) at h))
    | inl on ↦
        let rest = λ (rule : Rule X). build_rules env raws base >>= λ rules. ok (rule ∷ rules) in
        let (rule, e, h1) = >>=-eq-ok (build_rule env raw base) rest (rw (on, build_rules) at h) in
        let (tail, e', h2) =
          >>=-eq-ok (build_rules env raws base) (λ rules. ok (rule ∷ rules)) h1 in
        rw on (
          subst (AllBuilt (raw ∷ enabled_of raws)) (ok_inj h2)
            (build_rule-Built raw base rule e, build_rules-AllBuilt raws base tail e'))
  ]
