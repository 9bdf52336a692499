-- ===== src/Rules/Loader.antt =====
-- internal/rules/loader.go: `LoadFile`, `LoadBytes` and what they call, but for `orderRules`
-- (Rules/Order.antt). The file system, the YAML decoder, SHA-256, `time.ParseDuration`, the CEL
-- compiler and Redis are the fields of `Environment`.
pub mod Checks
pub mod Building
pub mod Soundness
pub mod Offline
use Prim.Native.String
use Prim.Native.Char.{code}
use policy_decision_service.Prelude.{
  ℕ, String, Bool, true, false, not, ◌&&◌, List, [], ◌∷◌, Option, some, none, ◌==◌, eqb, Result, ok,
  err, ◌>>=◌, ◌>>◌, reject_if, if◌then◌else◌,
}
use policy_decision_service.Prelude.Int.{ℤ, pos, negsuc}
use policy_decision_service.Prelude.Dict.{Dict, lookup}
use policy_decision_service.Prelude.Text.{trim_space, split, keep_trimmed}
use policy_decision_service.Errors.{
  Error, message, in_context, unsupported_version, duplicate_rule_id, unknown_rule_type,
  unknown_reference,
}
use policy_decision_service.Telemetry.{Host}
use policy_decision_service.Engine.Rules.{Rule}
use policy_decision_service.Rules.Action.{KeywordRuleConfig, CelRuleConfig, CombinerRuleConfig}
use policy_decision_service.Rules.RateLimit.{RateLimitRuleConfig}
use policy_decision_service.Rules.Raw.{RawRule, RuleFile, known_rule_type, rule_enabled}
use policy_decision_service.Rules.Order.{Visited, done, failed, out_of_fuel, order_rules}
use policy_decision_service.Rules.RateLimit.{Redis, Float, new_rate_limit_rule, rate_limit_rule}
use policy_decision_service.Rules.Aho.{Edges}
use policy_decision_service.Rules.Keyword.{new_keyword_rule, keyword_rule}
use policy_decision_service.Rules.Cel.{Program, new_cel_rule, cel_rule}
use policy_decision_service.Rules.Combiner.{new_combiner_rule, combiner_rule}

pub record Environment (X F : Type 0) : Type 0 where
  pub host : Host X
  pub read_file : String → Result Error String
  pub unmarshal : String → Result Error RuleFile
  pub sha256_hex : String → String
  pub parse_duration : String → Result Error ℤ
  pub compile : String → Result Error Program
  pub wide : ℕ → ℕ
  pub order : ℕ → Edges → Edges
  pub float : Float F
  pub redis : Option (Redis X)
  pub unix_now : X → ℕ × X
  pub is_abs : String → Bool
  pub join_path : String → String → String

pub record Snapshot (X : Type 0) : Type 0 where
  pub version : String
  pub rules : List (Rule X)

-- The first loop of `LoadBytes`; `seen` is the keys of `ids`.
unfoldable pub check_rules : List RawRule → Dict (Unit {0}) → Result Error (Dict (Unit {0}))
check_rules [] ids = ok ids
check_rules (raw ∷ raws) ids = do
  reject_if (trim_space raw.id == "") (message "rule id is required")
  elim (lookup raw.id ids) [ some _ ↦ err (duplicate_rule_id raw.id) | none ↦ ok tt ]
  reject_if (not (known_rule_type raw.type)) (unknown_rule_type raw.type raw.id)
  check_rules raws ((raw.id, tt) ∷ ids)

-- The second loop: the references of one combiner, and of all.
unfoldable pub check_refs : String → List String → Dict (Unit {0}) → Result Error (Unit {0})
check_refs id [] ids = ok tt
check_refs id (ref ∷ refs) ids = elim (lookup ref ids) [
  | none ↦ err (unknown_reference id ref)
  | some _ ↦ check_refs id refs ids
]

unfoldable pub check_references : List RawRule → Dict (Unit {0}) → Result Error (Unit {0})
check_references [] ids = ok tt
check_references (raw ∷ raws) ids =
    let rest = check_references raws ids in
    if raw.type == "combiner" then (check_refs raw.id raw.of ids >> rest) else rest

abbrev pub is_one : ℤ → Bool
is_one (pos n) = eqb n 1
is_one (negsuc n) = false

-- Where the ordering runs out of fuel the code has no counterpart (Rules/Order/Total.antt).
abbrev pub ordering : Visited → Result Error (List RawRule)
ordering (done m) = ok m.ordered
ordering (failed e) = err e
ordering out_of_fuel = err (message "unreachable")

abbrev pub wrap_error : {A : Type 0} → String → Result Error A → Result Error A
wrap_error context (ok a) = ok a
wrap_error context (err e) = err (in_context context e)

abbrev pub is_some : {A : Type 0} → Option A → Bool
is_some none = false
is_some (some a) = true

-- The configurations that `buildRule` passes on.
abbrev pub keyword_config : RawRule → List String → KeywordRuleConfig
keyword_config raw keywords = record {
  id = raw.id;
  field = raw.field;
  keywords = keywords;
  on_match = raw.on_match;
}

abbrev pub rate_limit_config : RawRule → ℤ → RateLimitRuleConfig
rate_limit_config raw window = record {
  id = raw.id;
  scope = raw.scope;
  action = raw.action;
  window = window;
  limit = raw.limit;
  on_exceed = raw.on_exceed;
}

abbrev pub cel_config : RawRule → CelRuleConfig
cel_config raw = record { id = raw.id; expr = raw.expr; on_match = raw.on_match }

abbrev pub combiner_config : RawRule → CombinerRuleConfig
combiner_config raw = record { id = raw.id; op = raw.op; of = raw.of; on_match = raw.on_match }

module _ {X F : Type 0} (env : Environment X F) where
  unfoldable pub read_keywords : String → String → Result Error (List String)
  read_keywords path base_dir = do
    reject_if (trim_space path == "") (message "keywords_file is required")
    text ← env.read_file (if env.is_abs path then path else env.join_path base_dir path)
    ok (keep_trimmed (split b'\n' text))

  -- A Redis rule with its client; the constructor has refused a missing one.
  abbrev pub with_redis : Option (Redis X) → (Redis X → Rule X) → Result Error (Rule X)
  with_redis none build = err (message "rate limit rule requires redis client")
  with_redis (some redis) build = ok (build redis)

  unfoldable pub keyword_of : RawRule → List String → Result Error (Rule X)
  keyword_of raw keywords = do
    rule ← new_keyword_rule env.wide env.order (keyword_config raw keywords)
    ok (keyword_rule env.wide env.host rule)

  unfoldable pub build_keyword : RawRule → String → Result Error (Rule X)
  build_keyword raw base_dir = do
    keywords ←
        wrap_error (String.◌++◌ "keyword rule " raw.id) (read_keywords raw.keywords_file base_dir)
    keyword_of raw keywords

  unfoldable pub rate_limit_of : RawRule → ℤ → Result Error (Rule X)
  rate_limit_of raw window = do
    rule ← new_rate_limit_rule (rate_limit_config raw window) (is_some env.redis)
    with_redis env.redis (λ redis. rate_limit_rule redis env.unix_now env.float rule)

  unfoldable pub build_rate_limit : RawRule → Result Error (Rule X)
  build_rate_limit raw = do
    window ←
        wrap_error (String.◌++◌ "rate limit rule " (String.◌++◌ raw.id " window"))
          (env.parse_duration raw.window)
    rate_limit_of raw window

  unfoldable pub build_cel : RawRule → Result Error (Rule X)
  build_cel raw = do rule ← new_cel_rule env.compile (cel_config raw); ok (cel_rule env.host rule)

  unfoldable pub build_combiner : RawRule → Result Error (Rule X)
  build_combiner raw = do
    rule ← new_combiner_rule (combiner_config raw)
    ok (combiner_rule env.host rule)

  unfoldable pub build_rule : RawRule → String → Result Error (Rule X)
  build_rule raw base_dir =
      if raw.type == "keyword_match"
      then build_keyword raw base_dir
      else if raw.type == "rate_limit"
      then build_rate_limit raw
      else if raw.type == "cel"
      then build_cel raw
      else if raw.type == "combiner"
      then build_combiner raw
      else err (unknown_rule_type raw.type raw.id)

  -- The loop that builds the enabled rules.
  unfoldable pub build_rules : List RawRule → String → Result Error (List (Rule X))
  build_rules [] base_dir = ok []
  build_rules (raw ∷ raws) base_dir =
      let rest = build_rules raws base_dir in
      if rule_enabled raw.enabled
      then (do rule ← build_rule raw base_dir; rules ← rest; ok (rule ∷ rules))
      else rest

  -- `LoadBytes` behind the YAML decoder.
  unfoldable pub load_rules : RuleFile → String → Result Error (List (Rule X))
  load_rules parsed base_dir = do
    reject_if (not (is_one parsed.version)) (unsupported_version parsed.version)
    reject_if
        (not (parsed.defaults.on_eval_error == "")
          && not (parsed.defaults.on_eval_error == "allow"))
        (message "defaults.on_eval_error must be allow")
    ids ← check_rules parsed.rules []
    check_references parsed.rules ids
    ordered ← ordering (order_rules parsed.rules)
    build_rules ordered base_dir

  unfoldable pub load_bytes : String → String → Result Error (Snapshot X)
  load_bytes text base_dir = do
    parsed ← env.unmarshal text
    rules ← load_rules parsed base_dir
    ok (record { version = String.◌++◌ "sha256:" (env.sha256_hex text); rules = rules })

  -- `LoadFile`; `dir` is `filepath.Dir(path)`.
  unfoldable pub load_file : String → String → String → Result Error (Snapshot X)
  load_file path dir base_dir = do
    text ← env.read_file path
    load_bytes text (if base_dir == "" then dir else base_dir)
