-- ===== src/Rules/Raw.antt =====
-- internal/rules/loader.go: what the YAML file is decoded to. `enabled` is a pointer in the source.
use policy_decision_service.Prelude.{
  String, Bool, true, List, [], Option, some, none, ◌==◌, ◌||◌, if◌then◌else◌,
}
use policy_decision_service.Prelude.Int.{ℤ}
use policy_decision_service.Rules.Action.{RuleAction}

pub record RawRule : Type 0 where
  pub id : String
  pub type : String
  pub enabled : Option Bool
  pub scope : String
  pub action : String
  pub window : String
  pub limit : ℤ
  pub field : String
  pub keywords_file : String
  pub expr : String
  pub on_exceed : RuleAction
  pub on_match : RuleAction
  pub op : String
  pub of : List String

pub record Defaults : Type 0 where
  pub on_eval_error : String

pub record RuleFile : Type 0 where
  pub version : ℤ
  pub defaults : Defaults
  pub rules : List RawRule

-- The rules that must be ordered before: `of`, which counts for combiners only.
unfoldable pub dependencies : RawRule → List String
dependencies raw = if raw.type == "combiner" then raw.of else []

unfoldable pub known_rule_type : String → Bool
known_rule_type t = t == "rate_limit" || t == "keyword_match" || t == "cel" || t == "combiner"

unfoldable pub rule_enabled : Option Bool → Bool
rule_enabled none = true
rule_enabled (some b) = b
