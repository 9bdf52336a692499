-- ===== src/Rules/Action.antt =====
-- internal/rules/rule.go: the verdict and the code of a rule that matches. `validate` prefixes
-- its errors with the name of the field.
use Prim.Native.String
use policy_decision_service.Prelude.{String, not, ◌||◌, ◌==◌, Result, ◌>>◌, reject_if, List}
use policy_decision_service.Errors.{Error, message}
use policy_decision_service.Engine.Types.{Verdict, verdict_allow, verdict_flag, verdict_block}

pub record RuleAction : Type 0 where
  pub verdict : Verdict
  pub code : String

unfoldable pub validate : RuleAction → String → Result Error (Unit {0})
validate a context = do
  reject_if (a.verdict == "") (message (String.◌++◌ context " verdict is required"))
  reject_if
      (not (a.verdict == verdict_allow || a.verdict == verdict_flag || a.verdict == verdict_block))
      (message (String.◌++◌ context " verdict must be allow, flag, or block"))
  reject_if (a.code == "") (message (String.◌++◌ context " code is required"))

pub record KeywordRuleConfig : Type 0 where
  pub id : String
  pub field : String
  pub keywords : List String
  pub on_match : RuleAction

pub record CelRuleConfig : Type 0 where
  pub id : String
  pub expr : String
  pub on_match : RuleAction

pub record CombinerRuleConfig : Type 0 where
  pub id : String
  pub op : String
  pub of : List String
  pub on_match : RuleAction
