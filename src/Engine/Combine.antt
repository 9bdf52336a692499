-- ===== src/Engine/Combine.antt =====
-- internal/engine/combine.go
pub mod Precedence
pub mod Order
use policy_decision_service.Prelude.{
  String, not, ◌&&◌, List, [], ◌∷◌, ◌++◌, none, ◌==◌, if◌then◌else◌,
}
use policy_decision_service.Engine.Types.{
  Verdict, verdict_allow, verdict_flag, verdict_block, Reason, RuleResult, DecideResponse,
}

-- The variables of the loop.
pub record Tally : Type 0 where
  pub verdict : Verdict
  pub reasons : List Reason
  pub evaluated : List String

-- The verdict after one matched result.
unfoldable pub raise : Verdict → Verdict → Verdict
raise current v =
    if v == verdict_block
    then verdict_block
    else if v == verdict_flag && not (current == verdict_block)
    then verdict_flag
    else current

-- The body of the loop.
unfoldable pub tally : Tally → RuleResult → Tally
tally t r =
    if not r.matched then record t { evaluated = t.evaluated ++ r.rule_id ∷ [] } else record {
      verdict = raise t.verdict r.verdict;
      reasons = if r.reason.code == "" then t.reasons else t.reasons ++ r.reason ∷ [];
      evaluated = t.evaluated ++ r.rule_id ∷ [];
    }

unfoldable pub tally_all : Tally → List RuleResult → Tally
tally_all t [] = t
tally_all t (r ∷ rs) = tally_all (tally t r) rs

-- `Combine`; the fields that Go leaves at their zero values are written out.
unfoldable pub combine : List RuleResult → DecideResponse
combine results =
    let t = tally_all (record { verdict = verdict_allow; reasons = []; evaluated = [] }) results in
    record {
      decision_id = "";
      verdict = t.verdict;
      score = 0;
      reasons = t.reasons;
      evaluated_rules = t.evaluated;
      rules_version = "";
      latency_ms = 0;
      metadata = none;
    }
