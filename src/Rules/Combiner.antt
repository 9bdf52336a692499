-- ===== src/Rules/Combiner.antt =====
-- internal/rules/combiner.go
pub mod Counting
pub mod Meaning
pub mod Provenance
use Prim.Native.String
use policy_decision_service.Prelude.{
  ℕ, ◌+◌, String, Bool, true, false, not, ◌&&◌, List, [], ◌∷◌, ◌++◌, Option, some, none, ◌==◌,
  Result, ok, err, ◌>>=◌, ◌>>◌, reject_if, length, eqb, ltb, if◌then◌else◌,
}
use policy_decision_service.Prelude.Dict.{lookup}
use policy_decision_service.Prelude.Text.{trim_space, join}
use policy_decision_service.Errors.{Error, message}
use policy_decision_service.Telemetry.{World, Host, poll, emit, combiner_dep_errors_total}
use policy_decision_service.Engine.Types.{verdict_allow, EvalState, RuleResult}
use policy_decision_service.Engine.Rules.{Results, Outcome, Rule, result_aware}
use policy_decision_service.Engine.Evaluate.{no_reason}
use policy_decision_service.Rules.Action.{RuleAction, validate, CombinerRuleConfig}

pub record CombinerRule : Type 0 where
  pub id : String
  pub op : String
  pub of : List String
  pub on_match : RuleAction

unfoldable pub new_combiner_rule : CombinerRuleConfig → Result Error CombinerRule
new_combiner_rule cfg = do
  reject_if (trim_space cfg.id == "") (message "combiner rule id is required")
  reject_if (not (cfg.op == "all") && not (cfg.op == "any"))
      (message "combiner op must be all or any")
  reject_if (eqb (length cfg.of) 0) (message "combiner requires referenced rules")
  validate cfg.on_match "combiner on_match"
  ok (record { id = cfg.id; op = cfg.op; of = cfg.of; on_match = cfg.on_match })

abbrev pub skipped_dep : String → String
skipped_dep ref = String.◌++◌ "skipped_dep=" (String.◌++◌ ref " status=dependency_error")

-- `matchedCount` and `skipped`, the variables of the loop.
pub record Count : Type 0 where
  pub matched : ℕ
  pub skipped : List String

abbrev pub start : Count
start = record { matched = 0; skipped = [] }

-- `matched` after the loop.
unfoldable pub is_matched : CombinerRule → ℕ → Bool
is_matched r count = if r.op == "any" then ltb 0 count else eqb count (length r.of)

unfoldable pub combiner_result : CombinerRule → Count → RuleResult
combiner_result r c =
    if not (is_matched r c.matched)
    then record {
      rule_id = r.id;
      matched = false;
      verdict = verdict_allow;
      reason = record { code = ""; rule = r.id; detail = join "; " c.skipped };
      error = none;
    }
    else record {
      rule_id = r.id;
      matched = true;
      verdict = r.on_match.verdict;
      reason = record { code = r.on_match.code; rule = r.id; detail = join "; " c.skipped };
      error = none;
    }

module _ {X : Type 0} where
  -- One dependency that has been evaluated.
  abbrev pub count_dep : String → String → RuleResult → Count → World X → Count × World X
  count_dep id ref result c w = elim result.error [
    | some e ↦ (
      record c { skipped = c.skipped ++ skipped_dep ref ∷ [] },
      emit (combiner_dep_errors_total id ref) w,
    )
    | none ↦ ((if result.matched then record c { matched = c.matched + 1 } else c), w)
  ]

  -- The loop over the dependencies.
  unfoldable pub count_deps :
      String → Results → List String → Count → World X → Result Error Count × World X
  count_deps id prior [] c w = (ok c, w)
  count_deps id prior (ref ∷ refs) c w = elim (lookup ref prior) [
    | none ↦ (err (message "combiner dependency has not been evaluated"), w)
    | some result ↦ let (c', w') = count_dep id ref result c w in count_deps id prior refs c' w'
  ]

  abbrev pub finish : CombinerRule → Result Error Count × World X → Outcome X
  finish r (ok c, w) = (ok (combiner_result r c), w)
  finish r (err e, w) = (err e, w)

  -- `EvaluateWithResults`; the map `prior` may be nil.
  unfoldable pub evaluate_with_results :
      Host X → CombinerRule → EvalState → Option Results → World X → Outcome X
  evaluate_with_results host r state prior w =
      let (done, w1) = poll host w in
      elim done [
        | some e ↦ (err e, w1)
        | none ↦ elim prior [
          | none ↦ (
            ok (record {
              rule_id = r.id;
              matched = false;
              verdict = verdict_allow;
              reason = no_reason;
              error = none;
            }),
            w1,
          )
          | some results ↦ finish r (count_deps r.id results r.of start w1)
        ]
      ]

  -- `CombinerRule` as a `ResultAwareRule`.
  unfoldable pub combiner_rule : Host X → CombinerRule → Rule X
  combiner_rule host r = record {
    id = r.id;
    body = result_aware r.of (λ state prior w. evaluate_with_results host r state (some prior) w);
  }
