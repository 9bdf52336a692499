-- ===== src/Engine/Rules.antt =====
-- The interfaces of internal/engine/engine.go: `Rule`, `ResultAwareRule`, `FeatureProvider` and
-- `AuditSink`. An interface value is the functions that it carries; each acts on the world, and a
-- rule returns a result or an error.
use policy_decision_service.Prelude.{String, Bool, List, Result}
use policy_decision_service.Prelude.Dict.{Dict}
use policy_decision_service.Errors.{Error}
use policy_decision_service.Telemetry.{World}
use policy_decision_service.Engine.Types.{EvalState, RuleResult, ActorFeatures, AuditRecord}

-- What has been evaluated, by rule id.
abbrev pub Results : Type 0
Results = Dict RuleResult

abbrev pub Outcome : Type 0 → Type 0
Outcome X = Result Error RuleResult × World X

-- `Evaluate`, or for a `ResultAwareRule` `Dependencies` and `EvaluateWithResults`.
pub data Body (X : Type 0) : Type 0 where
  plain : (EvalState → World X → Outcome X) → Body X
  result_aware : List String → (EvalState → Results → World X → Outcome X) → Body X

pub record Rule (X : Type 0) : Type 0 where
  pub id : String
  pub body : Body X

abbrev pub FeatureProvider : Type 0 → Type 0
FeatureProvider X = String → World X → (ActorFeatures × Bool) × World X

abbrev pub AuditSink : Type 0 → Type 0
AuditSink X = AuditRecord → World X → World X
