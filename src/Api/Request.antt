-- ===== src/Api/Request.antt =====
-- What the two handlers share: the interface `DecisionEngine` and `validateDecideRequest` of
-- internal/api/http.go.
use policy_decision_service.Prelude.{String, ◌==◌, Result, ◌>>◌, reject_if}
use policy_decision_service.Prelude.Text.{trim_space}
use policy_decision_service.Errors.{Error}
use policy_decision_service.Telemetry.{World}
use policy_decision_service.Engine.Types.{DecideRequest, DecideResponse}

abbrev pub DecisionEngine : Type 0 → Type 0
DecisionEngine X = DecideRequest → World X → Result Error DecideResponse × World X

-- The error is its text.
unfoldable pub validate_decide_request : DecideRequest → Result String (Unit {0})
validate_decide_request req = do
  reject_if (trim_space req.actor_id == "") "actor_id is required"
  reject_if (trim_space req.action.type == "") "action.type is required"
