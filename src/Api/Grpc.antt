-- ===== src/Api/Grpc.antt =====
-- internal/api/grpc.go. A pointer to a message is an `Option`; a getter of a nil message gives the
-- zero value. structpb and the JSON encoder are parameters: a struct as a map, a map as JSON and
-- back, and a map as a struct.
use policy_decision_service.Prelude.{
  ℕ, String, List, [], map, Option, some, none, Result, ok, err, ◌>>=◌,
}
use policy_decision_service.Prelude.Int.{ℤ, pos}
use policy_decision_service.Errors.{Error}
use policy_decision_service.Telemetry.{World, Host}
use policy_decision_service.Engine.Types.{
  array, Fields, end, field, Reason, DecideRequest, DecideResponse,
}
use policy_decision_service.Rules.Cel.{texts}
use policy_decision_service.Api.Http.{engine_or_allow}
use policy_decision_service.Api.Request.{DecisionEngine, validate_decide_request}

pub record Action : Type 0 where
  pub type : String
  pub platform : String

pub record Content : Type 0 where
  pub title : String
  pub description : String
  pub duration_s : ℤ
  pub tags : List String

pub record GrpcRequest : Type 0 where
  pub actor_id : String
  pub action : Option Action
  pub content : Option Content
  pub context : Option Fields

pub record GrpcReason : Type 0 where
  pub code : String
  pub rule : String
  pub detail : String

pub record GrpcResponse : Type 0 where
  pub decision_id : String
  pub verdict : String
  pub score : ℕ
  pub reasons : List GrpcReason
  pub evaluated_rules : List String
  pub rules_version : String
  pub latency_ms : ℕ
  pub metadata : Option Fields

-- The codes that the handler returns, with their texts.
pub data Status : Type 0 where
  invalid_argument internal : String → Status

pub record Structs : Type 0 where
  pub as_map : Fields → Fields
  pub marshal : Fields → Result Error String
  pub unmarshal : String → Result Error Fields
  pub new_struct : Fields → Result Error Fields

abbrev pub get_action : Option Action → Action
get_action none = record { type = ""; platform = "" }
get_action (some a) = a

abbrev pub get_content : Option Content → Content
get_content none = record { title = ""; description = ""; duration_s = pos 0; tags = [] }
get_content (some c) = c

abbrev pub or_nil : Result Error Fields → Option Fields
or_nil (ok fs) = some fs
or_nil (err e) = none

module _ (s : Structs) where
  abbrev pub context_map : Option Fields → Option Fields
  context_map none = none
  context_map (some fs) = some (s.as_map fs)

  unfoldable pub grpc_request_to_engine : GrpcRequest → DecideRequest
  grpc_request_to_engine req =
      let action = get_action req.action in
      let content = get_content req.content in
      record {
        actor_id = req.actor_id;
        action = record { type = action.type; platform = action.platform };
        content = record {
          title = content.title;
          description = content.description;
          duration_s = content.duration_s;
          tags = content.tags;
        };
        context = context_map req.context;
        client_id = "grpc";
        request_id = "";
      }

  unfoldable pub normalize_json_map : Fields → Result Error Fields
  normalize_json_map values = do json ← s.marshal values; s.unmarshal json

  -- `mapToStruct` of the metadata of a response
  unfoldable pub map_to_struct : Option (List String) → Option Fields
  map_to_struct none = none
  map_to_struct (some warnings) =
      or_nil (normalize_json_map (field "warnings" (array (texts warnings)) end) >>= s.new_struct)

  abbrev pub grpc_reason : Reason → GrpcReason
  grpc_reason r = record { code = r.code; rule = r.rule; detail = r.detail }

  unfoldable pub engine_response_to_grpc : DecideResponse → GrpcResponse
  engine_response_to_grpc response = record {
    decision_id = response.decision_id;
    verdict = response.verdict;
    score = response.score;
    reasons = map grpc_reason response.reasons;
    evaluated_rules = response.evaluated_rules;
    rules_version = response.rules_version;
    latency_ms = response.latency_ms;
    metadata = map_to_struct response.metadata;
  }

  module _ {X : Type 0} where
    abbrev pub grpc_answered :
        Result Error DecideResponse × World X → Result Status GrpcResponse × World X
    grpc_answered (ok response, w) = (ok (engine_response_to_grpc response), w)
    grpc_answered (err e, w) = (err (internal "decision engine failed"), w)

    abbrev pub grpc_validated :
        DecisionEngine X
        → DecideRequest
        → Result String (Unit {0})
        → World X
        → Result Status GrpcResponse × World X
    grpc_validated engine req (err message) w = (err (invalid_argument message), w)
    grpc_validated engine req (ok _) w = grpc_answered (engine req w)

    -- `Decide`
    unfoldable pub grpc_decide :
        DecisionEngine X → GrpcRequest → World X → Result Status GrpcResponse × World X
    grpc_decide engine req w =
        let engine_req = grpc_request_to_engine req in
        grpc_validated engine engine_req (validate_decide_request engine_req) w

    -- `NewGRPCServer`: the handler that is registered.
    unfoldable pub new_grpc_server :
        Host X
        → Option (DecisionEngine X)
        → GrpcRequest
        → World X
        → Result Status GrpcResponse × World X
    new_grpc_server host engine = grpc_decide (engine_or_allow host engine)
