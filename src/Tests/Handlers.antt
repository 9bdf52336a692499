-- ===== src/Tests/Handlers.antt =====
-- Requests of a client through the two handlers.
use policy_decision_service.Prelude.{
  ℕ, String, some, none, ◌≡◌, ◌≢◌, refl, ◌⊎◌, ◌==◌, eq_iff, if◌then◌else◌, Result, ok, arith,
}
use policy_decision_service.Prelude.Text.{trim_space}
use policy_decision_service.Errors.{Error}
use policy_decision_service.Engine.Types.{array, nil, field, end, DecideRequest}
use policy_decision_service.Engine.Evaluate.{evaluate}
use policy_decision_service.Api.Http.{HttpRequest, decide}
use policy_decision_service.Api.Grpc.{GrpcRequest, Structs, grpc_request_to_engine}
use policy_decision_service.Api.Answers.{IsValid, Asks, IsRefused, decide_lem}
use policy_decision_service.Tests.Data.{host, world, request, engine}

-- A decoder that reads every body as the sample request.
abbrev pub decode : String → Result Error DecideRequest
decode text = ok request

abbrev pub http_request : HttpRequest
http_request = record { header = λ key. if key == "X-Client-Id" then " web " else ""; body = "{}" }

pub never_done : (x : ℕ) → (host.ctx_err x).0 ≡ none
never_done x = refl

decide_lem_example :
    IsRefused host decode http_request world
      (decide host decode (evaluate host engine) http_request world)
    ⊎ Asks host decode
        (evaluate host engine)
        http_request
        world
        (decide host decode (evaluate host engine) http_request world)
decide_lem_example = decide_lem host decode (evaluate host engine) http_request world

pub client_named : trim_space (http_request.header "X-Client-Id") ≢ ""
unfolding trim_space
client_named = ground (arith, eq_iff "web" "")

pub request-IsValid : IsValid request
unfolding trim_space
request-IsValid = record {
  actor = ground (arith, eq_iff "u1" "");
  action = ground (arith, eq_iff "publish" "");
}

abbrev pub structs : Structs
structs = record {
  as_map = λ fields. fields;
  marshal = λ fields. ok "{}";
  unmarshal = λ json. ok (field "warnings" (array nil) end);
  new_struct = λ fields. ok fields;
}

-- A request without a content and without a context.
abbrev pub grpc_request : GrpcRequest
grpc_request = record {
  actor_id = "u1";
  action = some (record { type = "publish"; platform = "web" });
  content = none;
  context = none;
}

pub grpc_request-IsValid : IsValid (grpc_request_to_engine structs grpc_request)
unfolding trim_space grpc_request_to_engine
grpc_request-IsValid = record {
  actor = ground (arith, eq_iff "u1" "");
  action = ground (arith, eq_iff "publish" "");
}
