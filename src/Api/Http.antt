-- ===== src/Api/Http.antt =====
-- internal/api/http.go and internal/api/middleware.go. A reply is its status, its content type
-- and what is encoded as its body. The JSON decoder (which refuses unknown fields), the printing
-- of an error, the handler of the metrics and the dispatch of chi are outside.
use policy_decision_service.Prelude.{
  ℕ, String, List, [], ◌∷◌, Option, some, none, ◌==◌, Result, ok, err, if◌then◌else◌,
}
use policy_decision_service.Prelude.Text.{trim_space}
use policy_decision_service.Errors.{Error}
use policy_decision_service.Telemetry.{World, Host, draw_uuid}
use policy_decision_service.Engine.Types.{DecideRequest, DecideResponse}
use policy_decision_service.Engine.Evaluate.{new_allow_engine, allow_engine_evaluate}
use policy_decision_service.Api.Request.{DecisionEngine, validate_decide_request}

-- A header that is not sent reads as "".
pub record HttpRequest : Type 0 where
  pub header : String → String
  pub body : String

pub data Payload : Type 0 where
  texts : List (String × String) → Payload
  decision : DecideResponse → Payload

pub record HttpReply : Type 0 where
  pub status : ℕ
  pub content_type : String
  pub payload : Payload

-- `writeJSON`
abbrev pub write_json : ℕ → Payload → HttpReply
write_json status payload = record {
  status = status;
  content_type = "application/json";
  payload = payload;
}

-- `writeError`
abbrev pub write_error : ℕ → String → HttpReply
write_error status message = write_json status (texts (("error", message) ∷ []))

abbrev pub Handler : Type 0 → Type 0
Handler X = HttpRequest → World X → HttpReply × World X

-- `func(context.Context) error`
abbrev pub Check : Type 0 → Type 0
Check X = World X → Option Error × World X

pub record Dependencies (X : Type 0) : Type 0 where
  pub engine : Option (DecisionEngine X)
  pub ready : Option (Check X)
  pub reload : Option (Check X)

abbrev pub readiness : (Error → String) → Option Error → HttpReply
readiness print none = write_json 200 (texts (("status", "ready") ∷ []))
readiness print (some e) =
    write_json 503 (texts (("status", "unavailable") ∷ ("error", print e) ∷ []))

abbrev pub reloaded : (Error → String) → Option Error → HttpReply
reloaded print none = write_json 200 (texts (("status", "reloaded") ∷ []))
reloaded print (some e) = write_error 500 (print e)

module _ {X : Type 0} where
  unfoldable pub healthz : Handler X
  healthz r w = (write_json 200 (texts (("status", "ok") ∷ [])), w)

  module _ (print : Error → String) where
    unfoldable pub readyz : Check X → Handler X
    readyz check r w = let (e, w1) = check w in (readiness print e, w1)

    unfoldable pub reload : Check X → Handler X
    reload fn r w = let (e, w1) = fn w in (reloaded print e, w1)

  module _ (host : Host X) (decode : String → Result Error DecideRequest) where
    -- The request id of the caller, or a new one.
    abbrev pub request_id : String → World X → String × World X
    request_id given w = if given == "" then draw_uuid host w else (given, w)

    abbrev pub answered : Result Error DecideResponse × World X → HttpReply × World X
    answered (ok response, w) = (write_json 200 (decision response), w)
    answered (err e, w) = (write_error 500 "decision engine failed", w)

    -- The part of `decide` behind the validation.
    abbrev pub serve :
        DecisionEngine X → String → String → DecideRequest → World X → HttpReply × World X
    serve engine client_id given req w =
        let (id, w1) = request_id given w in
        answered (engine (record req { client_id = client_id; request_id = id }) w1)

    abbrev pub validated :
        DecisionEngine X
        → String
        → String
        → DecideRequest
        → Result String (Unit {0})
        → World X
        → HttpReply × World X
    validated engine client_id given req (err message) w = (write_error 400 message, w)
    validated engine client_id given req (ok _) w = serve engine client_id given req w

    abbrev pub decoded :
        DecisionEngine X
        → String
        → String
        → Result Error DecideRequest
        → World X
        → HttpReply × World X
    decoded engine client_id given (err e) w = (write_error 400 "malformed request", w)
    decoded engine client_id given (ok req) w =
        validated engine client_id given req (validate_decide_request req) w

    unfoldable pub decide : DecisionEngine X → Handler X
    decide engine r w =
        let client_id = trim_space (r.header "X-Client-Id") in
        if client_id == ""
        then (write_error 400 "missing X-Client-Id", w)
        else decoded engine client_id (trim_space (r.header "X-Request-Id")) (decode r.body) w

  -- `RequestID` of the middleware: the id that is also the reply's header, and the reply.
  unfoldable pub with_request_id :
      Host X → Handler X → HttpRequest → World X → String × HttpReply × World X
  with_request_id host next r w =
      if r.header "X-Request-Id" == ""
      then (let (id, w1) = draw_uuid host w in
          let sent : HttpRequest = record r {
            header = λ key. if key == "X-Request-Id" then id else r.header key;
          } in
          let (reply, w2) = next sent w1 in (id, reply, w2))
      else (let (reply, w1) = next r w in (r.header "X-Request-Id", reply, w1))

  abbrev pub check_or_none : Option (Check X) → Check X
  check_or_none none w = (none, w)
  check_or_none (some check) w = check w

  abbrev pub engine_or_allow : Host X → Option (DecisionEngine X) → DecisionEngine X
  engine_or_allow host none = allow_engine_evaluate host (new_allow_engine "bootstrap")
  engine_or_allow host (some engine) = engine

  -- `NewRouter`: the routes, as method, pattern and handler. `metrics` answers every method.
  unfoldable pub new_router :
      Host X
      → (String → Result Error DecideRequest)
      → (Error → String)
      → Handler X
      → Dependencies X
      → List (String × String × Handler X)
  new_router host decode print metrics deps =
      ("GET", "/healthz", healthz)
      ∷ ("GET", "/readyz", readyz print (check_or_none deps.ready))
      ∷ ("*", "/metrics", metrics)
      ∷ ("POST", "/v1/decide", decide host decode (engine_or_allow host deps.engine))
      ∷ ("POST", "/v1/admin/reload", reload print (check_or_none deps.reload))
      ∷ []
