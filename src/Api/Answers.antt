-- ===== src/Api/Answers.antt =====
-- What the handlers of internal/api/http.go and internal/api/grpc.go answer, for any engine and for
-- the rule engine of internal/engine/engine.go.
use policy_decision_service.Prelude.{
  String, [], ◌∷◌, ◌≡◌, ◌≢◌, refl, ◌⊎◌, inl, inr, ◌==◌, eq_iff, arith, Result, ok, err, Bool-cases,
}
use policy_decision_service.Prelude.Text.{trim_space}
use policy_decision_service.Errors.{Error}
use policy_decision_service.Telemetry.{World, Host, draw_uuid}
use policy_decision_service.Engine.Types.{DecideRequest, DecideResponse}
use policy_decision_service.Api.Request.{DecisionEngine, validate_decide_request}
use policy_decision_service.Api.Http.{
  HttpRequest, HttpReply, decision, texts, request_id, answered, validated, decoded, decide,
}

-- The actor and the action are named.
pub record IsValid (req : DecideRequest) : Type 0 where
  pub actor : trim_space req.actor_id ≢ ""
  pub action : trim_space req.action.type ≢ ""

pub validate-IsValid : (req : DecideRequest) → validate_decide_request req ≡ ok tt → IsValid req
unfolding validate_decide_request
validate-IsValid req h =
    ground (arith, eq_iff (trim_space req.actor_id) "", eq_iff (trim_space req.action.type) "")

pub IsValid-validate : (req : DecideRequest) → IsValid req → validate_decide_request req ≡ ok tt
unfolding validate_decide_request
IsValid-validate req h = ground (
  arith,
  eq_iff (trim_space req.actor_id) "",
  eq_iff (trim_space req.action.type) "",
  h.actor,
  h.action,
)

module _ {X : Type 0} (host : Host X) (decode : String → Result Error DecideRequest) where
  -- The reply to what the engine answered: the decision with status 200, or status 500.
  pub data Replied : Result Error DecideResponse × World X → HttpReply × World X → Type 0 where
    decided :
        (response : DecideResponse) (reply : HttpReply) (w : World X)
        → reply.status ≡ 200
        → reply.payload ≡ decision response
        → Replied (ok response, w) (reply, w)
    failed :
        (e : Error) (reply : HttpReply) (w : World X)
        → reply.status ≡ 500
        → reply.payload ≡ texts (("error", "decision engine failed") ∷ [])
        → Replied (err e, w) (reply, w)

  answered-Replied :
      (o : Result Error DecideResponse × World X) → Replied o (answered host decode o)
  answered-Replied (ok response, w) = decided response _ w refl refl
  answered-Replied (err e, w) = failed e _ w refl refl

  -- The request id: that of the header, or a new one if there is none.
  abbrev pub IsIdentified : String → World X → String → World X → Type 0
  IsIdentified given w id at =
      ((given ≢ "") × (id ≡ given) × (at ≡ w))
      ⊎ ((given ≡ "") × (id ≡ (draw_uuid host w).0) × (at ≡ (draw_uuid host w).1))

  request_id-IsIdentified :
      (given : String) (w : World X)
      → IsIdentified given w (request_id host decode given w).0 (request_id host decode given w).1
  request_id-IsIdentified given w = elim (Bool-cases (given == "")) [
    | inl missing ↦ inr (ground (arith, eq_iff given ""), rw missing, rw missing)
    | inr sent ↦ inl (ground (arith, eq_iff given ""), rw sent, rw sent)
  ]

  -- The engine was asked, once, and the reply is made of its answer: for the client that the
  -- request's header names, about a named actor and action.
  pub record Asks (engine : DecisionEngine X) (r : HttpRequest) (w : World X)
      (reply : HttpReply × World X) : Type 0 where
    pub body : DecideRequest
    pub sent : DecideRequest
    pub at : World X
    pub decodes : decode r.body ≡ ok body
    pub client : sent.client_id ≡ trim_space (r.header "X-Client-Id")
    pub named : sent.client_id ≢ ""
    pub same : record sent { client_id = body.client_id; request_id = body.request_id } ≡ body
    pub identified : IsIdentified (trim_space (r.header "X-Request-Id")) w sent.request_id at
    pub valid : IsValid body
    pub replies : Replied (engine sent at) reply

  -- What is wrong with a request: it names no client, its body does not decode, or it names no
  -- actor or no action.
  abbrev pub IsUnfit : HttpRequest → Type 0
  IsUnfit r =
      (trim_space (r.header "X-Client-Id") ≡ "")
      ⊎ ((e : Error) × (decode r.body ≡ err e))
      ⊎ ((body : DecideRequest) × (decode r.body ≡ ok body) × (¬ IsValid body))

  -- A request that is unfit is refused with status 400, and nothing is done for it.
  pub record IsRefused (r : HttpRequest) (w : World X) (reply : HttpReply × World X) : Type 0 where
    pub unfit : IsUnfit r
    pub message : String
    pub status : reply.0.status ≡ 400
    pub replies : reply.0.payload ≡ texts (("error", message) ∷ [])
    pub idle : reply.1 ≡ w

  validated-Asks :
      (engine : DecisionEngine X) (r : HttpRequest) (body : DecideRequest)
      (checked : Result String (Unit {0})) (w : World X)
      → trim_space (r.header "X-Client-Id") ≢ ""
      → decode r.body ≡ ok body
      → validate_decide_request body ≡ checked
      → let reply =
          validated host decode engine
            (trim_space (r.header "X-Client-Id"))
            (trim_space (r.header "X-Request-Id"))
            body
            checked
            w in
        IsRefused r w reply ⊎ Asks engine r w reply
  validated-Asks engine r body (err message) w n d v = inl (record {
    unfit = inr (inr (body, d, λ valid. cc (IsValid-validate body valid, v)));
    message = message;
    status = refl;
    replies = refl;
    idle = refl;
  })
  validated-Asks engine r body (ok u) w n d v = inr (record {
    body = body;
    sent = record body {
      client_id = trim_space (r.header "X-Client-Id");
      request_id = (request_id host decode (trim_space (r.header "X-Request-Id")) w).0;
    };
    at = (request_id host decode (trim_space (r.header "X-Request-Id")) w).1;
    decodes = d;
    client = refl;
    named = n;
    same = refl;
    identified = request_id-IsIdentified (trim_space (r.header "X-Request-Id")) w;
    valid = validate-IsValid body v;
    replies = answered-Replied _;
  })

  decoded-Asks :
      (engine : DecisionEngine X) (r : HttpRequest) (found : Result Error DecideRequest)
      (w : World X)
      → trim_space (r.header "X-Client-Id") ≢ ""
      → decode r.body ≡ found
      → let reply =
          decoded host decode engine
            (trim_space (r.header "X-Client-Id"))
            (trim_space (r.header "X-Request-Id"))
            found
            w in
        IsRefused r w reply ⊎ Asks engine r w reply
  decoded-Asks engine r (err e) w n d =
      inl (record {
        unfit = inr (inl (e, d));
        message = _;
        status = refl;
        replies = refl;
        idle = refl;
      })
  decoded-Asks engine r (ok body) w n d =
      validated-Asks engine r body (validate_decide_request body) w n d refl

  -- A request for a decision either names no client, does not decode, or names no actor or action:
  -- then it is refused with status 400 and leaves everything as it was. Or it names them, and the
  -- engine is asked once about it, as it was decoded, for the client that its header names and
  -- under the request id of its header or a new one; the reply is the engine's answer with status
  -- 200, or an error with status 500.
  pub decide_lem :
      (engine : DecisionEngine X) (r : HttpRequest) (w : World X)
      → IsRefused r w (decide host decode engine r w)
        ⊎ Asks engine r w (decide host decode engine r w)
  unfolding decide
  decide_lem engine r w = elim (Bool-cases (trim_space (r.header "X-Client-Id") == "")) [
    | inl missing ↦ rw missing (
        inl (record {
          unfit = inl (ground (arith, eq_iff (trim_space (r.header "X-Client-Id")) ""));
          message = _;
          status = refl;
          replies = refl;
          idle = refl;
        }))
    | inr named ↦ rw named (
        decoded-Asks engine r (decode r.body) w
          (ground (arith, eq_iff (trim_space (r.header "X-Client-Id")) "")) refl)
  ]
