-- ===== src/Engine/Types.antt =====
-- internal/engine/types.go, and the result type of internal/engine/combine.go.
use policy_decision_service.Prelude.{ℕ, String, Bool, Option, List}
use policy_decision_service.Prelude.Int.{ℤ}
use policy_decision_service.Errors.{Error}

-- `type Verdict string`: configuration may hold any text before it is validated.
abbrev pub Verdict : Type 0
Verdict = String

abbrev pub verdict_allow : Verdict
verdict_allow = "allow"

abbrev pub verdict_flag : Verdict
verdict_flag = "flag"

abbrev pub verdict_block : Verdict
verdict_block = "block"

-- A value of `any`: what JSON and the rule activations hold. `float` is the bits of a float64.
mutual
  pub data Value : Type 0 where
    null : Value
    boolean : Bool → Value
    int : ℤ → Value
    float : ℕ → Value
    text : String → Value
    array : Values → Value
    object : Fields → Value

  pub data Values : Type 0 where
    nil : Values
    cons : Value → Values → Values

  pub data Fields : Type 0 where
    end : Fields
    field : String → Value → Fields → Fields

pub record ActionContext : Type 0 where
  pub type : String
  pub platform : String

pub record ContentContext : Type 0 where
  pub title : String
  pub description : String
  pub duration_s : ℤ
  pub tags : List String

-- `context` is `none` for a nil map.
pub record DecideRequest : Type 0 where
  pub actor_id : String
  pub action : ActionContext
  pub content : ContentContext
  pub context : Option Fields
  pub client_id : String
  pub request_id : String

pub record ActorFeatures : Type 0 where
  pub actor_id : String
  pub publishes_5m : ℤ
  pub publishes_1h : ℤ
  pub publishes_24h : ℤ
  pub blocks_24h : ℤ
  pub flags_7d : ℤ
  pub comment_burst_1m : ℤ
  pub as_of : String
  pub from_cache : Bool

pub record EvalState : Type 0 where
  pub request : DecideRequest
  pub features : ActorFeatures
  pub feature_degraded : Bool
  pub degraded_warnings : List String

pub record Reason : Type 0 where
  pub code : String
  pub rule : String
  pub detail : String

-- The score is a float64 that the code only ever sets to 0. `metadata` holds the one key that the
-- code sets, "warnings", or nothing.
pub record DecideResponse : Type 0 where
  pub decision_id : String
  pub verdict : Verdict
  pub score : ℕ
  pub reasons : List Reason
  pub evaluated_rules : List String
  pub rules_version : String
  pub latency_ms : ℕ
  pub metadata : Option (List String)

pub record AuditRecord : Type 0 where
  pub decision_id : String
  pub actor_id : String
  pub action_type : String
  pub platform : String
  pub verdict : Verdict
  pub score : ℕ
  pub reasons : List Reason
  pub evaluated_rules : List String
  pub request : DecideRequest
  pub latency_us : ℕ
  pub rules_version : String
  pub client : String

pub record RuleResult : Type 0 where
  pub rule_id : String
  pub matched : Bool
  pub verdict : Verdict
  pub reason : Reason
  pub error : Option Error
