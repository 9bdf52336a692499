-- ===== src/Rules/Cel.antt =====
-- internal/rules/cel.go. The compiler and the evaluator of CEL (google/cel-go) are parameters: a
-- program maps the activation, the six variables that the code declares, to a value or an error.
pub mod Actor
use policy_decision_service.Prelude.{
  String, Bool, false, List, [], ◌∷◌, Option, some, none, ◌==◌, Result, ok, err, ◌>>=◌, ◌>>◌,
  reject_if, if◌then◌else◌,
}
use policy_decision_service.Prelude.Text.{trim_space}
use policy_decision_service.Errors.{Error, message}
use policy_decision_service.Telemetry.{World, Host, poll}
use policy_decision_service.Engine.Types.{
  Value, boolean, int, text, array, object, Values, nil, cons, Fields, end, field, DecideRequest,
  EvalState, ActorFeatures, RuleResult,
}
use policy_decision_service.Engine.Rules.{Outcome, Rule, plain}
use policy_decision_service.Rules.Action.{RuleAction, validate, CelRuleConfig}
use policy_decision_service.Rules.RateLimit.{not_matched, matched_by}

abbrev pub Program : Type 0
Program = Fields → Result Error Value

pub record CelRule : Type 0 where
  pub id : String
  pub expr : String
  pub on_match : RuleAction
  pub program : Program

unfoldable pub new_cel_rule : (String → Result Error Program) → CelRuleConfig → Result Error CelRule
new_cel_rule compile cfg = do
  reject_if (trim_space cfg.id == "") (message "cel rule id is required")
  reject_if (trim_space cfg.expr == "") (message "cel rule expr is required")
  validate cfg.on_match "cel on_match"
  program ← compile cfg.expr
  ok (record { id = cfg.id; expr = cfg.expr; on_match = cfg.on_match; program = program })

-- `m[key]` of a map of values, and `m[key] = value`.
unfoldable pub get_field : String → Fields → Option Value
get_field key end = none
get_field key (field k v fs) = if k == key then some v else get_field key fs

unfoldable pub set_field : String → Value → Fields → Fields
set_field key value end = field key value end
set_field key value (field k v fs) =
    let rest = set_field key value fs in if k == key then field key value fs else field k v rest

-- The loop that copies a map into another.
unfoldable pub copy_fields : Fields → Fields → Fields
unfolding set_field
copy_fields end into = into
copy_fields (field k v fs) into = copy_fields fs (set_field k v into)

abbrev pub copy_object : Option Value → Fields → Fields
copy_object (some (object fs)) into = copy_fields fs into
copy_object _ into = into

-- `actorActivation`
unfoldable pub actor_activation : DecideRequest → Fields
unfolding copy_fields get_field
actor_activation req =
    let actor = field "id" (text req.actor_id) end in
    elim req.context [ none ↦ actor | some context ↦ copy_object (get_field "actor" context) actor ]

unfoldable pub features_activation : ActorFeatures → Fields
features_activation f = field "publishes_5m" (int f.publishes_5m) (
    field "publishes_1h" (int f.publishes_1h) (
      field "publishes_24h" (int f.publishes_24h) (
        field "blocks_24h" (int f.blocks_24h) (
          field "flags_7d" (int f.flags_7d) (
            field "comment_burst_1m" (int f.comment_burst_1m)
              (field "from_cache" (boolean f.from_cache) end))))))

abbrev pub texts : List String → Values
texts [] = nil
texts (s ∷ ss) = cons (text s) (texts ss)

-- A nil map reads as an empty one.
abbrev context_fields : Option Fields → Fields
context_fields none = end
context_fields (some fs) = fs

unfoldable pub activation : EvalState → Fields
unfolding actor_activation features_activation
activation state =
    let req = state.request in
    field "actor" (object (actor_activation req)) (
      field "action"
        (object
          (field "type" (text req.action.type) (field "platform" (text req.action.platform) end)))
        (field "content"
          (object (
            field "title" (text req.content.title) (
              field "description" (text req.content.description) (
                field "duration_s" (int req.content.duration_s)
                  (field "tags" (array (texts req.content.tags)) end)))))
          (field "context" (object (context_fields req.context)) (
            field "features" (object (features_activation state.features)) (
              field "degraded"
                (object (field "feature_provider" (boolean state.feature_degraded) end)) end)))))

-- `matched, ok := out.Value().(bool)` and `ok && matched`
unfoldable pub is_true : Value → Bool
is_true (boolean b) = b
is_true _ = false

abbrev pub cel_outcome : CelRule → Result Error Value → Result Error RuleResult
cel_outcome r (err e) = err e
cel_outcome r (ok out) = ok (if is_true out then matched_by r.id r.on_match else not_matched r.id)

module _ {X : Type 0} where
  unfoldable pub evaluate_cel : Host X → CelRule → EvalState → World X → Outcome X
  evaluate_cel host r state w =
      let (done, w1) = poll host w in
      elim done [ some e ↦ (err e, w1) | none ↦ (cel_outcome r (r.program (activation state)), w1) ]

  unfoldable pub cel_rule : Host X → CelRule → Rule X
  cel_rule host r = record { id = r.id; body = plain (evaluate_cel host r) }
