-- ===== src/Rules/Cel/Actor.antt =====
-- The variable `actor` of the CEL rules, made by `actorActivation` of internal/rules/cel.go.
use policy_decision_service.Prelude.{
  String, Option, none, some, Option-cases, ◌≡◌, refl, ◌==◌, eq_iff, arith, if◌then◌else◌, inl, inr,
}
use policy_decision_service.Engine.Types.{
  Value, null, boolean, int, float, text, array, object, Fields, end, field, DecideRequest,
}
use policy_decision_service.Rules.Cel.{
  get_field, set_field, copy_fields, copy_object, actor_activation,
}

abbrev pub or_else : Option Value → Option Value → Option Value
or_else none later = later
or_else (some v) later = some v

-- What a loop over the entries assigns to a key last.
unfoldable pub last_field : String → Fields → Option Value
last_field key end = none
last_field key (field k v fs) = or_else (last_field key fs) (if k == key then some v else none)

get_field-set_field :
    (key k : String) (v : Value) (fs : Fields)
    → get_field key (set_field k v fs) ≡ (if k == key then some v else get_field key fs)
unfolding get_field set_field
get_field-set_field key k v end = refl
get_field-set_field key k v (field j u fs) =
    ground (arith, get_field-set_field key k v fs, eq_iff j k, eq_iff j key, eq_iff k key)

get_field-copy_fields :
    (key : String) (fs into : Fields)
    → get_field key (copy_fields fs into) ≡ or_else (last_field key fs) (get_field key into)
unfolding copy_fields last_field
get_field-copy_fields key end into = refl
get_field-copy_fields key (field k v fs) into =
    rw (get_field-copy_fields key fs (set_field k v into), get_field-set_field key k v into)
      (ground arith)

abbrev pub entries : Option Value → Fields
entries (some (object fs)) = fs
entries _ = end

get_field-copy_object :
    (key : String) (found : Option Value) (into : Fields)
    → get_field key (copy_object found into)
      ≡ or_else (last_field key (entries found)) (get_field key into)
unfolding last_field
get_field-copy_object key none into = refl
get_field-copy_object key (some null) into = refl
get_field-copy_object key (some (boolean b)) into = refl
get_field-copy_object key (some (int n)) into = refl
get_field-copy_object key (some (float n)) into = refl
get_field-copy_object key (some (text s)) into = refl
get_field-copy_object key (some (array vs)) into = refl
get_field-copy_object key (some (object fs)) into = get_field-copy_fields key fs into

-- What the request's context says of the actor: nothing, unless it has an object "actor".
unfoldable pub claimed : Option Fields → Fields
claimed none = end
claimed (some context) = entries (get_field "actor" context)

-- The variable `actor` has every entry of the object "actor" of the request's context, and the
-- request's actor id under "id" unless that object has an entry "id", which then stands there.
pub actor_activation_lem :
    (req : DecideRequest) (key : String)
    → get_field key (actor_activation req)
      ≡ or_else
          (last_field key (claimed req.context))
          (if "id" == key then some (text req.actor_id) else none)
unfolding actor_activation claimed last_field get_field
actor_activation_lem req key = elim (Option-cases req.context) [
  | inl absent ↦ rw (absent, actor_activation) refl
  | inr (context, given) ↦
      rw (given, actor_activation)
        (get_field-copy_object key (get_field "actor" context) (field "id" (text req.actor_id) end))
]
