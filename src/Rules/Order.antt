-- ===== src/Rules/Order.antt =====
-- internal/rules/loader.go: `orderRules`, the depth-first ordering of the rules. `visit` recurs on
-- fuel, the subject of Rules/Order/Total.antt.
pub mod Marking
pub mod Topology
pub mod Complete
pub mod Total
pub mod Cycles
pub mod Acyclic
use policy_decision_service.Prelude.{
  ℕ, zero, suc, String, Bool, true, false, List, [], ◌∷◌, ◌++◌, map, Option, some, none, Result, ok,
  err, length, if◌then◌else◌,
}
use policy_decision_service.Prelude.Dict.{Dict, lookup, get_or}
use policy_decision_service.Errors.{Error, unknown_rule, combiner_cycle}
use policy_decision_service.Rules.Raw.{RawRule, dependencies}

-- The variables that `visit` captures.
pub record Marks : Type 0 where
  pub temporary : Dict Bool
  pub permanent : Dict Bool
  pub ordered : List RawRule

abbrev pub no_marks : Marks
no_marks = record { temporary = []; permanent = []; ordered = [] }

abbrev pub is_temporary : Marks → String → Bool
is_temporary m id = get_or id m.temporary false

abbrev pub is_permanent : Marks → String → Bool
is_permanent m id = get_or id m.permanent false

pub data Visited : Type 0 where
  done : Marks → Visited
  failed : Error → Visited
  out_of_fuel : Visited

abbrev pub and_then : Visited → (Marks → Visited) → Visited
and_then (done m) k = k m
and_then (failed e) k = failed e
and_then out_of_fuel k = out_of_fuel

-- `byID`: a later rule replaces an earlier one with its id.
unfoldable pub index : List RawRule → Dict RawRule → Dict RawRule
index [] by_id = by_id
index (raw ∷ raws) by_id = index raws ((raw.id, raw) ∷ by_id)

abbrev pub enter : String → Marks → Marks
enter id m = record m { temporary = (id, true) ∷ m.temporary }

abbrev pub leave : String → RawRule → Marks → Marks
leave id raw m = record {
  temporary = (id, false) ∷ m.temporary;
  permanent = (id, true) ∷ m.permanent;
  ordered = m.ordered ++ raw ∷ [];
}

-- A loop that visits each of a list of ids.
unfoldable pub visit_all : (String → Marks → Visited) → List String → Marks → Visited
visit_all v [] m = done m
visit_all v (id ∷ ids) m = and_then (v id m) (visit_all v ids)

-- The part of `visit` that is reached by an id without a mark.
unfoldable pub visit_found : (String → Marks → Visited) → Option RawRule → String → Marks → Visited
visit_found v none id m = failed (unknown_rule id)
visit_found v (some raw) id m =
    and_then (visit_all v (dependencies raw) (enter id m)) (λ m'. done (leave id raw m'))

unfoldable pub visit : Dict RawRule → ℕ → String → Marks → Visited
visit by_id zero id m = out_of_fuel
visit by_id (suc fuel) id m =
    let go = visit_found (visit by_id fuel) (lookup id by_id) id m in
    if is_permanent m id
    then done m
    else if is_temporary m id
    then failed (combiner_cycle id)
    else go

unfoldable pub order_rules : List RawRule → Visited
unfolding visit_all visit
order_rules raws =
    visit_all (visit (index raws []) (suc (length raws))) (map (λ raw. raw.id) raws) no_marks
