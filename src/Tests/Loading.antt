-- ===== src/Tests/Loading.antt =====
-- A rule file with a combiner in front of the CEL rule that it combines.
use mathlib.Core.List.{Perm}
use policy_decision_service.Prelude.{
  Distinct, inl, ℕ, true, String, List, [], ◌∷◌, map, none, ◌≡◌, refl, All, ok,
}
use policy_decision_service.Prelude.Int.{pos}
use policy_decision_service.Prelude.Text.{trim_space, join}
use policy_decision_service.Telemetry.{World, rule_evaluations_total}
use policy_decision_service.Engine.Types.{RuleResult}
use policy_decision_service.Engine.Evaluate.{evaluate_rule, call}
use policy_decision_service.Engine.Evaluate.Loop.{Run, ran, finished}
use policy_decision_service.Engine.Evaluate.Response.{IsHonest}
use policy_decision_service.Engine.Evaluate.Feeding.{InOrder, AllFed}
use policy_decision_service.Rules.Action.{validate}
use policy_decision_service.Rules.Raw.{RawRule, dependencies, known_rule_type, rule_enabled}
use policy_decision_service.Rules.Order.{index, visit_all, visit_found, visit, order_rules}
use policy_decision_service.Rules.Order.Topology.{ids, IsTopological}
use policy_decision_service.Rules.Cel.{new_cel_rule, cel_rule, evaluate_cel, is_true}
use policy_decision_service.Rules.Combiner.{
  new_combiner_rule, combiner_rule, evaluate_with_results, count_deps, combiner_result, is_matched,
}
use policy_decision_service.Rules.Loader.{
  check_rules, check_refs, check_references, build_cel, build_combiner, build_rule, build_rules,
  load_rules,
}
use policy_decision_service.Rules.Loader.Checks.{IsNamed}
use policy_decision_service.Rules.Loader.Building.{enabled_of}
use policy_decision_service.Rules.Loader.Soundness.{load_rules_sound, load_rules-AllFed}
use policy_decision_service.Tests.Data.{
  host, world, state, raw_rules, rule_file, environment, loaded,
}

file_loads : load_rules environment rule_file "" ≡ ok loaded
unfolding load_rules check_rules check_references check_refs order_rules visit visit_all visit_found
    index dependencies build_rules build_rule build_cel build_combiner new_cel_rule
    new_combiner_rule validate known_rule_type rule_enabled trim_space
file_loads = refl

load_rules_sound_example :
    (ordered : List RawRule) × Perm ordered raw_rules
    × IsTopological [] ordered
    × (map (λ rule. rule.id) loaded ≡ ids (enabled_of environment ordered))
    × All IsHonest loaded
    × (rule_file.version ≡ pos 1)
    × Distinct (ids raw_rules)
    × All IsNamed raw_rules
load_rules_sound_example = load_rules_sound environment rule_file "" loaded file_loads

abbrev blocks : String → RuleResult
blocks id = record {
  rule_id = id;
  matched = true;
  verdict = "block";
  reason = record { code = "combined"; rule = id; detail = "" };
  error = none;
}

abbrev after : World ℕ
after = record world {
  updates = rule_evaluations_total "c" true ∷ rule_evaluations_total "a" true ∷ [];
}

run_loaded : Run host state loaded [] world (blocks "a" ∷ blocks "c" ∷ []) after
unfolding evaluate_rule call cel_rule evaluate_cel is_true combiner_rule evaluate_with_results
    count_deps combiner_result is_matched join
run_loaded = ran refl refl (ran refl refl finished)

in_order : InOrder [] loaded
unfolding cel_rule combiner_rule
in_order = (tt, ((inl refl, tt), tt))

load_rules-AllFed_example : AllFed host state run_loaded
unfolding rule_enabled
load_rules-AllFed_example =
    load_rules-AllFed environment host state rule_file "" file_loads (refl, (refl, tt)) run_loaded
