-- ===== src/Tests/Ordering.antt =====
-- The ordering of a combiner that stands before its dependency, and of a combiner of itself.
use mathlib.Core.List.{Perm}
use policy_decision_service.Prelude.{Distinct, [], ◌∷◌, ◌≡◌, ◌≢◌, refl, arith, ok, eq_iff}
use policy_decision_service.Prelude.Text.{trim_space}
use policy_decision_service.Errors.{combiner_cycle}
use policy_decision_service.Rules.Raw.{dependencies, known_rule_type}
use policy_decision_service.Rules.Order.{
  done, failed, out_of_fuel, index, visit_all, visit_found, visit, order_rules,
}
use policy_decision_service.Rules.Order.Topology.{ids, IsTopological}
use policy_decision_service.Rules.Order.Complete.{order_rules_sound}
use policy_decision_service.Rules.Order.Total.{order_rules_total}
use policy_decision_service.Rules.Order.Cycles.{IsTrue, order_rules-failed}
use policy_decision_service.Rules.Loader.{check_rules}
use policy_decision_service.Tests.Data.{raw_rules, raw_cycle, marks}

ordered : order_rules raw_rules ≡ done marks
unfolding order_rules visit visit_all visit_found index dependencies
ordered = refl

cyclic : order_rules raw_cycle ≡ failed (combiner_cycle "c")
unfolding order_rules visit visit_all visit_found index dependencies
cyclic = refl

distinct : Distinct (ids raw_rules)
distinct = ground (arith, eq_iff "c" "a")

order_rules_sound_example : Perm marks.ordered raw_rules × IsTopological [] marks.ordered
order_rules_sound_example = order_rules_sound raw_rules marks distinct ordered

order_rules_total_example : order_rules raw_cycle ≢ out_of_fuel
order_rules_total_example = order_rules_total raw_cycle

order_rules-failed_example : IsTrue (index raw_cycle []) (combiner_cycle "c")
order_rules-failed_example = order_rules-failed raw_cycle (combiner_cycle "c") cyclic

checked : check_rules raw_rules [] ≡ ok (("a", tt) ∷ ("c", tt) ∷ [])
unfolding check_rules known_rule_type trim_space
checked = refl
