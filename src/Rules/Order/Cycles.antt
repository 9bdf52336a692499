-- ===== src/Rules/Order/Cycles.antt =====
-- What the errors of `orderRules` of internal/rules/loader.go say.
use policy_decision_service.Prelude.{
  ℕ, zero, suc, String, true, List, [], ◌∷◌, map, some, none, Option-cases, ◌≡◌, refl, ◌∙◌, sym,
  arith, Elem, ◌==◌, eq_iff, inl, inr, ◌⊎◌, Bool-cases, subst, length,
}
use policy_decision_service.Prelude.Dict.{Dict, lookup}
use policy_decision_service.Errors.{Error, combiner_cycle, unknown_rule}
use policy_decision_service.Rules.Raw.{RawRule, dependencies}
use policy_decision_service.Rules.Order.{
  Marks, no_marks, is_temporary, is_permanent, Visited, done, failed, out_of_fuel, and_then, enter,
  index, visit_all, visit_found, visit, order_rules,
}
use policy_decision_service.Rules.Order.Marking.{Extends}
use policy_decision_service.Rules.Order.Total.{Visited-cases, visit-Extends}

-- `DependsOn by_id a b`: rule `a` depends on `b`, directly or through other rules.
pub data DependsOn (by_id : Dict RawRule) (a : String) : String → Type 0 where
  directly :
      {b : String} (raw : RawRule)
      → lookup a by_id ≡ some raw
      → Elem b (dependencies raw)
      → DependsOn by_id a b
  further :
      {b c : String} (raw : RawRule)
      → DependsOn by_id a c
      → lookup c by_id ≡ some raw
      → Elem b (dependencies raw)
      → DependsOn by_id a b

-- What an error of the ordering says.
abbrev pub IsTrue : Dict RawRule → Error → Type 0
IsTrue by_id e =
    ((c : String) × (e ≡ combiner_cycle c) × DependsOn by_id c c)
    ⊎ ((u : String) × (e ≡ unknown_rule u) × (lookup u by_id ≡ none))

and_then-eq-failed :
    (r : Visited) (k : Marks → Marks) {e : Error}
    → and_then r (λ m. done (k m)) ≡ failed e
    → r ≡ failed e
and_then-eq-failed (done m) k h = cc
and_then-eq-failed (failed e) k h = h
and_then-eq-failed out_of_fuel k h = cc

module _ (by_id : Dict RawRule) where
  -- Every rule that is being visited depends on `id`.
  abbrev Leads : Marks → String → Type 0
  Leads m id = (j : String) → is_temporary m j ≡ true → DependsOn by_id j id

  Leads-Extends : {m m' : Marks} (id : String) → Extends m m' → Leads m id → Leads m' id
  Leads-Extends id e h = λ j t. h j (sym (e.same_temporary j) ∙ t)

  visit_all-failed :
      (v : String → Marks → Visited)
      → ((id : String) (m m' : Marks) → v id m ≡ done m' → Extends m m')
      → ((id : String) (m : Marks) (e : Error) → Leads m id → v id m ≡ failed e → IsTrue by_id e)
      → (ids : List String) (m : Marks) (e : Error) → ((id : String) → Elem id ids → Leads m id)
      → visit_all v ids m ≡ failed e
      → IsTrue by_id e
  unfolding visit_all
  visit_all-failed v ext ih [] m e leads h = cc
  visit_all-failed v ext ih (id ∷ ids) m e leads h = elim (Visited-cases (v id m)) [
    | inl (m1, first) ↦
        visit_all-failed v ext ih ids m1 e
          (λ j k. Leads-Extends j (ext id m m1 first) (leads j (inr k)))
          (subst (λ r. and_then r (visit_all v ids) ≡ failed e) first h)
    | inr (inl (x, first)) ↦
        ih id m e (leads id (inl refl))
          (first ∙ subst (λ r. and_then r (visit_all v ids) ≡ failed e) first h)
    | inr (inr first) ↦ cc (subst (λ r. and_then r (visit_all v ids) ≡ failed e) first h)
  ]

  enter-Leads :
      (id : String) (raw : RawRule) (m : Marks) (ref : String)
      → lookup id by_id ≡ some raw
      → Elem ref (dependencies raw)
      → Leads m id
      → Leads (enter id m) ref
  enter-Leads id raw m ref found k leads j t = elim (Bool-cases (id == j)) [
    | inl here ↦
        directly raw (subst (λ x. lookup x by_id ≡ some raw) ((eq_iff id j).0 here) found) k
    | inr other ↦ further raw (leads j (rw other at t)) found k
  ]

  visit-failed :
      (fuel : ℕ) (id : String) (m : Marks) (e : Error)
      → Leads m id
      → visit by_id fuel id m ≡ failed e
      → IsTrue by_id e
  unfolding visit visit_found
  visit-failed zero id m e leads h = cc
  visit-failed (suc fuel) id m e leads h = elim (Bool-cases (is_permanent m id)) [
    | inl old ↦ cc (rw (old, visit) at h)
    | inr new ↦ elim (Bool-cases (is_temporary m id)) [
      | inl cycle ↦ inl (id, ground (arith, rw (new, cycle, visit) at h), leads id cycle)
      | inr free ↦ elim (Option-cases (lookup id by_id)) [
        | inl missing ↦
            inr (id, ground (arith, rw (new, free, visit, missing, visit_found) at h), missing)
        | inr (raw, found) ↦
            visit_all-failed (visit by_id fuel) (visit-Extends by_id fuel) (visit-failed fuel)
              (dependencies raw) (enter id m) e (λ ref k. enter-Leads id raw m ref found k leads)
              (and_then-eq-failed _ _ (rw (new, free, visit, found, visit_found) at h))
      ]
    ]
  ]

-- When the ordering fails, either the reported rule depends on itself, directly or through other
-- rules, or the reported rule does not exist.
pub order_rules-failed :
    (raws : List RawRule) (e : Error) → order_rules raws ≡ failed e → IsTrue (index raws []) e
unfolding order_rules
order_rules-failed raws e h =
    let by_id = index raws [] in
    let fuel = suc (length raws) in
    visit_all-failed by_id (visit by_id fuel) (visit-Extends by_id fuel) (visit-failed by_id fuel)
      (map (λ raw. raw.id) raws) no_marks e (λ id k j t. cc) h
