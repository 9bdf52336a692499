-- ===== src/Rules/Order/Total.antt =====
-- The recursion of `orderRules` of internal/rules/loader.go, and its fuel.
use policy_decision_service.Prelude.{
  ℕ, zero, suc, ◌≤◌, ◌<◌, String, Bool, true, false, not, ◌&&◌, List, [], ◌∷◌, map, Option-cases,
  ◌≡◌, ◌≢◌, refl, ap, arith, Elem, eq_iff, inl, inr, ◌⊎◌, Bool-cases, if◌then◌else◌, subst, length,
}
use policy_decision_service.Prelude.Dict.{Dict, lookup}
use policy_decision_service.Errors.{Error}
use policy_decision_service.Rules.Raw.{RawRule, dependencies}
use policy_decision_service.Rules.Order.{
  Marks, no_marks, is_temporary, is_permanent, Visited, done, failed, out_of_fuel, and_then, enter,
  index, visit_all, visit_found, visit, order_rules,
}
use policy_decision_service.Rules.Order.Marking.{Extends, visit-Keeps}
use policy_decision_service.Rules.Order.Complete.{index-keyed}

-- The rules without a mark.
abbrev is_fresh : Marks → String → Bool
is_fresh m id = not (is_permanent m id) && not (is_temporary m id)

unfoldable pub fresh : Marks → List RawRule → ℕ
fresh m [] = 0
fresh m (r ∷ rs) = let rest = fresh m rs in if is_fresh m r.id then suc rest else rest

fresh-le : (m : Marks) (rs : List RawRule) → fresh m rs ≤ length rs
unfolding fresh
fresh-le m [] = omega arith
fresh-le m (r ∷ rs) = ground (arith, fresh-le m rs)

fresh_mono :
    (m m' : Marks) (rs : List RawRule)
    → ((id : String) → is_fresh m' id ≡ true → is_fresh m id ≡ true)
    → fresh m' rs ≤ fresh m rs
unfolding fresh
fresh_mono m m' [] h = omega arith
fresh_mono m m' (r ∷ rs) h = ground (arith, h r.id, fresh_mono m m' rs h)

fresh-Extends : {m m' : Marks} (rs : List RawRule) → Extends m m' → fresh m' rs ≤ fresh m rs
fresh-Extends {m} {m'} rs e =
    fresh_mono m m' rs (λ id. ground (arith, e.same_temporary id, e.keeps_permanent id))

enter_mono :
    (id : String) (m : Marks) (j : String) → is_fresh (enter id m) j ≡ true → is_fresh m j ≡ true
enter_mono id m j = ground (arith, eq_iff id j)

fresh-enter :
    (m : Marks) (raw : RawRule) (rs : List RawRule)
    → Elem raw rs
    → is_permanent m raw.id ≡ false
    → is_temporary m raw.id ≡ false
    → fresh (enter raw.id m) rs < fresh m rs
unfolding fresh
fresh-enter m raw [] k p t = absurd k
fresh-enter m raw (r ∷ rs) (inl e) p t =
    let later = fresh_mono m (enter raw.id m) rs (enter_mono raw.id m) in
    let same = ap (λ x. x.id) e in ground (arith, later, eq_iff raw.id r.id)
fresh-enter m raw (r ∷ rs) (inr k) p t =
    ground (arith, fresh-enter m raw rs k p t, enter_mono raw.id m r.id)

pub visit-Extends :
    (by_id : Dict RawRule) (fuel : ℕ) (id : String) (m m' : Marks)
    → visit by_id fuel id m ≡ done m'
    → Extends m m'
visit-Extends by_id fuel id m m' h =
    (visit-Keeps by_id (λ _. Unit)
      (record { entering = λ _ _ _ _ _. tt; leaving = λ _ _ _ _ _ _ _. tt }) fuel id m m' tt h).1

pub Visited-cases :
    (r : Visited)
    → ((m : Marks) × (r ≡ done m)) ⊎ (((e : Error) × (r ≡ failed e)) ⊎ (r ≡ out_of_fuel))
Visited-cases (done m) = inl (m, refl)
Visited-cases (failed e) = inr (inl (e, refl))
Visited-cases out_of_fuel = inr (inr refl)

and_then-total :
    (r : Visited) (k : Marks → Marks) → r ≢ out_of_fuel → and_then r (λ m. done (k m)) ≢ out_of_fuel
and_then-total (done m) k h = cc
and_then-total (failed e) k h = cc
and_then-total out_of_fuel k h = absurd (h refl)

visit_all-total :
    (raws : List RawRule) (bound : ℕ) (v : String → Marks → Visited)
    → ((id : String) (m m' : Marks) → v id m ≡ done m' → Extends m m')
    → ((id : String) (m : Marks) → fresh m raws < bound → v id m ≢ out_of_fuel)
    → (ids : List String) (m : Marks) → fresh m raws < bound
    → visit_all v ids m ≢ out_of_fuel
unfolding visit_all
visit_all-total raws bound v ext total [] m h = cc
visit_all-total raws bound v ext total (id ∷ ids) m h = elim (Visited-cases (v id m)) [
  | inl (m1, e) ↦ rw e (
      visit_all-total raws bound v ext total ids m1
        (omega (arith, fresh-Extends raws (ext id m m1 e))))
  | inr (inl (x, e)) ↦ rw e (cc)
  | inr (inr e) ↦ absurd (total id m h e)
]

module _ (raws : List RawRule) where
  abbrev by_id : Dict RawRule
  by_id = index raws []

  visit_found-total :
      (bound : ℕ)
      → ((id : String) (m : Marks) → fresh m raws < bound → visit by_id bound id m ≢ out_of_fuel)
      → (id : String) (m : Marks) → is_permanent m id ≡ false
      → is_temporary m id ≡ false
      → fresh m raws ≤ bound
      → visit_found (visit by_id bound) (lookup id by_id) id m ≢ out_of_fuel
  unfolding visit_found
  visit_found-total bound ih id m p t h = elim (Option-cases (lookup id by_id)) [
    | inl missing ↦ rw (missing, visit_found) (cc)
    | inr (raw, found) ↦
        let (same, k) = index-keyed raws id raw found in
        let smaller : fresh (enter id m) raws < bound =
          omega (arith, entered id raw m same k p t) in
        let inner =
          visit_all-total raws bound (visit by_id bound) (visit-Extends by_id bound) ih
            (dependencies raw) (enter id m) smaller in
        rw (found, visit_found) (and_then-total _ _ inner)
  ]
    where
      entered :
          (id : String) (raw : RawRule) (m : Marks)
          → raw.id ≡ id
          → Elem raw raws
          → is_permanent m id ≡ false
          → is_temporary m id ≡ false
          → fresh (enter id m) raws < fresh m raws
      entered id raw m same k p t =
          subst (λ j. fresh (enter j m) raws < fresh m raws) same
            (fresh-enter m raw raws k (rw same p) (rw same t))

  visit_total :
      (fuel : ℕ) (id : String) (m : Marks)
      → fresh m raws < fuel
      → visit by_id fuel id m ≢ out_of_fuel
  unfolding visit
  visit_total zero id m h = absurd (omega arith)
  visit_total (suc fuel) id m h = elim (Bool-cases (is_permanent m id)) [
    | inl old ↦ rw (old, visit) (cc)
    | inr new ↦ elim (Bool-cases (is_temporary m id)) [
      | inl cycle ↦ rw (new, cycle, visit) (cc)
      | inr free ↦
          rw (new, free, visit)
            (visit_found-total fuel (visit_total fuel) id m new free (omega arith))
    ]
  ]

  -- The depth-first ordering of any list of rules ends, with an order or an error.
  pub order_rules_total : order_rules raws ≢ out_of_fuel
  unfolding order_rules
  order_rules_total =
      visit_all-total raws (suc (length raws)) (visit by_id (suc (length raws)))
        (visit-Extends by_id (suc (length raws))) (visit_total (suc (length raws)))
        (map (λ raw. raw.id) raws) no_marks (omega (arith, fresh-le no_marks raws))
