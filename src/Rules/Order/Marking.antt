-- ===== src/Rules/Order/Marking.antt =====
-- What a visit of `orderRules` of internal/rules/loader.go does to the marks.
use policy_decision_service.Prelude.{
  ℕ, zero, suc, String, true, false, List, [], ◌∷◌, some, Option-cases, ◌≡◌, refl, ◌∙◌, arith, All,
  eq_iff, eq_refl, subst, inl, inr, Bool-cases,
}
use policy_decision_service.Prelude.Dict.{Dict, lookup}
use policy_decision_service.Rules.Raw.{RawRule, dependencies}
use policy_decision_service.Rules.Order.{
  Marks, is_temporary, is_permanent, Visited, done, and_then, enter, leave, visit_all, visit_found,
  visit,
}

pub and_then-eq-done :
    (r : Visited) (k : Marks → Visited) {m : Marks}
    → and_then r k ≡ done m
    → (m' : Marks) × (r ≡ done m') × (k m' ≡ done m)
and_then-eq-done (done m') k h = (m', refl, h)
and_then-eq-done _ k h = cc

pub done_inj : {m m' : Marks} → done m ≡ done m' → m ≡ m'
done_inj h = ground arith

pub record Extends (m m' : Marks) : Type 0 where
  pub same_temporary : (j : String) → is_temporary m' j ≡ is_temporary m j
  pub keeps_permanent : (j : String) → is_permanent m j ≡ true → is_permanent m' j ≡ true
  pub keeps_open : (j : String) → is_temporary m j ≡ true → is_permanent m' j ≡ is_permanent m j

pub Extends-refl : (m : Marks) → Extends m m
Extends-refl m = record {
  same_temporary = λ j. refl;
  keeps_permanent = λ j h. h;
  keeps_open = λ j h. refl;
}

pub Extends-trans : {a b c : Marks} → Extends a b → Extends b c → Extends a c
Extends-trans h k = record {
  same_temporary = λ j. k.same_temporary j ∙ h.same_temporary j;
  keeps_permanent = λ j p. k.keeps_permanent j (h.keeps_permanent j p);
  keeps_open = λ j t. k.keeps_open j (h.same_temporary j ∙ t) ∙ h.keeps_open j t;
}

-- A property `P` of the marks that is kept by a visitor and holds of the id that it has visited.
abbrev pub Keeps : (Marks → Type 0) → (String → Marks → Visited) → Type 0
Keeps P v =
    (id : String) (m m' : Marks)
    → P m
    → v id m ≡ done m'
    → P m' × Extends m m' × (is_permanent m' id ≡ true)

pub visit_all-Keeps :
    {P : Marks → Type 0} (v : String → Marks → Visited)
    → Keeps P v
    → (ids : List String) (m m' : Marks) → P m
    → visit_all v ids m ≡ done m'
    → P m' × Extends m m' × All (λ id. is_permanent m' id ≡ true) ids
unfolding visit_all
visit_all-Keeps {P} v keep [] m m' p h =
    let m≡m' : m ≡ m' = ground arith in (rw (← m≡m') p, rw (← m≡m') (Extends-refl m), tt)
visit_all-Keeps v keep (id ∷ ids) m m' p h =
    let (m1, first, rest) = and_then-eq-done (v id m) (visit_all v ids) h in
    let (p1, e1, k1) = keep id m m1 p first in
    let (p2, e2, k2) = visit_all-Keeps v keep ids m1 m' p1 rest in
    (p2, Extends-trans e1 e2, (e2.keeps_permanent id k1, k2))

-- `leave` after the dependencies of an id that had no mark.
leave-Extends :
    (id : String) (raw : RawRule) (m m' : Marks)
    → is_temporary m id ≡ false
    → Extends (enter id m) m'
    → Extends m (leave id raw m')
leave-Extends id raw m m' free e = record {
  same_temporary = λ j. ground (arith, e.same_temporary j, eq_iff id j);
  keeps_permanent = λ j p. ground (arith, e.keeps_permanent j, eq_iff id j);
  keeps_open = λ j t. ground (arith, e.keeps_open j, eq_iff id j);
}

module _ (by_id : Dict RawRule) (P : Marks → Type 0) where
  -- To be kept by `visit`, a property has to be kept by `enter` and by `leave` after a visit of the
  -- dependencies.
  pub record Rules : Type 0 where
    pub entering :
        (id : String) (m : Marks)
        → is_permanent m id ≡ false
        → is_temporary m id ≡ false
        → P m
        → P (enter id m)
    pub leaving :
        (id : String) (raw : RawRule) (m : Marks)
        → lookup id by_id ≡ some raw
        → is_permanent m id ≡ false
        → All (λ ref. is_permanent m ref ≡ true) (dependencies raw)
        → P m
        → P (leave id raw m)

  visit_found-Keeps :
      (rules : Rules) (v : String → Marks → Visited)
      → Keeps P v
      → (id : String) (m m' : Marks) → is_permanent m id ≡ false
      → is_temporary m id ≡ false
      → P m
      → visit_found v (lookup id by_id) id m ≡ done m'
      → P m' × Extends m m' × (is_permanent m' id ≡ true)
  unfolding visit_found
  visit_found-Keeps rules v keep id m m' unvisited free p h =
      elim (Option-cases (lookup id by_id)) [
        | inl missing ↦ cc (rw (missing, visit_found) at h)
        | inr (raw, found) ↦
            let (m1, visited, left) =
              and_then-eq-done (visit_all v (dependencies raw) (enter id m)) _
                (rw (found, visit_found) at h) in
            let (p1, e1, refs) =
              visit_all-Keeps v keep (dependencies raw) (enter id m) m1
                (rules.entering id m unvisited free p) visited in
            let unvisited1 : is_permanent m1 id ≡ false =
              e1.keeps_open id (ground (arith, eq_refl id)) ∙ unvisited in
            subst (λ x. P x × Extends m x × (is_permanent x id ≡ true)) (done_inj left)
              (
                rules.leaving id raw m1 found unvisited1 refs p1,
                leave-Extends id raw m m1 free e1,
                ground (arith, eq_refl id),
              )
      ]

  pub visit-Keeps : Rules → (fuel : ℕ) → Keeps P (visit by_id fuel)
  unfolding visit
  visit-Keeps rules zero id m m' p h = cc
  visit-Keeps rules (suc fuel) id m m' p h = elim (Bool-cases (is_permanent m id)) [
    | inl old ↦
        subst (λ x. P x × Extends m x × (is_permanent x id ≡ true))
          (done_inj (rw (old, visit) at h)) (p, Extends-refl m, old)
    | inr new ↦ elim (Bool-cases (is_temporary m id)) [
      | inl cycle ↦ cc (rw (new, cycle, visit) at h)
      | inr free ↦
          visit_found-Keeps rules (visit by_id fuel) (visit-Keeps rules fuel) id m m' new free p
            (rw (new, free, visit) at h)
    ]
  ]
