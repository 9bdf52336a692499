-- ===== src/Rules/Order/Topology.antt =====
-- What is asked of the order that `orderRules` of internal/rules/loader.go returns.
use mathlib.Core.List.{append-nil, append_assoc}
use policy_decision_service.Prelude.{
  Distinct, String, true, false, List, [], ◌∷◌, ◌++◌, map, some, ◌≡◌, refl, sym, arith, All, Elem,
  eq_iff, inr, ◌⊎◌, ◌↔◌, All-mono, All-append, subst,
}
use policy_decision_service.Prelude.Dict.{Dict, lookup}
use policy_decision_service.Rules.Raw.{RawRule, dependencies}
use policy_decision_service.Rules.Order.{Marks, is_permanent, leave}
use policy_decision_service.Rules.Order.Marking.{Rules}

abbrev pub ids : List RawRule → List String
ids = map (λ raw. raw.id)

-- Each rule of the list follows its dependencies, given that those of `before` stand in front.
abbrev pub IsTopological : List RawRule → List RawRule → Type 0
IsTopological before [] = Unit
IsTopological before (r ∷ rs) =
    All (λ d. Elem d (ids before)) (dependencies r) × IsTopological (before ++ r ∷ []) rs

Elem-concat : (x y : String) (xs : List String) → Elem x (xs ++ y ∷ []) ↔ (Elem x xs ⊎ (x ≡ y))
Elem-concat x y [] = ground arith
Elem-concat x y (z ∷ xs) = ground (arith, Elem-concat x y xs)

pub ids-concat : (xs : List RawRule) (r : RawRule) → ids (xs ++ r ∷ []) ≡ ids xs ++ r.id ∷ []
ids-concat [] r = refl
ids-concat (x ∷ xs) r = rw (ids-concat xs r)

Distinct-concat :
    (xs : List String) (x : String) → Distinct xs → ¬ Elem x xs → Distinct (xs ++ x ∷ [])
Distinct-concat [] x h n = (λ m. m, tt)
Distinct-concat (y ∷ xs) x h n =
    (ground (arith, Elem-concat y x xs), Distinct-concat xs x h.1 (λ m. n (inr m)))

IsTopological-concat :
    (before rs : List RawRule) (r : RawRule)
    → IsTopological before rs
    → All (λ d. Elem d (ids (before ++ rs))) (dependencies r)
    → IsTopological before (rs ++ r ∷ [])
IsTopological-concat before [] r h d =
    (subst (λ l. All (λ d. Elem d (ids l)) (dependencies r)) (append-nil before) d, tt)
IsTopological-concat before (s ∷ rs) r h d = (
  h.0,
  IsTopological-concat (before ++ s ∷ []) rs r h.1 (
      subst (λ l. All (λ d. Elem d (ids l)) (dependencies r))
        (sym (append_assoc before (s ∷ []) rs)) d),
)

module _ (by_id : Dict RawRule) where
  pub record IsOrdered (m : Marks) : Type 0 where
    pub permanent_iff : (j : String) → (is_permanent m j ≡ true) ↔ Elem j (ids m.ordered)
    pub known : All (λ r. lookup r.id by_id ≡ some r) m.ordered
    pub topological : IsTopological [] m.ordered
    pub distinct : Distinct (ids m.ordered)

  leave-IsOrdered :
      (id : String) (raw : RawRule) (m : Marks)
      → raw.id ≡ id
      → lookup id by_id ≡ some raw
      → is_permanent m id ≡ false
      → All (λ ref. is_permanent m ref ≡ true) (dependencies raw)
      → IsOrdered m
      → IsOrdered (leave id raw m)
  leave-IsOrdered id raw m e found new refs h = record {
    permanent_iff = λ j.
        rw (ids-concat m.ordered raw)
          (ground (arith, Elem-concat j raw.id (ids m.ordered), h.permanent_iff j, eq_iff id j));
    known =
        All-append _ m.ordered (raw ∷ []) h.known
          (subst (λ k. lookup k by_id ≡ some raw) (sym e) found, tt);
    topological =
        IsTopological-concat [] m.ordered raw h.topological
          (All-mono _ _ (dependencies raw) (λ ref p. (h.permanent_iff ref).0 p) refs);
    distinct = rw (ids-concat m.ordered raw) (
        Distinct-concat (ids m.ordered) raw.id h.distinct
          (rw e (λ q. ground (arith, h.permanent_iff id))));
  }

  pub IsOrdered-Rules :
      ((id : String) (raw : RawRule) → lookup id by_id ≡ some raw → raw.id ≡ id)
      → Rules by_id IsOrdered
  IsOrdered-Rules keyed = record {
    entering = λ id m new free h. record {
      permanent_iff = h.permanent_iff;
      known = h.known;
      topological = h.topological;
      distinct = h.distinct;
    };
    leaving =
        λ id raw m found new refs h. leave-IsOrdered id raw m (keyed id raw found) found new refs h;
  }
