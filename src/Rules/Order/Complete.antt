-- ===== src/Rules/Order/Complete.antt =====
-- Which rules `orderRules` of internal/rules/loader.go returns.
use mathlib.Core.List.{
  Mem, Nodup, Perm, Nodup-cons, Nodup-nil, perm_ext_iff_of_Nodup, not-mem-nil, mem-cons,
  mem-cons_of_mem,
}
use mathlib.Core.Logic.Or
use mathlib.Core.HLevel.{⊥_prop}
use mathlib.Core.List.{Mem-prop}
use policy_decision_service.Prelude.{
  Distinct, suc, String, true, List, [], ◌∷◌, some, ◌≡◌, refl, ◌∙◌, ap, sym, arith, All, Elem,
  Elem-map, eq_iff, inl, inr, ◌⊎◌, subst, length, All-at,
}
use policy_decision_service.Prelude.Dict.{Dict, lookup}
use policy_decision_service.Rules.Raw.{RawRule}
use policy_decision_service.Rules.Order.{
  Marks, no_marks, is_permanent, done, index, visit, order_rules,
}
use policy_decision_service.Rules.Order.Marking.{visit-Keeps, visit_all-Keeps}
use policy_decision_service.Rules.Order.Topology.{ids, IsTopological, IsOrdered, IsOrdered-Rules}

-- A rule that the index holds is one of the rules, under its own id.
pub lookup-index :
    (raws : List RawRule) (by_id : Dict RawRule) (id : String) (raw : RawRule)
    → lookup id (index raws by_id) ≡ some raw
    → ((raw.id ≡ id) × Elem raw raws) ⊎ (lookup id by_id ≡ some raw)
unfolding index
lookup-index [] by_id id raw h = inr h
lookup-index (r ∷ raws) by_id id raw h =
    ground (arith, lookup-index raws ((r.id, r) ∷ by_id) id raw, eq_iff r.id id)

pub index-keyed :
    (raws : List RawRule) (id : String) (raw : RawRule)
    → lookup id (index raws []) ≡ some raw
    → (raw.id ≡ id) × Elem raw raws
index-keyed raws id raw h = ground (arith, lookup-index raws [] id raw h)

empty-IsOrdered : (by_id : Dict RawRule) → IsOrdered by_id no_marks
empty-IsOrdered by_id = record {
  permanent_iff = λ j. ground arith;
  known = tt;
  topological = tt;
  distinct = tt;
}

-- The whole run of `orderRules`.
pub order_rules-IsOrdered :
    (raws : List RawRule) (m : Marks)
    → order_rules raws ≡ done m
    → IsOrdered (index raws []) m × All (λ id. is_permanent m id ≡ true) (ids raws)
unfolding order_rules
order_rules-IsOrdered raws m h =
    let by_id = index raws [] in
    let rules = IsOrdered-Rules by_id (λ id raw found. (index-keyed raws id raw found).0) in
    let (p, e, all) =
      visit_all-Keeps (visit by_id (suc (length raws)))
        (visit-Keeps by_id (IsOrdered by_id) rules (suc (length raws))) (ids raws) no_marks m
        (empty-IsOrdered by_id) h in
    (p, all)

pub Elem-ids :
    (id : String) (rs : List RawRule) → Elem id (ids rs) → (r : RawRule) × Elem r rs × (id ≡ r.id)
Elem-ids id [] m = absurd m
Elem-ids id (r ∷ rs) (inl e) = (r, inl refl, e)
Elem-ids id (r ∷ rs) (inr m) = let (s, k, e) = Elem-ids id rs m in (s, inr k, e)

-- Under distinct ids a rule is known by its id.
same-rule :
    (rs : List RawRule) (r s : RawRule)
    → Distinct (ids rs)
    → Elem r rs
    → Elem s rs
    → r.id ≡ s.id
    → r ≡ s
same-rule [] r s d m k e = absurd m
same-rule (t ∷ rs) r s d (inl p) (inl q) e = p ∙ sym q
same-rule (t ∷ rs) r s d (inl p) (inr k) e =
    absurd (d.0 (subst (λ x. Elem x (ids rs)) (sym e ∙ ap (λ x. x.id) p) (Elem-map _ s rs k)))
same-rule (t ∷ rs) r s d (inr m) (inl q) e =
    absurd (d.0 (subst (λ x. Elem x (ids rs)) (e ∙ ap (λ x. x.id) q) (Elem-map _ r rs m)))
same-rule (t ∷ rs) r s d (inr m) (inr k) e = same-rule rs r s d.1 m k e

module _ {A : Type 0} where
  Elem→Mem : (x : A) (xs : List A) → Elem x xs → Mem x xs
  Elem→Mem x [] m = absurd m
  Elem→Mem x (y ∷ xs) (inl e) = mem-cons.1 (Or.inl e)
  Elem→Mem x (y ∷ xs) (inr m) = mem-cons_of_mem y (Elem→Mem x xs m)

  -- An inclusion of elements carries over to the library's membership.
  Mem-of_Elem : (x : A) (xs ys : List A) → ((y : A) → Elem y xs → Elem y ys) → Mem x xs → Mem x ys
  Mem-of_Elem x [] ys f m = absurd (not-mem-nil m)
  Mem-of_Elem x (z ∷ xs) ys f m =
      Or.elim Mem-prop (mem-cons.0 m) (λ e. Elem→Mem x ys (f x (inl e)))
        (Mem-of_Elem x xs ys (λ y k. f y (inr k)))

Nodup-of_Distinct : (rs : List RawRule) → Distinct (ids rs) → Nodup rs
Nodup-of_Distinct [] d = Nodup-nil
Nodup-of_Distinct (r ∷ rs) d =
    Nodup-cons.1 (λ m. fresh rs (λ k. d.0 (Elem-map _ r rs k)) m, Nodup-of_Distinct rs d.1)
  where
    fresh : (xs : List RawRule) → ¬ Elem r xs → ¬ Mem r xs
    fresh [] n m = not-mem-nil m
    fresh (x ∷ xs) n m = Or.elim ⊥_prop (mem-cons.0 m) (λ e. n (inl e)) (fresh xs (λ k. n (inr k)))

kept :
    (raws : List RawRule) (m : Marks)
    → Distinct (ids raws)
    → IsOrdered (index raws []) m
    → All (λ id. is_permanent m id ≡ true) (ids raws)
    → ((r : RawRule) → Elem r m.ordered → Elem r raws)
    → (r : RawRule) → Elem r raws
    → Elem r m.ordered
kept raws m d o all back r k =
    let marked =
      All-at (λ id. is_permanent m id ≡ true) r.id (ids raws) all (Elem-map _ r raws k) in
    let (s, q, e) = Elem-ids r.id m.ordered ((o.permanent_iff r.id).0 marked) in
    subst (λ x. Elem x m.ordered) (sym (same-rule raws r s d k (back s q) e)) q

-- When rules with distinct ids are ordered, the result is those rules in another order, each of
-- them behind all of its dependencies.
pub order_rules_sound :
    (raws : List RawRule) (m : Marks)
    → Distinct (ids raws)
    → order_rules raws ≡ done m
    → Perm m.ordered raws × IsTopological [] m.ordered
order_rules_sound raws m d h =
    let (o, all) = order_rules-IsOrdered raws m h in
    let back = λ (r : RawRule) (k : Elem r m.ordered).
      (index-keyed raws r.id r (All-at _ r m.ordered o.known k)).1 in
    let forth = kept raws m d o all back in
    (
      (perm_ext_iff_of_Nodup (Nodup-of_Distinct m.ordered o.distinct) (Nodup-of_Distinct raws d)).1
          (λ a. (Mem-of_Elem a m.ordered raws back, Mem-of_Elem a raws m.ordered forth)),
      o.topological,
    )

pub ordered-Elem :
    (raws : List RawRule) (m : Marks) (r : RawRule)
    → order_rules raws ≡ done m
    → Elem r m.ordered
    → Elem r raws
ordered-Elem raws m r h k =
    let (o, all) = order_rules-IsOrdered raws m h in
    (index-keyed raws r.id r (All-at _ r m.ordered o.known k)).1

pub Elem-ordered :
    (raws : List RawRule) (m : Marks) (r : RawRule)
    → Distinct (ids raws)
    → order_rules raws ≡ done m
    → Elem r raws
    → Elem r m.ordered
Elem-ordered raws m r d h k =
    let (o, all) = order_rules-IsOrdered raws m h in
    kept raws m d o all (λ s q. ordered-Elem raws m s h q) r k
