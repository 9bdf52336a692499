-- ===== src/Rules/Order/Acyclic.antt =====
-- The dependencies of the rules that `orderRules` of internal/rules/loader.go accepts.
use mathlib.Core.List.{append_assoc}
use policy_decision_service.Prelude.{
  Distinct, ℕ, suc, ◌<◌, ◌≤◌, String, true, List, [], ◌∷◌, ◌++◌, some, ◌≡◌, refl, ◌∙◌, ap, sym,
  arith, All-at, Elem, Elem-map, ◌==◌, eq_iff, inl, inr, if◌then◌else◌, subst, length,
  Any-append_right,
}
use policy_decision_service.Prelude.Dict.{Dict, lookup}
use policy_decision_service.Rules.Raw.{RawRule, dependencies}
use policy_decision_service.Rules.Order.{Marks, done, index, is_permanent, order_rules}
use policy_decision_service.Rules.Order.Topology.{ids, IsTopological}
use policy_decision_service.Rules.Order.Complete.{index-keyed, order_rules-IsOrdered, Elem-ids}
use policy_decision_service.Rules.Order.Cycles.{DependsOn, directly, further}

-- The place of the first occurrence.
unfoldable pub position : String → List String → ℕ
position x [] = 0
position x (y ∷ ys) = let rest = position x ys in if y == x then 0 else suc rest

position-lt : (x : String) (xs ys : List String) → Elem x xs → position x (xs ++ ys) < length xs
unfolding position
position-lt x [] ys h = absurd h
position-lt x (y ∷ xs) ys (inl e) = ground (arith, eq_iff y x)
position-lt x (y ∷ xs) ys (inr h) = ground (arith, position-lt x xs ys h)

position-ge : (x : String) (xs ys : List String) → ¬ Elem x xs → length xs ≤ position x (xs ++ ys)
unfolding position
position-ge x [] ys h = omega arith
position-ge x (y ∷ xs) ys h = ground (arith, eq_iff y x, position-ge x xs ys)

ids-append : (xs ys : List RawRule) → ids (xs ++ ys) ≡ ids xs ++ ids ys
ids-append [] ys = refl
ids-append (x ∷ xs) ys = rw (ids-append xs ys)

fresh_middle :
    (xs : List String) (x : String) (ys : List String) → Distinct (xs ++ x ∷ ys) → ¬ Elem x xs
fresh_middle [] x ys d m = m
fresh_middle (y ∷ xs) x ys d (inl e) = d.0 (Any-append_right _ xs (x ∷ ys) (inl (sym e)))
fresh_middle (y ∷ xs) x ys d (inr m) = fresh_middle xs x ys d.1 m

-- A rule stands behind each of its dependencies.
position-dependency :
    (before rs : List RawRule) (r : RawRule) (d : String)
    → IsTopological before rs
    → Distinct (ids (before ++ rs))
    → Elem r rs
    → Elem d (dependencies r)
    → position d (ids (before ++ rs)) < position r.id (ids (before ++ rs))
position-dependency before [] r d t n m k = absurd m
position-dependency before (s ∷ rs) r d t n (inl e) k = rw (ids-append before (s ∷ rs)) (
    omega (
      arith,
      position-lt d (ids before) (ids (s ∷ rs))
          (All-at _ d (dependencies s) t.0 (subst (λ x. Elem d (dependencies x)) e k)),
      position-ge r.id (ids before) (ids (s ∷ rs)) (λ q.
          fresh_middle (ids before) s.id (ids rs) (subst Distinct (ids-append before (s ∷ rs)) n)
            (subst (λ x. Elem x (ids before)) (ap (λ x. x.id) e) q)),
    ))
position-dependency before (s ∷ rs) r d t n (inr m) k =
    subst (λ l. position d (ids l) < position r.id (ids l)) (append_assoc before (s ∷ []) rs)
      (position-dependency (before ++ s ∷ []) rs r d t.1
        (subst (λ l. Distinct (ids l)) (sym (append_assoc before (s ∷ []) rs)) n) m k)

some_inj : {a b : RawRule} → some a ≡ some b → a ≡ b
some_inj h = cc

module _ (raws : List RawRule) (m : Marks) (h : order_rules raws ≡ done m) where
  abbrev by_id : Dict RawRule
  by_id = index raws []

  -- Every indexed rule is in the order.
  indexed :
      (id : String) (raw : RawRule)
      → lookup id by_id ≡ some raw
      → Elem raw m.ordered × (raw.id ≡ id)
  indexed id raw found =
      let (o, all) = order_rules-IsOrdered raws m h in
      let (e, k) = index-keyed raws id raw found in
      let marked =
        All-at (λ id. is_permanent m id ≡ true) raw.id (ids raws) all (Elem-map _ raw raws k) in
      let (s, q, e') = Elem-ids raw.id m.ordered ((o.permanent_iff raw.id).0 marked) in
      let known = All-at _ s m.ordered o.known q in
      let same : raw ≡ s = some_inj (sym found ∙ ap (λ x. lookup x by_id) (sym e ∙ e') ∙ known) in
      (subst (λ x. Elem x m.ordered) (sym same) q, e)

  edge :
      (a b : String) (raw : RawRule)
      → lookup a by_id ≡ some raw
      → Elem b (dependencies raw)
      → position b (ids m.ordered) < position a (ids m.ordered)
  edge a b raw found k =
      let (o, all) = order_rules-IsOrdered raws m h in
      let (q, e) = indexed a raw found in
      subst (λ x. position b (ids m.ordered) < position x (ids m.ordered)) e
        (position-dependency [] m.ordered raw b o.topological o.distinct q k)

  DependsOn-position :
      {a b : String} → DependsOn by_id a b → position b (ids m.ordered) < position a (ids m.ordered)
  DependsOn-position {a} (directly {b} raw found k) = edge a b raw found k
  DependsOn-position (further {b} {c} raw chain found k) =
      omega (arith, edge c b raw found k, DependsOn-position chain)

-- If the ordering succeeds, then no rule depends on itself, directly or through other rules.
pub order_rules-acyclic :
    (raws : List RawRule) (m : Marks) (id : String)
    → order_rules raws ≡ done m
    → ¬ DependsOn (index raws []) id id
order_rules-acyclic raws m id h d = omega (arith, DependsOn-position raws m h d)
