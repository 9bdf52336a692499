-- ===== src/Rules/Aho/Linking.antt =====
-- The links that `buildFailures` of internal/rules/aho_matcher.go gives to the children of a node.
use policy_decision_service.Prelude.{
  ℕ, suc, Bool, true, false, ◌||◌, List, Option, some, none, ◌≡◌, ◌≢◌, refl, ap, ◌∙◌, subst, inl,
  inr, ◌<◌, ◌≤◌, arith, eqb, eqb_iff, length, Bool-cases,
}
use policy_decision_service.Rules.Aho.{
  AhoNode, edge, node_at, set_node, find_link, with_link, link_child, next_state,
}
use policy_decision_service.Rules.Aho.Words.{
  IsSuffix, suffix_nil, edge-within, node_at-set_node, node_at-set_node_self,
}
use policy_decision_service.Rules.Aho.Links.{with_link-keeps, link_child-IsSound}
use policy_decision_service.Rules.Aho.Tree.{set_node-SameEdges}
use policy_decision_service.Rules.Aho.Growth.{IsTable}
use policy_decision_service.Rules.Aho.Nodes.{
  Step, Step-word, Step-length, only_parent, only_child, length-word, suffix-parent,
}
use policy_decision_service.Rules.Aho.Done.{IsComplete, IsDone, IsKept, IsDoneTo}
use policy_decision_service.Rules.Aho.Steps.{
  IsLongest, IsBest, next_state-IsBest, or_root, find_link-next_state,
}

with_link-fail : (n : AhoNode) (o : Option ℕ) → n.fail ≡ 0 → (with_link n o).fail ≡ or_root o
with_link-fail n none h = h
with_link-fail n (some f) h = refl

or_true : (a b : Bool) → b ≡ true → (a || b) ≡ true
or_true true b h = refl
or_true false b h = h

true_or : (a b : Bool) → a ≡ true → (a || b) ≡ true
true_or a b h = rw h refl

node_at-set_node_ne :
    (nodes : List AhoNode) (i j : ℕ) (v : AhoNode)
    → j ≢ i
    → node_at (set_node nodes i v) j ≡ node_at nodes j
node_at-set_node_ne nodes i j v n = elim (node_at-set_node nodes i j v) [
  | inl (e, f) ↦ absurd (n e)
  | inr f ↦ f
]

module _ (keywords : List (List ℕ)) (base : List AhoNode) (word : ℕ → List ℕ)
    (table : IsTable keywords base word) where
  module _ (current : ℕ) (inner : current ≢ 0) where
    module _ (nodes : List AhoNode) (b child : ℕ)
        (step : Step keywords base word table current b child)
        (kept : IsKept keywords base word table nodes) where
      pub link_child_other :
          (j : ℕ) → j ≢ child → node_at (link_child nodes current b child) j ≡ node_at nodes j
      unfolding link_child
      link_child_other j n = node_at-set_node_ne nodes child j _ n

      pub link_child-IsKept : IsKept keywords base word table (link_child nodes current b child)
      unfolding link_child
      link_child-IsKept =
          let n = node_at nodes child in
          let link = find_link (suc (length nodes)) nodes (node_at nodes current).fail b child in
          let linked = with_link n link in
          let (nexts, own) = with_link-keeps n link in
          let v : AhoNode = record linked {
            terminal =
                linked.terminal || (node_at (set_node nodes child linked) linked.fail).terminal;
          } in
          let s = set_node-SameEdges nodes child v nexts in
          record {
            same = record {
              size = s.size ∙ kept.same.size;
              nexts = λ i. s.nexts i ∙ kept.same.nexts i;
            };
            sound =
                link_child-IsSound keywords word nodes current b child kept.sound
                  (Step-word keywords base word table current b child step);
            marks = λ i h. elim (node_at-set_node nodes child i v) [
              | inl (e, f) ↦ rw f (true_or linked.terminal _ (own ∙ rw e at (kept.marks i h)))
              | inr f ↦ rw f (kept.marks i h)
            ];
          }

      module _ (done : IsDoneTo keywords base word table (length (word current)) nodes)
          (fresh : (node_at nodes child).fail ≡ 0) where
        -- The parents that count: those of the ends of the child's word, but for the child.
        abbrev IsProperEnd : ℕ → Type 0
        IsProperEnd p = IsSuffix (word p) (word current) × (p ≢ current)

        current-IsLongest : IsLongest keywords base word table nodes current
        current-IsLongest =
            done.links current (edge-within base current b child step) inner (omega arith)

        best :
            IsBest keywords base word table nodes kept.same b IsProperEnd
              (node_at nodes current).fail
              (next_state (suc (length nodes)) nodes (node_at nodes current).fail b)
        best =
            let l = current-IsLongest in
            next_state-IsBest keywords base word table nodes kept.same b IsProperEnd
              (suc (length nodes)) (node_at nodes current).fail l.within
              (omega (
                arith,
                kept.same.size,
                length-word keywords base word table (node_at nodes current).fail l.within,
              ))
              (λ i k n q. done.links i k n (omega (arith, q, l.shorter)))
              (λ p c k w e. l.longest p k w.0 w.1)

        link_fail :
            (with_link
              (node_at nodes child)
              (find_link (suc (length nodes)) nodes (node_at nodes current).fail b child)).fail
            ≡ next_state (suc (length nodes)) nodes (node_at nodes current).fail b
        link_fail =
            with_link-fail (node_at nodes child)
              (find_link (suc (length nodes)) nodes (node_at nodes current).fail b child) fresh
            ∙ find_link-next_state (suc (length nodes)) nodes (node_at nodes current).fail b child
                (λ e.
                  inner
                    (only_parent keywords base word table current b 0 b child step
                      (subst (λ es. edge b es ≡ some child) (kept.same.nexts 0) e)).0)

        child-within : child < length nodes
        child-within = omega (arith, kept.same.size, table.trie.within current b child step)

        new_fail :
            (node_at (link_child nodes current b child) child).fail
            ≡ next_state (suc (length nodes)) nodes (node_at nodes current).fail b
        unfolding link_child
        new_fail = ap (λ n. n.fail) (node_at-set_node_self nodes child _ child-within) ∙ link_fail

        child-IsLongest :
            IsLongest keywords base word table (link_child nodes current b child) child
        child-IsLongest =
            let l = current-IsLongest in
            let spelt = Step-word keywords base word table current b child step in
            record {
              within = rw new_fail best.within;
              shorter = rw new_fail (
                  omega (
                    arith,
                    best.near,
                    l.shorter,
                    Step-length keywords base word table current b child step,
                  ));
              suffix = link_child-IsKept.sound.fails child;
              longest = λ j k s n.
                  rw new_fail
                    (elim (suffix-parent keywords base word table j b (word current) k
                      (subst (IsSuffix (word j)) spelt s)) [
                        | inl root ↦ rw (root, table.trie.sound.root) (suffix_nil _)
                        | inr (p, e, end) ↦
                            best.covers p j (edge-within base p b j e)
                              (
                                end,
                                λ x. n (
                                    only_child keywords base word table current b j child
                                      (subst (λ q. Step keywords base word table q b j) x e) step),
                              )
                              e
                      ]);
            }

        child-IsComplete :
            IsComplete keywords base word table (link_child nodes current b child) child
        unfolding link_child
        child-IsComplete m k t s =
            let n = node_at nodes child in
            let link = find_link (suc (length nodes)) nodes (node_at nodes current).fail b child in
            let linked = with_link n link in
            let other = (node_at (set_node nodes child linked) linked.fail).terminal in
            let target = next_state (suc (length nodes)) nodes (node_at nodes current).fail b in
            let l = current-IsLongest in
            let c = child-IsLongest in
            let own = (with_link-keeps n link).1 in
            ap (λ v. v.terminal) (node_at-set_node_self nodes child _ child-within)
            ∙ elim (Bool-cases (eqb m child)) [
              | inl same ↦
                  let e : m ≡ child = ground (arith, eqb_iff m child) in
                  true_or linked.terminal other (own ∙ kept.marks child (rw e at t))
              | inr differs ↦
                  let e : m ≢ child = ground (arith, eqb_iff m child) in
                  let near : length (word target) ≤ length (word current) =
                    omega (arith, best.near, l.shorter) in
                  let apart : target ≢ child = λ x. omega (
                    arith,
                    ap (λ i. length (word i)) x,
                    near,
                    Step-length keywords base word table current b child step,
                  ) in
                  or_true linked.terminal other (
                    rw (link_fail, node_at-set_node_ne nodes child target linked apart)
                      (done.completes target best.within near m k t
                        (subst (λ f. IsSuffix (word m) (word f)) new_fail (c.longest m k s e))))
            ]

        pub child-IsDone : IsDone keywords base word table (link_child nodes current b child) child
        child-IsDone = record { link = child-IsLongest; complete = child-IsComplete }
