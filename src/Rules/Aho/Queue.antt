-- ===== src/Rules/Aho/Queue.antt =====
-- The loop over the queue of `buildFailures` of internal/rules/aho_matcher.go, and its fuel.
use mathlib.Core.List.{append_assoc, append-nil}
use policy_decision_service.Prelude.{
  ℕ, zero, suc, List, [], ◌∷◌, ◌++◌, some, ◌≡◌, ◌≢◌, refl, sym, ap, ◌∙◌, subst, ◌⊎◌, inl, inr, ◌<◌,
  ◌≤◌, ◌+◌, arith, length, length-append, All-mono, Any-append_left, Any-append_right,
  Any-append_cases, All-of_Elem, Elem, Distinct, length-Distinct, eqb, eqb_iff, Bool-cases,
}
use policy_decision_service.Rules.Aho.{
  Edges, AhoNode, edge, node_at, link_children, targets, link_all,
}
use policy_decision_service.Rules.Aho.Words.{edge-within}
use policy_decision_service.Rules.Aho.Links.{RangesOver, IsRange}
use policy_decision_service.Rules.Aho.Growth.{IsTable}
use policy_decision_service.Rules.Aho.Nodes.{Step, Step-length, only_parent, child-ne}
use policy_decision_service.Rules.Aho.Done.{IsComplete, IsDone-same, IsDoneTo}
use policy_decision_service.Rules.Aho.Children.{
  AreSteps, Elem-targets, target-Step, targets-Distinct, Linked, link_children-Linked,
}
use policy_decision_service.Rules.Aho.Search.{
  Distinct-append, Distinct-middle, IsSorted-append, Searched, IsFinal, root-IsComplete, reached,
}

module _ (keywords : List (List ℕ)) (base : List AhoNode) (word : ℕ → List ℕ)
    (table : IsTable keywords base word) where
  done_to :
      (nodes : List AhoNode) (done pending queue : List ℕ) (current : ℕ)
      → Searched keywords base word table nodes done (current ∷ pending) queue
      → IsDoneTo keywords base word table (length (word current)) nodes
  done_to nodes done pending queue current s =
      let at_hand =
        λ (i : ℕ) (k : i < length base) (n : i ≢ 0) (q : length (word i) ≤ length (word current)).
          s.finished i (
            reached keywords base word table nodes done pending queue current s (suc i) i
              (omega arith) k n q) in
      record {
        links = λ i k n q. (at_hand i k n q).link;
        completes = λ i k q. elim (Bool-cases (eqb i 0)) [
          | inl root ↦
              let e : i ≡ 0 = ground (arith, eqb_iff i 0) in
              subst (IsComplete keywords base word table nodes) (sym e)
                (root-IsComplete keywords base word table nodes)
          | inr deep ↦ (at_hand i k (ground (arith, eqb_iff i 0)) q).complete
        ];
      }

  -- One turn: the children of the next node are linked, and put into the queue.
  module _ (nodes : List AhoNode) (done pending queue : List ℕ) (current : ℕ)
      (s : Searched keywords base word table nodes done (current ∷ pending) queue) (taken : Edges)
      (over : RangesOver (node_at nodes current).next taken) where
    queued : Elem current queue
    queued =
        subst (Elem current) (sym s.split)
          (Any-append_right (λ y. current ≡ y) done (current ∷ pending) (inl refl))

    steps : AreSteps keywords base word table current taken
    steps =
        All-mono (λ (b, c). edge b (node_at nodes current).next ≡ some c)
          (λ (b, c). Step keywords base word table current b c) taken
          (λ (b, c) e. subst (λ es. edge b es ≡ some c) (s.kept.same.nexts current) e) over.entries

    -- The children were not in the queue.
    new_children : (c : ℕ) → Elem c (targets taken) → ¬ Elem c queue
    new_children c m k =
        let (b, l, e) = target-Step keywords base word table current c taken steps m in
        elim (s.parents current b c k e) [
          | inl root ↦ (s.inside current queued).1 root
          | inr before ↦
              Distinct-middle done current pending (subst Distinct s.split s.distinct) before
        ]

    linked : Linked keywords base word table current nodes (link_children nodes current taken) taken
    linked =
        link_children-Linked keywords base word table current (s.inside current queued).1 nodes
          taken steps (targets-Distinct keywords base word table current taken steps over.once)
          s.kept (done_to nodes done pending queue current s) (λ c m. s.fresh c (new_children c m))

    cases_of : (c : ℕ) → Elem c (queue ++ targets taken) → Elem c queue ⊎ Elem c (targets taken)
    cases_of c m = Any-append_cases (λ y. c ≡ y) queue (targets taken) m

    pub turn-Searched :
        Searched keywords base word table
          (link_children nodes current taken)
          (done ++ current ∷ [])
          (pending ++ targets taken)
          (queue ++ targets taken)
    turn-Searched = record {
      kept = linked.kept;
      split =
          ap (λ q. q ++ targets taken) (s.split ∙ sym (append_assoc done (current ∷ []) pending))
          ∙ append_assoc (done ++ current ∷ []) pending (targets taken);
      distinct =
          Distinct-append queue (targets taken) s.distinct
            (targets-Distinct keywords base word table current taken steps over.once) new_children;
      inside = λ c m. elim (cases_of c m) [
        | inl k ↦ s.inside c k
        | inr k ↦
            let (b, l, e) = target-Step keywords base word table current c taken steps k in
            (table.trie.within current b c e, child-ne keywords base word table current b c e)
      ];
      parents = λ p b c m e. elim (cases_of c m) [
        | inl k ↦ elim (s.parents p b c k e) [
          | inl root ↦ inl root
          | inr before ↦ inr (Any-append_left (λ y. p ≡ y) done (current ∷ []) before)
        ]
        | inr k ↦
            let (b', l, e') = target-Step keywords base word table current c taken steps k in
            inr (
              Any-append_right (λ y. p ≡ y) done (current ∷ [])
                (inl (only_parent keywords base word table p b current b' c e e').0))
      ];
      children = λ p b c m e. elim m [
        | inl root ↦
            Any-append_left (λ y. c ≡ y) queue (targets taken) (s.children p b c (inl root) e)
        | inr k ↦ elim (Any-append_cases (λ y. p ≡ y) done (current ∷ []) k) [
          | inl before ↦
              Any-append_left (λ y. c ≡ y) queue (targets taken) (s.children p b c (inr before) e)
          | inr (inl now) ↦
              Any-append_right (λ y. c ≡ y) queue (targets taken)
                (Elem-targets b c taken (
                  over.whole b c (
                    subst (λ es. edge b es ≡ some c) (sym (s.kept.same.nexts current))
                      (subst (λ x. Step keywords base word table x b c) now e))))
          | inr (inr m') ↦ absurd m'
        ]
      ];
      sorted =
          IsSorted-append word (length (word current)) pending (targets taken) s.sorted.1 s.sorted.0
            (All-of_Elem _ (targets taken) (λ c m.
              let (b, l, e) = target-Step keywords base word table current c taken steps m in
              Step-length keywords base word table current b c e));
      finished = λ c m. elim (cases_of c m) [
        | inl k ↦
            IsDone-same keywords base word table nodes (link_children nodes current taken) c
              (linked.others c (λ l. new_children c l k)) (s.finished c k)
        | inr k ↦ linked.done c k
      ];
      fresh = λ c n.
          ap (λ x. x.fail)
            (linked.others c (λ k. n (Any-append_right (λ y. c ≡ y) queue (targets taken) k)))
          ∙ s.fresh c (λ k. n (Any-append_left (λ y. c ≡ y) queue (targets taken) k));
    }

  -- With an empty queue every node has been taken from it.
  all_queued :
      (nodes : List AhoNode) (done queue : List ℕ)
      → Searched keywords base word table nodes done [] queue
      → (bound i : ℕ) → i < bound
      → i < length base
      → i ≢ 0
      → Elem i queue
  all_queued nodes done queue s zero i k l n = absurd (omega (arith, k))
  all_queued nodes done queue s (suc bound) i k l n = elim (table.tree.parents i l) [
    | inl root ↦ absurd (n root)
    | inr (p, b, e) ↦ elim (Bool-cases (eqb p 0)) [
      | inl root ↦ s.children p b i (inl (ground (arith, eqb_iff p 0))) e
      | inr deep ↦
          let m =
            all_queued nodes done queue s bound p (omega (arith, k, table.tree.ascends p b i e))
              (edge-within base p b i e) (ground (arith, eqb_iff p 0)) in
          s.children p b i (inr (subst (Elem p) (s.split ∙ append-nil done) m)) e
    ]
  ]

  empty-IsFinal :
      (nodes : List AhoNode) (done queue : List ℕ)
      → Searched keywords base word table nodes done [] queue
      → IsFinal keywords base word table nodes
  empty-IsFinal nodes done queue s = record {
    kept = s.kept;
    done = λ i k n. s.finished i (all_queued nodes done queue s (suc i) i (omega arith) k n);
  }

  -- The queue holds distinct nodes, so the number of nodes is enough fuel.
  pub link_all-IsFinal :
      (order : ℕ → Edges → Edges)
      → IsRange order
      → (fuel : ℕ) (nodes : List AhoNode) (done pending queue : List ℕ)
      → Searched keywords base word table nodes done pending queue
      → length base ≤ fuel + length done
      → IsFinal keywords base word table (link_all order fuel nodes pending)
  unfolding link_all
  link_all-IsFinal order ranges zero nodes done [] queue s h = empty-IsFinal nodes done queue s
  link_all-IsFinal order ranges (suc fuel) nodes done [] queue s h =
      empty-IsFinal nodes done queue s
  link_all-IsFinal order ranges zero nodes done (current ∷ pending) queue s h = absurd (
      omega (
        arith,
        h,
        length-append done (current ∷ pending),
        ap length s.split,
        length-Distinct (length base) queue s.distinct
            (All-of_Elem (λ c. c < length base) queue (λ c m. (s.inside c m).0)),
      ))
  link_all-IsFinal order ranges (suc fuel) nodes done (current ∷ pending) queue s h =
      let taken = order current (node_at nodes current).next in
      link_all-IsFinal order ranges fuel (link_children nodes current taken) (done ++ current ∷ [])
        (pending ++ targets taken) (queue ++ targets taken)
        (turn-Searched nodes done pending queue current s taken
          (ranges current (node_at nodes current).next))
        (omega (arith, h, length-append done (current ∷ [])))
