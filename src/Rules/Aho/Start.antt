-- ===== src/Rules/Aho/Start.antt =====
-- The start of `buildFailures` of internal/rules/aho_matcher.go, and what it ends with.
use policy_decision_service.Prelude.{
  ℕ, List, [], ◌≡◌, ◌≢◌, refl, subst, inl, inr, ◌<◌, arith, length, All-of_Elem, Elem, eqb, eqb_iff,
  Bool-cases,
}
use policy_decision_service.Rules.Aho.{Edges, AhoNode, node_at, targets, build_failures}
use policy_decision_service.Rules.Aho.Words.{IsSuffix, suffix_nil, edge-within}
use policy_decision_service.Rules.Aho.Links.{RangesOver, IsRange}
use policy_decision_service.Rules.Aho.Growth.{IsTable}
use policy_decision_service.Rules.Aho.Nodes.{
  Step, Step-word, Step-length, only_parent, only_child, child-ne, suffix-parent, suffix-root,
}
use policy_decision_service.Rules.Aho.Done.{IsDone, IsKept}
use policy_decision_service.Rules.Aho.Children.{
  AreSteps, Elem-targets, target-Step, targets-Distinct,
}
use policy_decision_service.Rules.Aho.Search.{IsSorted-append, Searched, IsFinal, root-unmarked}
use policy_decision_service.Rules.Aho.Queue.{link_all-IsFinal}

module _ (keywords : List (List ℕ)) (base : List AhoNode) (word : ℕ → List ℕ)
    (table : IsTable keywords base word) where
  base-IsKept : IsKept keywords base word table base
  base-IsKept = record {
    same = record { size = refl; nexts = λ i. refl };
    sound = table.trie.sound;
    marks = λ i h. h;
  }

  root_word : (j : ℕ) → j ≡ 0 → (i : ℕ) → IsSuffix (word j) (word i)
  root_word j e i = rw (e, table.trie.sound.root) (suffix_nil _)

  -- A proper end of a child of the root is the empty word.
  end-root :
      (b c j : ℕ)
      → Step keywords base word table 0 b c
      → j < length base
      → IsSuffix (word j) (word c)
      → j ≢ c
      → j ≡ 0
  end-root b c j e k s n =
      elim (suffix-parent keywords base word table j b (word 0) k
        (subst (IsSuffix (word j)) (Step-word keywords base word table 0 b c e) s)) [
          | inl root ↦ root
          | inr (p, f, end) ↦
              let at_root =
                suffix-root keywords base word table p (edge-within base p b j f)
                  (subst (IsSuffix (word p)) table.trie.sound.root end) in
              absurd (
                n (
                  only_child keywords base word table 0 b j c
                    (subst (λ x. Step keywords base word table x b j) at_root f) e))
        ]

  -- The children of the root keep the link to the root.
  child-IsDone :
      (b c : ℕ) → Step keywords base word table 0 b c → IsDone keywords base word table base c
  child-IsDone b c e =
      let unlinked = table.trie.unlinked c in
      let longer = Step-length keywords base word table 0 b c e in
      record {
        link = record {
          within = rw unlinked table.trie.inhabited;
          shorter = rw unlinked (omega (arith, longer));
          suffix = table.trie.sound.fails c;
          longest = λ j k s n. root_word j (end-root b c j e k s n) (node_at base c).fail;
        };
        complete = λ m k t s. elim (Bool-cases (eqb m c)) [
          | inl same ↦ let f : m ≡ c = ground (arith, eqb_iff m c) in rw f at t
          | inr other ↦
              let f = end-root b c m e k s (ground (arith, eqb_iff m c)) in
              absurd (root-unmarked keywords base word table (rw f at t))
        ];
      }

  module _ (order : ℕ → Edges → Edges) (ranges : IsRange order) where
    taken : Edges
    taken = order 0 (node_at base 0).next

    over : RangesOver (node_at base 0).next taken
    unfolding taken
    over = ranges 0 (node_at base 0).next

    start-Searched : Searched keywords base word table base [] (targets taken) (targets taken)
    start-Searched =
        let steps : AreSteps keywords base word table 0 taken = over.entries in
        let step = λ (c : ℕ) (m : Elem c (targets taken)).
          target-Step keywords base word table 0 c taken steps m in
        record {
          kept = base-IsKept;
          split = refl;
          distinct = targets-Distinct keywords base word table 0 taken steps over.once;
          inside = λ c m.
              let (b, k, e) = step c m in
              (table.trie.within 0 b c e, child-ne keywords base word table 0 b c e);
          parents = λ p b c m e.
              let (b', k, e') = step c m in
              inl (only_parent keywords base word table p b 0 b' c e e').0;
          children = λ p b c m e. elim m [
            | inl root ↦
                Elem-targets b c taken
                  (over.whole b c (subst (λ x. Step keywords base word table x b c) root e))
            | inr k ↦ absurd k
          ];
          sorted = IsSorted-append word (length (word 0)) [] (targets taken) tt tt (
              All-of_Elem _ (targets taken)
                (λ c m. let (b, k, e) = step c m in Step-length keywords base word table 0 b c e));
          finished = λ c m. let (b, k, e) = step c m in child-IsDone b c e;
          fresh = λ c n. table.trie.unlinked c;
        }

    -- Every node but the root gets the link to its longest proper end, and its mark.
    pub build_failures-IsFinal : IsFinal keywords base word table (build_failures order base)
    unfolding build_failures taken
    build_failures-IsFinal =
        link_all-IsFinal keywords base word table order ranges (length base) base [] (targets taken)
          (targets taken) start-Searched (omega arith)
