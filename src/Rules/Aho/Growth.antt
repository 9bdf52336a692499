-- ===== src/Rules/Aho/Growth.antt =====
-- The loop of `newAhoMatcher` of internal/rules/aho_matcher.go over the keywords.
use mathlib.Core.List.{append_assoc, append-nil}
use policy_decision_service.Prelude.{
  ℕ, true, List, [], ◌∷◌, ◌++◌, ◌≢◌, refl, sym, ap, ◌∙◌, subst, inl, ◌<◌, arith, length, All,
  All-of_Elem, Elem,
}
use policy_decision_service.Rules.Aho.{
  AhoNode, blank, edge, node_at, set_node, add_byte, add_bytes, add_keyword, add_keywords,
}
use policy_decision_service.Rules.Aho.Words.{node_at-append_blank, node_at-set_node_self, Finished}
use policy_decision_service.Rules.Aho.Trie.{
  IsTrie, add_byte-Stepped, mark-IsTrie, Elem-Finished, blank-IsTrie,
}
use policy_decision_service.Rules.Aho.Spelling.{
  Spells, Extends, Extends-refl, Extends-trans, Spells-Extends, set_node-Extends, add_byte-Extends,
  add_byte-edge,
}
use policy_decision_service.Rules.Aho.Tree.{
  IsTree, IsTree-SameEdges, set_node-SameEdges, add_byte-IsTree,
}

module _ (keywords : List (List ℕ)) where
  -- A table that has grown out of another one.
  record Grown (nodes grown : List AhoNode) : Type 0 where
    word : ℕ → List ℕ
    trie : IsTrie keywords grown word
    tree : IsTree grown
    extends : Extends nodes grown

  Grown-after :
      (nodes middle grown : List AhoNode)
      → Extends nodes middle
      → Grown middle grown
      → Grown nodes grown
  Grown-after nodes middle grown e g = record {
    word = g.word;
    trie = g.trie;
    tree = g.tree;
    extends = Extends-trans nodes middle grown e g.extends;
  }

  add_bytes-Grown :
      (nodes : List AhoNode) (word : ℕ → List ℕ) (i : ℕ) (bs : List ℕ)
      → IsTrie keywords nodes word
      → IsTree nodes
      → i < length nodes
      → Finished keywords (word i ++ bs)
      → Grown nodes (add_bytes nodes i bs) × Spells (add_bytes nodes i bs) i bs
  unfolding add_bytes
  add_bytes-Grown nodes word i [] t u k ends =
      let v : AhoNode = record (node_at nodes i) { terminal = true } in
      (
        record {
          word = word;
          trie =
              mark-IsTrie keywords nodes word i t
                (subst (Finished keywords) (append-nil (word i)) ends);
          tree = IsTree-SameEdges nodes (set_node nodes i v) (set_node-SameEdges nodes i v refl) u;
          extends = set_node-Extends nodes i v (λ b c h. h) (λ h. refl);
        },
        ap (λ n. n.terminal) (node_at-set_node_self nodes i v k),
      )
  add_bytes-Grown nodes word i (b ∷ bs) t u k ends =
      let s = add_byte-Stepped keywords nodes word i b t k in
      let (next, grown) = add_byte nodes i b in
      let (g, spelt) =
        add_bytes-Grown grown s.word next bs s.trie (add_byte-IsTree nodes i b k u) s.within (
          subst (Finished keywords)
            (sym (append_assoc (word i) (b ∷ []) bs) ∙ ap (λ w. w ++ bs) (sym s.spells)) ends) in
      (
        Grown-after nodes grown _ (add_byte-Extends nodes i b) g,
        (next, g.extends.edges i b next (add_byte-edge nodes i b k), spelt),
      )

  -- A keyword that is not empty is spelt.
  abbrev pub IsSpelt : List AhoNode → List ℕ → Type 0
  IsSpelt nodes k = k ≢ [] → Spells nodes 0 k

  add_keyword-Grown :
      (nodes : List AhoNode) (word : ℕ → List ℕ) (k : List ℕ)
      → IsTrie keywords nodes word
      → IsTree nodes
      → Elem k keywords
      → Grown nodes (add_keyword nodes k) × IsSpelt (add_keyword nodes k) k
  unfolding add_keyword
  add_keyword-Grown nodes word [] t u m = (
    record { word = word; trie = t; tree = u; extends = Extends-refl nodes },
    λ n. absurd (n refl),
  )
  add_keyword-Grown nodes word (b ∷ bs) t u m =
      let (g, spelt) =
        add_bytes-Grown nodes word 0 (b ∷ bs) t u t.inhabited
          (rw t.sound.root (Elem-Finished keywords (b ∷ bs) keywords (λ e. cc) m)) in
      (g, λ n. spelt)

  add_keywords-Grown :
      (nodes : List AhoNode) (word : ℕ → List ℕ) (ks : List (List ℕ))
      → IsTrie keywords nodes word
      → IsTree nodes
      → All (λ k. Elem k keywords) ks
      → Grown nodes (add_keywords nodes ks) × All (IsSpelt (add_keywords nodes ks)) ks
  unfolding add_keywords
  add_keywords-Grown nodes word [] t u m =
      (record { word = word; trie = t; tree = u; extends = Extends-refl nodes }, tt)
  add_keywords-Grown nodes word (k ∷ ks) t u m =
      let first = add_keyword nodes k in
      let (g, spelt) = add_keyword-Grown nodes word k t u m.0 in
      let (h, rest) = add_keywords-Grown first g.word ks g.trie g.tree m.1 in
      (
        Grown-after nodes first _ g.extends h,
        ((λ n. Spells-Extends first (add_keywords first ks) 0 k h.extends (spelt n)), rest),
      )

  -- The table of the keywords, with a word for each node.
  pub record IsTable (nodes : List AhoNode) (word : ℕ → List ℕ) : Type 0 where
    pub trie : IsTrie keywords nodes word
    pub tree : IsTree nodes
    pub spelt : All (IsSpelt nodes) keywords

  blank-IsTree : IsTree (blank ∷ [])
  unfolding node_at edge
  blank-IsTree = record {
    ascends = λ i b c h. cc (rw (node_at-append_blank [] i) at h);
    parents = λ i h. inl (omega (arith, h));
  }

  pub add_keywords-IsTable : (word : ℕ → List ℕ) × IsTable (add_keywords (blank ∷ []) keywords) word
  add_keywords-IsTable =
      let (g, spelt) =
        add_keywords-Grown (blank ∷ []) (λ i. []) keywords (blank-IsTrie keywords) blank-IsTree
          (All-of_Elem (λ k. Elem k keywords) keywords (λ k m. m)) in
      (g.word, record { trie = g.trie; tree = g.tree; spelt = spelt })
