-- ===== src/Rules/Aho/Tree.antt =====
-- The shape of the table that `newAhoMatcher` of internal/rules/aho_matcher.go makes: a tree over
-- its edges, in which a node stands behind its parent.
use policy_decision_service.Prelude.{
  ℕ, suc, List, [], ◌∷◌, ◌++◌, some, ◌≡◌, refl, sym, ap, subst, ◌⊎◌, inl, inr, ◌<◌, arith, eqb,
  eqb_iff, length, length-append, Option-cases, Bool-cases,
}
use policy_decision_service.Rules.Aho.{AhoNode, blank, edge, node_at, set_node, add_byte}
use policy_decision_service.Rules.Aho.Words.{
  node_at-append_blank, node_at-set_node, length-set_node, edge-cons,
}
use policy_decision_service.Rules.Aho.Spelling.{add_byte-Extends, add_byte-edge}

-- An edge leads to a later node, and every node but the root has a parent.
pub record IsTree (nodes : List AhoNode) : Type 0 where
  pub ascends : (i b c : ℕ) → edge b (node_at nodes i).next ≡ some c → i < c
  pub parents :
      (i : ℕ)
      → i < length nodes
      → (i ≡ 0) ⊎ ((p : ℕ) × (b : ℕ) × (edge b (node_at nodes p).next ≡ some i))

-- Two tables with the same edges.
pub record SameEdges (nodes other : List AhoNode) : Type 0 where
  pub size : length other ≡ length nodes
  pub nexts : (i : ℕ) → (node_at other i).next ≡ (node_at nodes i).next

pub set_node-SameEdges :
    (nodes : List AhoNode) (i : ℕ) (v : AhoNode)
    → v.next ≡ (node_at nodes i).next
    → SameEdges nodes (set_node nodes i v)
set_node-SameEdges nodes i v h = record {
  size = length-set_node nodes i v;
  nexts = λ j. elim (node_at-set_node nodes i j v) [
    | inl (e, f) ↦ rw (f, e) h
    | inr f ↦ ap (λ n. n.next) f
  ];
}

pub IsTree-SameEdges :
    (nodes other : List AhoNode) → SameEdges nodes other → IsTree nodes → IsTree other
IsTree-SameEdges nodes other s t = record {
  ascends = λ i b c h. t.ascends i b c (subst (λ es. edge b es ≡ some c) (s.nexts i) h);
  parents = λ i h. elim (t.parents i (rw (s.size) at h)) [
    | inl e ↦ inl e
    | inr (p, b, e) ↦ inr (p, b, subst (λ es. edge b es ≡ some i) (sym (s.nexts p)) e)
  ];
}

-- What is added for a byte: nothing, or one node.
add_byte-length :
    (nodes : List AhoNode) (i b : ℕ)
    → (add_byte nodes i b ≡ ((add_byte nodes i b).0, nodes))
      ⊎ ((length (add_byte nodes i b).1 ≡ suc (length nodes))
          × ((add_byte nodes i b).0 ≡ length nodes)
          × ((j b' c : ℕ)
              → edge b' (node_at (add_byte nodes i b).1 j).next ≡ some c
              → (edge b' (node_at nodes j).next ≡ some c) ⊎ ((j ≡ i) × (c ≡ length nodes))))
unfolding add_byte
add_byte-length nodes i b = elim (Option-cases (edge b (node_at nodes i).next)) [
  | inr (c, there) ↦ inl (rw (there, add_byte) refl)
  | inl missing ↦
      let grown = nodes ++ blank ∷ [] in
      let n = node_at grown i in
      let v : AhoNode = record n { next = (b, length nodes) ∷ n.next } in
      inr (
        rw (missing, add_byte)
          (
            omega (arith, length-set_node grown i v, length-append nodes (blank ∷ [])),
            refl,
            λ j b' c h. elim (node_at-set_node grown i j v) [
              | inl (e, f) ↦ elim (edge-cons b' b (length nodes) c n.next (rw f at h)) [
                | inl (eb, ec) ↦ inr (e, ec)
                | inr old ↦ inl (rw e (rw (node_at-append_blank nodes i) at old))
              ]
              | inr f ↦ inl (rw (node_at-append_blank nodes j) at (rw f at h))
            ],
          ))
]

pub add_byte-IsTree :
    (nodes : List AhoNode) (i b : ℕ)
    → i < length nodes
    → IsTree nodes
    → IsTree (add_byte nodes i b).1
add_byte-IsTree nodes i b k t = elim (add_byte-length nodes i b) [
  | inl same ↦ subst IsTree (sym (ap (λ o. o.1) same)) t
  | inr (size, at_end, cases) ↦ record {
    ascends = λ j b' c h. elim (cases j b' c h) [
      | inl old ↦ t.ascends j b' c old
      | inr (e, f) ↦ omega (arith, e, f, k)
    ];
    parents = λ j h. elim (Bool-cases (eqb j (length nodes))) [
      | inl new ↦
          let e : j ≡ length nodes = ground (arith, eqb_iff j (length nodes)) in
          inr (i, b, rw (e, sym at_end) (add_byte-edge nodes i b k))
      | inr old ↦ elim (t.parents j (ground (arith, eqb_iff j (length nodes), size, h))) [
        | inl e ↦ inl e
        | inr (p, b', e) ↦ inr (p, b', (add_byte-Extends nodes i b).edges p b' j e)
      ]
    ];
  }
]
