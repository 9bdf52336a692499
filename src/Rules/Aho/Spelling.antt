-- ===== src/Rules/Aho/Spelling.antt =====
-- A keyword stays spelt in the table of internal/rules/aho_matcher.go, so a text that begins with
-- it is matched.
use policy_decision_service.Prelude.{
  ℕ, true, List, [], ◌∷◌, ◌++◌, some, none, ◌≡◌, inl, inr, ◌<◌, arith, eqb, eqb_iff, length,
  length-append, Option-cases, Bool-cases,
}
use policy_decision_service.Rules.Aho.{Edges, AhoNode, blank, edge, node_at, set_node, add_byte}
use policy_decision_service.Rules.Aho.Words.{
  node_at-append_blank, node_at-set_node, node_at-set_node_self,
}

-- From the node `i` the bytes lead to a terminal node.
abbrev pub Spells : List AhoNode → ℕ → List ℕ → Type 0
Spells nodes i [] = (node_at nodes i).terminal ≡ true
Spells nodes i (b ∷ bs) = (c : ℕ) × (edge b (node_at nodes i).next ≡ some c) × Spells nodes c bs

-- Edges and marks of the first table are in the second.
pub record Extends (nodes grown : List AhoNode) : Type 0 where
  pub edges :
      (i b c : ℕ) → edge b (node_at nodes i).next ≡ some c → edge b (node_at grown i).next ≡ some c
  pub marks : (i : ℕ) → (node_at nodes i).terminal ≡ true → (node_at grown i).terminal ≡ true

pub Extends-refl : (nodes : List AhoNode) → Extends nodes nodes
Extends-refl nodes = record { edges = λ i b c h. h; marks = λ i h. h }

pub Extends-trans : (a b c : List AhoNode) → Extends a b → Extends b c → Extends a c
Extends-trans a b c e f = record {
  edges = λ i x d h. f.edges i x d (e.edges i x d h);
  marks = λ i h. f.marks i (e.marks i h);
}

pub Spells-Extends :
    (nodes grown : List AhoNode) (i : ℕ) (bs : List ℕ)
    → Extends nodes grown
    → Spells nodes i bs
    → Spells grown i bs
Spells-Extends nodes grown i [] e h = e.marks i h
Spells-Extends nodes grown i (b ∷ bs) e (c, there, rest) =
    (c, e.edges i b c there, Spells-Extends nodes grown c bs e rest)

pub set_node-Extends :
    (nodes : List AhoNode) (i : ℕ) (v : AhoNode)
    → ((b c : ℕ) → edge b (node_at nodes i).next ≡ some c → edge b v.next ≡ some c)
    → ((node_at nodes i).terminal ≡ true → v.terminal ≡ true)
    → Extends nodes (set_node nodes i v)
set_node-Extends nodes i v edges marks = record {
  edges = λ j b c h. elim (node_at-set_node nodes i j v) [
    | inl (e, f) ↦ rw f (edges b c (rw e at h))
    | inr f ↦ rw f h
  ];
  marks = λ j h. elim (node_at-set_node nodes i j v) [
    | inl (e, f) ↦ rw f (marks (rw e at h))
    | inr f ↦ rw f h
  ];
}

append_blank-Extends : (nodes : List AhoNode) → Extends nodes (nodes ++ blank ∷ [])
append_blank-Extends nodes = record {
  edges = λ i b c h. rw (node_at-append_blank nodes i) h;
  marks = λ i h. rw (node_at-append_blank nodes i) h;
}

edge-cons_new :
    (b b' c d : ℕ) (es : Edges)
    → edge b' es ≡ none
    → edge b es ≡ some d
    → edge b ((b', c) ∷ es) ≡ some d
unfolding edge
edge-cons_new b b' c d es missing there = elim (Bool-cases (eqb b' b)) [
  | inl same ↦ let e : b' ≡ b = ground (arith, eqb_iff b' b) in cc (rw e at missing, there)
  | inr other ↦ rw other there
]

pub add_byte-Extends : (nodes : List AhoNode) (i b : ℕ) → Extends nodes (add_byte nodes i b).1
unfolding add_byte
add_byte-Extends nodes i b = elim (Option-cases (edge b (node_at nodes i).next)) [
  | inr (c, there) ↦ rw (there, add_byte) (Extends-refl nodes)
  | inl missing ↦
      let grown = nodes ++ blank ∷ [] in
      let n = node_at grown i in
      let absent : edge b n.next ≡ none = rw (node_at-append_blank nodes i) missing in
      rw (missing, add_byte)
        (Extends-trans nodes grown _ (append_blank-Extends nodes) (
          set_node-Extends grown i (record n { next = (b, length nodes) ∷ n.next })
            (λ b' c h. edge-cons_new b' b (length nodes) c n.next absent h) (λ h. h)))
]

edge-cons_self : (b c : ℕ) (es : Edges) → edge b ((b, c) ∷ es) ≡ some c
unfolding edge
edge-cons_self b c es = rw (refl_eqb b)
  where
    refl_eqb : (b : ℕ) → eqb b b ≡ true
    refl_eqb b = ground arith

-- The step along the byte that was added.
pub add_byte-edge :
    (nodes : List AhoNode) (i b : ℕ)
    → i < length nodes
    → edge b (node_at (add_byte nodes i b).1 i).next ≡ some (add_byte nodes i b).0
unfolding add_byte
add_byte-edge nodes i b k = elim (Option-cases (edge b (node_at nodes i).next)) [
  | inr (c, there) ↦ rw (there, add_byte) there
  | inl missing ↦
      let grown = nodes ++ blank ∷ [] in
      let n = node_at grown i in
      let v : AhoNode = record n { next = (b, length nodes) ∷ n.next } in
      rw
        (
          missing,
          add_byte,
          node_at-set_node_self grown i v (omega (arith, k, length-append nodes (blank ∷ []))),
        )
        (edge-cons_self b (length nodes) n.next)
]
