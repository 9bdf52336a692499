-- ===== src/Rules/Aho/Steps.antt =====
-- `nextState` of internal/rules/aho_matcher.go finds the longest end that the tree has.
use policy_decision_service.Prelude.{
  ℕ, zero, suc, List, Option, some, none, ◌≡◌, ◌≢◌, refl, ap, ◌∙◌, subst, inl, inr, ◌<◌, ◌≤◌, arith,
  eqb, eqb_iff, length, Option-cases, Bool-cases,
}
use policy_decision_service.Rules.Aho.{AhoNode, edge, node_at, find_link, root_link, next_state}
use policy_decision_service.Rules.Aho.Words.{IsSuffix, suffix_snoc}
use policy_decision_service.Rules.Aho.Tree.{SameEdges}
use policy_decision_service.Rules.Aho.Growth.{IsTable}
use policy_decision_service.Rules.Aho.Nodes.{Step, Step-word, Step-length, suffix-root}

module _ (keywords : List (List ℕ)) (base : List AhoNode) (word : ℕ → List ℕ)
    (table : IsTable keywords base word) where
  -- The failure link of `i` leads to the longest proper end of its word that the tree has.
  pub record IsLongest (nodes : List AhoNode) (i : ℕ) : Type 0 where
    pub within : (node_at nodes i).fail < length base
    pub shorter : length (word (node_at nodes i).fail) < length (word i)
    pub suffix : IsSuffix (word (node_at nodes i).fail) (word i)
    pub longest :
        (j : ℕ)
        → j < length base
        → IsSuffix (word j) (word i)
        → j ≢ i
        → IsSuffix (word j) (word (node_at nodes i).fail)

  -- The nodes but the root whose words have at most `n` bytes have their failure links.
  abbrev pub LinkedTo : ℕ → List AhoNode → Type 0
  LinkedTo n nodes = (i : ℕ) → i < length base → i ≢ 0 → length (word i) ≤ n → IsLongest nodes i

  module _ (nodes : List AhoNode) (same : SameEdges base nodes) (b : ℕ) (wanted : ℕ → Type 0) where
    -- The nodes that are wanted and have an edge for `b` end the word of `s`.
    abbrev pub Covers : ℕ → Type 0
    Covers s =
        (p c : ℕ)
        → p < length base
        → wanted p
        → Step keywords base word table p b c
        → IsSuffix (word p) (word s)

    -- `t` is what such nodes lead to, as far as possible, from `s`.
    pub record IsBest (s t : ℕ) : Type 0 where
      pub within : t < length base
      pub near : length (word t) ≤ suc (length (word s))
      pub covers :
          (p c : ℕ)
          → p < length base
          → wanted p
          → Step keywords base word table p b c
          → IsSuffix (word c) (word t)

    at_base :
        (i : ℕ) (o : Option ℕ)
        → edge b (node_at nodes i).next ≡ o
        → edge b (node_at base i).next ≡ o
    at_base i o e = subst (λ es. edge b es ≡ o) (same.nexts i) e

    taken-IsBest : (s t : ℕ) → edge b (node_at nodes s).next ≡ some t → Covers s → IsBest s t
    taken-IsBest s t there covers =
        let step = at_base s (some t) there in
        record {
          within = table.trie.within s b t step;
          near = omega (arith, Step-length keywords base word table s b t step);
          covers = λ p c k w e.
              rw
                (
                  Step-word keywords base word table p b c e,
                  Step-word keywords base word table s b t step,
                )
                (suffix_snoc b (word p) (word s) (covers p c k w e));
        }

    root-IsBest : edge b (node_at nodes 0).next ≡ none → Covers 0 → IsBest 0 0
    root-IsBest missing covers = record {
      within = table.trie.inhabited;
      near = omega arith;
      covers = λ p c k w e.
          let at_root =
            suffix-root keywords base word table p k
              (subst (IsSuffix (word p)) table.trie.sound.root (covers p c k w e)) in
          cc (rw at_root at e, at_base 0 none missing);
    }

    pub next_state-IsBest :
        (fuel s : ℕ)
        → s < length base
        → length (word s) < fuel
        → LinkedTo (length (word s)) nodes
        → Covers s
        → IsBest s (next_state fuel nodes s b)
    unfolding next_state
    next_state-IsBest zero s k h links covers = absurd (omega (arith, h))
    next_state-IsBest (suc fuel) s k h links covers =
        elim (Option-cases (edge b (node_at nodes s).next)) [
          | inr (t, there) ↦ rw (there, next_state) (taken-IsBest s t there covers)
          | inl missing ↦ elim (Bool-cases (eqb s 0)) [
            | inl root ↦
                let e : s ≡ 0 = ground (arith, eqb_iff s 0) in
                rw (missing, root, next_state)
                  (rw e (root-IsBest (rw e at missing) (subst Covers e covers)))
            | inr deep ↦
                let n : s ≢ 0 = ground (arith, eqb_iff s 0) in
                let l = links s k n (omega arith) in
                let fail = (node_at nodes s).fail in
                let best =
                  next_state-IsBest fuel fail l.within (omega (arith, h, l.shorter))
                    (λ i m z q. links i m z (omega (arith, q, l.shorter)))
                    (λ p c m w e.
                      l.longest p m (covers p c m w e)
                        (λ x. cc (rw x at e, at_base s none missing))) in
                rw (missing, deep, next_state)
                  (record {
                    within = best.within;
                    near = omega (arith, best.near, l.shorter);
                    covers = best.covers;
                  })
          ]
        ]

-- The loop for a failure link is `nextState`, where the root has no edge to the child.
abbrev pub or_root : Option ℕ → ℕ
or_root none = 0
or_root (some f) = f

root_link-none :
    (nodes : List AhoNode) (b child : ℕ)
    → edge b (node_at nodes 0).next ≢ some child
    → root_link nodes b child ≡ edge b (node_at nodes 0).next
unfolding root_link
root_link-none nodes b child h = elim (Option-cases (edge b (node_at nodes 0).next)) [
  | inl missing ↦ rw (missing, root_link) refl
  | inr (f, there) ↦ elim (Bool-cases (eqb f child)) [
    | inl same ↦
        let e : f ≡ child = ground (arith, eqb_iff f child) in
        absurd (h (there ∙ ap (λ x. some x) e))
    | inr other ↦ rw (there, other, root_link) refl
  ]
]

pub find_link-next_state :
    (fuel : ℕ) (nodes : List AhoNode) (fail b child : ℕ)
    → edge b (node_at nodes 0).next ≢ some child
    → or_root (find_link fuel nodes fail b child) ≡ next_state fuel nodes fail b
unfolding find_link next_state
find_link-next_state zero nodes fail b child h = refl
find_link-next_state (suc fuel) nodes fail b child h = elim (Bool-cases (eqb fail 0)) [
  | inl root ↦
      let e : fail ≡ 0 = ground (arith, eqb_iff fail 0) in
      elim (Option-cases (edge b (node_at nodes 0).next)) [
        | inl missing ↦
            rw (root, find_link, root_link-none nodes b child h, missing)
              (rw (e, missing, next_state, root) refl)
        | inr (f, there) ↦
            rw (root, find_link, root_link-none nodes b child h, there)
              (rw (e, there, next_state) refl)
      ]
  | inr deep ↦ elim (Option-cases (edge b (node_at nodes fail).next)) [
    | inl missing ↦
        rw (deep, missing, find_link, next_state, deep)
          (find_link-next_state fuel nodes (node_at nodes fail).fail b child h)
    | inr (f, there) ↦ rw (deep, there, find_link, next_state) refl
  ]
]
