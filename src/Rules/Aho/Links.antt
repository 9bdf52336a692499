-- ===== src/Rules/Aho/Links.antt =====
-- `buildFailures` of internal/rules/aho_matcher.go: the failure links lead to ends of the words.
use policy_decision_service.Prelude.{
  ℕ, zero, suc, true, List, [], ◌∷◌, ◌++◌, Option, some, none, ◌≡◌, refl, sym, inl, inr, arith, eqb,
  length, All, All-mono, Elem, Distinct, Option-cases, Bool-cases,
}
use policy_decision_service.Rules.Aho.{
  Edges, AhoNode, edge, node_at, root_link, find_link, with_link, link_child, link_children,
  targets, link_all, build_failures,
}
use policy_decision_service.Rules.Aho.Words.{
  IsSuffix, suffix_nil, suffix_trans, suffix_snoc, Finished, Finished-suffix,
}
use policy_decision_service.Rules.Aho.Trie.{IsSound, set_node-IsSound}

abbrev pub bytes : Edges → List ℕ
bytes [] = []
bytes ((b, c) ∷ es) = b ∷ bytes es

-- `range` over a map takes each entry of the map once.
pub record RangesOver (es taken : Edges) : Type 0 where
  pub entries : All (λ (b, c). edge b es ≡ some c) taken
  pub once : Distinct (bytes taken)
  pub whole : (b c : ℕ) → edge b es ≡ some c → Elem (b, c) taken

abbrev pub IsRange : (ℕ → Edges → Edges) → Type 0
IsRange order = (i : ℕ) (es : Edges) → RangesOver es (order i es)

pub with_link-keeps :
    (n : AhoNode) (link : Option ℕ)
    → ((with_link n link).next ≡ n.next) × ((with_link n link).terminal ≡ n.terminal)
with_link-keeps n none = (refl, refl)
with_link-keeps n (some f) = (refl, refl)

module _ (keywords : List (List ℕ)) (word : ℕ → List ℕ) where
  root_link-IsSuffix :
      (nodes : List AhoNode) (b child f : ℕ) (w : List ℕ)
      → IsSound keywords nodes word
      → root_link nodes b child ≡ some f
      → IsSuffix (word f) (w ++ b ∷ [])
  unfolding root_link
  root_link-IsSuffix nodes b child f w s h = elim (Option-cases (edge b (node_at nodes 0).next)) [
    | inl missing ↦ cc (rw (missing, root_link) at h)
    | inr (g, there) ↦ elim (Bool-cases (eqb g child)) [
      | inl same ↦ cc (rw (there, same, root_link) at h)
      | inr other ↦
          let e : g ≡ f = ground (arith, rw (there, other, root_link) at h) in
          rw (sym e, s.edges 0 b g there, s.root) (suffix_snoc b [] w (suffix_nil w))
    ]
  ]

  find_link-IsSuffix :
      (fuel : ℕ) (nodes : List AhoNode) (fail b child f : ℕ) (w : List ℕ)
      → IsSound keywords nodes word
      → IsSuffix (word fail) w
      → find_link fuel nodes fail b child ≡ some f
      → IsSuffix (word f) (w ++ b ∷ [])
  unfolding find_link
  find_link-IsSuffix zero nodes fail b child f w s k h = cc
  find_link-IsSuffix (suc fuel) nodes fail b child f w s k h = elim (Bool-cases (eqb fail 0)) [
    | inl root ↦ root_link-IsSuffix nodes b child f w s (rw (root, find_link) at h)
    | inr deep ↦ elim (Option-cases (edge b (node_at nodes fail).next)) [
      | inl missing ↦
          find_link-IsSuffix fuel nodes (node_at nodes fail).fail b child f w s
            (suffix_trans (word (node_at nodes fail).fail) (word fail) w (s.fails fail) k)
            (rw (deep, missing, find_link) at h)
      | inr (g, there) ↦
          let e : g ≡ f = ground (arith, rw (deep, there, find_link) at h) in
          rw (sym e, s.edges fail b g there) (suffix_snoc b (word fail) w k)
    ]
  ]

  with_link-IsSuffix :
      (n : AhoNode) (link : Option ℕ) (w : List ℕ)
      → IsSuffix (word n.fail) w
      → ((f : ℕ) → link ≡ some f → IsSuffix (word f) w)
      → IsSuffix (word (with_link n link).fail) w
  with_link-IsSuffix n none w h k = h
  with_link-IsSuffix n (some f) w h k = k f refl

  pub link_child-IsSound :
      (nodes : List AhoNode) (current b child : ℕ)
      → IsSound keywords nodes word
      → word child ≡ word current ++ b ∷ []
      → IsSound keywords (link_child nodes current b child) word
  unfolding link_child
  link_child-IsSound nodes current b child s e =
      let n = node_at nodes child in
      let link = find_link (suc (length nodes)) nodes (node_at nodes current).fail b child in
      let linked = with_link n link in
      let (nexts, marks) = with_link-keeps n link in
      let suffix : IsSuffix (word linked.fail) (word child) =
        with_link-IsSuffix n link (word child) (s.fails child) (λ f h. rw e (
          find_link-IsSuffix (suc (length nodes)) nodes (node_at nodes current).fail b child f
            (word current) s (s.fails current) h)) in
      let edges : (b' c : ℕ) → edge b' linked.next ≡ some c → word c ≡ word child ++ b' ∷ [] =
        λ b' c h. s.edges child b' c (rw nexts at h) in
      let ends : linked.terminal ≡ true → Finished keywords (word child) =
        λ h. s.ends child (rw marks at h) in
      let middle = set_node-IsSound keywords nodes word child linked s edges suffix ends in
      set_node-IsSound keywords nodes word child _ s edges suffix (λ h.
        elim (Bool-cases linked.terminal) [
          | inl own ↦ ends own
          | inr not_own ↦
              Finished-suffix keywords (word linked.fail) (word child) suffix
                (middle.ends linked.fail (ground (arith, h, not_own)))
        ])

  link_children-IsSound :
      (nodes : List AhoNode) (current : ℕ) (es : Edges)
      → IsSound keywords nodes word
      → All (λ (b, child). word child ≡ word current ++ b ∷ []) es
      → IsSound keywords (link_children nodes current es) word
  unfolding link_children
  link_children-IsSound nodes current [] s h = s
  link_children-IsSound nodes current ((b, child) ∷ es) s h =
      link_children-IsSound (link_child nodes current b child) current es
        (link_child-IsSound nodes current b child s h.0) h.1

  module _ (order : ℕ → Edges → Edges) (ranges : IsRange order) where
    link_all-IsSound :
        (fuel : ℕ) (nodes : List AhoNode) (pending : List ℕ)
        → IsSound keywords nodes word
        → IsSound keywords (link_all order fuel nodes pending) word
    unfolding link_all
    link_all-IsSound zero nodes pending s = s
    link_all-IsSound (suc fuel) nodes [] s = s
    link_all-IsSound (suc fuel) nodes (current ∷ pending) s =
        let es = order current (node_at nodes current).next in
        link_all-IsSound fuel (link_children nodes current es) (pending ++ targets es) (
          link_children-IsSound nodes current es s (
            All-mono (λ (b, c). edge b (node_at nodes current).next ≡ some c)
              (λ (b, c). word c ≡ word current ++ b ∷ []) es (λ (b, c) h. s.edges current b c h)
              (ranges current (node_at nodes current).next).entries))

    pub build_failures-IsSound :
        (nodes : List AhoNode)
        → IsSound keywords nodes word
        → IsSound keywords (build_failures order nodes) word
    unfolding build_failures
    build_failures-IsSound nodes s = link_all-IsSound (length nodes) nodes _ s
