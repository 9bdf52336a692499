-- ===== src/Rules/Aho/Nodes.antt =====
-- The words of the nodes of internal/rules/aho_matcher.go tell them apart.
use mathlib.Core.List.{append_assoc}
use policy_decision_service.Prelude.{
  ℕ, zero, suc, List, [], ◌∷◌, ◌++◌, Option, some, ◌≡◌, ◌≢◌, refl, sym, ap, ◌∙◌, subst, ◌⊎◌, inl,
  inr, ◌<◌, ◌≤◌, arith, length, length-append,
}
use policy_decision_service.Rules.Aho.{AhoNode, edge, node_at}
use policy_decision_service.Rules.Aho.Words.{IsSuffix, edge-within}
use policy_decision_service.Rules.Aho.Growth.{IsTable}

pub snoc-nonempty : (s : List ℕ) (b : ℕ) → s ++ b ∷ [] ≢ []
snoc-nonempty [] b e = cc
snoc-nonempty (x ∷ s) b e = cc

head_of : ℕ → List ℕ → ℕ
head_of d [] = d
head_of d (x ∷ xs) = x

tail_of : List ℕ → List ℕ
tail_of [] = []
tail_of (x ∷ xs) = xs

pub snoc_inj : (s t : List ℕ) (b c : ℕ) → s ++ b ∷ [] ≡ t ++ c ∷ [] → (s ≡ t) × (b ≡ c)
unfolding head_of tail_of
snoc_inj [] [] b c e = (refl, ap (head_of 0) e)
snoc_inj [] (y ∷ t) b c e = absurd (snoc-nonempty t c (sym (ap tail_of e)))
snoc_inj (x ∷ s) [] b c e = absurd (snoc-nonempty s b (ap tail_of e))
snoc_inj (x ∷ s) (y ∷ t) b c e =
    let (f, g) = snoc_inj s t b c (ap tail_of e) in
    (ap (λ z. z ∷ s) (ap (head_of 0) e) ∙ ap (λ u. y ∷ u) f, g)

pub append-empty : (s t : List ℕ) → s ++ t ≡ [] → t ≡ []
append-empty [] t e = e
append-empty (x ∷ s) t e = cc

some_inj : (a b : ℕ) → ◌≡◌ {A = Option ℕ} (some a) (some b) → a ≡ b
some_inj a b e = ground arith

module _ (keywords : List (List ℕ)) (nodes : List AhoNode) (word : ℕ → List ℕ)
    (table : IsTable keywords nodes word) where
  abbrev pub Step : ℕ → ℕ → ℕ → Type 0
  Step p b c = edge b (node_at nodes p).next ≡ some c

  pub Step-word : (p b c : ℕ) → Step p b c → word c ≡ word p ++ b ∷ []
  Step-word p b c e = table.trie.sound.edges p b c e

  pub Step-length : (p b c : ℕ) → Step p b c → length (word c) ≡ suc (length (word p))
  Step-length p b c e =
      omega (arith, ap length (Step-word p b c e), length-append (word p) (b ∷ []))

  -- Induction from the parents; `bound` is past the node.
  words_distinct :
      (bound i j : ℕ) → i < bound → i < length nodes → j < length nodes → word i ≡ word j → i ≡ j
  words_distinct zero i j k l m e = absurd (omega (arith, k))
  words_distinct (suc bound) i j k l m e = elim (table.tree.parents i l) [
    | inl root ↦ elim (table.tree.parents j m) [
      | inl root' ↦ root ∙ sym root'
      | inr (q, c, f) ↦ absurd (
          snoc-nonempty (word q) c
            (sym (Step-word q c j f) ∙ sym e ∙ ap word root ∙ table.trie.sound.root))
    ]
    | inr (p, b, g) ↦ elim (table.tree.parents j m) [
      | inl root' ↦ absurd (
          snoc-nonempty (word p) b
            (sym (Step-word p b i g) ∙ e ∙ ap word root' ∙ table.trie.sound.root))
      | inr (q, c, f) ↦
          let (same, same_byte) =
            snoc_inj (word p) (word q) b c (sym (Step-word p b i g) ∙ e ∙ Step-word q c j f) in
          let parent =
            words_distinct bound p q (omega (arith, k, table.tree.ascends p b i g))
              (edge-within nodes p b i g) (edge-within nodes q c j f) same in
          some_inj i j (
            sym g
            ∙ ap (λ x. edge x (node_at nodes p).next) same_byte
            ∙ ap (λ x. edge c (node_at nodes x).next) parent
            ∙ f)
    ]
  ]

  pub word_inj : (i j : ℕ) → i < length nodes → j < length nodes → word i ≡ word j → i ≡ j
  word_inj i j l m e = words_distinct (suc i) i j (omega arith) l m e

  word_bound : (bound i : ℕ) → i < bound → i < length nodes → length (word i) ≤ i
  word_bound zero i k l = absurd (omega (arith, k))
  word_bound (suc bound) i k l = elim (table.tree.parents i l) [
    | inl root ↦ omega (arith, ap (λ x. length (word x)) root, ap length table.trie.sound.root)
    | inr (p, b, g) ↦
        let up = table.tree.ascends p b i g in
        omega (
          arith,
          up,
          Step-length p b i g,
          word_bound bound p (omega (arith, k, up)) (edge-within nodes p b i g),
        )
  ]

  -- The word of a node is shorter than the table.
  pub length-word : (i : ℕ) → i < length nodes → length (word i) < length nodes
  length-word i l = omega (arith, l, word_bound (suc i) i (omega arith) l)

  pub only_parent : (p b q c i : ℕ) → Step p b i → Step q c i → (p ≡ q) × (b ≡ c)
  only_parent p b q c i e f =
      let (same, same_byte) =
        snoc_inj (word p) (word q) b c (sym (Step-word p b i e) ∙ Step-word q c i f) in
      (word_inj p q (edge-within nodes p b i e) (edge-within nodes q c i f) same, same_byte)

  pub only_child : (p b c d : ℕ) → Step p b c → Step p b d → c ≡ d
  only_child p b c d e f = some_inj c d (sym e ∙ f)

  pub child-ne : (p b c : ℕ) → Step p b c → c ≢ 0
  child-ne p b c e z =
      snoc-nonempty (word p) b (sym (Step-word p b c e) ∙ ap word z ∙ table.trie.sound.root)

  -- A node whose word ends a longer text is the root, or the child of one that ends the text.
  pub suffix-parent :
      (j b : ℕ) (t : List ℕ)
      → j < length nodes
      → IsSuffix (word j) (t ++ b ∷ [])
      → (j ≡ 0) ⊎ ((p : ℕ) × Step p b j × IsSuffix (word p) t)
  suffix-parent j b t l (before, e) = elim (table.tree.parents j l) [
    | inl root ↦ inl root
    | inr (p, c, g) ↦
        let (same, same_byte) = snoc_inj (before ++ word p) t c b (
          append_assoc before (word p) (c ∷ [])
          ∙ ap (λ u. before ++ u) (sym (Step-word p c j g))
          ∙ e) in
        inr (p, subst (λ x. Step p x j) same_byte g, (before, same))
  ]

  -- Only the root's word ends the empty text.
  pub suffix-root : (j : ℕ) → j < length nodes → IsSuffix (word j) [] → j ≡ 0
  suffix-root j l (before, e) =
      word_inj j 0 l table.trie.inhabited
        (append-empty before (word j) e ∙ sym table.trie.sound.root)
