-- ===== src/Rules/Aho/Words.antt =====
-- The words that the nodes of internal/rules/aho_matcher.go stand for, and the tables they are in.
use mathlib.Core.List.{append_assoc, append-nil}
use policy_decision_service.Prelude.{
  ℕ, zero, suc, true, List, [], ◌∷◌, ◌++◌, some, ◌≡◌, ◌≢◌, refl, sym, ap, ◌∙◌, ◌⊎◌, inl, inr, ◌<◌,
  ◌≤◌, arith, eqb_iff, length, Any,
}
use policy_decision_service.Rules.Aho.{Edges, AhoNode, blank, edge, node_at, set_node}

-- `s` ends `t`.
abbrev pub IsSuffix : List ℕ → List ℕ → Type 0
IsSuffix s t = (before : List ℕ) × (before ++ s ≡ t)

pub suffix_nil : (t : List ℕ) → IsSuffix [] t
suffix_nil t = (t, append-nil t)

pub suffix_trans : (r s t : List ℕ) → IsSuffix r s → IsSuffix s t → IsSuffix r t
suffix_trans r s t (a, e) (b, f) = (b ++ a, append_assoc b a r ∙ ap (λ u. b ++ u) e ∙ f)

pub suffix_snoc : (b : ℕ) (s t : List ℕ) → IsSuffix s t → IsSuffix (s ++ b ∷ []) (t ++ b ∷ [])
suffix_snoc b s t (a, e) = (a, sym (append_assoc a s (b ∷ [])) ∙ ap (λ u. u ++ b ∷ []) e)

-- A keyword that is not empty ends `t`.
abbrev pub Finished : List (List ℕ) → List ℕ → Type 0
Finished keywords t = Any (λ k. (k ≢ []) × IsSuffix k t) keywords

pub Finished-suffix :
    (keywords : List (List ℕ)) (s t : List ℕ)
    → IsSuffix s t
    → Finished keywords s
    → Finished keywords t
Finished-suffix [] s t h m = absurd m
Finished-suffix (k ∷ ks) s t h (inl (n, e)) = inl (n, suffix_trans k s t e h)
Finished-suffix (k ∷ ks) s t h (inr rest) = inr (Finished-suffix ks s t h rest)

pub node_at-append_blank :
    (nodes : List AhoNode) (i : ℕ) → node_at (nodes ++ blank ∷ []) i ≡ node_at nodes i
unfolding node_at
node_at-append_blank [] zero = refl
node_at-append_blank [] (suc i) = refl
node_at-append_blank (n ∷ nodes) zero = refl
node_at-append_blank (n ∷ nodes) (suc i) = node_at-append_blank nodes i

pub node_at-outside : (nodes : List AhoNode) (i : ℕ) → length nodes ≤ i → node_at nodes i ≡ blank
unfolding node_at
node_at-outside [] i h = refl
node_at-outside (n ∷ nodes) zero h = absurd (omega (arith, h))
node_at-outside (n ∷ nodes) (suc i) h = node_at-outside nodes i (omega (arith, h))

-- Where an assignment is seen: at its own index, or not at all.
pub node_at-set_node :
    (nodes : List AhoNode) (i j : ℕ) (v : AhoNode)
    → ((j ≡ i) × (node_at (set_node nodes i v) j ≡ v))
      ⊎ (node_at (set_node nodes i v) j ≡ node_at nodes j)
unfolding node_at set_node
node_at-set_node [] i j v = inr refl
node_at-set_node (n ∷ nodes) zero zero v = inl (refl, refl)
node_at-set_node (n ∷ nodes) zero (suc j) v = inr refl
node_at-set_node (n ∷ nodes) (suc i) zero v = inr refl
node_at-set_node (n ∷ nodes) (suc i) (suc j) v = elim (node_at-set_node nodes i j v) [
  | inl (e, f) ↦ inl (ap suc e, f)
  | inr f ↦ inr f
]

pub length-set_node :
    (nodes : List AhoNode) (i : ℕ) (v : AhoNode) → length (set_node nodes i v) ≡ length nodes
unfolding set_node
length-set_node [] i v = refl
length-set_node (n ∷ nodes) zero v = refl
length-set_node (n ∷ nodes) (suc i) v = ap suc (length-set_node nodes i v)

pub edge-within :
    (nodes : List AhoNode) (i b c : ℕ) → edge b (node_at nodes i).next ≡ some c → i < length nodes
unfolding node_at edge
edge-within [] i b c h = cc
edge-within (n ∷ nodes) zero b c h = omega arith
edge-within (n ∷ nodes) (suc i) b c h = omega (arith, edge-within nodes i b c h)

pub terminal-within :
    (nodes : List AhoNode) (i : ℕ) → (node_at nodes i).terminal ≡ true → i < length nodes
unfolding node_at
terminal-within [] i h = cc
terminal-within (n ∷ nodes) zero h = omega arith
terminal-within (n ∷ nodes) (suc i) h = omega (arith, terminal-within nodes i h)

-- The edge that an entry put in front gives.
pub edge-cons :
    (b b' c d : ℕ) (es : Edges)
    → edge b ((b', c) ∷ es) ≡ some d
    → ((b ≡ b') × (d ≡ c)) ⊎ (edge b es ≡ some d)
unfolding edge
edge-cons b b' c d es h = ground (arith, eqb_iff b' b)

pub node_at-set_node_self :
    (nodes : List AhoNode) (i : ℕ) (v : AhoNode)
    → i < length nodes
    → node_at (set_node nodes i v) i ≡ v
unfolding node_at set_node
node_at-set_node_self [] i v h = absurd (omega (arith, h))
node_at-set_node_self (n ∷ nodes) zero v h = refl
node_at-set_node_self (n ∷ nodes) (suc i) v h = node_at-set_node_self nodes i v (omega (arith, h))
