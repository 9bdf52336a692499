-- ===== src/Rules/Aho/Soundness.antt =====
-- A match of internal/rules/aho_matcher.go is an occurrence of a keyword.
use mathlib.Core.List.{append_assoc}
use policy_decision_service.Prelude.{
  ℕ, zero, suc, true, List, [], ◌∷◌, ◌++◌, ◌≡◌, ◌≢◌, ap, subst, inl, inr, eqb, length, Any,
  Option-cases, Bool-cases,
}
use policy_decision_service.Rules.Aho.{
  Edges, AhoNode, edge, node_at, new_aho_matcher, next_state, match_from, match,
}
use policy_decision_service.Rules.Aho.Words.{
  IsSuffix, suffix_nil, suffix_trans, suffix_snoc, Finished, Finished-suffix,
}
use policy_decision_service.Rules.Aho.Trie.{IsSound}
use policy_decision_service.Rules.Aho.Growth.{add_keywords-IsTable}
use policy_decision_service.Rules.Aho.Links.{IsRange, build_failures-IsSound}

-- `k` stands somewhere in `text`.
abbrev pub Occurs : List ℕ → List ℕ → Type 0
Occurs k text = (before : List ℕ) × (after : List ℕ) × (before ++ k ++ after ≡ text)

-- One of the keywords that are not empty stands in the text.
abbrev pub OccursAny : List (List ℕ) → List ℕ → Type 0
OccursAny keywords text = Any (λ k. (k ≢ []) × Occurs k text) keywords

Finished-OccursAny :
    (keywords : List (List ℕ)) (read rest : List ℕ)
    → Finished keywords read
    → OccursAny keywords (read ++ rest)
Finished-OccursAny [] read rest m = absurd m
Finished-OccursAny (k ∷ ks) read rest (inl (n, (before, e))) =
    inl (n, (before, rest, ap (λ t. t ++ rest) e))
Finished-OccursAny (k ∷ ks) read rest (inr m) = inr (Finished-OccursAny ks read rest m)

module _ (keywords : List (List ℕ)) (word : ℕ → List ℕ) where
  pub next_state-IsSuffix :
      (fuel : ℕ) (nodes : List AhoNode) (state b : ℕ) (read : List ℕ)
      → IsSound keywords nodes word
      → IsSuffix (word state) read
      → IsSuffix (word (next_state fuel nodes state b)) (read ++ b ∷ [])
  unfolding next_state
  next_state-IsSuffix zero nodes state b read s h = rw s.root (suffix_nil _)
  next_state-IsSuffix (suc fuel) nodes state b read s h =
      elim (Option-cases (edge b (node_at nodes state).next)) [
        | inr (c, there) ↦
            rw (there, next_state, s.edges state b c there) (suffix_snoc b (word state) read h)
        | inl missing ↦ elim (Bool-cases (eqb state 0)) [
          | inl root ↦ rw (missing, root, next_state, s.root) (suffix_nil _)
          | inr deep ↦
              rw (missing, deep, next_state)
                (next_state-IsSuffix fuel nodes (node_at nodes state).fail b read s (
                  suffix_trans (word (node_at nodes state).fail) (word state) read (s.fails state)
                    h))
        ]
      ]

  match_from-OccursAny :
      (nodes : List AhoNode) (state : ℕ) (read text : List ℕ)
      → IsSound keywords nodes word
      → IsSuffix (word state) read
      → match_from nodes state text ≡ true
      → OccursAny keywords (read ++ text)
  unfolding match_from
  match_from-OccursAny nodes state read [] s h m = cc
  match_from-OccursAny nodes state read (b ∷ bs) s h m =
      let next = next_state (suc (length nodes)) nodes state b in
      let suffix = next_state-IsSuffix (suc (length nodes)) nodes state b read s h in
      subst (OccursAny keywords) (append_assoc read (b ∷ []) bs)
        (elim (Bool-cases (node_at nodes next).terminal) [
          | inl found ↦
              Finished-OccursAny keywords (read ++ b ∷ []) bs
                (Finished-suffix keywords (word next) (read ++ b ∷ []) suffix (s.ends next found))
          | inr not_yet ↦
              match_from-OccursAny nodes next (read ++ b ∷ []) bs s suffix
                (rw (not_yet, match_from) at m)
        ])

  IsSound-OccursAny :
      (nodes : List AhoNode) (text : List ℕ)
      → IsSound keywords nodes word
      → match nodes text ≡ true
      → OccursAny keywords text
  unfolding match
  IsSound-OccursAny [] text s h = cc
  IsSound-OccursAny (n ∷ ns) text s h =
      match_from-OccursAny (n ∷ ns) 0 [] text s (rw s.root (suffix_nil [])) h

-- For every order in which Go ranges over its maps, a text that the matcher of some keywords
-- matches contains one of these keywords, and one that is not empty.
pub match-OccursAny :
    (order : ℕ → Edges → Edges) (keywords : List (List ℕ)) (text : List ℕ)
    → IsRange order
    → match (new_aho_matcher order keywords) text ≡ true
    → OccursAny keywords text
unfolding new_aho_matcher
match-OccursAny order keywords text ranges m =
    let (word, t) = add_keywords-IsTable keywords in
    let nodes = new_aho_matcher order keywords in
    let sound = build_failures-IsSound keywords word order ranges _ t.trie.sound in
    IsSound-OccursAny keywords word nodes text sound m
