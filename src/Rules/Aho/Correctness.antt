-- ===== src/Rules/Aho/Correctness.antt =====
-- The matcher of internal/rules/aho_matcher.go against the occurrence of a keyword.
use mathlib.Core.List.{append_assoc, append-nil}
use policy_decision_service.Prelude.{
  ℕ, suc, true, List, [], ◌∷◌, ◌++◌, ◌≡◌, ◌≢◌, refl, sym, ap, ◌∙◌, subst, ◌↔◌, inl, inr, ◌<◌, arith,
  length, All, eqb, eqb_iff, Bool-cases,
}
use policy_decision_service.Rules.Aho.{
  Edges, AhoNode, blank, node_at, add_keywords, build_failures, new_aho_matcher, next_state,
  match_from, match,
}
use policy_decision_service.Rules.Aho.Words.{IsSuffix, suffix_nil, edge-within, terminal-within}
use policy_decision_service.Rules.Aho.Links.{IsRange}
use policy_decision_service.Rules.Aho.Spelling.{Spells}
use policy_decision_service.Rules.Aho.Growth.{IsSpelt, IsTable, add_keywords-IsTable}
use policy_decision_service.Rules.Aho.Nodes.{Step-word, length-word, suffix-parent, append-empty}
use policy_decision_service.Rules.Aho.Steps.{next_state-IsBest}
use policy_decision_service.Rules.Aho.Done.{IsComplete}
use policy_decision_service.Rules.Aho.Search.{IsFinal, root-IsComplete}
use policy_decision_service.Rules.Aho.Start.{build_failures-IsFinal}
use policy_decision_service.Rules.Aho.Soundness.{OccursAny, next_state-IsSuffix, match-OccursAny}

module _ (keywords : List (List ℕ)) (base : List AhoNode) (word : ℕ → List ℕ)
    (table : IsTable keywords base word) where
  -- The end of a keyword in the tree.
  record Marked (k : List ℕ) : Type 0 where
    node : ℕ
    within : node < length base
    spells : word node ≡ k
    mark : (node_at base node).terminal ≡ true

  Spells-Marked : (i : ℕ) (bs : List ℕ) → Spells base i bs → Marked (word i ++ bs)
  Spells-Marked i [] h = record {
    node = i;
    within = terminal-within base i h;
    spells = sym (append-nil (word i));
    mark = h;
  }
  Spells-Marked i (b ∷ bs) (c, e, h) =
      subst Marked
        (ap (λ w. w ++ bs) (Step-word keywords base word table i b c e)
          ∙ append_assoc (word i) (b ∷ []) bs)
        (Spells-Marked c bs h)

  module _ (nodes : List AhoNode) (final : IsFinal keywords base word table nodes) where
    -- After `read` the state is the longest end of it that the tree has.
    record IsAt (s : ℕ) (read : List ℕ) : Type 0 where
      within : s < length base
      ends : IsSuffix (word s) read
      longest : (j : ℕ) → j < length base → IsSuffix (word j) read → IsSuffix (word j) (word s)

    next_state-IsAt :
        (s b : ℕ) (read : List ℕ)
        → IsAt s read
        → IsAt (next_state (suc (length nodes)) nodes s b) (read ++ b ∷ [])
    next_state-IsAt s b read a =
        let best =
          next_state-IsBest keywords base word table nodes final.kept.same b
            (λ p. IsSuffix (word p) read) (suc (length nodes)) s a.within
            (omega (arith, final.kept.same.size, length-word keywords base word table s a.within))
            (λ i k n q. (final.done i k n).link) (λ p c k w e. a.longest p k w) in
        record {
          within = best.within;
          ends =
              next_state-IsSuffix keywords word (suc (length nodes)) nodes s b read final.kept.sound
                a.ends;
          longest = λ j k h. elim (suffix-parent keywords base word table j b read k h) [
            | inl root ↦ rw (root, table.trie.sound.root) (suffix_nil _)
            | inr (p, e, end) ↦ best.covers p j (edge-within base p b j e) end e
          ];
        }

    all-IsComplete : (i : ℕ) → i < length base → IsComplete keywords base word table nodes i
    all-IsComplete i k = elim (Bool-cases (eqb i 0)) [
      | inl root ↦
          let e : i ≡ 0 = ground (arith, eqb_iff i 0) in
          subst (IsComplete keywords base word table nodes) (sym e)
            (root-IsComplete keywords base word table nodes)
      | inr deep ↦ (final.done i k (ground (arith, eqb_iff i 0))).complete
    ]

    -- Once the bytes of a keyword have been read, a terminal node has been met.
    match_from_found :
        (s b : ℕ) (read bs rest k : List ℕ)
        → IsAt s read
        → Marked k
        → IsSuffix k (read ++ (b ∷ bs))
        → match_from nodes s (b ∷ (bs ++ rest)) ≡ true
    unfolding match_from
    match_from_found s b read [] rest k a m h =
        let next = next_state (suc (length nodes)) nodes s b in
        let at = next_state-IsAt s b read a in
        let end : IsSuffix (word m.node) (read ++ b ∷ []) = rw m.spells h in
        rw
          (
            all-IsComplete next at.within m.node m.within m.mark (at.longest m.node m.within end),
            match_from,
          )
          refl
    match_from_found s b read (c ∷ cs) rest k a m h =
        let next = next_state (suc (length nodes)) nodes s b in
        let at = next_state-IsAt s b read a in
        elim (Bool-cases (node_at nodes next).terminal) [
          | inl found ↦ rw (found, match_from) refl
          | inr not_yet ↦
              rw (not_yet, match_from)
                (match_from_found next c (read ++ b ∷ []) cs rest k at m
                  (subst (IsSuffix k) (sym (append_assoc read (b ∷ []) (c ∷ cs))) h))
        ]

    start-IsAt : IsAt 0 []
    start-IsAt = record {
      within = table.trie.inhabited;
      ends = rw table.trie.sound.root (suffix_nil []);
      longest = λ j k h. rw table.trie.sound.root h;
    }

    match_from_read :
        (k read rest : List ℕ)
        → k ≢ []
        → Marked k
        → IsSuffix k read
        → match_from nodes 0 (read ++ rest) ≡ true
    match_from_read k [] rest n m (before, e) = absurd (n (append-empty before k e))
    match_from_read k (b ∷ bs) rest n m h = match_from_found 0 b [] bs rest k start-IsAt m h

match-from :
    (nodes : List AhoNode) (text : List ℕ)
    → 0 < length nodes
    → match nodes text ≡ match_from nodes 0 text
unfolding match
match-from [] text h = absurd (omega (arith, h))
match-from (n ∷ ns) text h = refl

module _ (order : ℕ → Edges → Edges) (keywords : List (List ℕ)) (ranges : IsRange order) where
  found_keyword :
      (ks : List (List ℕ)) (text : List ℕ)
      → All (IsSpelt keywords (add_keywords (blank ∷ []) keywords)) ks
      → OccursAny ks text
      → match (new_aho_matcher order keywords) text ≡ true
  unfolding new_aho_matcher
  found_keyword [] text h m = absurd m
  found_keyword (k ∷ ks) text h (inr m) = found_keyword ks text h.1 m
  found_keyword (k ∷ ks) text h (inl (n, (before, after, e))) =
      let base = add_keywords (blank ∷ []) keywords in
      let (word, table) = add_keywords-IsTable keywords in
      let final = build_failures-IsFinal keywords base word table order ranges in
      let marked =
        subst (Marked keywords base word table) (ap (λ w. w ++ k) table.trie.sound.root)
          (Spells-Marked keywords base word table 0 k (h.0 n)) in
      subst (λ t. match (new_aho_matcher order keywords) t ≡ true) e
        (match-from (build_failures order base) (before ++ k ++ after)
            (omega (arith, final.kept.same.size, table.trie.inhabited))
          ∙ match_from_read keywords base word table (build_failures order base) final k
              (before ++ k) after n marked (before, refl))

  -- For every order in which Go ranges over its maps, the matcher of some keywords matches a text
  -- exactly when a keyword that is not empty stands in the text.
  pub match_lem :
      (text : List ℕ)
      → (match (new_aho_matcher order keywords) text ≡ true) ↔ OccursAny keywords text
  match_lem text = (
    match-OccursAny order keywords text ranges,
    found_keyword keywords text (add_keywords-IsTable keywords).1.spelt,
  )
