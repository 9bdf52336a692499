-- ===== src/Rules/Aho/Search.antt =====
-- The queue of `buildFailures` of internal/rules/aho_matcher.go: a search in the order of depth.
use policy_decision_service.Prelude.{
  ℕ, zero, suc, true, List, [], ◌∷◌, ◌++◌, ◌≡◌, ◌≢◌, refl, sym, ap, subst, ◌⊎◌, inl, inr, ◌<◌, ◌≤◌,
  arith, length, All, All-append, Any-append_right, Any-append_cases, All-at, All-of_Elem, Elem,
  Distinct, eqb, eqb_iff, Bool-cases,
}
use policy_decision_service.Rules.Aho.{AhoNode, node_at}
use policy_decision_service.Rules.Aho.Words.{IsSuffix, Finished, edge-within}
use policy_decision_service.Rules.Aho.Growth.{IsTable}
use policy_decision_service.Rules.Aho.Nodes.{Step, Step-length, suffix-root, append-empty}
use policy_decision_service.Rules.Aho.Done.{IsComplete, IsDone, IsKept}
use policy_decision_service.Rules.Aho.Children.{}

pub Distinct-append :
    (xs ys : List ℕ)
    → Distinct xs
    → Distinct ys
    → ((y : ℕ) → Elem y ys → ¬ Elem y xs)
    → Distinct (xs ++ ys)
Distinct-append [] ys d e h = e
Distinct-append (x ∷ xs) ys d e h = (
  λ m. elim (Any-append_cases (λ y. x ≡ y) xs ys m) [ inl k ↦ d.0 k | inr k ↦ h x k (inl refl) ],
  Distinct-append xs ys d.1 e (λ y k l. h y k (inr l)),
)

pub Distinct-middle : (xs : List ℕ) (x : ℕ) (ys : List ℕ) → Distinct (xs ++ x ∷ ys) → ¬ Elem x xs
Distinct-middle [] x ys d m = m
Distinct-middle (y ∷ xs) x ys d (inl e) =
    d.0 (Any-append_right (λ z. y ≡ z) xs (x ∷ ys) (inl (sym e)))
Distinct-middle (y ∷ xs) x ys d (inr m) = Distinct-middle xs x ys d.1 m

module _ (word : ℕ → List ℕ) where
  -- No entry is less deep than an earlier one, nor deeper by more than one.
  abbrev pub IsSorted : List ℕ → Type 0
  IsSorted [] = Unit
  IsSorted (x ∷ xs) =
      All (λ y. (length (word x) ≤ length (word y)) × (length (word y) ≤ suc (length (word x)))) xs
      × IsSorted xs

  pub IsSorted-append :
      (n : ℕ) (xs ys : List ℕ)
      → IsSorted xs
      → All (λ x. (n ≤ length (word x)) × (length (word x) ≤ suc n)) xs
      → All (λ y. length (word y) ≡ suc n) ys
      → IsSorted (xs ++ ys)
  IsSorted-append n [] [] s h k = tt
  IsSorted-append n [] (y ∷ ys) s h k = (
    All-of_Elem _ ys (λ z m.
        let e = All-at (λ y. length (word y) ≡ suc n) z ys k.1 m in
        (omega (arith, e, k.0), omega (arith, e, k.0))),
    IsSorted-append n [] ys s h k.1,
  )
  IsSorted-append n (x ∷ xs) ys s h k = (
    All-append _ xs ys s.0 (
        All-of_Elem _ ys (λ z m.
          let e = All-at (λ y. length (word y) ≡ suc n) z ys k m in
          (omega (arith, e, h.0.0, h.0.1), omega (arith, e, h.0.0, h.0.1)))),
    IsSorted-append n xs ys s.1 h.1 k,
  )

module _ (keywords : List (List ℕ)) (base : List AhoNode) (word : ℕ → List ℕ)
    (table : IsTable keywords base word) where
  -- The search has put the nodes `queue` in the queue and taken `done` from it.
  pub record Searched (nodes : List AhoNode) (done pending queue : List ℕ) : Type 0 where
    pub kept : IsKept keywords base word table nodes
    pub split : queue ≡ done ++ pending
    pub distinct : Distinct queue
    pub inside : (c : ℕ) → Elem c queue → (c < length base) × (c ≢ 0)
    pub parents :
        (p b c : ℕ) → Elem c queue → Step keywords base word table p b c → (p ≡ 0) ⊎ Elem p done
    pub children :
        (p b c : ℕ) → (p ≡ 0) ⊎ Elem p done → Step keywords base word table p b c → Elem c queue
    pub sorted : IsSorted word pending
    pub finished : (c : ℕ) → Elem c queue → IsDone keywords base word table nodes c
    pub fresh : (c : ℕ) → ¬ Elem c queue → (node_at nodes c).fail ≡ 0

  -- Every node but the root is done.
  pub record IsFinal (nodes : List AhoNode) : Type 0 where
    pub kept : IsKept keywords base word table nodes
    pub done : (i : ℕ) → i < length base → i ≢ 0 → IsDone keywords base word table nodes i

  -- The root ends no keyword.
  pub root-unmarked : (node_at base 0).terminal ≢ true
  root-unmarked h =
      no_end keywords (subst (Finished keywords) table.trie.sound.root (table.trie.sound.ends 0 h))
    where
      no_end : (ks : List (List ℕ)) → ¬ Finished ks []
      no_end [] m = m
      no_end (k ∷ ks) (inl (n, (before, e))) = n (append-empty before k e)
      no_end (k ∷ ks) (inr m) = no_end ks m

  -- The root is complete, since no keyword ends its word.
  pub root-IsComplete : (nodes : List AhoNode) → IsComplete keywords base word table nodes 0
  root-IsComplete nodes m k t s =
      let at_root =
        suffix-root keywords base word table m k
          (subst (IsSuffix (word m)) table.trie.sound.root s) in
      absurd (root-unmarked (rw at_root at t))

  -- A node that is no deeper than the next one to be taken has been put in the queue.
  pub reached :
      (nodes : List AhoNode) (done pending queue : List ℕ) (current : ℕ)
      → Searched nodes done (current ∷ pending) queue
      → (bound i : ℕ) → i < bound
      → i < length base
      → i ≢ 0
      → length (word i) ≤ length (word current)
      → Elem i queue
  reached nodes done pending queue current s zero i k l n q = absurd (omega (arith, k))
  reached nodes done pending queue current s (suc bound) i k l n q = elim (table.tree.parents i l) [
    | inl root ↦ absurd (n root)
    | inr (p, b, e) ↦ elim (Bool-cases (eqb p 0)) [
      | inl root ↦ s.children p b i (inl (ground (arith, eqb_iff p 0))) e
      | inr deep ↦
          let longer = Step-length keywords base word table p b i e in
          let m =
            reached nodes done pending queue current s bound p
              (omega (arith, k, table.tree.ascends p b i e)) (edge-within base p b i e)
              (ground (arith, eqb_iff p 0)) (omega (arith, q, longer)) in
          elim (Any-append_cases (λ y. p ≡ y) done (current ∷ pending) (subst (Elem p) s.split m)) [
            | inl taken ↦ s.children p b i (inr taken) e
            | inr (inl same) ↦ absurd (omega (arith, q, longer, ap (λ x. length (word x)) same))
            | inr (inr later) ↦
                absurd (omega (arith, q, longer, (All-at _ p pending s.sorted.0 later).0))
          ]
    ]
  ]
