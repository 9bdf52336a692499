-- ===== src/Rules/Aho/Children.antt =====
-- The loop of `buildFailures` of internal/rules/aho_matcher.go over the children of a node.
use policy_decision_service.Prelude.{
  ℕ, List, [], ◌∷◌, ◌≡◌, ◌≢◌, refl, sym, ap, ◌∙◌, subst, inl, inr, ◌≤◌, arith, length, All, Elem,
  Distinct,
}
use policy_decision_service.Rules.Aho.{Edges, AhoNode, node_at, link_child, link_children, targets}
use policy_decision_service.Rules.Aho.Links.{bytes}
use policy_decision_service.Rules.Aho.Growth.{IsTable}
use policy_decision_service.Rules.Aho.Nodes.{Step, Step-length, only_parent}
use policy_decision_service.Rules.Aho.Done.{IsDone, IsDone-same, IsKept, IsDoneTo}
use policy_decision_service.Rules.Aho.Linking.{link_child_other, link_child-IsKept, child-IsDone}

pub Elem-targets : (b c : ℕ) (es : Edges) → Elem (b, c) es → Elem c (targets es)
Elem-targets b c [] m = absurd m
Elem-targets b c ((b', c') ∷ es) (inl e) = inl (ap (λ x. x.1) e)
Elem-targets b c ((b', c') ∷ es) (inr m) = inr (Elem-targets b c es m)

module _ (keywords : List (List ℕ)) (base : List AhoNode) (word : ℕ → List ℕ)
    (table : IsTable keywords base word) (current : ℕ) where
  -- Entries that are edges of `current`.
  abbrev pub AreSteps : Edges → Type 0
  AreSteps es = All (λ (b, c). Step keywords base word table current b c) es

  pub target-Step :
      (c : ℕ) (es : Edges)
      → AreSteps es
      → Elem c (targets es)
      → (b : ℕ) × Elem b (bytes es) × Step keywords base word table current b c
  target-Step c [] h m = absurd m
  target-Step c ((b, c') ∷ es) h (inl e) =
      (b, inl refl, subst (λ x. Step keywords base word table current b x) (sym e) h.0)
  target-Step c ((b, c') ∷ es) h (inr m) = let (b', k, e) = target-Step c es h.1 m in (b', inr k, e)

  pub targets-Distinct : (es : Edges) → AreSteps es → Distinct (bytes es) → Distinct (targets es)
  targets-Distinct [] h d = tt
  targets-Distinct ((b, c) ∷ es) h d = (
    λ m.
        let (b', k, e) = target-Step c es h.1 m in
        d.0 (
          subst (λ x. Elem x (bytes es))
            (only_parent keywords base word table current b' current b c e h.0).1 k),
    targets-Distinct es h.1 d.1,
  )

  -- What the loop leaves behind.
  pub record Linked (nodes after : List AhoNode) (es : Edges) : Type 0 where
    pub kept : IsKept keywords base word table after
    pub others : (j : ℕ) → ¬ Elem j (targets es) → node_at after j ≡ node_at nodes j
    pub done : (c : ℕ) → Elem c (targets es) → IsDone keywords base word table after c

  longer-ne :
      (b c i : ℕ)
      → Step keywords base word table current b c
      → length (word i) ≤ length (word current)
      → i ≢ c
  longer-ne b c i e h x =
      omega
        (arith, h, Step-length keywords base word table current b c e, ap (λ j. length (word j)) x)

  pub link_children-Linked :
      current ≢ 0
      → (nodes : List AhoNode) (es : Edges) → AreSteps es
      → Distinct (targets es)
      → IsKept keywords base word table nodes
      → IsDoneTo keywords base word table (length (word current)) nodes
      → ((c : ℕ) → Elem c (targets es) → (node_at nodes c).fail ≡ 0)
      → Linked nodes (link_children nodes current es) es
  unfolding link_children
  link_children-Linked inner nodes [] h d kept done fresh = record {
    kept = kept;
    others = λ j n. refl;
    done = λ c m. absurd m;
  }
  link_children-Linked inner nodes ((b, child) ∷ es) h d kept done fresh =
      let first = link_child nodes current b child in
      let other = link_child_other keywords base word table current inner nodes b child h.0 kept in
      let here =
        child-IsDone keywords base word table current inner nodes b child h.0 kept done
          (fresh child (inl refl)) in
      let l =
        link_children-Linked inner first es h.1 d.1
          (link_child-IsKept keywords base word table current inner nodes b child h.0 kept)
          (record {
            links = λ i k n q.
                (IsDone-same keywords base word table nodes first i
                  (other i (longer-ne b child i h.0 q))
                  (record { link = done.links i k n q; complete = done.completes i k q })).link;
            completes = λ i k q m x t s.
                ap (λ n. n.terminal) (other i (longer-ne b child i h.0 q))
                ∙ done.completes i k q m x t s;
          })
          (λ c m.
            ap (λ n. n.fail) (other c (λ e. d.0 (subst (λ x. Elem x (targets es)) e m)))
            ∙ fresh c (inr m)) in
      record {
        kept = l.kept;
        others = λ j n. l.others j (λ m. n (inr m)) ∙ other j (λ e. n (inl e));
        done = λ c m. elim m [
          | inl e ↦
              subst (IsDone keywords base word table (link_children first current es)) (sym e) (
                IsDone-same keywords base word table first (link_children first current es) child
                  (l.others child d.0) here)
          | inr k ↦ l.done c k
        ];
      }
