-- ===== src/Rules/Aho/Done.antt =====
-- When the failure link and the mark of a node of internal/rules/aho_matcher.go are right.
use policy_decision_service.Prelude.{ℕ, true, List, ◌≡◌, ◌<◌, ◌≤◌, length}
use policy_decision_service.Rules.Aho.{AhoNode, node_at}
use policy_decision_service.Rules.Aho.Words.{IsSuffix}
use policy_decision_service.Rules.Aho.Trie.{IsSound}
use policy_decision_service.Rules.Aho.Tree.{SameEdges}
use policy_decision_service.Rules.Aho.Growth.{IsTable}
use policy_decision_service.Rules.Aho.Nodes.{}
use policy_decision_service.Rules.Aho.Steps.{IsLongest, LinkedTo}

module _ (keywords : List (List ℕ)) (base : List AhoNode) (word : ℕ → List ℕ)
    (table : IsTable keywords base word) where
  -- A node is marked if a keyword of the tree ends its word.
  abbrev pub IsComplete : List AhoNode → ℕ → Type 0
  IsComplete nodes i =
      (m : ℕ)
      → m < length base
      → (node_at base m).terminal ≡ true
      → IsSuffix (word m) (word i)
      → (node_at nodes i).terminal ≡ true

  pub record IsDone (nodes : List AhoNode) (i : ℕ) : Type 0 where
    pub link : IsLongest keywords base word table nodes i
    pub complete : IsComplete nodes i

  pub IsDone-same :
      (nodes other : List AhoNode) (i : ℕ)
      → node_at other i ≡ node_at nodes i
      → IsDone nodes i
      → IsDone other i
  IsDone-same nodes other i e d = record {
    link = record {
      within = rw e d.link.within;
      shorter = rw e d.link.shorter;
      suffix = rw e d.link.suffix;
      longest = λ j k s n. rw e (d.link.longest j k s n);
    };
    complete = λ m k t s. rw e (d.complete m k t s);
  }

  -- What no link changes.
  pub record IsKept (nodes : List AhoNode) : Type 0 where
    pub same : SameEdges base nodes
    pub sound : IsSound keywords nodes word
    pub marks : (i : ℕ) → (node_at base i).terminal ≡ true → (node_at nodes i).terminal ≡ true

  -- The nodes with words of at most `n` bytes are done.
  pub record IsDoneTo (n : ℕ) (nodes : List AhoNode) : Type 0 where
    pub links : LinkedTo keywords base word table n nodes
    pub completes : (i : ℕ) → i < length base → length (word i) ≤ n → IsComplete nodes i
