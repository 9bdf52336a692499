-- ===== src/Rules/Aho.antt =====
-- internal/rules/aho_matcher.go: the Aho-Corasick automaton over bytes. Nodes are named by their
-- index. A node's `next` is an association list without order; `order` is the sequence in which
-- the one `range` over the map of a node takes its entries, which Go leaves open. The loops that
-- follow `fail` recur on fuel: the failure links lead to nodes that are less deep, so a chain is
-- never longer than the number of nodes.
pub mod Words
pub mod Trie
pub mod Links
pub mod Soundness
pub mod Spelling
pub mod Tree
pub mod Growth
pub mod Nodes
pub mod Steps
pub mod Done
pub mod Linking
pub mod Children
pub mod Search
pub mod Queue
pub mod Start
pub mod Correctness
use policy_decision_service.Prelude.{
  ℕ, zero, suc, Bool, true, false, ◌||◌, List, [], ◌∷◌, ◌++◌, Option, some, none, eqb, length,
  if◌then◌else◌,
}

abbrev pub Edges : Type 0
Edges = List (ℕ × ℕ)

pub record AhoNode : Type 0 where
  pub next : Edges
  pub fail : ℕ
  pub terminal : Bool

abbrev pub blank : AhoNode
blank = record { next = []; fail = 0; terminal = false }

-- `next, ok := node.next[b]`
unfoldable pub edge : ℕ → Edges → Option ℕ
edge b [] = none
edge b ((c, n) ∷ es) = if eqb c b then some n else edge b es

-- `m.nodes[i]`; the code never reads past the end.
unfoldable pub node_at : List AhoNode → ℕ → AhoNode
node_at [] i = blank
node_at (n ∷ ns) zero = n
node_at (n ∷ ns) (suc i) = node_at ns i

unfoldable pub set_node : List AhoNode → ℕ → AhoNode → List AhoNode
set_node [] i v = []
set_node (n ∷ ns) zero v = v ∷ ns
set_node (n ∷ ns) (suc i) v = n ∷ set_node ns i v

-- One byte of a keyword: the node reached, and the nodes with it.
unfoldable pub add_byte : List AhoNode → ℕ → ℕ → ℕ × List AhoNode
unfolding edge node_at set_node
add_byte nodes node b = elim (edge b (node_at nodes node).next) [
  | some next ↦ (next, nodes)
  | none ↦
      let next = length nodes in
      let grown = nodes ++ blank ∷ [] in
      let parent = node_at grown node in
      (next, set_node grown node (record parent { next = (b, next) ∷ parent.next }))
]

-- The loop over the bytes of a keyword, and the mark at its end.
unfoldable pub add_bytes : List AhoNode → ℕ → List ℕ → List AhoNode
unfolding add_byte node_at set_node
add_bytes nodes node [] = set_node nodes node (record (node_at nodes node) { terminal = true })
add_bytes nodes node (b ∷ bs) = let (next, grown) = add_byte nodes node b in add_bytes grown next bs

unfoldable pub add_keyword : List AhoNode → List ℕ → List AhoNode
unfolding add_bytes
add_keyword nodes [] = nodes
add_keyword nodes (b ∷ bs) = add_bytes nodes 0 (b ∷ bs)

unfoldable pub add_keywords : List AhoNode → List (List ℕ) → List AhoNode
unfolding add_keyword
add_keywords nodes [] = nodes
add_keywords nodes (k ∷ ks) = add_keywords (add_keyword nodes k) ks

-- The link of a child whose parent's link chain has ended at the root.
unfoldable pub root_link : List AhoNode → ℕ → ℕ → Option ℕ
unfolding edge node_at
root_link nodes b child = elim (edge b (node_at nodes 0).next) [
  | none ↦ none
  | some fallback ↦ if eqb fallback child then none else some fallback
]

-- The loop `for fail != 0` and what follows it: the new failure link, if one is set.
unfoldable pub find_link : ℕ → List AhoNode → ℕ → ℕ → ℕ → Option ℕ
unfolding root_link edge node_at
find_link zero nodes fail b child = none
find_link (suc fuel) nodes fail b child =
    let here = edge b (node_at nodes fail).next in
    let rest = find_link fuel nodes (node_at nodes fail).fail b child in
    if eqb fail 0
    then root_link nodes b child
    else elim here [ some fallback ↦ some fallback | none ↦ rest ]

abbrev pub with_link : AhoNode → Option ℕ → AhoNode
with_link n none = n
with_link n (some f) = record n { fail = f }

-- The body of the loop over the edges of `current`, but for the queue.
unfoldable pub link_child : List AhoNode → ℕ → ℕ → ℕ → List AhoNode
unfolding find_link node_at set_node
link_child nodes current b child =
    let link = find_link (suc (length nodes)) nodes (node_at nodes current).fail b child in
    let linked = with_link (node_at nodes child) link in
    let terminal =
      linked.terminal || (node_at (set_node nodes child linked) linked.fail).terminal in
    set_node nodes child (record linked { terminal = terminal })

unfoldable pub link_children : List AhoNode → ℕ → Edges → List AhoNode
unfolding link_child
link_children nodes current [] = nodes
link_children nodes current ((b, child) ∷ es) =
    link_children (link_child nodes current b child) current es

abbrev pub targets : Edges → List ℕ
targets [] = []
targets ((b, child) ∷ es) = child ∷ targets es

module _ (order : ℕ → Edges → Edges) where
  -- The loop over the queue; `pending` is what stands behind `head`.
  unfoldable pub link_all : ℕ → List AhoNode → List ℕ → List AhoNode
  unfolding link_children node_at
  link_all zero nodes pending = nodes
  link_all (suc fuel) nodes [] = nodes
  link_all (suc fuel) nodes (current ∷ pending) =
      let es = order current (node_at nodes current).next in
      link_all fuel (link_children nodes current es) (pending ++ targets es)

  -- `buildFailures`; the children of the root keep the link 0.
  unfoldable pub build_failures : List AhoNode → List AhoNode
  unfolding link_all node_at
  build_failures nodes = link_all (length nodes) nodes (targets (order 0 (node_at nodes 0).next))

  -- `newAhoMatcher`
  unfoldable pub new_aho_matcher : List (List ℕ) → List AhoNode
  unfolding add_keywords build_failures
  new_aho_matcher keywords = build_failures (add_keywords (blank ∷ []) keywords)

-- `nextState`
unfoldable pub next_state : ℕ → List AhoNode → ℕ → ℕ → ℕ
unfolding edge node_at
next_state zero nodes state b = 0
next_state (suc fuel) nodes state b =
    let rest = next_state fuel nodes (node_at nodes state).fail b in
    elim (edge b (node_at nodes state).next) [
      | some next ↦ next
      | none ↦ if eqb state 0 then 0 else rest
    ]

-- The loop of `match`.
unfoldable pub match_from : List AhoNode → ℕ → List ℕ → Bool
unfolding next_state node_at
match_from nodes state [] = false
match_from nodes state (b ∷ bs) =
    let next = next_state (suc (length nodes)) nodes state b in
    let rest = match_from nodes next bs in if (node_at nodes next).terminal then true else rest

-- `match`
unfoldable pub match : List AhoNode → List ℕ → Bool
unfolding match_from
match [] value = false
match (n ∷ ns) value = match_from (n ∷ ns) 0 value
