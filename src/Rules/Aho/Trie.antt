-- ===== src/Rules/Aho/Trie.antt =====
-- The nodes that `newAhoMatcher` of internal/rules/aho_matcher.go makes before `buildFailures`.
use policy_decision_service.Prelude.{
  ℕ, true, List, [], ◌∷◌, ◌++◌, some, ◌≡◌, ◌≢◌, refl, sym, ap, ◌∙◌, subst, inl, inr, ◌<◌, arith,
  eqb, length, length-append, Elem, Option-cases, if◌then◌else◌,
}
use policy_decision_service.Rules.Aho.{AhoNode, blank, edge, node_at, set_node, add_byte}
use policy_decision_service.Rules.Aho.Words.{
  IsSuffix, suffix_nil, Finished, node_at-append_blank, node_at-set_node, length-set_node,
  edge-within, terminal-within, edge-cons,
}

module _ (keywords : List (List ℕ)) where
  -- `word` gives each node the bytes that lead to it: an edge adds its byte, a failure link leads
  -- to an end of the word, and the word of a terminal node ends with a keyword.
  pub record IsSound (nodes : List AhoNode) (word : ℕ → List ℕ) : Type 0 where
    pub root : word 0 ≡ []
    pub edges : (i b c : ℕ) → edge b (node_at nodes i).next ≡ some c → word c ≡ word i ++ b ∷ []
    pub fails : (i : ℕ) → IsSuffix (word (node_at nodes i).fail) (word i)
    pub ends : (i : ℕ) → (node_at nodes i).terminal ≡ true → Finished keywords (word i)

  -- Before `buildFailures` the failure links are all to the root.
  pub record IsTrie (nodes : List AhoNode) (word : ℕ → List ℕ) : Type 0 where
    pub sound : IsSound nodes word
    pub within : (i b c : ℕ) → edge b (node_at nodes i).next ≡ some c → c < length nodes
    pub unlinked : (i : ℕ) → (node_at nodes i).fail ≡ 0
    pub inhabited : 0 < length nodes

  abbrev word_with : List AhoNode → (ℕ → List ℕ) → List ℕ → ℕ → List ℕ
  word_with nodes word new i = if eqb i (length nodes) then new else word i

  word_with-old :
      (nodes : List AhoNode) (word : ℕ → List ℕ) (new : List ℕ) (i : ℕ)
      → i < length nodes
      → word_with nodes word new i ≡ word i
  word_with-old nodes word new i h = ground (arith, h)

  word_with-new :
      (nodes : List AhoNode) (word : ℕ → List ℕ) (new : List ℕ)
      → word_with nodes word new (length nodes) ≡ new
  word_with-new nodes word new = ground arith

  -- A blank node may stand for any word.
  append_blank-IsTrie :
      (nodes : List AhoNode) (word : ℕ → List ℕ) (new : List ℕ)
      → IsTrie nodes word
      → IsTrie (nodes ++ blank ∷ []) (word_with nodes word new)
  append_blank-IsTrie nodes word new t =
      let same = node_at-append_blank nodes in
      let old = word_with-old nodes word new in
      record {
        sound = record {
          root = old 0 t.inhabited ∙ t.sound.root;
          edges = λ i b c h.
              let h' : edge b (node_at nodes i).next ≡ some c = rw (same i) at h in
              old c (t.within i b c h')
              ∙ t.sound.edges i b c h'
              ∙ ap (λ w. w ++ b ∷ []) (sym (old i (edge-within nodes i b c h')));
          fails = λ i. rw (same i, t.unlinked i, old 0 t.inhabited, t.sound.root) (suffix_nil _);
          ends = λ i h.
              let h' : (node_at nodes i).terminal ≡ true = rw (same i) at h in
              subst (Finished keywords) (sym (old i (terminal-within nodes i h')))
                (t.sound.ends i h');
        };
        within = λ i b c h.
            omega (arith, length-append nodes (blank ∷ []), t.within i b c (rw (same i) at h));
        unlinked = λ i. ap (λ n. n.fail) (same i) ∙ t.unlinked i;
        inhabited = omega (arith, length-append nodes (blank ∷ []));
      }

  -- An assignment to a node keeps the table sound if the new node is.
  pub set_node-IsSound :
      (nodes : List AhoNode) (word : ℕ → List ℕ) (i : ℕ) (v : AhoNode)
      → IsSound nodes word
      → ((b c : ℕ) → edge b v.next ≡ some c → word c ≡ word i ++ b ∷ [])
      → IsSuffix (word v.fail) (word i)
      → (v.terminal ≡ true → Finished keywords (word i))
      → IsSound (set_node nodes i v) word
  set_node-IsSound nodes word i v s edges fails ends = record {
    root = s.root;
    edges = λ j b c h. elim (node_at-set_node nodes i j v) [
      | inl (e, f) ↦ rw e (edges b c (rw f at h))
      | inr f ↦ s.edges j b c (rw f at h)
    ];
    fails = λ j. elim (node_at-set_node nodes i j v) [
      | inl (e, f) ↦ rw (f, e) fails
      | inr f ↦ rw f (s.fails j)
    ];
    ends = λ j h. elim (node_at-set_node nodes i j v) [
      | inl (e, f) ↦ rw e (ends (rw f at h))
      | inr f ↦ s.ends j (rw f at h)
    ];
  }

  add_edge-IsTrie :
      (nodes : List AhoNode) (word : ℕ → List ℕ) (i b c : ℕ)
      → IsTrie nodes word
      → c < length nodes
      → word c ≡ word i ++ b ∷ []
      → IsTrie
          (set_node nodes i (record (node_at nodes i) { next = (b, c) ∷ (node_at nodes i).next }))
          word
  add_edge-IsTrie nodes word i b c t k e =
      let n = node_at nodes i in
      let v : AhoNode = record n { next = (b, c) ∷ n.next } in
      record {
        sound =
            set_node-IsSound nodes word i v t.sound
              (λ b' d h. elim (edge-cons b' b c d n.next h) [
                | inl (eb, ed) ↦ rw (eb, ed) e
                | inr h' ↦ t.sound.edges i b' d h'
              ])
              (t.sound.fails i) (t.sound.ends i);
        within = λ j b' d h. rw (length-set_node nodes i v) (elim (node_at-set_node nodes i j v) [
          | inl (ej, f) ↦ elim (edge-cons b' b c d n.next (rw f at h)) [
            | inl (eb, ed) ↦ rw ed k
            | inr h' ↦ t.within i b' d h'
          ]
          | inr f ↦ t.within j b' d (rw f at h)
        ]);
        unlinked = λ j. elim (node_at-set_node nodes i j v) [
          | inl (ej, f) ↦ rw f (t.unlinked i)
          | inr f ↦ rw f (t.unlinked j)
        ];
        inhabited = rw (length-set_node nodes i v) t.inhabited;
      }

  -- A step along a byte leads to a node of the trie for the longer word.
  pub record Stepped (old : List ℕ) (b : ℕ) (o : ℕ × List AhoNode) : Type 0 where
    pub word : ℕ → List ℕ
    pub trie : IsTrie o.1 word
    pub within : o.0 < length o.1
    pub spells : word o.0 ≡ old ++ b ∷ []

  pub add_byte-Stepped :
      (nodes : List AhoNode) (word : ℕ → List ℕ) (i b : ℕ)
      → IsTrie nodes word
      → i < length nodes
      → Stepped (word i) b (add_byte nodes i b)
  unfolding add_byte
  add_byte-Stepped nodes word i b t k = elim (Option-cases (edge b (node_at nodes i).next)) [
    | inr (c, there) ↦
        rw (there, add_byte)
          (record {
            word = word;
            trie = t;
            within = t.within i b c there;
            spells = t.sound.edges i b c there;
          })
    | inl missing ↦
        let new = word i ++ b ∷ [] in
        let grown = nodes ++ blank ∷ [] in
        let n = node_at grown i in
        let v : AhoNode = record n { next = (b, length nodes) ∷ n.next } in
        let spelt =
          word_with-new nodes word new
          ∙ ap (λ w. w ++ b ∷ []) (sym (word_with-old nodes word new i k)) in
        rw (missing, add_byte)
          (record {
            word = word_with nodes word new;
            trie =
                add_edge-IsTrie grown (word_with nodes word new) i b (length nodes)
                  (append_blank-IsTrie nodes word new t)
                  (omega (arith, length-append nodes (blank ∷ []))) spelt;
            within = omega (arith, length-append nodes (blank ∷ []), length-set_node grown i v);
            spells = word_with-new nodes word new;
          })
  ]

  -- The end of a keyword that is not empty may be marked.
  pub mark-IsTrie :
      (nodes : List AhoNode) (word : ℕ → List ℕ) (i : ℕ)
      → IsTrie nodes word
      → Finished keywords (word i)
      → IsTrie (set_node nodes i (record (node_at nodes i) { terminal = true })) word
  mark-IsTrie nodes word i t ends =
      let n = node_at nodes i in
      let v : AhoNode = record n { terminal = true } in
      record {
        sound =
            set_node-IsSound nodes word i v t.sound (t.sound.edges i) (t.sound.fails i) (λ h. ends);
        within = λ j b' d h. rw (length-set_node nodes i v) (elim (node_at-set_node nodes i j v) [
          | inl (ej, f) ↦ t.within i b' d (rw f at h)
          | inr f ↦ t.within j b' d (rw f at h)
        ]);
        unlinked = λ j. elim (node_at-set_node nodes i j v) [
          | inl (ej, f) ↦ rw f (t.unlinked i)
          | inr f ↦ rw f (t.unlinked j)
        ];
        inhabited = rw (length-set_node nodes i v) t.inhabited;
      }

  pub Elem-Finished : (k : List ℕ) (ks : List (List ℕ)) → k ≢ [] → Elem k ks → Finished ks k
  Elem-Finished k [] n m = absurd m
  Elem-Finished k (j ∷ ks) n (inl e) = inl (subst (λ l. (l ≢ []) × IsSuffix l k) e (n, ([], refl)))
  Elem-Finished k (j ∷ ks) n (inr m) = inr (Elem-Finished k ks n m)

  pub blank-IsTrie : IsTrie (blank ∷ []) (λ i. [])
  unfolding node_at edge
  blank-IsTrie =
      let same : (i : ℕ) → node_at (blank ∷ []) i ≡ blank = λ i. node_at-append_blank [] i in
      record {
        sound = record {
          root = refl;
          edges = λ i b c h. cc (rw (same i) at h);
          fails = λ i. suffix_nil [];
          ends = λ i h. cc (rw (same i) at h);
        };
        within = λ i b c h. cc (rw (same i) at h);
        unlinked = λ i. ap (λ n. n.fail) (same i);
        inhabited = omega arith;
      }
