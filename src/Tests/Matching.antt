-- ===== src/Tests/Matching.antt =====
-- A keyword rule of two keywords on a title, with a map that is ranged over in the order of its
-- newest entries.
use policy_decision_service.Prelude.{
  String, ℕ, true, false, List, [], ◌∷◌, some, ◌≡◌, ◌≢◌, refl, ap, ◌∙◌, ◌↔◌, inl, inr, All, Elem,
  Distinct, ok, eqb, eqb_iff, if◌then◌else◌, Bool-cases, arith,
}
use policy_decision_service.Prelude.Text.{trim_space}
use policy_decision_service.Telemetry.{poll}
use policy_decision_service.Rules.Action.{validate, KeywordRuleConfig}
use policy_decision_service.Rules.Aho.{Edges, edge, new_aho_matcher, match}
use policy_decision_service.Rules.Aho.Links.{bytes, RangesOver, IsRange}
use policy_decision_service.Rules.Aho.Soundness.{OccursAny}
use policy_decision_service.Rules.Aho.Correctness.{match_lem}
use policy_decision_service.Rules.Keyword.{
  KeywordRule, normalize_keywords, new_keyword_rule, evaluate_keyword,
}
use policy_decision_service.Rules.Keyword.Meaning.{IsField, Looks, evaluate_keyword_lem}
use policy_decision_service.Tests.Data.{host, world, state, block_action}

-- The entries but those of `b`.
abbrev drop_byte : ℕ → Edges → Edges
drop_byte b [] = []
drop_byte b ((b', c) ∷ es) = if eqb b' b then drop_byte b es else (b', c) ∷ drop_byte b es

-- The entries of the map, without the older ones of a byte.
abbrev newest : Edges → Edges
newest [] = []
newest ((b, c) ∷ es) = (b, c) ∷ drop_byte b (newest es)

abbrev order : ℕ → Edges → Edges
order i es = newest es

drop_byte-missing : (b : ℕ) (es : Edges) → ¬ Elem b (bytes (drop_byte b es))
drop_byte-missing b [] m = m
drop_byte-missing b ((b', c) ∷ es) m = elim (Bool-cases (eqb b' b)) [
  | inl same ↦ drop_byte-missing b es (rw same at m)
  | inr other ↦ ground (arith, rw other at m, drop_byte-missing b es, eqb_iff b' b)
]

drop_byte-subset : (b x : ℕ) (es : Edges) → Elem x (bytes (drop_byte b es)) → Elem x (bytes es)
drop_byte-subset b x [] m = m
drop_byte-subset b x ((b', c) ∷ es) m = elim (Bool-cases (eqb b' b)) [
  | inl same ↦ inr (drop_byte-subset b x es (rw same at m))
  | inr other ↦ ground (arith, rw other at m, drop_byte-subset b x es)
]

drop_byte-Distinct : (b : ℕ) (es : Edges) → Distinct (bytes es) → Distinct (bytes (drop_byte b es))
drop_byte-Distinct b [] d = tt
drop_byte-Distinct b ((b', c) ∷ es) d = elim (Bool-cases (eqb b' b)) [
  | inl same ↦ rw same (drop_byte-Distinct b es d.1)
  | inr other ↦ rw other ((λ m. d.0 (drop_byte-subset b b' es m)), drop_byte-Distinct b es d.1)
]

drop_byte-Elem :
    (b b' c : ℕ) (es : Edges) → b' ≢ b → Elem (b', c) es → Elem (b', c) (drop_byte b es)
drop_byte-Elem b b' c [] n m = m
drop_byte-Elem b b' c ((x, y) ∷ es) n (inl e) =
    let f : x ≢ b = λ g. n (ap (λ z. z.0) e ∙ g) in
    let t : eqb x b ≡ false = ground (arith, eqb_iff x b) in rw t (inl e)
drop_byte-Elem b b' c ((x, y) ∷ es) n (inr m) = elim (Bool-cases (eqb x b)) [
  | inl same ↦ rw same (drop_byte-Elem b b' c es n m)
  | inr other ↦ rw other (inr (drop_byte-Elem b b' c es n m))
]

-- Entries of `es` other than those of `b` are entries of the map with `b` put in front.
drop_byte-entries :
    (b c : ℕ) (es rest : Edges)
    → All (λ (b', c'). edge b' es ≡ some c') rest
    → All (λ (b', c'). edge b' ((b, c) ∷ es) ≡ some c') (drop_byte b rest)
unfolding edge
drop_byte-entries b c es [] h = tt
drop_byte-entries b c es ((b', c') ∷ rest) h = elim (Bool-cases (eqb b' b)) [
  | inl same ↦ rw same (drop_byte-entries b c es rest h.1)
  | inr other ↦
      let t : eqb b b' ≡ false = ground (arith, eqb_iff b b', eqb_iff b' b) in
      rw (other, t) (h.0, drop_byte-entries b c es rest h.1)
]

newest-RangesOver : (es : Edges) → RangesOver es (newest es)
unfolding edge
newest-RangesOver [] = record { entries = tt; once = tt; whole = λ b c h. cc }
newest-RangesOver ((b, c) ∷ es) =
    let r = newest-RangesOver es in
    let own : eqb b b ≡ true = ground (arith, eqb_iff b b) in
    record {
      entries = (rw (own, edge) refl, drop_byte-entries b c es (newest es) r.entries);
      once = (drop_byte-missing b (newest es), drop_byte-Distinct b (newest es) r.once);
      whole = λ b' c' h. elim (Bool-cases (eqb b b')) [
        | inl same ↦
            let e : b' ≡ b = ground (arith, eqb_iff b b') in
            let f : c' ≡ c = ground (arith, rw (same, edge) at h) in inl (rw (e, f) refl)
        | inr other ↦
            let n : b' ≢ b = ground (arith, eqb_iff b b') in
            inr (drop_byte-Elem b b' c' (newest es) n (r.whole b' c' (rw (other, edge) at h)))
      ];
    }

order-IsRange : IsRange order
order-IsRange i es = newest-RangesOver es

-- The bytes of "ushers", and the keywords "he", "she", "".
abbrev keywords : List (List ℕ)
keywords = (104 ∷ 101 ∷ []) ∷ (115 ∷ 104 ∷ 101 ∷ []) ∷ [] ∷ []

abbrev ushers : List ℕ
ushers = 117 ∷ 115 ∷ 104 ∷ 101 ∷ 114 ∷ 115 ∷ []

match_lem_example :
    (match (new_aho_matcher order keywords) ushers ≡ true) ↔ OccursAny keywords ushers
match_lem_example = match_lem order keywords order-IsRange ushers

abbrev keyword_config : KeywordRuleConfig
keyword_config = record {
  id = "k";
  field = "content.title";
  keywords = " T " ∷ "" ∷ [];
  on_match = block_action;
}

abbrev keyword_rule_made : KeywordRule
keyword_rule_made = record {
  id = "k";
  field = "content.title";
  matcher = new_aho_matcher order (normalize_keywords (λ c. c) (" T " ∷ "" ∷ []));
  on_match = block_action;
}

made : new_keyword_rule (λ c. c) order keyword_config ≡ ok keyword_rule_made
unfolding new_keyword_rule validate trim_space
made = refl

evaluate_keyword_lem_example :
    (value : String) × IsField state.request "content.title" value
    × Looks
        (λ c. c)
        keyword_config
        value
        (poll host world).1
        (evaluate_keyword (λ c. c) host keyword_rule_made state world)
evaluate_keyword_lem_example =
    evaluate_keyword_lem (λ c. c) host order keyword_config keyword_rule_made state world
      order-IsRange made refl
