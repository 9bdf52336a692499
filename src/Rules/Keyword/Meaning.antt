-- ===== src/Rules/Keyword/Meaning.antt =====
-- What the rule of internal/rules/keyword.go decides, from the matcher's theorem.
use policy_decision_service.Prelude.{
  ℕ, String, Bool, true, false, eq_iff, not, ◌&&◌, List, [], ◌∷◌, none, ◌≡◌, ◌≢◌, refl, sym, ap,
  subst, ◌⊎◌, inl, inr, ◌↔◌, Any, Result, ok, err, ◌>>◌, reject_if, ◌==◌, Bool-cases, arith,
}
use policy_decision_service.Prelude.Text.{codes, trim_space, to_lower, utf8, utf8_rune}
use policy_decision_service.Errors.{Error}
use policy_decision_service.Telemetry.{World, Host, poll}
use policy_decision_service.Engine.Types.{DecideRequest, EvalState, RuleResult}
use policy_decision_service.Rules.Action.{validate, KeywordRuleConfig}
use policy_decision_service.Rules.RateLimit.{not_matched, matched_by}
use policy_decision_service.Rules.Aho.{Edges, new_aho_matcher, match}
use policy_decision_service.Rules.Aho.Links.{IsRange}
use policy_decision_service.Rules.Aho.Soundness.{Occurs, OccursAny}
use policy_decision_service.Rules.Aho.Correctness.{match_lem}
use policy_decision_service.Rules.Keyword.{
  KeywordRule, normal_form, keep_nonempty, normalize_keywords, new_keyword_rule, field_value,
  evaluate_keyword,
}

utf8-nonempty : (c : ℕ) (cs : List ℕ) → utf8 (c ∷ cs) ≢ []
unfolding utf8 utf8_rune
utf8-nonempty c cs e = ground (arith, e)

>>-eq-ok :
    {E A B : Type 0} (outcome : Result E A) (next : Result E B) {b : B}
    → outcome >> next ≡ ok b
    → next ≡ ok b
>>-eq-ok (err error) next h = cc
>>-eq-ok (ok value) next h = h

ok_inj : (a b : KeywordRule) → ◌≡◌ {A = Result Error KeywordRule} (ok a) (ok b) → a ≡ b
ok_inj a b h = ground arith

-- The fields that a rule can look at, by their names in the configuration.
pub data IsField (req : DecideRequest) : String → String → Type 0 where
  title : IsField req "content.title" req.content.title
  description : IsField req "content.description" req.content.description

field_value-IsField :
    (wide : ℕ → ℕ) (r : KeywordRule) (req : DecideRequest)
    → (not (r.field == "content.title") && not (r.field == "content.description")) ≡ false
    → IsField req r.field (field_value wide r req)
unfolding field_value
field_value-IsField wide r req h = elim (Bool-cases (r.field == "content.title")) [
  | inl t ↦
      let named : r.field ≡ "content.title" = ground (arith, eq_iff r.field "content.title") in
      rw (t, field_value) (subst (λ f. IsField req f req.content.title) (sym named) title)
  | inr n ↦ elim (Bool-cases (r.field == "content.description")) [
    | inl d ↦
        let named : r.field ≡ "content.description" =
          ground (arith, eq_iff r.field "content.description") in
        rw (n, d, field_value)
          (subst (λ f. IsField req f req.content.description) (sym named) description)
    | inr m ↦ cc (rw (n, m) at h)
  ]
]

reject_if-ok :
    {E A : Type 0} (test : Bool) (e : E) (next : Result E A) {a : A}
    → reject_if test e >> next ≡ ok a
    → test ≡ false
reject_if-ok false e next h = refl
reject_if-ok true e next h = cc

module _ (wide : ℕ → ℕ) where
  -- The keyword without the blanks around it, in lower case, is not empty and stands in the text.
  abbrev pub Contains : List ℕ → String → Type 0
  Contains text keyword =
      let form = to_lower wide (codes (trim_space keyword)) in (form ≢ []) × Occurs (utf8 form) text

  keep_nonempty-Contains :
      (form : List ℕ) (rest : List (List ℕ)) (text : List ℕ)
      → OccursAny (keep_nonempty wide form rest) text
        ↔ (((form ≢ []) × Occurs (utf8 form) text) ⊎ OccursAny rest text)
  keep_nonempty-Contains [] rest text =
      (λ m. inr m, λ m. elim m [ inl (n, o) ↦ absurd (n refl) | inr k ↦ k ])
  keep_nonempty-Contains (c ∷ cs) rest text = (
    λ m. elim m [ inl (n, o) ↦ inl ((λ e. cc), o) | inr k ↦ inr k ],
    λ m. elim m [ inl (n, o) ↦ inl (utf8-nonempty c cs, o) | inr k ↦ inr k ],
  )

  normalize_keywords-Contains :
      (keywords : List String) (text : List ℕ)
      → OccursAny (normalize_keywords wide keywords) text ↔ Any (Contains text) keywords
  unfolding normalize_keywords
  normalize_keywords-Contains [] text = (λ m. m, λ m. m)
  normalize_keywords-Contains (k ∷ ks) text =
      let (to, from) =
        keep_nonempty-Contains (normal_form wide k) (normalize_keywords wide ks) text in
      let (later, back) = normalize_keywords-Contains ks text in
      (
        λ m. elim (to m) [ inl o ↦ inl o | inr o ↦ inr (later o) ],
        λ m. elim m [ inl o ↦ from (inl o) | inr o ↦ from (inr (back o)) ],
      )

  made_rule :
      (order : ℕ → Edges → Edges) (cfg : KeywordRuleConfig) (r : KeywordRule)
      → new_keyword_rule wide order cfg ≡ ok r
      → r ≡ record {
        id = cfg.id;
        field = cfg.field;
        matcher = new_aho_matcher order (normalize_keywords wide cfg.keywords);
        on_match = cfg.on_match;
      }
  unfolding new_keyword_rule
  made_rule order cfg r made =
      let h1 = >>-eq-ok (reject_if (trim_space cfg.id == "") _) _ made in
      let h2 =
        >>-eq-ok
          (reject_if
            (not (cfg.field == "content.title") && not (cfg.field == "content.description")) _)
          _ h1 in
      let h3 = >>-eq-ok (validate cfg.on_match "keyword on_match") _ h2 in sym (ok_inj _ r h3)

  -- The configured field of a rule that was made is one of the two.
  made_field :
      (order : ℕ → Edges → Edges) (cfg : KeywordRuleConfig) (r : KeywordRule)
      → new_keyword_rule wide order cfg ≡ ok r
      → (not (cfg.field == "content.title") && not (cfg.field == "content.description")) ≡ false
  unfolding new_keyword_rule
  made_field order cfg r made =
      reject_if-ok (not (cfg.field == "content.title") && not (cfg.field == "content.description"))
        _ _ (>>-eq-ok (reject_if (trim_space cfg.id == "") _) _ made)

  -- What a rule made from `cfg` answers for the text `value` of its field.
  pub data Looks {X : Type 0} (cfg : KeywordRuleConfig) (value : String) (w1 : World X)
      : Result Error RuleResult × World X → Type 0 where
    hit :
        Any (Contains (utf8 (to_lower wide (codes value)))) cfg.keywords
        → Looks cfg value w1 (
          ok (record {
            rule_id = cfg.id;
            matched = true;
            verdict = cfg.on_match.verdict;
            reason = record { code = cfg.on_match.code; rule = cfg.id; detail = "" };
            error = none;
          }),
          w1,
        )
    miss :
        ¬ Any (Contains (utf8 (to_lower wide (codes value)))) cfg.keywords
        → Looks cfg value w1 (
          ok (record {
            rule_id = cfg.id;
            matched = false;
            verdict = "allow";
            reason = record { code = ""; rule = ""; detail = "" };
            error = none;
          }),
          w1,
        )

  looks :
      {X : Type 0} (host : Host X) (order : ℕ → Edges → Edges) (cfg : KeywordRuleConfig)
      (r : KeywordRule) (state : EvalState) (w : World X)
      → IsRange order
      → new_keyword_rule wide order cfg ≡ ok r
      → (poll host w).0 ≡ none
      → Looks cfg
          (field_value wide r state.request)
          (poll host w).1
          (evaluate_keyword wide host r state w)
  unfolding evaluate_keyword
  looks host order cfg r state w ranges made live =
      let value = field_value wide r state.request in
      let text = utf8 (to_lower wide (codes value)) in
      let w1 = (poll host w).1 in
      let e = made_rule order cfg r made in
      let (found, occurs) = match_lem order (normalize_keywords wide cfg.keywords) ranges text in
      let (contained, contains) = normalize_keywords-Contains cfg.keywords text in
      let matcher = ap (λ k. k.matcher) e in
      elim (Bool-cases (match r.matcher text)) [
        | inl hits ↦
            let same : evaluate_keyword wide host r state w
                ≡ (ok (matched_by cfg.id cfg.on_match), w1) =
              rw (live, evaluate_keyword, hits)
                (ap (λ k. (ok (matched_by k.id k.on_match), w1)) e) in
            subst (Looks cfg value w1) (sym same)
              (hit (contained (found (subst (λ m. match m text ≡ true) matcher hits))))
        | inr misses ↦
            let same : evaluate_keyword wide host r state w ≡ (ok (not_matched cfg.id), w1) =
              rw (live, evaluate_keyword, misses) (ap (λ k. (ok (not_matched k.id), w1)) e) in
            subst (Looks cfg value w1) (sym same) (
              miss (λ m.
                let hits : match r.matcher text ≡ true =
                  subst (λ n. match n text ≡ true) (sym matcher) (occurs (contains m)) in
                cc))
      ]

  -- A keyword rule that was made from a configuration looks at the title if the configured field is
  -- "content.title" and at the description if it is "content.description". While the context is not
  -- done, it matches, with the configured id and action, exactly when one of the configured
  -- keywords, without the blanks around it and not empty, stands in that text, both in lower case;
  -- else it does not match.
  pub evaluate_keyword_lem :
      {X : Type 0} (host : Host X) (order : ℕ → Edges → Edges) (cfg : KeywordRuleConfig)
      (r : KeywordRule) (state : EvalState) (w : World X)
      → IsRange order
      → new_keyword_rule wide order cfg ≡ ok r
      → (poll host w).0 ≡ none
      → (value : String) × IsField state.request cfg.field value
        × Looks cfg value (poll host w).1 (evaluate_keyword wide host r state w)
  evaluate_keyword_lem host order cfg r state w ranges made live =
      let named : r.field ≡ cfg.field = ap (λ k. k.field) (made_rule order cfg r made) in
      let known = made_field order cfg r made in
      (
        field_value wide r state.request,
        subst (λ f. IsField state.request f (field_value wide r state.request)) named
            (field_value-IsField wide r state.request (
              subst (λ f. (not (f == "content.title") && not (f == "content.description")) ≡ false)
                (sym named) known)),
        looks host order cfg r state w ranges made live,
      )
