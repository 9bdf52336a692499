-- ===== src/Rules/Keyword.antt =====
-- internal/rules/keyword.go
pub mod Meaning
use policy_decision_service.Prelude.{
  ℕ, String, not, ◌&&◌, List, [], ◌∷◌, some, none, ◌==◌, Result, ok, err, ◌>>◌, reject_if,
  if◌then◌else◌,
}
use policy_decision_service.Prelude.Text.{codes, trim_space, to_lower, utf8}
use policy_decision_service.Errors.{Error, message}
use policy_decision_service.Telemetry.{World, Host, poll}
use policy_decision_service.Engine.Types.{DecideRequest, EvalState}
use policy_decision_service.Engine.Rules.{Outcome, Rule, plain}
use policy_decision_service.Rules.Action.{RuleAction, validate, KeywordRuleConfig}
use policy_decision_service.Rules.RateLimit.{not_matched, matched_by}
use policy_decision_service.Rules.Aho.{Edges, AhoNode, new_aho_matcher, match}

pub record KeywordRule : Type 0 where
  pub id : String
  pub field : String
  pub matcher : List AhoNode
  pub on_match : RuleAction

-- `wide` is `unicode.ToLower` past ASCII.
module _ (wide : ℕ → ℕ) where
  -- `strings.ToLower(strings.TrimSpace(keyword))`, as runes
  abbrev pub normal_form : String → List ℕ
  normal_form keyword = to_lower wide (codes (trim_space keyword))

  abbrev pub keep_nonempty : List ℕ → List (List ℕ) → List (List ℕ)
  keep_nonempty [] rest = rest
  keep_nonempty (c ∷ cs) rest = utf8 (c ∷ cs) ∷ rest

  -- The loop over the keywords: their bytes, without the empty ones.
  unfoldable pub normalize_keywords : List String → List (List ℕ)
  normalize_keywords [] = []
  normalize_keywords (k ∷ ks) = keep_nonempty (normal_form k) (normalize_keywords ks)

  unfoldable pub new_keyword_rule :
      (ℕ → Edges → Edges) → KeywordRuleConfig → Result Error KeywordRule
  new_keyword_rule order cfg = do
    reject_if (trim_space cfg.id == "") (message "keyword rule id is required")
    reject_if (not (cfg.field == "content.title") && not (cfg.field == "content.description"))
        (message "keyword rule field must be content.title or content.description")
    validate cfg.on_match "keyword on_match"
    ok (record {
      id = cfg.id;
      field = cfg.field;
      matcher = new_aho_matcher order (normalize_keywords cfg.keywords);
      on_match = cfg.on_match;
    })

  unfoldable pub field_value : KeywordRule → DecideRequest → String
  field_value r req =
      if r.field == "content.title"
      then req.content.title
      else if r.field == "content.description"
      then req.content.description
      else ""

  -- `Evaluate`; the constructor never leaves the matcher nil.
  unfoldable pub evaluate_keyword :
      {X : Type 0} → Host X → KeywordRule → EvalState → World X → Outcome X
  evaluate_keyword host r state w =
      let (done, w1) = poll host w in
      elim done [
        | some e ↦ (err e, w1)
        | none ↦
            let value = utf8 (to_lower wide (codes (field_value r state.request))) in
            (
              ok (if match r.matcher value then matched_by r.id r.on_match else not_matched r.id),
              w1,
            )
      ]

  unfoldable pub keyword_rule : {X : Type 0} → Host X → KeywordRule → Rule X
  keyword_rule host r = record { id = r.id; body = plain (evaluate_keyword host r) }
