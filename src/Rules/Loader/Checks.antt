-- ===== src/Rules/Loader/Checks.antt =====
-- What the checks of `LoadBytes` establish about the rules that pass them.
use policy_decision_service.Prelude.{
  Distinct, String, true, List, [], ◌∷◌, none, Option-cases, ◌≡◌, ◌≢◌, ◌==◌, eq_iff, arith, All,
  Elem, inl, inr, ok, Bool-cases,
}
use policy_decision_service.Prelude.Dict.{Dict, lookup}
use policy_decision_service.Prelude.Text.{trim_space}
use policy_decision_service.Rules.Raw.{RawRule, known_rule_type}
use policy_decision_service.Rules.Order.Topology.{ids}
use policy_decision_service.Rules.Loader.{check_rules}

-- A rule that has an id and a known type.
abbrev pub IsNamed : RawRule → Type 0
IsNamed raw = (trim_space raw.id ≢ "") × (known_rule_type raw.type ≡ true)

fresh-cons :
    (id : String) (seen : Dict (Unit {0})) (raws : List RawRule)
    → All (λ raw. lookup raw.id ((id, tt) ∷ seen) ≡ none) raws
    → (¬ Elem id (ids raws)) × All (λ raw. lookup raw.id seen ≡ none) raws
fresh-cons id seen [] h = (λ m. m, tt)
fresh-cons id seen (r ∷ raws) h =
    let (absent, later) = fresh-cons id seen raws h.1 in
    (ground (arith, absent, h.0, eq_iff id r.id), (ground (arith, h.0, eq_iff id r.id), later))

-- Rules that pass the first loop of `LoadBytes` have ids that are no blanks and differ from each
-- other, and known types.
pub check_rules-lem :
    (raws : List RawRule) (seen seen' : Dict (Unit {0}))
    → check_rules raws seen ≡ ok seen'
    → Distinct (ids raws) × All (λ raw. lookup raw.id seen ≡ none) raws × All IsNamed raws
unfolding check_rules
check_rules-lem [] seen seen' h = (tt, tt, tt)
check_rules-lem (raw ∷ raws) seen seen' h = elim (Bool-cases (trim_space raw.id == "")) [
  | inl blank ↦ cc (rw (blank, check_rules) at h)
  | inr named ↦ elim (Option-cases (lookup raw.id seen)) [
    | inr (u, old) ↦ cc (rw (named, old, check_rules) at h)
    | inl new ↦ elim (Bool-cases (known_rule_type raw.type)) [
      | inr unknown ↦ cc (rw (named, new, unknown, check_rules) at h)
      | inl known ↦
          let (distinct, fresh, all) =
            check_rules-lem raws ((raw.id, tt) ∷ seen) seen'
              (rw (named, new, known, check_rules) at h) in
          let (absent, later) = fresh-cons raw.id seen raws fresh in
          (
            (absent, distinct),
            (new, later),
            ((ground (arith, eq_iff (trim_space raw.id) ""), known), all),
          )
    ]
  ]
]
