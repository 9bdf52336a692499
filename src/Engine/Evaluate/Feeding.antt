-- ===== src/Engine/Evaluate/Feeding.antt =====
-- What a result-aware rule finds among the earlier results.
use policy_decision_service.Prelude.{
  String, List, [], ◌∷◌, ◌++◌, ◌≡◌, some, All, Elem, inl, inr, arith, eq_iff, All-mono,
  Any-append_cases, ◌==◌, Bool-cases,
}
use policy_decision_service.Prelude.Dict.{lookup}
use policy_decision_service.Telemetry.{World, Host}
use policy_decision_service.Engine.Types.{EvalState, RuleResult}
use policy_decision_service.Engine.Rules.{Results, Body, plain, result_aware, Rule}
use policy_decision_service.Engine.Evaluate.Loop.{Run, finished, ran}

-- `Dependencies`; a plain rule has none.
abbrev pub body_dependencies : {X : Type 0} → Body X → List String
body_dependencies (plain _) = []
body_dependencies (result_aware deps _) = deps

-- Each rule follows its dependencies, given that rules with the ids `before` stand in front.
abbrev pub InOrder : {X : Type 0} → List String → List (Rule X) → Type 0
InOrder before [] = Unit
InOrder before (rule ∷ rules) =
    All (λ d. Elem d before) (body_dependencies rule.body) × InOrder (before ++ rule.id ∷ []) rules

-- There is a result for the id.
abbrev pub IsKnown : Results → String → Type 0
IsKnown by_id id = (r : RuleResult) × (lookup id by_id ≡ some r)

module _ {X : Type 0} (host : Host X) (state : EvalState) where
  -- In a run every rule was called with results for all of its dependencies.
  abbrev pub AllFed :
      {rules : List (Rule X)} {by_id : Results} {w w' : World X} {rs : List RuleResult}
      → Run host state rules by_id w rs w'
      → Type 0
  AllFed finished = Unit
  AllFed (ran {rule} {by_id} live e run) =
      All (IsKnown by_id) (body_dependencies rule.body) × AllFed run

  IsKnown-cons :
      (before : List String) (id : String) (result : RuleResult) (by_id : Results)
      → ((d : String) → Elem d before → IsKnown by_id d)
      → (d : String) → Elem d (before ++ id ∷ [])
      → IsKnown ((id, result) ∷ by_id) d
  IsKnown-cons before id result by_id h d m = elim (Bool-cases (id == d)) [
    | inl same ↦ (result, rw same)
    | inr other ↦ elim (Any-append_cases (λ y. d ≡ y) before (id ∷ []) m) [
      | inl old ↦ let (r, found) = h d old in (r, rw other found)
      | inr new ↦ ground (arith, eq_iff id d, new)
    ]
  ]

  Run-AllFed :
      (before : List String) {rules : List (Rule X)} {by_id : Results} {w w' : World X}
      {rs : List RuleResult}
      → (run : Run host state rules by_id w rs w') → InOrder before rules
      → ((d : String) → Elem d before → IsKnown by_id d)
      → AllFed run
  Run-AllFed before finished o h = tt
  Run-AllFed before (ran {rule} {by_id} {result} live e run) o h = (
    All-mono (λ d. Elem d before) (IsKnown by_id) (body_dependencies rule.body) h o.0,
    Run-AllFed (before ++ rule.id ∷ []) run o.1 (IsKnown-cons before rule.id result by_id h),
  )

  -- If the rules stand in the order of their dependencies, every rule of a run is called with a
  -- result for each of its dependencies.
  pub InOrder-AllFed :
      {rules : List (Rule X)} {w w' : World X} {rs : List RuleResult}
      → (run : Run host state rules [] w rs w') → InOrder [] rules
      → AllFed run
  InOrder-AllFed run o = Run-AllFed [] run o (λ d m. absurd m)
