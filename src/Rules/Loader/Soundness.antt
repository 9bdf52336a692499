-- ===== src/Rules/Loader/Soundness.antt =====
-- The rules that `LoadBytes` returns, for the engine that evaluates them.
use mathlib.Core.List.{Perm}
use policy_decision_service.Prelude.{
  Distinct, String, Bool, true, false, not, ◌&&◌, List, [], ◌∷◌, ◌++◌, map, ◌≡◌, refl, ap, ◌∙◌, sym,
  subst, ◌==◌, arith, All, All-at, All-of_Elem, Elem, ok, ◌>>=◌, >>=-eq-ok, reject_if,
}
use policy_decision_service.Prelude.Int.{ℤ, pos, negsuc}
use policy_decision_service.Prelude.Dict.{Dict}
use policy_decision_service.Errors.{Error, message, unsupported_version}
use policy_decision_service.Telemetry.{World, Host}
use policy_decision_service.Engine.Types.{EvalState, RuleResult}
use policy_decision_service.Engine.Rules.{Rule}
use policy_decision_service.Engine.Evaluate.Loop.{Run}
use policy_decision_service.Engine.Evaluate.Response.{IsHonest}
use policy_decision_service.Engine.Evaluate.Feeding.{InOrder, AllFed, InOrder-AllFed}
use policy_decision_service.Rules.Raw.{RawRule, RuleFile, rule_enabled}
use policy_decision_service.Rules.Order.{Marks, Visited, done, failed, out_of_fuel, order_rules}
use policy_decision_service.Rules.Order.Topology.{ids, IsTopological, ids-concat}
use policy_decision_service.Rules.Order.Complete.{order_rules_sound, ordered-Elem}
use policy_decision_service.Rules.Loader.{
  Environment, check_rules, check_references, ordering, is_one, build_rules, load_rules,
}
use policy_decision_service.Rules.Loader.Checks.{IsNamed, check_rules-lem}
use policy_decision_service.Rules.Loader.Building.{AllBuilt, enabled_of, build_rules-AllBuilt}

ordering-eq-ok :
    (v : Visited) (ordered : List RawRule)
    → ordering v ≡ ok ordered
    → (m : Marks) × (v ≡ done m) × (m.ordered ≡ ordered)
ordering-eq-ok (done m) ordered h = (m, refl, ground arith)
ordering-eq-ok (failed e) ordered h = cc
ordering-eq-ok out_of_fuel ordered h = cc

reject_if-eq-ok : (b : Bool) (e : Error) {u : Unit {0}} → reject_if b e ≡ ok u → b ≡ false
reject_if-eq-ok true e h = cc
reject_if-eq-ok false e h = refl

is_one-eq : (z : ℤ) → not (is_one z) ≡ false → z ≡ pos 1
is_one-eq (pos n) h = ground arith
is_one-eq (negsuc n) h = cc

module _ {X F : Type 0} (env : Environment X F) where
  -- The steps that a successful load has passed.
  pub record Loaded (parsed : RuleFile) (base : String) (rules : List (Rule X)) : Type 0 where
    pub version : parsed.version ≡ pos 1
    pub distinct : Distinct (ids parsed.rules)
    pub named : All IsNamed parsed.rules
    pub marks : Marks
    pub ordered : order_rules parsed.rules ≡ done marks
    pub build : build_rules env marks.ordered base ≡ ok rules
    pub built : AllBuilt env (enabled_of env marks.ordered) rules

  pub load_rules-Loaded :
      (parsed : RuleFile) (base : String) (rules : List (Rule X))
      → load_rules env parsed base ≡ ok rules
      → Loaded parsed base rules
  unfolding load_rules
  load_rules-Loaded parsed base rules h =
      let raws = parsed.rules in
      let finish = λ (ordered : List RawRule). build_rules env ordered base in
      let order = λ (_ : Unit {0}). ordering (order_rules raws) >>= finish in
      let refs = λ (ids : Dict (Unit {0})). check_references raws ids >>= order in
      let names = λ (_ : Unit {0}). check_rules raws [] >>= refs in
      let mode = parsed.defaults.on_eval_error in
      let second =
        reject_if (not (mode == "") && not (mode == "allow"))
          (message "defaults.on_eval_error must be allow") in
      let first = reject_if (not (is_one parsed.version)) (unsupported_version parsed.version) in
      let (_, e1, h1) = >>=-eq-ok first (λ _. second >>= names) h in
      let (_, e2, h2) = >>=-eq-ok second names h1 in
      let (seen, e3, h3) = >>=-eq-ok (check_rules raws []) refs h2 in
      let (_, e4, h4) = >>=-eq-ok (check_references raws seen) order h3 in
      let (ordered, e5, h5) = >>=-eq-ok (ordering (order_rules raws)) finish h4 in
      let (m, e6, same) = ordering-eq-ok (order_rules raws) ordered e5 in
      let (distinct, _, named) = check_rules-lem raws [] seen e3 in
      record {
        version = is_one-eq parsed.version (reject_if-eq-ok _ _ e1);
        distinct = distinct;
        named = named;
        marks = m;
        ordered = e6;
        build = subst (λ o. build_rules env o base ≡ ok rules) (sym same) h5;
        built =
            build_rules-AllBuilt env m.ordered base rules
              (subst (λ o. build_rules env o base ≡ ok rules) (sym same) h5);
      }

  AllBuilt-ids :
      (raws : List RawRule) (rules : List (Rule X))
      → AllBuilt env raws rules
      → map (λ rule. rule.id) rules ≡ ids raws
  AllBuilt-ids [] [] b = refl
  AllBuilt-ids (raw ∷ raws) (rule ∷ rules) b = rw (b.0.id, AllBuilt-ids raws rules b.1)
  AllBuilt-ids [] (rule ∷ rules) b = absurd b
  AllBuilt-ids (raw ∷ raws) [] b = absurd b

  AllBuilt-IsHonest :
      (raws : List RawRule) (rules : List (Rule X)) → AllBuilt env raws rules → All IsHonest rules
  AllBuilt-IsHonest [] [] b = tt
  AllBuilt-IsHonest (raw ∷ raws) (rule ∷ rules) b = (b.0.honest, AllBuilt-IsHonest raws rules b.1)
  AllBuilt-IsHonest [] (rule ∷ rules) b = absurd b
  AllBuilt-IsHonest (raw ∷ raws) [] b = absurd b

  -- A file that loads has version 1, and its entries have distinct ids that are no blanks and
  -- known types; the rules are the enabled entries, in an order in which each entry stands behind
  -- all entries that it depends on, and every rule reports under its own id.
  pub load_rules_sound :
      (parsed : RuleFile) (base : String) (rules : List (Rule X))
      → load_rules env parsed base ≡ ok rules
      → (ordered : List RawRule) × Perm ordered parsed.rules
        × IsTopological [] ordered
        × (map (λ rule. rule.id) rules ≡ ids (enabled_of env ordered))
        × All IsHonest rules
        × (parsed.version ≡ pos 1)
        × Distinct (ids parsed.rules)
        × All IsNamed parsed.rules
  load_rules_sound parsed base rules h =
      let l = load_rules-Loaded parsed base rules h in
      let (perm, topological) = order_rules_sound parsed.rules l.marks l.distinct l.ordered in
      let kept = enabled_of env l.marks.ordered in
      (
        l.marks.ordered,
        perm,
        topological,
        AllBuilt-ids kept rules l.built,
        AllBuilt-IsHonest kept rules l.built,
        l.version,
        l.distinct,
        l.named,
      )

  abbrev pub IsEnabled : RawRule → Type 0
  IsEnabled raw = rule_enabled raw.enabled ≡ true

  enabled_of-All : (raws : List RawRule) → All IsEnabled raws → enabled_of env raws ≡ raws
  unfolding enabled_of
  enabled_of-All [] h = refl
  enabled_of-All (raw ∷ raws) h = rw (h.0, enabled_of-All raws h.1)

  AllBuilt-InOrder :
      (before raws : List RawRule) (rules : List (Rule X))
      → IsTopological before raws
      → AllBuilt env raws rules
      → InOrder (ids before) rules
  AllBuilt-InOrder before [] [] t b = tt
  AllBuilt-InOrder before (raw ∷ raws) (rule ∷ rules) t b = (
    subst (All (λ d. Elem d (ids before))) (sym b.0.deps) t.0,
    subst (λ l. InOrder l rules)
        (ids-concat before raw ∙ ap (λ i. ids before ++ i ∷ []) (sym b.0.id))
        (AllBuilt-InOrder (before ++ raw ∷ []) raws rules t.1 b.1),
  )
  AllBuilt-InOrder before [] (rule ∷ rules) t b = absurd b
  AllBuilt-InOrder before (raw ∷ raws) [] t b = absurd b

  -- When every entry of a file that loads is enabled, then in each run of the engine over its
  -- rules every combiner is called with a result for each of its dependencies.
  pub load_rules-AllFed :
      (host : Host X) (state : EvalState) (parsed : RuleFile) (base : String)
      {rules : List (Rule X)} {w w' : World X} {rs : List RuleResult}
      → load_rules env parsed base ≡ ok rules
      → All IsEnabled parsed.rules
      → (run : Run host state rules [] w rs w') → AllFed host state run
  load_rules-AllFed host state parsed base {rules} h enabled run =
      let l = load_rules-Loaded parsed base rules h in
      let (perm, topological) = order_rules_sound parsed.rules l.marks l.distinct l.ordered in
      let all = All-of_Elem IsEnabled l.marks.ordered (λ raw k.
        All-at IsEnabled raw parsed.rules enabled
          (ordered-Elem parsed.rules l.marks raw l.ordered k)) in
      InOrder-AllFed host state run (
        AllBuilt-InOrder [] l.marks.ordered rules topological
          (subst (λ raws. AllBuilt env raws rules) (enabled_of-All l.marks.ordered all) l.built))
