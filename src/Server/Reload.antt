-- ===== src/Server/Reload.antt =====
-- The rules that a running server decides by: cmd/server/main.go over internal/rules/loader.go and
-- internal/engine/engine.go.
pub mod Serving
use Prim.Native.Char.{Char}
use Prim.Native.String
use Prim.Native.String.append
use policy_decision_service.Prelude.{
  String, List, [], ◌∷◌, map, Option, some, none, Option-cases, ◌≡◌, ◌≢◌, refl, sym, ap, ◌∙◌, arith,
  ◌⊎◌, inl, inr, Result, ok, err, All, eq_iff, >>=-eq-ok, subst,
}
use policy_decision_service.Errors.{Error}
use policy_decision_service.Telemetry.{World, Host, poll}
use policy_decision_service.Engine.Types.{DecideRequest, DecideResponse}
use policy_decision_service.Engine.Rules.{AuditSink, FeatureProvider}
use policy_decision_service.Engine.Evaluate.{
  RuleEngine, new_rule_engine, with_audit_sink, with_feature_provider, evaluate,
}
use policy_decision_service.Engine.Evaluate.Response.{
  IsHonest, evaluate_lem, evaluate-evaluated_rules,
}
use policy_decision_service.Rules.Loader.{Environment, Snapshot, load_rules, load_bytes, load_file}
use policy_decision_service.Rules.Loader.Soundness.{load_rules_sound}
use policy_decision_service.Server.{
  EngineHolder, new_engine_holder, store, holder_evaluate, build_engine, audited, install,
  load_engine, reload, reload_on_hangups,
}

ok_inj : {E A : Type 0} (a b : A) → ◌≡◌ {A = Result E A} (ok a) (ok b) → a ≡ b
ok_inj a b h = ground arith

abbrev pub IsNonempty : String → Type 0
IsNonempty s = s ≢ ""

prefixed : (s : String) → IsNonempty (String.◌++◌ "sha256:" s)
prefixed s e = not_empty (sym (append.cons _ "ha256:" s) ∙ e)
  where
    not_empty : {c : Char} {t : String} → ¬ (String.◌∷◌ c t ≡ "")
    not_empty h = cc

-- A snapshot that was loaded has a version, and rules that report under their own ids.
pub record IsSnapshot {X : Type 0} (snapshot : Snapshot X) : Type 0 where
  pub version : IsNonempty snapshot.version
  pub honest : All IsHonest snapshot.rules

module _ {X F : Type 0} (env : Environment X F) where
  load_bytes-IsSnapshot :
      (text base : String) (snapshot : Snapshot X)
      → load_bytes env text base ≡ ok snapshot
      → IsSnapshot snapshot
  unfolding load_bytes
  load_bytes-IsSnapshot text base snapshot h =
      let (parsed, e1, h1) = >>=-eq-ok (env.unmarshal text) _ h in
      let (rules, e2, h2) = >>=-eq-ok (load_rules env parsed base) _ h1 in
      let (ordered, perm, topological, ids, honest, one, distinct, named) =
        load_rules_sound env parsed base rules e2 in
      let made : Snapshot X = record {
        version = String.◌++◌ "sha256:" (env.sha256_hex text);
        rules = rules;
      } in
      subst IsSnapshot (ok_inj made snapshot h2)
        (record { version = prefixed (env.sha256_hex text); honest = honest })

  pub load_file-IsSnapshot :
      (path dir base : String) (snapshot : Snapshot X)
      → load_file env path dir base ≡ ok snapshot
      → IsSnapshot snapshot
  unfolding load_file
  load_file-IsSnapshot path dir base snapshot h =
      let (text, e1, h1) = >>=-eq-ok (env.read_file path) _ h in
      load_bytes-IsSnapshot text _ snapshot h1

audited-keeps :
    {X : Type 0} (sink : Option (AuditSink X)) (e : RuleEngine X)
    → ((audited sink e).rules_version ≡ e.rules_version) × ((audited sink e).rules ≡ e.rules)
unfolding with_audit_sink
audited-keeps none e = (refl, refl)
audited-keeps (some sink) e = (refl, refl)

module _ {X : Type 0} (F : Type 0) (host : Host X) (provider : FeatureProvider X)
    (sink : Option (AuditSink X)) (path dir : String) where
  -- The engine is the one that is built from a snapshot of the file, as the file is in `env`.
  abbrev pub IsLoaded : Environment X F → EngineHolder X → Type 0
  IsLoaded env h =
      (snapshot : Snapshot X) × (load_file env path dir "" ≡ ok snapshot)
      × (h.current ≡ some (build_engine provider sink snapshot))

  -- What a reload leaves: its engine, or an error and the holder as it was.
  abbrev Installed :
      Environment X F → EngineHolder X → Option Error × EngineHolder X × World X → Type 0
  Installed env h o = ((o.0 ≡ none) × IsLoaded env o.1) ⊎ ((e : Error) × (o.0 ≡ some e) × (o.1 ≡ h))

  install-Installed :
      (env : Environment X F) (found : Result Error (Snapshot X)) (h : EngineHolder X) (w : World X)
      → load_file env path dir "" ≡ found
      → Installed env h (install provider sink host found h w)
  unfolding store
  install-Installed env (err e) h w f = inr (e, refl, refl)
  install-Installed env (ok snapshot) h w f = elim (Option-cases (poll host w).0) [
    | inl live ↦ rw (live, install) (inl (refl, (snapshot, f, refl)))
    | inr (e, done) ↦ rw (done, install) (inr (e, refl, refl))
  ]

  reload-Installed :
      (env : Environment X F) (h : EngineHolder X) (w : World X)
      → Installed env h (reload provider sink path dir host env h w)
  unfolding reload
  reload-Installed env h w = elim (Option-cases (poll host w).0) [
    | inl live ↦
        rw (live, reload) (install-Installed env (load_file env path dir "") h (poll host w).1 refl)
    | inr (e, done) ↦ rw (done, reload) (inr (e, refl, refl))
  ]

  -- `Serves h`: `h` is the holder of a server that has started, after any number of reloads, each
  -- of the file as it was then.
  pub data Serves : EngineHolder X → Type 0 where
    started :
        {h : EngineHolder X} (env : Environment X F)
        → load_engine provider sink path dir env ≡ ok h
        → Serves h
    reloaded :
        {h : EngineHolder X} (env : Environment X F) (w : World X)
        → Serves h
        → Serves (reload provider sink path dir host env h w).1

  abbrev pub file_after : Option Error → Environment X F → Environment X F → Environment X F
  file_after none env before = env
  file_after (some e) env before = before

  -- The environment with the rules file as it was when the server last loaded it: at the start, or
  -- at the last reload that returned no error.
  abbrev pub last_loaded : {h : EngineHolder X} → Serves h → Environment X F
  last_loaded (started env l) = env
  last_loaded (reloaded {h} env w s) =
      file_after (reload provider sink path dir host env h w).0 env (last_loaded s)

  -- Any number of SIGHUP leaves a holder that the server can have.
  pub reload_on_hangups-Serves :
      (signals : List (Environment X F × World X)) (h : EngineHolder X)
      → Serves h
      → Serves (reload_on_hangups provider sink path dir host signals h)
  unfolding reload_on_hangups
  reload_on_hangups-Serves [] h serves = serves
  reload_on_hangups-Serves ((env, w) ∷ signals) h serves =
      reload_on_hangups-Serves signals _ (reloaded env w serves)

  pub build_engine-version :
      (snapshot : Snapshot X)
      → IsNonempty snapshot.version
      → (build_engine provider sink snapshot).rules_version ≡ snapshot.version
  unfolding build_engine new_rule_engine with_feature_provider
  build_engine-version snapshot h =
      (audited-keeps sink _).0 ∙ ground (arith, eq_iff snapshot.version "")

  pub build_engine-rules :
      (snapshot : Snapshot X) → (build_engine provider sink snapshot).rules ≡ snapshot.rules
  unfolding build_engine new_rule_engine with_feature_provider
  build_engine-rules snapshot = (audited-keeps sink _).1

  new_engine_holder-IsLoaded :
      (env : Environment X F) (found : Result Error (Snapshot X)) (h : EngineHolder X)
      → load_file env path dir "" ≡ found
      → load_engine provider sink path dir env ≡ ok h
      → IsLoaded env h
  unfolding load_engine new_engine_holder
  new_engine_holder-IsLoaded env (err e) h f l = cc (rw (f, load_engine) at l)
  new_engine_holder-IsLoaded env (ok snapshot) h f l =
      subst (IsLoaded env) (ok_inj _ h (rw (f, load_engine) at l)) (snapshot, f, refl)

  Serves-IsLoaded : {h : EngineHolder X} (s : Serves h) → IsLoaded (last_loaded s) h
  Serves-IsLoaded (started {h} env l) = new_engine_holder-IsLoaded env _ h refl l
  Serves-IsLoaded (reloaded {h} env w s) =
      let o = reload provider sink path dir host env h w in
      elim (reload-Installed env h w) [
        | inl (quiet, loaded) ↦
            subst (λ e. IsLoaded (file_after e env (last_loaded s)) o.1) (sym quiet) loaded
        | inr (e, fails, kept) ↦
            subst (λ e. IsLoaded (file_after e env (last_loaded s)) o.1) (sym fails)
              (subst (IsLoaded (last_loaded s)) (sym kept) (Serves-IsLoaded s))
      ]

  -- Whatever reloads a server has gone through, failed ones included, a response of its engine is
  -- by the rules file as the server last loaded it: it names the snapshot's version and lists the
  -- ids of all of the snapshot's rules, in their order.
  pub Serves-response :
      {h : EngineHolder X} (req : DecideRequest) (w : World X) (resp : DecideResponse)
      (serves : Serves h)
      → (holder_evaluate host h req w).0 ≡ ok resp
      → (snapshot : Snapshot X) × (load_file (last_loaded serves) path dir "" ≡ ok snapshot)
        × (resp.rules_version ≡ snapshot.version)
        × (resp.evaluated_rules ≡ map (λ rule. rule.id) snapshot.rules)
  unfolding holder_evaluate
  Serves-response {h} req w resp serves ends =
      let (snapshot, loads, current) = Serves-IsLoaded serves in
      let env = last_loaded serves in
      let engine = build_engine provider sink snapshot in
      let good = load_file-IsSnapshot env path dir "" snapshot loads in
      let runs : (evaluate host engine req w).0 ≡ ok resp = rw (current, holder_evaluate) at ends in
      let (state, w1, w2, rs, run, answers) = evaluate_lem host engine req w resp runs in
      (
        snapshot,
        loads,
        answers.version ∙ build_engine-version snapshot good.version,
        evaluate-evaluated_rules host engine req w resp
              (subst (All IsHonest) (sym (build_engine-rules snapshot)) good.honest) runs
            ∙ ap (map (λ rule. rule.id)) (build_engine-rules snapshot),
      )
