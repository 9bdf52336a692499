-- ===== src/Profile/Answers.antt =====
-- What the feature providers of internal/profile answer.
use Prim.Native.String
use policy_decision_service.Prelude.{
  ℕ, ◌-◌, String, Any, ap, subst, sym, Bool, false, ◌||◌, List, [], ◌∷◌, Option, some, none,
  Option-cases, ◌≡◌, refl, ◌==◌, eq_iff, Result, ok, err, arith, ◌⊎◌, inl, inr, Bool-cases,
  if◌then◌else◌, ltb, leb,
}
use policy_decision_service.Prelude.Text.{trim_space}
use policy_decision_service.Errors.{Error}
use policy_decision_service.Telemetry.{
  World, Host, Update, read_clock, feature_lookup_latency, feature_lookup_degraded_total,
}
use policy_decision_service.Engine.Types.{ActorFeatures}
use policy_decision_service.Engine.Rules.{FeatureProvider}
use policy_decision_service.Profile.{
  Http, HttpFeatureProvider, degraded, accept, decoded, read_reply, exchange, fetch,
  get_actor_features, fallback_provider,
}

-- The answer is the zero features with the mark of a degraded lookup, or it is not degraded and
-- has features of the actor.
abbrev pub IsAnswer : String → ActorFeatures × Bool → Type 0
IsAnswer actor_id found = (found ≡ degraded) ⊎ ((found.1 ≡ false) × (found.0.actor_id ≡ actor_id))

accept-IsAnswer : (actor_id : String) (f : ActorFeatures) → IsAnswer actor_id (accept actor_id f)
unfolding accept
accept-IsAnswer actor_id f = elim (Bool-cases (f.actor_id == "")) [
  | inl blank ↦ rw blank (inr (refl, refl))
  | inr named ↦ elim (Bool-cases (f.actor_id == actor_id)) [
    | inl same ↦ rw (named, same) (inr (refl, ground (arith, eq_iff f.actor_id actor_id)))
    | inr other ↦ rw (named, other) (inl refl)
  ]
]

decoded-IsAnswer :
    (actor_id : String) (r : Result Error ActorFeatures) → IsAnswer actor_id (decoded actor_id r)
decoded-IsAnswer actor_id (ok f) = accept-IsAnswer actor_id f
decoded-IsAnswer actor_id (err e) = inl refl

-- The updates of a lookup.
abbrev pub observed : Bool → ℕ → List Update → List Update
observed failing elapsed updates =
    let timed = feature_lookup_latency elapsed ∷ updates in
    if failing then feature_lookup_degraded_total ∷ timed else timed

module _ {X : Type 0} (http : Http X) where
  read_reply-IsAnswer :
      (actor_id : String) (r : Result Error (ℕ × String))
      → IsAnswer actor_id (read_reply http actor_id r)
  read_reply-IsAnswer actor_id (err e) = inl refl
  read_reply-IsAnswer actor_id (ok (status, body)) =
      elim (Bool-cases (ltb status 200 || leb 300 status)) [
        | inl bad ↦ rw bad (inl refl)
        | inr good ↦ rw good (decoded-IsAnswer actor_id (http.decode body))
      ]

  exchange-IsAnswer :
      (p : HttpFeatureProvider) (actor_id : String) (x : X)
      → IsAnswer actor_id (exchange http p actor_id x).0
  exchange-IsAnswer p actor_id x =
      let endpoint =
        String.◌++◌ p.base_url (String.◌++◌ "/v1/features/" (http.path_escape actor_id)) in
      elim (Option-cases (http.new_request endpoint)) [
        | inr (e, bad) ↦ rw (bad, exchange) (inl refl)
        | inl fine ↦
            rw (fine, exchange) (read_reply-IsAnswer actor_id (http.send p.timeout endpoint x).0)
      ]

  fetch-IsAnswer :
      (p : HttpFeatureProvider) (actor_id : String) (x : X)
      → IsAnswer actor_id (fetch http p actor_id x).0
  unfolding fetch
  fetch-IsAnswer p actor_id x = elim (Bool-cases (p.base_url == "" || actor_id == "")) [
    | inl out ↦ rw (out, fetch) (inl refl)
    | inr asks ↦ rw (asks, fetch) (exchange-IsAnswer p actor_id x)
  ]

  -- A lookup of the HTTP provider answers with features of the actor that was asked for, by the id
  -- without its surrounding blanks, or with the zero features and the mark of a degraded lookup,
  -- whatever the reply was; each lookup updates the latency metric, and a degraded one its counter.
  pub get_actor_features_lem :
      (host : Host X) (p : HttpFeatureProvider) (actor_id : String) (w : World X)
      → IsAnswer (trim_space actor_id) (get_actor_features http host p actor_id w).0
        × (elapsed : ℕ) × ((get_actor_features http host p actor_id w).1.updates
            ≡ observed (get_actor_features http host p actor_id w).0.1 elapsed w.updates)
  unfolding get_actor_features
  get_actor_features_lem host p actor_id w =
      let (started, w1) = read_clock host w in
      let (found, x) = fetch http p (trim_space actor_id) w1.outside in
      let elapsed = (host.now x).0 - started in
      (fetch-IsAnswer p (trim_space actor_id) w1.outside, elapsed, ground arith)

-- The provider is there, and answered so at some time.
abbrev pub Gave : {X : Type 0} → String → ActorFeatures × Bool → Option (FeatureProvider X) → Type 0
Gave {X} actor_id found o =
    (provider : FeatureProvider X) × (w : World X) × (o ≡ some provider)
    × ((provider actor_id w).0 ≡ found)

-- What may come of a lookup that tries the providers.
abbrev pub Tried :
    {X : Type 0}
    → String
    → List (Option (FeatureProvider X))
    → (ActorFeatures × Bool) × World X
    → Type 0
Tried actor_id providers (found, w) =
    (found ≡ degraded) ⊎ ((found.1 ≡ false) × Any (Gave actor_id found) providers)

-- The fallback provider answers what one of its providers answered without being degraded, or it
-- answers with the zero features and the mark of a degraded lookup.
pub fallback_provider_lem :
    {X : Type 0} (providers : List (Option (FeatureProvider X))) (actor_id : String) (w : World X)
    → Tried actor_id providers (fallback_provider providers actor_id w)
unfolding fallback_provider
fallback_provider_lem [] actor_id w = inl refl
fallback_provider_lem (none ∷ providers) actor_id w =
    elim (fallback_provider_lem providers actor_id w) [
      | inl bad ↦ inl bad
      | inr (good, later) ↦ inr (good, inr later)
    ]
fallback_provider_lem (some provider ∷ providers) actor_id w =
    let ((features, failing), w1) = provider actor_id w in
    elim (Bool-cases (provider actor_id w).0.1) [
      | inr good ↦
          rw (good, fallback_provider)
            (inr (refl, inl (provider, w, refl, ap (λ b. (features, b)) good)))
      | inl bad ↦
          let passed : fallback_provider (some provider ∷ providers) actor_id w
              ≡ fallback_provider providers actor_id w1 =
            rw (bad, fallback_provider) refl in
          subst (Tried actor_id (some provider ∷ providers)) (sym passed)
            (elim (fallback_provider_lem providers actor_id w1) [
              | inl worse ↦ inl worse
              | inr (good, later) ↦ inr (good, inr later)
            ])
    ]
