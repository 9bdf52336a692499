-- ===== src/Profile.antt =====
-- internal/profile/http_provider.go and internal/profile/provider.go. The HTTP client, the
-- building of a request and the JSON decoder are the fields of `Http`.
pub mod Answers
use Prim.Native.String
use Prim.Native.Char.{code}
use policy_decision_service.Prelude.{
  ℕ, ◌-◌, String, Bool, true, false, not, ◌&&◌, ◌||◌, List, [], ◌∷◌, Option, some, none, ◌==◌, eqb,
  ltb, leb, Result, ok, err, if◌then◌else◌,
}
use policy_decision_service.Prelude.Int.{ℤ, pos_part, is_positive}
use policy_decision_service.Prelude.Text.{trim_space}
use policy_decision_service.Errors.{Error}
use policy_decision_service.Telemetry.{
  World, Host, read_clock, emit, feature_lookup_latency, feature_lookup_degraded_total,
}
use policy_decision_service.Engine.Types.{ActorFeatures}
use policy_decision_service.Engine.Rules.{FeatureProvider}
use policy_decision_service.Engine.Evaluate.{no_features}

-- `send timeout endpoint`: the status and the body of the reply to a GET.
pub record Http (X : Type 0) : Type 0 where
  pub path_escape : String → String
  pub new_request : String → Option Error
  pub send : ℕ → String → X → Result Error (ℕ × String) × X
  pub decode : String → Result Error ActorFeatures

-- The timeout is in nanoseconds.
pub record HttpFeatureProvider : Type 0 where
  pub base_url : String
  pub timeout : ℕ

-- `strings.TrimRight(s, "/")`
unfoldable pub trim_slashes : String → String
trim_slashes String.[] = ""
trim_slashes (String.◌∷◌ c s) =
    let rest = trim_slashes s in if eqb (code c) 47 && rest == "" then "" else String.◌∷◌ c rest

unfoldable pub new_http_feature_provider : String → ℤ → HttpFeatureProvider
new_http_feature_provider base_url timeout = record {
  base_url = trim_slashes (trim_space base_url);
  timeout = if is_positive timeout then pos_part timeout else 100000000;
}

-- Features, and whether they stand for none.
abbrev pub degraded : ActorFeatures × Bool
degraded = (no_features, true)

-- The test of the actor in the reply.
unfoldable pub accept : String → ActorFeatures → ActorFeatures × Bool
accept actor_id f =
    if f.actor_id == ""
    then (record f { actor_id = actor_id }, false)
    else if not (f.actor_id == actor_id)
    then degraded
    else (f, false)

abbrev pub decoded : String → Result Error ActorFeatures → ActorFeatures × Bool
decoded actor_id (err e) = degraded
decoded actor_id (ok f) = accept actor_id f

module _ {X : Type 0} (http : Http X) where
  abbrev pub read_reply : String → Result Error (ℕ × String) → ActorFeatures × Bool
  read_reply actor_id (err e) = degraded
  read_reply actor_id (ok (status, body)) =
      if ltb status 200 || leb 300 status then degraded else decoded actor_id (http.decode body)

  abbrev pub exchange : HttpFeatureProvider → String → X → (ActorFeatures × Bool) × X
  exchange p actor_id x =
      let endpoint =
        String.◌++◌ p.base_url (String.◌++◌ "/v1/features/" (http.path_escape actor_id)) in
      elim (http.new_request endpoint) [
        | some e ↦ (degraded, x)
        | none ↦ let (reply, x') = http.send p.timeout endpoint x in (read_reply actor_id reply, x')
      ]

  -- `GetActorFeatures` without the deferred metrics; `actor_id` is trimmed.
  unfoldable pub fetch : HttpFeatureProvider → String → X → (ActorFeatures × Bool) × X
  fetch p actor_id x =
      if p.base_url == "" || actor_id == "" then (degraded, x) else exchange p actor_id x

  module _ (host : Host X) where
    -- The deferred function.
    abbrev pub observe : ℕ → Bool → World X → World X
    observe started failing w =
        let (now, w1) = read_clock host w in
        let w2 = emit (feature_lookup_latency (now - started)) w1 in
        if failing then emit feature_lookup_degraded_total w2 else w2

    -- `HTTPFeatureProvider.GetActorFeatures`
    unfoldable pub get_actor_features : HttpFeatureProvider → FeatureProvider X
    get_actor_features p actor_id w =
        let (started, w1) = read_clock host w in
        let (found, x) = fetch p (trim_space actor_id) w1.outside in
        (found, observe started found.1 (record w1 { outside = x }))

-- `StaticProvider.GetActorFeatures`
unfoldable pub static_provider : {X : Type 0} → ActorFeatures → Option Error → FeatureProvider X
static_provider features none actor_id w = ((features, false), w)
static_provider features (some e) actor_id w = (degraded, w)

-- `FallbackProvider.GetActorFeatures`; `none` is a nil provider in the list.
unfoldable pub fallback_provider :
    {X : Type 0} → List (Option (FeatureProvider X)) → FeatureProvider X
fallback_provider [] actor_id w = (degraded, w)
fallback_provider (none ∷ providers) actor_id w = fallback_provider providers actor_id w
fallback_provider (some provider ∷ providers) actor_id w =
    let ((features, failing), w1) = provider actor_id w in
    let rest = fallback_provider providers actor_id w1 in
    if failing then rest else ((features, false), w1)
