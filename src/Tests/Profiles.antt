-- ===== src/Tests/Profiles.antt =====
-- A lookup whose reply is for another actor.
use policy_decision_service.Prelude.{ℕ, suc, [], none, ◌≡◌, ok}
use policy_decision_service.Prelude.Text.{trim_space}
use policy_decision_service.Engine.Evaluate.{no_features}
use policy_decision_service.Profile.{Http, HttpFeatureProvider, get_actor_features}
use policy_decision_service.Profile.Answers.{IsAnswer, observed, get_actor_features_lem}
use policy_decision_service.Tests.Data.{host, world}

abbrev http : Http ℕ
http = record {
  path_escape = λ s. s;
  new_request = λ s. none;
  send = λ timeout endpoint x. (ok (200, "{}"), suc x);
  decode = λ body. ok (record no_features { actor_id = "u2" });
}

abbrev provider : HttpFeatureProvider
provider = record { base_url = "http://features"; timeout = 100000000 }

get_actor_features_lem_example :
    IsAnswer (trim_space " u1") (get_actor_features http host provider " u1" world).0
    × (elapsed : ℕ) × ((get_actor_features http host provider " u1" world).1.updates
        ≡ observed (get_actor_features http host provider " u1" world).0.1 elapsed [])
get_actor_features_lem_example = get_actor_features_lem http host provider " u1" world
