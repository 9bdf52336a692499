-- ===== src/Tests/Servers.antt =====
-- A server that has loaded the sample rules, and a reload that fails: its replies.
use policy_decision_service.Prelude.{String, ℕ, some, ◌≡◌, refl, ok, err}
use policy_decision_service.Prelude.Text.{trim_space}
use policy_decision_service.Errors.{Error, message}
use policy_decision_service.Engine.Types.{DecideResponse}
use policy_decision_service.Engine.Evaluate.{}
use policy_decision_service.Rules.Action.{validate}
use policy_decision_service.Rules.Raw.{dependencies, known_rule_type, rule_enabled}
use policy_decision_service.Rules.Order.{index, visit_all, visit_found, visit, order_rules}
use policy_decision_service.Rules.Cel.{new_cel_rule}
use policy_decision_service.Rules.Combiner.{new_combiner_rule}
use policy_decision_service.Rules.Loader.{
  Environment, Snapshot, check_rules, check_refs, check_references, build_cel, build_combiner,
  build_rule, build_rules, load_rules, load_bytes, load_file,
}
use policy_decision_service.Server.{
  EngineHolder, new_engine_holder, holder_evaluate, build_engine, load_engine, reload,
}
use policy_decision_service.Api.Http.{write_json, decision, decide}
use policy_decision_service.Server.Routes.{Answered, answer_reload, answer_reload_lem}
use policy_decision_service.Server.Reload.Serving.{DecidedBy, decide-Serves}
use policy_decision_service.Tests.Handlers.{
  decode, http_request, never_done, client_named, request-IsValid,
}
use policy_decision_service.Server.Reload.{Serves, started, reloaded}
use policy_decision_service.Tests.Data.{
  host, world, request, environment, loaded, degraded_provider, counting_sink,
}

abbrev snapshot : Snapshot ℕ
snapshot = record { version = "sha256:00"; rules = loaded }

abbrev holder : EngineHolder ℕ
holder = record { current = some (build_engine degraded_provider (some counting_sink) snapshot) }

holder_starts :
    load_engine degraded_provider (some counting_sink) "rules.yaml" "" environment ≡ ok holder
unfolding load_engine new_engine_holder load_file load_bytes load_rules check_rules check_references
    check_refs order_rules visit visit_all visit_found index dependencies build_rules build_rule
    build_cel build_combiner new_cel_rule new_combiner_rule validate known_rule_type rule_enabled
    trim_space
holder_starts = refl

-- The file is gone.
abbrev without_file : Environment ℕ ℕ
without_file = record environment { read_file = λ path. err (message "no such file") }

abbrev after_reload : EngineHolder ℕ
after_reload =
    (reload degraded_provider (some counting_sink) "rules.yaml" "" host without_file holder world).1

abbrev serves : Serves ℕ host degraded_provider (some counting_sink) "rules.yaml" "" after_reload
serves = reloaded without_file world (started environment holder_starts)

decide-Serves_example :
    (resp : DecideResponse) × ((decide host decode
        (holder_evaluate host after_reload)
        http_request
        world).0
      ≡ write_json 200 (decision resp))
    × DecidedBy ℕ host degraded_provider (some counting_sink) "rules.yaml" "" environment resp
unfolding reload load_file
decide-Serves_example =
    decide-Serves ℕ host degraded_provider (some counting_sink) "rules.yaml" "" decode never_done
      http_request request world serves client_named refl request-IsValid

abbrev print_error : Error → String
print_error e = "error"

answer_reload_lem_example :
    Answered degraded_provider
      (some counting_sink)
      "rules.yaml"
      ""
      host
      print_error
      environment
      holder
      (answer_reload degraded_provider
        (some counting_sink)
        "rules.yaml"
        ""
        host
        print_error
        environment
        holder
        http_request
        world)
answer_reload_lem_example =
    answer_reload_lem degraded_provider (some counting_sink) "rules.yaml" "" host print_error
      environment holder http_request world
