-- ===== src/Tests/Data.antt =====
-- A host whose clock and identifiers are those of a test, sample rules, and a sample rule file.
use policy_decision_service.Prelude.{
  ℕ, suc, ◌+◌, ◌*◌, ◌/◌, leb, String, true, false, List, [], ◌∷◌, some, none, ok, err,
}
use policy_decision_service.Prelude.Int.{pos, pos_part}
use policy_decision_service.Errors.{Error, external, canceled}
use policy_decision_service.Telemetry.{World, Host}
use policy_decision_service.Engine.Types.{boolean, DecideRequest, EvalState, RuleResult}
use policy_decision_service.Engine.Rules.{Rule, plain, Results, AuditSink, FeatureProvider}
use policy_decision_service.Engine.Evaluate.{RuleEngine, failed, no_features, start_state}
use policy_decision_service.Rules.Action.{RuleAction}
use policy_decision_service.Rules.Raw.{RawRule, RuleFile}
use policy_decision_service.Rules.Order.{Marks}
use policy_decision_service.Rules.Combiner.{CombinerRule, combiner_rule}
use policy_decision_service.Rules.Cel.{CelRule, Program, cel_rule}
use policy_decision_service.Rules.RateLimit.{Float}
use policy_decision_service.Rules.Loader.{Environment}

-- What lies outside is a number of nanoseconds, which grows by two milliseconds at each reading.
abbrev pub host : Host ℕ
host = record { ctx_err = λ x. (none, x); now = λ x. (x, x + 2000000); new_uuid = λ x. ("id", x) }

-- A context that has been canceled.
abbrev pub canceled_host : Host ℕ
canceled_host = record host { ctx_err = λ x. (some canceled, x) }

abbrev pub world : World ℕ
world = record { updates = []; outside = 7 }

abbrev pub request : DecideRequest
request = record {
  actor_id = "u1";
  action = record { type = "publish"; platform = "web" };
  content = record { title = "t"; description = ""; duration_s = pos 3; tags = [] };
  context = none;
  client_id = "tests";
  request_id = "r";
}

abbrev pub state : EvalState
state = start_state request

abbrev pub matching : String → String → RuleResult
matching id verdict = record {
  rule_id = id;
  matched = true;
  verdict = verdict;
  reason = record { code = "code"; rule = id; detail = "" };
  error = none;
}

abbrev pub broken : Error
broken = external "redis"

abbrev pub flag_rule : Rule ℕ
flag_rule = record { id = "a"; body = plain (λ s w. (ok (matching "a" "flag"), w)) }

abbrev pub broken_rule : Rule ℕ
broken_rule = record { id = "b"; body = plain (λ s w. (err broken, w)) }

abbrev pub block_action : RuleAction
block_action = record { verdict = "block"; code = "combined" }

abbrev pub any_combiner : CombinerRule
any_combiner = record { id = "c"; op = "any"; of = "a" ∷ "b" ∷ []; on_match = block_action }

abbrev pub all_combiner : CombinerRule
all_combiner = record any_combiner { op = "all" }

-- The results of the two rules, the newest first.
abbrev pub prior : Results
prior = ("b", failed "b" broken) ∷ ("a", matching "a" "flag") ∷ []

abbrev pub degraded_provider : FeatureProvider ℕ
degraded_provider id w = ((no_features, true), w)

abbrev pub engine : RuleEngine ℕ
engine = record {
  rules_version = "v1";
  rules = flag_rule ∷ broken_rule ∷ combiner_rule host any_combiner ∷ [];
  audit = none;
  feature_provider = some degraded_provider;
}

-- A sink that counts its records in what lies outside.
abbrev pub counting_sink : AuditSink ℕ
counting_sink r w = record w { outside = suc w.outside }

abbrev pub no_action : RuleAction
no_action = record { verdict = ""; code = "" }

abbrev pub raw_cel : RawRule
raw_cel = record {
  id = "a";
  type = "cel";
  enabled = none;
  scope = "";
  action = "";
  window = "";
  limit = pos 0;
  field = "";
  keywords_file = "";
  expr = "degraded.feature_provider";
  on_exceed = no_action;
  on_match = block_action;
  op = "";
  of = [];
}

abbrev pub raw_combiner : RawRule
raw_combiner = record raw_cel {
  id = "c";
  type = "combiner";
  enabled = some true;
  expr = "";
  op = "any";
  of = "a" ∷ [];
}

abbrev pub raw_rules : List RawRule
raw_rules = raw_combiner ∷ raw_cel ∷ []

abbrev pub raw_cycle : List RawRule
raw_cycle = record raw_combiner { of = "c" ∷ [] } ∷ []

abbrev pub marks : Marks
marks = record {
  temporary = ("c", false) ∷ ("a", false) ∷ ("a", true) ∷ ("c", true) ∷ [];
  permanent = ("c", true) ∷ ("a", true) ∷ [];
  ordered = raw_cel ∷ raw_combiner ∷ [];
}

abbrev pub rule_file : RuleFile
rule_file = record {
  version = pos 1;
  defaults = record { on_eval_error = "allow" };
  rules = raw_rules;
}

abbrev pub always : Program
always fields = ok (boolean true)

-- Arithmetic that rounds down.
abbrev pub float : Float ℕ
float = record {
  of_int = pos_part;
  add = λ a b. a + b;
  mul = λ a b. a * b;
  div = λ a b. a / b;
  leq = leb;
  ceil = λ a. a;
  trunc = λ a. pos a;
}

abbrev pub environment : Environment ℕ ℕ
environment = record {
  host = host;
  read_file = λ path. ok "";
  unmarshal = λ text. ok rule_file;
  sha256_hex = λ text. "00";
  parse_duration = λ text. ok (pos 60);
  compile = λ expr. ok always;
  wide = λ c. c;
  order = λ n edges. edges;
  float = float;
  redis = none;
  unix_now = λ x. (x, x);
  is_abs = λ path. true;
  join_path = λ base path. path;
}

abbrev pub cel : CelRule
cel = record {
  id = "a";
  expr = "degraded.feature_provider";
  on_match = block_action;
  program = always;
}

abbrev pub combiner : CombinerRule
combiner = record { id = "c"; op = "any"; of = "a" ∷ []; on_match = block_action }

abbrev pub loaded : List (Rule ℕ)
loaded = cel_rule host cel ∷ combiner_rule host combiner ∷ []
