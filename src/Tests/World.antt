-- ===== src/Tests/World.antt =====
-- A small world: whole numbers for `float64`, policies that are a word each, and one AI provider.
use ghost_guard.Prelude.{
  String, true, false, Option, none, some, List, [], ◌∷◌, map, if◌then◌else◌, ◌==◌,
}
use ghost_guard.Prelude.Int.{ℤ, pos, ◌+ℤ◌, ◌-ℤ◌, ltb_ℤ, eqb_ℤ}
use ghost_guard.Dict.{Dict, lookup}
use ghost_guard.Model.{ToolCall, InterceptionEvent}
use ghost_guard.Runtime.{Runtime}
use ghost_guard.Policy.Engine.{Rego, Engine, object, bool, load_policy, new_engine}
use ghost_guard.Detector.RateLimit.{new_rate_limiter}
use ghost_guard.Detector.Persist.{BaselineData, missing}
use ghost_guard.Detector.Analyze.{DetectorConfig, Detector, new_detector}
use ghost_guard.Alert.{Outside, Sink, stdout_sink, webhook_sink, answered}
use ghost_guard.Audit.{Logger, new_logger}
use ghost_guard.Dashboard.{Dashboard, new_dashboard}
use ghost_guard.Proxy.Config.{Config}
use ghost_guard.Proxy.Extract.{Codec}
use ghost_guard.Proxy.Forward.{Request, replied}
use ghost_guard.Proxy.State.{Proxy, Env}

abbrev pub runtime : Runtime ℤ
runtime = record {
  of_int = λ n. n;
  tenths = λ n. n;
  max_float = pos 1000;
  neg = λ a. pos 0 -ℤ a;
  add = λ a b. a +ℤ b;
  sub = λ a b. a -ℤ b;
  mul = λ a b. a +ℤ b;
  div = λ a b. a -ℤ b;
  sqrt = λ a. a;
  log2 = λ a. a;
  lt = ltb_ℤ;
  eq = eqb_ℤ;
  fixed = λ n x. "x";
  decimal = λ n. "n";
  sprint_args = λ args. "map[]";
  rfc3339 = λ t. "t";
  rfc3339_nano = λ t. "t";
  marshal = λ j. some "{}";
}

-- A policy is a word: "broken" does not parse, "clash" does not compile, "allow" allows every tool,
-- and any other word denies the tool of that name.
abbrev pub opa : Rego String (Dict String) ℤ
opa = record {
  parse = λ name text. if text == "broken" then none else some text;
  prepare = λ ms. elim (lookup "b.rego" ms) [
    | none ↦ some ms
    | some text ↦ if text == "clash" then none else some ms
  ];
  zero_query = [];
  eval = λ ms input. some (
      map
        (λ m.
          object (("deny", bool (m.1 == input.tool_name)) ∷ ("allow", bool (m.1 == "allow")) ∷ []))
        ms
      ∷ []);
}

abbrev pub call : String → ToolCall ℤ
call name = record { id = "1"; name = name; arguments = none; raw_args = "{}" }

-- An engine that denies "shell" and allows the other tools.
abbrev pub engine : Engine String (Dict String)
engine = (load_policy opa "b.rego" "allow" (load_policy opa "a.rego" "shell" (new_engine opa)).0).0

abbrev pub outside : Outside ℤ
outside = record {
  marshal_alert = λ a. some a.title;
  marshal_slack = λ m. some m.text;
  post = λ url payload. answered (pos 500) "no";
  write_ok = λ line. true;
}

-- A body is the name of the tool that it calls; an empty one cannot be decoded.
abbrev pub codec : Codec ℤ
codec = record {
  openai_body = λ body.
      if body == ""
      then none
      else some record {
        tool_calls = record { id = "1"; name = body; arguments = "{}" } ∷ [];
        messages = [];
      };
  anthropic_body = λ body. none;
  gemini_body = λ body. none;
  openai_response = λ body. none;
  anthropic_response = λ body. none;
  decode_args = λ text. none;
  encode_args = λ args. "null";
}

abbrev pub detector_config : DetectorConfig ℤ
detector_config = record {
  rate_threshold = pos 3;
  entropy_threshold = pos 4;
  window_interval = pos 60;
  window_max_age = pos 600;
  max_prev_tools = pos 2;
  baseline_path = "";
}

abbrev pub no_baseline : String → Option (BaselineData ℤ)
no_baseline text = none

abbrev pub detector : Detector ℤ
detector = new_detector runtime no_baseline (pos 0) missing detector_config

abbrev pub config : Config ℤ
config = record {
  listen_addr = ":8081";
  dash_addr = ":9090";
  policy_dir = "policies";
  target_hosts = "api.openai.com" ∷ [];
  alert_webhook = "";
  slack_webhook = "";
  audit_log_path = "";
  dry_run = false;
  rate_limit = pos 2;
  rate_window = pos 60;
  detector = detector_config;
  baseline_path = "";
}

abbrev pub logger : Logger ℤ
logger = new_logger (λ entry. none)

abbrev pub dashboard : Dashboard ℤ
dashboard = new_dashboard (pos 0)

abbrev pub sinks : List Sink
sinks = stdout_sink ∷ webhook_sink "https://alerts" ∷ []

abbrev pub proxy : Proxy ℤ String (Dict String)
proxy = record {
  config = config;
  engine = engine;
  detector = detector;
  rate_limiter = new_rate_limiter (pos 2) (pos 60);
  sinks = sinks;
  logger = logger;
  dash = dashboard;
  sent = [];
  forwarded = [];
}

abbrev pub env : Env
env = record {
  id = "0";
  request_error = "unexpected EOF";
  response_error = "unexpected EOF";
  before = pos;
  during = λ i j. pos 10;
  after = λ j. pos 20;
  order = λ i j l. l;
  upstream = λ out. replied (pos 200) [] (some "done");
}

-- A request to the provider that calls the tool.
abbrev pub request : String → Request
request body = record {
  method = "POST";
  host = "api.openai.com";
  url = record { scheme = ""; host = ""; path = "/v1/chat/completions"; query = "" };
  header = [];
  body = some body;
}

abbrev pub event : String → InterceptionEvent ℤ
event name = record {
  id = "0";
  method = "POST";
  path = "/v1/chat/completions";
  host = "api.openai.com";
  tool_calls = call name ∷ [];
  tool_results = [];
  decisions = [];
  anomalies = [];
  alerts = [];
  request_size = pos 0;
  response_size = pos 0;
  duration = pos 0;
  timestamp = pos 0;
  upstream_status = pos 200;
}
