-- ===== src/Tests/Cmd.antt =====
-- cmd/ghostguard/main.go: a directory with a policy that does not parse, and the trial of a tool.
use ghost_guard.Prelude.{ℕ, String, Option, none, some, true, false, [], ◌∷◌, List, ◌≡◌, ◌↔◌, refl}
use ghost_guard.Prelude.Int.{ℤ, pos}
use ghost_guard.Dict.{Dict}
use ghost_guard.Model.{Args, ToolCall}
use ghost_guard.Policy.Engine.{LoadResult, new_engine}
use ghost_guard.Policy.Loader.{DirEntry}
use ghost_guard.Proxy.State.{Proxy}
use ghost_guard.Proxy.Watch.{load_policies}
use ghost_guard.Cmd.{TestFlags, run_lint, lint_status, run_test, test_status}
use ghost_guard.Cmd.Lint.{run_lint-load_policies}
use ghost_guard.Cmd.Try.{Accepts, run_test-Accepts}
use ghost_guard.Dict.{insert, lookup}
use ghost_guard.Policy.Engine.{load_policy}
use ghost_guard.Policy.Loader.{load_policies_from_dir, load_entries, is_policy}
use ghost_guard.Detector.Persist.{ReadFile}
use ghost_guard.Proxy.Config.{Flags, missing, load_config, serve_config}
use ghost_guard.Proxy.Certs.{made}
use ghost_guard.Proxy.Serve.{new_proxy, start_context}
use ghost_guard.Cmd.{parsed, policy_lint, main_command, lint_each}
use ghost_guard.Cmd.Serve.{ServeWorld, serve_status, run_serve}
use ghost_guard.Tests.Certs.{manager}
use ghost_guard.Tests.World.{runtime, opa, proxy, call, no_baseline}

abbrev explain : String → String → LoadResult → String
explain name text r = "rego_parse_error"

abbrev order : Dict String → Dict String
order policies = policies

abbrev dir : Option (List DirEntry)
dir = some (
    record { name = "a.rego"; is_dir = false; content = some "shell" }
    ∷ record { name = "c.rego"; is_dir = false; content = some "broken" }
    ∷ [])

abbrev empty_proxy : Proxy ℤ String (Dict String)
empty_proxy = record proxy { engine = new_engine opa }

run_lint-load_policies_example :
    (lint_status (run_lint opa order dir) ≡ 0)
    ↔ ((load_policies runtime opa explain order pos dir empty_proxy).1 ≡ true)
run_lint-load_policies_example =
    run_lint-load_policies runtime opa explain order pos dir empty_proxy refl

abbrev flags : TestFlags
flags = record { policy = "a.rego"; input = ""; tool = "ping"; args = "{}" }

abbrev read : String → Option String
read path = some "allow"

abbrev decode_call : String → Option (ToolCall ℤ)
decode_call text = some (call text)

abbrev decode_args : String → Args ℤ
decode_args text = none

run_test-Accepts_example :
    (test_status (run_test opa read decode_call decode_args (pos 1) flags) ≡ 0)
    ↔ Accepts opa read decode_call decode_args (pos 1) flags
run_test-Accepts_example = run_test-Accepts opa read decode_call decode_args (pos 1) flags

-- The directory has a policy that does not parse, so `policy lint` fails; `serve` starts all the same.
lint_test : lint_status (run_lint opa order dir) ≡ 1
unfolding run_lint lint_each lint_status load_policy load_policies_from_dir load_entries is_policy
    new_engine insert lookup
lint_test = refl

command_test :
    main_command (λ words. parsed words) ("policy" ∷ "lint" ∷ "--dir" ∷ "rules" ∷ [])
    ≡ policy_lint ("--dir" ∷ "rules" ∷ [])
unfolding main_command
command_test = refl

abbrev world : ServeWorld ℤ ℕ String (ℕ × String)
world = record {
  config_file = λ path. missing;
  parse_baseline = no_baseline;
  baseline_file = ReadFile.missing;
  certs = made manager;
  open_log = λ path. none;
  writer = λ entry. none;
  read_dir = λ path. dir;
  order = order;
  explain = explain;
  exporting = none;
  listening = none;
  ends = none;
  creates = pos;
  loads = pos;
  starts = pos;
}

abbrev no_flags : Flags ℤ
no_flags = record {
  port = "";
  dash_port = "";
  policies = "rules";
  audit_log = "";
  webhook = "";
  slack = "";
  dry_run = false;
  rate_limit = pos 0;
  rate_window = pos 0;
  rate_threshold = pos 0;
  entropy_threshold = pos 0;
}

serve_test : serve_status (run_serve runtime opa world "config.yaml" no_flags) ≡ 0
unfolding serve_status run_serve serve_config load_config new_proxy load_policies
    load_policies_from_dir load_entries is_policy start_context
serve_test = refl
