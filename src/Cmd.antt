-- ===== src/Cmd.antt =====
-- cmd/ghostguard/main.go: the commands, with the status that each ends the process with and the lines
-- that the two policy commands print. What package flag makes of the words of a command is a parameter.
pub mod Lint
pub mod Try
pub mod Serve
use ghost_guard.Prelude.{
  ℕ, suc, String, Bool, true, false, Option, none, some, List, [], ◌∷◌, if◌then◌else◌, ◌==◌, ◌&◌,
  eqb,
}
use ghost_guard.Prelude.Int.{ℤ}
use ghost_guard.Dict.{Dict}
use ghost_guard.Model.{Args, ToolCall, PolicyDecision}
use ghost_guard.Policy.Engine.{
  Rego, Engine, LoadResult, loaded, parse_error, prepare_error, new_engine, load_policy, evaluate,
}
use ghost_guard.Policy.Loader.{DirEntry, load_policies_from_dir}
use ghost_guard.Proxy.Inspect.{is_deny}

-- What FlagSet.Parse makes of the words: the flags, or the end of the process with a status.
pub data Parsed (A : Type 0) : Type 0 where
  parsed : A → Parsed A
  exits : ℕ → Parsed A

-- The flags of `policy test`, and those of `policy lint`, its directory.
pub record TestFlags : Type 0 where
  pub policy : String
  pub input : String
  pub tool : String
  pub args : String

-- The commands of the program, with the words behind them. `usage` is the end with status 1 behind the
-- usage or a message that a command is unknown.
pub data Command : Type 0 where
  serve config policy_test policy_lint : List String → Command
  mcp version status usage : Command
  flag_exits : ℕ → Command

-- How `policy test` ends.
pub data TestEnd : Type 0 where
  no_policy unread_policy unread_input unparsed_input no_tool : TestEnd
  unloaded : LoadResult → TestEnd
  decided : PolicyDecision → TestEnd

-- A line of `policy lint` on a file.
pub data LintLine : Type 0 where
  ok_line : String → LintLine
  error_line : String → LoadResult → LintLine

-- How `policy lint` ends: the directory cannot be read, or the lines with the number of errors.
pub data LintEnd : Type 0 where
  unread_dir : LintEnd
  linted : List LintLine → ℕ → LintEnd

-- cmdPolicy, behind its Parse: `rest` is fs.Args().
unfoldable pub policy_command : List String → Command
policy_command [] = usage
policy_command (word ∷ rest) =
    if word == "test" then policy_test rest else if word == "lint" then policy_lint rest else usage

-- main, for the words behind the program's name; `parse` is the Parse of a FlagSet with no flags.
unfoldable pub main_command : (List String → Parsed (List String)) → List String → Command
unfolding policy_command
main_command parse [] = usage
main_command parse (word ∷ rest) =
    if word == "serve"
    then serve rest
    else if word == "policy"
    then elim (parse rest) [ exits n ↦ flag_exits n | parsed words ↦ policy_command words ]
    else if word == "config"
    then config rest
    else if word == "mcp"
    then mcp
    else if word == "version"
    then version
    else if word == "status"
    then status
    else usage

-- cmdConfig: the status, `writes` saying whether os.WriteFile succeeds.
unfoldable pub config_status : (List String → Parsed (List String)) → Bool → List String → ℕ
config_status parse writes words = elim (parse words) [
  | exits n ↦ n
  | parsed [] ↦ 1
  | parsed (word ∷ rest) ↦ if word == "init" then (if writes then 0 else 1) else 1
]

unfoldable pub test_status : TestEnd → ℕ
unfolding is_deny
test_status (decided d) = if is_deny d.action then 1 else 0
test_status no_policy = 1
test_status unread_policy = 1
test_status unread_input = 1
test_status unparsed_input = 1
test_status no_tool = 1
test_status (unloaded r) = 1

unfoldable pub lint_status : LintEnd → ℕ
lint_status unread_dir = 1
lint_status (linted lines errors) = if eqb errors 0 then 0 else 1

unfoldable pub lint_line : String → LoadResult → LintLine
lint_line name loaded = ok_line name
lint_line name parse_error = error_line name parse_error
lint_line name prepare_error = error_line name prepare_error

-- cmdStatus, and the line of `version`
abbrev pub version_text : String
version_text = "v0.1.0"

abbrev pub status_lines : List String
status_lines =
    ("GhostGuard " & version_text)
    ∷ "Status: not running (standalone check)"
    ∷ ""
    ∷ "To start: ghostguard serve --port 8081 --policies ./policies"
    ∷ "Dashboard: http://localhost:9090"
    ∷ []

module _ {F M P : Type 0} (opa : Rego M P F) where
  -- cmdPolicyTest, once the policy is loaded: `read` is os.ReadFile, `decode_call` what json.Unmarshal
  -- makes of the text of a call, and `decode_args` what it leaves in a map for the text of arguments.
  unfoldable pub try_call :
      (String → Option String)
      → (String → Option (ToolCall F))
      → (String → Args F)
      → ℤ
      → TestFlags
      → Engine M P
      → TestEnd
  try_call read decode_call decode_args now flags engine =
      let tool : ToolCall F = record {
        id = "";
        name = flags.tool;
        arguments = decode_args flags.args;
        raw_args = flags.args;
      } in
      if flags.input == ""
      then (if flags.tool == "" then no_tool else decided (evaluate opa now tool engine))
      else elim (read flags.input) [
        | none ↦ unread_input
        | some text ↦ elim (decode_call text) [
          | none ↦ unparsed_input
          | some call ↦ decided (evaluate opa now call engine)
        ]
      ]

  -- cmdPolicyTest
  unfoldable pub run_test :
      (String → Option String)
      → (String → Option (ToolCall F))
      → (String → Args F)
      → ℤ
      → TestFlags
      → TestEnd
  unfolding try_call
  run_test read decode_call decode_args now flags =
      if flags.policy == "" then no_policy else elim (read flags.policy) [
        | none ↦ unread_policy
        | some text ↦
            let (engine, r) = load_policy opa flags.policy text (new_engine opa) in
            elim r [
              | loaded ↦ try_call read decode_call decode_args now flags engine
              | parse_error ↦ unloaded parse_error
              | prepare_error ↦ unloaded prepare_error
            ]
      ]

  -- The loop of cmdPolicyLint, from the engine and the number of errors so far.
  unfoldable pub lint_each : Dict String → Engine M P → ℕ → List LintLine × ℕ
  unfolding lint_line
  lint_each [] engine errors = ([], errors)
  lint_each ((name, text) ∷ policies) engine errors =
      let (engine', r) = load_policy opa name text engine in
      let errors' : ℕ = elim r [
        | loaded ↦ errors
        | parse_error ↦ suc errors
        | prepare_error ↦ suc errors
      ] in
      let (lines, total) = lint_each policies engine' errors' in (lint_line name r ∷ lines, total)

  -- cmdPolicyLint: `dir` is what os.ReadDir gives, and `order` the order of the range.
  unfoldable pub run_lint : (Dict String → Dict String) → Option (List DirEntry) → LintEnd
  run_lint order dir = elim (load_policies_from_dir dir) [
    | none ↦ unread_dir
    | some policies ↦
        let (lines, errors) = lint_each (order policies) (new_engine opa) 0 in linted lines errors
  ]
