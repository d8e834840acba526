-- ===== src/Policy/Engine.antt =====
-- internal/policy/engine.go: a query over all loaded modules, and the decision that its results mean.
-- The compiler and the evaluator are the Open Policy Agent's: the record `Rego` takes their place.
pub mod Verdict
pub mod Loading
pub mod History
use ghost_guard.Prelude.{
  ℕ, String, Bool, true, false, ◌&&◌, ◌||◌, Option, none, some, List, [], ◌∷◌, if◌then◌else◌, ltb,
  length, ◌&◌,
}
use ghost_guard.Prelude.Int.{ℤ, pos}
use ghost_guard.Dict.{Dict, lookup, insert}
use ghost_guard.Model.{Args, ToolCall, Action, allow, deny, log, PolicyDecision}

-- The `input` document of a query.
pub record Input (F : Type 0) : Type 0 where
  pub tool_name : String
  pub arguments : Args F
  pub raw_args : String

-- The value of a rule, as far as `Evaluate` looks at it: `set n` is an `ast.Set` of `n` members.
pub data RuleValue : Type 0 where
  bool : Bool → RuleValue
  set : ℕ → RuleValue
  other : RuleValue

-- The value of an expression: a `map[string]interface{}`, or not.
pub data ExprValue : Type 0 where
  object : Dict RuleValue → ExprValue
  other : ExprValue

-- The expressions of each result.
abbrev pub ResultSet : Type 0
ResultSet = List (List ExprValue)

-- `M` is `*ast.Module`, `P` is `rego.PreparedEvalQuery`. `none` is an error.
pub record Rego (M P F : Type 0) : Type 0 where
  pub parse : String → String → Option M
  pub prepare : Dict M → Option P
  -- The zero PreparedEvalQuery. To evaluate it may panic; what is proved of an evaluation speaks of one
  -- that answers.
  pub zero_query : P
  pub eval : P → Input F → Option ResultSet

pub record Engine (M P : Type 0) : Type 0 where
  pub modules : Dict M
  pub prepared : P

-- What LoadPolicy returns: `nil`, or which of its two errors.
pub data LoadResult : Type 0 where
  loaded parse_error prepare_error : LoadResult

-- `val[rule].(bool)` is there and true, or `isTrueSet(val[rule])`
unfoldable pub holds : Option RuleValue → Bool
holds none = false
holds (some (bool b)) = b
holds (some (set n)) = ltb 0 n
holds (some RuleValue.other) = false

-- A round of the loop returns, or goes on with the decision so far.
pub data Flow : Type 0 where
  return : PolicyDecision → Flow
  next : PolicyDecision → Flow

unfoldable pub check_expr : String → ExprValue → PolicyDecision → Flow
unfolding holds lookup
check_expr name ExprValue.other d = next d
check_expr name (object val) d =
    if holds (lookup "deny" val)
    then return (record d { action = deny; reason = "policy denied tool '" & name & "'" })
    else if holds (lookup "log" val)
    then return (record d {
      action = log;
      policy_name = "ghostguard";
      reason = "policy logged tool '" & name & "'";
    })
    else if holds (lookup "allow" val)
    then next (record d {
      action = allow;
      policy_name = "ghostguard";
      reason = "policy allowed tool '" & name & "'";
    })
    else next d

-- The inner loop.
unfoldable pub check_exprs : String → List ExprValue → PolicyDecision → Flow
check_exprs name [] d = next d
check_exprs name (e ∷ es) d = elim (check_expr name e d) [
  | return d' ↦ return d'
  | next d' ↦ check_exprs name es d'
]

-- The outer loop, and the return behind it.
unfoldable pub check_results : String → ResultSet → PolicyDecision → PolicyDecision
check_results name [] d = d
check_results name (es ∷ rs) d = elim (check_exprs name es d) [
  | return d' ↦ d'
  | next d' ↦ check_results name rs d'
]

-- The decision that stands when no rule says anything.
unfoldable pub default_decision : ℤ → PolicyDecision
default_decision now = record {
  action = deny;
  policy_name = "";
  reason = "no policy allowed this tool";
  timestamp = now;
}

module _ {M P F : Type 0} (opa : Rego M P F) where
  unfoldable pub new_engine : Engine M P
  new_engine = record { modules = []; prepared = opa.zero_query }

  unfoldable pub load_policy : String → String → Engine M P → Engine M P × LoadResult
  load_policy name text e = elim (opa.parse name text) [
    | none ↦ (e, parse_error)
    | some parsed ↦
        let modules = insert name parsed e.modules in
        elim (opa.prepare modules) [
          | none ↦ (record e { modules = modules }, prepare_error)
          | some prepared ↦ (record { modules = modules; prepared = prepared }, loaded)
        ]
  ]

  unfoldable pub evaluate : ℤ → ToolCall F → Engine M P → PolicyDecision
  unfolding check_results check_exprs check_expr default_decision
  evaluate now tc e =
      let input : Input F = record {
        tool_name = tc.name;
        arguments = tc.arguments;
        raw_args = tc.raw_args;
      } in
      elim (opa.eval e.prepared input) [
        | none ↦ default_decision now
        | some results ↦ check_results tc.name results (default_decision now)
      ]

unfoldable pub policy_count : {M P : Type 0} → Engine M P → ℤ
policy_count e = pos (length e.modules)
