-- ===== src/Policy/Engine/Verdict.antt =====
-- The decision as a function of what the expressions say, with no loops and no state.
use ghost_guard.Prelude.{
  String, Bool, true, false, ◌||◌, ◌≡◌, refl, sym, ◌∙◌, ◌↔◌, ap, Option, none, some, List, [], ◌∷◌,
  ◌++◌, ◌&◌, arith, if◌then◌else◌, any, Option-cases, inl, inr,
}
use ghost_guard.Prelude.Int.{ℤ}
use ghost_guard.Dict.{lookup}
use ghost_guard.Model.{ToolCall, Action, allow, deny, log, PolicyDecision}
use ghost_guard.Policy.Engine.{
  Input, ExprValue, object, ResultSet, Rego, Engine, Flow, return, next, holds, check_expr,
  check_exprs, check_results, default_decision, evaluate,
}

-- The expression is a map in which the rule holds.
abbrev pub says : String → ExprValue → Bool
says rule (object val) = holds (lookup rule val)
says rule ExprValue.other = false

-- All expressions of all results, in their order.
abbrev pub expressions : ResultSet → List ExprValue
expressions [] = []
expressions (es ∷ rs) = es ++ expressions rs

-- The action of a decision with which the loop goes on.
abbrev pub so_far : Bool → Action
so_far allowed = if allowed then allow else deny

-- The first expression that denies or logs decides, denying before logging; with none of these it
-- is enough that some expression allows.
abbrev pub verdict : Bool → List ExprValue → Action
verdict allowed [] = so_far allowed
verdict allowed (e ∷ es) =
    if says "deny" e
    then deny
    else if says "log" e
    then log
    else verdict (allowed || says "allow" e) es

-- What is left to do when a round goes on.
abbrev after : Flow → (PolicyDecision → PolicyDecision) → PolicyDecision
after (return d) k = d
after (next d) k = k d

-- `k` gives the verdict about `rest`.
abbrev Decides : (PolicyDecision → PolicyDecision) → List ExprValue → Type 0
Decides k rest =
    (d : PolicyDecision) (allowed : Bool)
    → d.action ≡ so_far allowed
    → (k d).action ≡ verdict allowed rest

module _ (name : String) where
  after-check_expr :
      (e : ExprValue) (rest : List ExprValue) (k : PolicyDecision → PolicyDecision)
      → Decides k rest
      → Decides (λ d. after (check_expr name e d) k) (e ∷ rest)
  unfolding check_expr
  after-check_expr ExprValue.other rest k hk d true h = hk d true h
  after-check_expr ExprValue.other rest k hk d false h = hk d false h
  after-check_expr (object val) rest k hk d allowed h =
      let d' : PolicyDecision = record d {
        action = allow;
        policy_name = "ghostguard";
        reason = "policy allowed tool '" & name & "'";
      } in
      ground (arith, hk d allowed h, hk d' true refl)

  after-check_exprs :
      (es rest : List ExprValue) (k : PolicyDecision → PolicyDecision)
      → Decides k rest
      → Decides (λ d. after (check_exprs name es d) k) (es ++ rest)
  unfolding check_exprs
  after-check_exprs [] rest k hk d allowed h = hk d allowed h
  after-check_exprs (e ∷ es) rest k hk d allowed h =
      regroup (check_expr name e d)
      ∙ after-check_expr e (es ++ rest) (λ d'. after (check_exprs name es d') k)
          (after-check_exprs es rest k hk) d allowed h
    where
      regroup :
          (f : Flow)
          → (after
              (elim f as (λ _. Flow) [ return d' ↦ return d' | next d' ↦ check_exprs name es d' ])
              k).action
            ≡ (after f (λ d'. after (check_exprs name es d') k)).action
      regroup (return d') = refl
      regroup (next d') = refl

  check_results-verdict : (rs : ResultSet) → Decides (check_results name rs) (expressions rs)
  unfolding check_results
  check_results-verdict [] d allowed h = h
  check_results-verdict (es ∷ rs) d allowed h =
      regroup (check_exprs name es d)
      ∙ after-check_exprs es (expressions rs) (check_results name rs) (check_results-verdict rs) d
          allowed h
    where
      regroup :
          (f : Flow)
          → (elim f as (λ _. PolicyDecision) [
            | return d' ↦ d'
            | next d' ↦ check_results name rs d'
          ]).action
            ≡ (after f (check_results name rs)).action
      regroup (return d') = refl
      regroup (next d') = refl

-- The verdict on a call: no results are a denial.
abbrev pub verdict_on : Option ResultSet → Action
verdict_on none = deny
verdict_on (some results) = verdict false (expressions results)

module _ {M P F : Type 0} (opa : Rego M P F) where
  abbrev pub input_of : ToolCall F → Input F
  input_of tc = record { tool_name = tc.name; arguments = tc.arguments; raw_args = tc.raw_args }

  -- The action of `evaluate` is the verdict on what the evaluator answers for the call's name and
  -- arguments, and a denial where it answers with an error.
  pub evaluate-verdict :
      (now : ℤ) (tc : ToolCall F) (e : Engine M P)
      → (evaluate opa now tc e).action ≡ verdict_on (opa.eval e.prepared (input_of tc))
  unfolding evaluate default_decision
  evaluate-verdict now tc e = elim (Option-cases (opa.eval e.prepared (input_of tc))) [
    | inl failed ↦ rw (failed, evaluate)
    | inr (results, answered) ↦
        rw (answered, evaluate)
          (check_results-verdict tc.name results (default_decision now) false refl)
  ]

-- The expression denies or logs, so that nothing behind it counts.
abbrev pub is_final : ExprValue → Bool
is_final e = says "deny" e || says "log" e

verdict-allow_iff :
    (allowed : Bool) (es : List ExprValue)
    → (verdict allowed es ≡ allow)
      ↔ ((any is_final es ≡ false) × ((allowed || any (says "allow") es) ≡ true))
verdict-allow_iff allowed [] = ground arith
verdict-allow_iff allowed (e ∷ es) =
    ground (arith, verdict-allow_iff (allowed || says "allow" e) es)

-- A call is allowed exactly when the evaluator answers without an error, no expression denies or
-- logs, and some expression allows.
pub evaluate-allow_iff :
    {M P F : Type 0} (opa : Rego M P F) (now : ℤ) (tc : ToolCall F) (e : Engine M P)
    → ((evaluate opa now tc e).action ≡ allow) ↔ (
        (results : ResultSet) × (opa.eval e.prepared (input_of opa tc) ≡ some results)
        × (any is_final (expressions results) ≡ false)
        × (any (says "allow") (expressions results) ≡ true))
evaluate-allow_iff opa now tc e = elim (Option-cases (opa.eval e.prepared (input_of opa tc))) [
  | inl failed ↦
      let denied : (evaluate opa now tc e).action ≡ deny =
        evaluate-verdict opa now tc e ∙ ap verdict_on failed in
      (λ h. cc, λ r. cc)
  | inr (results, answered) ↦
      let same : (evaluate opa now tc e).action ≡ verdict false (expressions results) =
        evaluate-verdict opa now tc e ∙ ap verdict_on answered in
      let (to, from) = verdict-allow_iff false (expressions results) in
      (
        λ h. let (calm, allowed) = to (sym same ∙ h) in (results, answered, calm, allowed),
        λ (rs, eq, calm, allowed).
            let e' : rs ≡ results = cc in same ∙ from (rw e' at calm, rw e' at allowed),
      )
]
