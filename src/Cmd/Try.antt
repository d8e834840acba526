-- ===== src/Cmd/Try.antt =====
-- cmd/ghostguard/main.go, `policy test`: which calls end it with the status 0.
use ghost_guard.Prelude.{
  ◌≡◌, ◌↔◌, refl, arith, String, false, Option, none, some, if◌then◌else◌, ◌==◌, Option-cases,
  Bool-cases, inl, inr,
}
use ghost_guard.Prelude.Int.{ℤ}
use ghost_guard.Model.{Args, ToolCall}
use ghost_guard.Policy.Engine.{
  Rego, Engine, LoadResult, loaded, parse_error, prepare_error, new_engine, load_policy, evaluate,
}
use ghost_guard.Proxy.Inspect.{is_deny}
use ghost_guard.Cmd.{TestFlags, TestEnd, decided, test_status, try_call, run_test}

module _ {F M P : Type 0} (opa : Rego M P F) (read : String → Option String)
    (decode_call : String → Option (ToolCall F)) (decode_args : String → Args F) where
  -- The call that the flags give: that of the input file, or else that of the tool.
  unfoldable pub call_of : TestFlags → Option (ToolCall F)
  call_of flags =
      if flags.input == ""
      then (if flags.tool == ""
          then none
          else some (record {
            id = "";
            name = flags.tool;
            arguments = decode_args flags.args;
            raw_args = flags.args;
          }))
      else elim (read flags.input) [ none ↦ none | some text ↦ decode_call text ]

  -- The flags give a call and the engine does not deny it.
  abbrev pub Passes : ℤ → TestFlags → Engine M P → Type 0
  Passes now flags e =
      (call : ToolCall F) × (call_of flags ≡ some call)
      × (is_deny (evaluate opa now call e).action ≡ false)

  -- A run that has a call decides on it, and one that has none ends with the status 1.
  abbrev Tried : Option (ToolCall F) → ℤ → Engine M P → TestEnd → Type 0
  Tried none now e end = test_status end ≡ 1
  Tried (some call) now e end = end ≡ decided (evaluate opa now call e)

  try_call-Tried :
      (now : ℤ) (flags : TestFlags) (e : Engine M P)
      → Tried (call_of flags) now e (try_call opa read decode_call decode_args now flags e)
  unfolding try_call call_of test_status
  try_call-Tried now flags e = elim (Bool-cases (flags.input == "")) [
    | inl tool ↦ elim (Bool-cases (flags.tool == "")) [
      | inl none_given ↦ rw (tool, none_given) refl
      | inr given ↦ rw (tool, given) refl
    ]
    | inr file ↦ elim (Option-cases (read flags.input)) [
      | inl unread ↦ rw (file, unread, call_of, try_call) refl
      | inr (text, content) ↦ elim (Option-cases (decode_call text)) [
        | inl unparsed ↦
            rw (file, content, call_of, try_call) (rw (unparsed, call_of, try_call) refl)
        | inr (call, given) ↦
            rw (file, content, call_of, try_call) (rw (given, call_of, try_call) refl)
      ]
    ]
  ]

  Tried-status :
      (now : ℤ) (flags : TestFlags) (e : Engine M P) (end : TestEnd) (call : Option (ToolCall F))
      → call_of flags ≡ call
      → Tried call now e end
      → (test_status end ≡ 0) ↔ Passes now flags e
  unfolding test_status
  Tried-status now flags e end none given tried =
      (λ zero. absurd (ground arith), λ (call, given', kept). absurd (ground arith))
  Tried-status now flags e end (some call) given tried = rw tried (
    λ zero. (call, given, ground arith),
    λ (call', given', kept).
        let same : call' ≡ call = ground arith in
        let kept' : is_deny (evaluate opa now call e).action ≡ false = rw same at kept in
        ground (arith, kept'),
  )

  -- The file of `--policy` is read, it loads into an empty engine, and there is a call that the engine
  -- with this one policy does not deny.
  abbrev pub Accepts : ℤ → TestFlags → Type 0
  Accepts now flags =
      ((flags.policy == "") ≡ false)
      × (text : String) × (read flags.policy ≡ some text)
      × ((load_policy opa flags.policy text (new_engine opa)).1 ≡ loaded)
      × Passes now flags (load_policy opa flags.policy text (new_engine opa)).0

  loaded-Passes :
      (now : ℤ) (flags : TestFlags) (text : String) (r : LoadResult)
      → (flags.policy == "") ≡ false
      → read flags.policy ≡ some text
      → (load_policy opa flags.policy text (new_engine opa)).1 ≡ r
      → (test_status (run_test opa read decode_call decode_args now flags) ≡ 0)
        ↔ ((r ≡ loaded) × Passes now flags (load_policy opa flags.policy text (new_engine opa)).0)
  unfolding run_test test_status
  loaded-Passes now flags text loaded named content e =
      let engine = (load_policy opa flags.policy text (new_engine opa)).0 in
      let (there, back) =
        Tried-status now flags engine _ _ refl (try_call-Tried now flags engine) in
      rw (named, content, run_test)
        (rw (e, run_test) (λ zero. (refl, there zero), λ (x, passes). back passes))
  loaded-Passes now flags text parse_error named content e =
      rw (named, content, run_test)
        (rw (e, run_test) (λ zero. absurd (ground arith), λ (x, y). absurd (ground arith)))
  loaded-Passes now flags text prepare_error named content e =
      rw (named, content, run_test)
        (rw (e, run_test) (λ zero. absurd (ground arith), λ (x, y). absurd (ground arith)))

  -- `policy test` ends with the status 0 exactly when a policy file is named and read, it loads into an
  -- empty engine, the flags give a call, and the engine does not deny this call.
  pub run_test-Accepts :
      (now : ℤ) (flags : TestFlags)
      → (test_status (run_test opa read decode_call decode_args now flags) ≡ 0) ↔ Accepts now flags
  unfolding run_test test_status
  run_test-Accepts now flags = elim (Bool-cases (flags.policy == "")) [
    | inl unnamed ↦
        rw unnamed
          (λ zero. absurd (ground arith), λ (x, text, content, ok, passes). absurd (ground arith))
    | inr named ↦ elim (Option-cases (read flags.policy)) [
      | inl unread ↦
          rw (named, unread, run_test)
            (λ zero. absurd (ground arith), λ (x, text, content, ok, passes). absurd (ground arith))
      | inr (text, content) ↦
          let (there, back) = loaded-Passes now flags text _ named content refl in
          (
            λ zero. let (ok, passes) = there zero in (named, text, content, ok, passes),
            λ (x, text', content', ok, passes).
                let same : text' ≡ text = ground arith in back (rw same at ok, rw same at passes),
          )
    ]
  ]
