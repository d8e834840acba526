-- ===== src/Tests/Policy.antt =====
-- internal/policy: policies that deny, that do not parse, and that do not compile together.
use ghost_guard.Prelude.{
  ◌≡◌, refl, ◌↔◌, String, true, false, not, none, some, List, [], ◌∷◌, any, is_some, if◌then◌else◌,
}
use ghost_guard.Prelude.Int.{pos}
use ghost_guard.Dict.{Dict, lookup}
use ghost_guard.Model.{allow}
use ghost_guard.Policy.Engine.{ResultSet, new_engine, load_policy, evaluate}
use ghost_guard.Policy.Engine.Verdict.{
  expressions, says, is_final, input_of, verdict_on, evaluate-verdict, evaluate-allow_iff,
}
use ghost_guard.Policy.Engine.Loading.{load_all, load_all-prepare_error}
use ghost_guard.Policy.Engine.History.{last_parsed, InForce, load_all-history}
use ghost_guard.Policy.Loader.{DirEntry, load_policies_from_dir}
use ghost_guard.Policy.Loader.Laws.{
  is_unreadable, content_of, loaded_content, load_policies_from_dir-content_of,
}
use ghost_guard.Tests.World.{opa, call, engine}

evaluate-verdict_example :
    (evaluate opa (pos 7) (call "shell") engine).action
    ≡ verdict_on (opa.eval engine.prepared (input_of opa (call "shell")))
evaluate-verdict_example = evaluate-verdict opa (pos 7) (call "shell") engine

evaluate-allow_iff_example : ((evaluate opa (pos 7) (call "read_file") engine).action ≡ allow) ↔ (
    (results : ResultSet) × (opa.eval engine.prepared (input_of opa (call "read_file"))
      ≡ some results)
    × (any is_final (expressions results) ≡ false)
    × (any (says "allow") (expressions results) ≡ true))
evaluate-allow_iff_example = evaluate-allow_iff opa (pos 7) (call "read_file") engine

-- A policy that compiles, one that does not compile beside it, and one that is read in its place.
abbrev texts : List (String × String)
texts = ("a.rego", "shell") ∷ ("b.rego", "clash") ∷ ("b.rego", "exec") ∷ []

load_all-history_example :
    let (e, ok) = load_all opa texts (new_engine opa) in
    (lookup "b.rego" e.modules ≡ last_parsed opa "b.rego" texts none)
    × InForce opa texts (new_engine opa) e ok
load_all-history_example = load_all-history opa "b.rego" texts

never_compiles : (ms : Dict String) → lookup "b.rego" ms ≡ some "clash" → opa.prepare ms ≡ none
never_compiles ms found = rw (found, opa) refl

load_all-prepare_error_example :
    ((load_all opa (("c.rego", "exec") ∷ []) (load_policy opa "b.rego" "clash" engine).0).0.prepared
      ≡ engine.prepared)
    × ((load_all opa (("c.rego", "exec") ∷ []) (load_policy opa "b.rego" "clash" engine).0).1
        ≡ false)
load_all-prepare_error_example =
    load_all-prepare_error opa "b.rego" "clash" "clash" (("c.rego", "exec") ∷ []) engine refl
      never_compiles (refl, tt)

abbrev entries : List DirEntry
entries =
    record { name = "a.rego"; is_dir = false; content = some "shell" }
    ∷ record { name = "notes.txt"; is_dir = false; content = none }
    ∷ []

load_policies_from_dir-content_of_example :
    (is_some (load_policies_from_dir (some entries)) ≡ not (any is_unreadable entries))
    × (loaded_content "a.rego" (load_policies_from_dir (some entries))
        ≡ (if any is_unreadable entries then none else content_of "a.rego" entries none))
load_policies_from_dir-content_of_example = load_policies_from_dir-content_of entries "a.rego"
