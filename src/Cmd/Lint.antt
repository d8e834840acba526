-- ===== src/Cmd/Lint.antt =====
-- cmd/ghostguard/main.go, `policy lint`, beside LoadPolicies of internal/proxy/proxy.go.
use ghost_guard.Prelude.{
  ℕ, suc, ◌≡◌, refl, arith, ◌↔◌, String, true, ◌&&◌, Option, List, [], ◌∷◌, ◌&◌, eqb, Option-cases,
  inl, inr,
}
use ghost_guard.Prelude.Int.{ℤ}
use ghost_guard.Dict.{Dict}
use ghost_guard.Runtime.{Runtime}
use ghost_guard.Policy.Engine.{
  Rego, LoadResult, loaded, parse_error, prepare_error, new_engine, load_policy,
}
use ghost_guard.Policy.Loader.{DirEntry, load_policies_from_dir}
use ghost_guard.Proxy.State.{Proxy}
use ghost_guard.Proxy.Watch.{note, load_named, load_policies}
use ghost_guard.Cmd.{lint_each, run_lint, lint_status}

module _ {F M P : Type 0} (rt : Runtime F) (opa : Rego M P F)
    (explain : String → String → LoadResult → String) where
  -- The proxy behind a policy that LoadPolicies has loaded.
  behind : (ℕ → ℤ) → ℕ → String → String → Proxy F M P → Proxy F M P
  behind at k name text p =
      note rt opa explain (at k) "info" ("loaded policy: " & name)
        (record p { engine = (load_policy opa name text p.engine).0 })

  lint_each-load_step :
      (at : ℕ → ℤ) (k : ℕ) (name text : String) (policies : Dict String) (p : Proxy F M P)
      (errors : ℕ) (r : LoadResult)
      → (load_policy opa name text p.engine).1 ≡ r
      → ((n : ℕ)
          → eqb (lint_each opa policies (load_policy opa name text p.engine).0 n).1 0 ≡ (
              eqb n 0
              && (load_named rt opa explain at (suc k) policies (behind at k name text p)).1))
      → eqb (lint_each opa ((name, text) ∷ policies) p.engine errors).1 0
        ≡ (eqb errors 0 && (load_named rt opa explain at k ((name, text) ∷ policies) p).1)
  unfolding lint_each load_named behind
  lint_each-load_step at k name text policies p errors loaded e rest =
      rw (e, lint_each, load_named) (rest errors)
  lint_each-load_step at k name text policies p errors parse_error e rest =
      rw (e, lint_each, load_named) (ground (arith, rest (suc errors)))
  lint_each-load_step at k name text policies p errors prepare_error e rest =
      rw (e, lint_each, load_named) (ground (arith, rest (suc errors)))

  -- No error is forgotten, and there is none exactly when every load succeeds.
  lint_each-load_named :
      (at : ℕ → ℤ) (k : ℕ) (policies : Dict String) (p : Proxy F M P) (errors : ℕ)
      → eqb (lint_each opa policies p.engine errors).1 0
        ≡ (eqb errors 0 && (load_named rt opa explain at k policies p).1)
  unfolding lint_each load_named behind
  lint_each-load_named at k [] p errors = ground arith
  lint_each-load_named at k ((name, text) ∷ policies) p errors =
      lint_each-load_step at k name text policies p errors _ refl
        (λ n. lint_each-load_named at (suc k) policies (behind at k name text p) n)

  -- With the same directory and the same order of the range, `policy lint` ends with the status 0 exactly
  -- when LoadPolicies of a proxy that has read no policy yet returns no error.
  pub run_lint-load_policies :
      (order : Dict String → Dict String) (at : ℕ → ℤ) (dir : Option (List DirEntry))
      (p : Proxy F M P)
      → p.engine ≡ new_engine opa
      → (lint_status (run_lint opa order dir) ≡ 0)
        ↔ ((load_policies rt opa explain order at dir p).1 ≡ true)
  unfolding run_lint load_policies lint_status
  run_lint-load_policies order at dir p new = elim (Option-cases (load_policies_from_dir dir)) [
    | inl unread ↦ rw (unread, run_lint, load_policies) (λ e. ground arith, λ e. ground arith)
    | inr (policies, read) ↦
        let same = lint_each-load_named at 0 (order policies) p 0 in
        rw (read, run_lint, load_policies, ← new)
          (λ e. ground (arith, same), λ e. ground (arith, same))
  ]
