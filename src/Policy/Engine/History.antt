-- ===== src/Policy/Engine/History.antt =====
-- internal/policy/engine.go: what any sequence of calls of LoadPolicy leaves in the engine.
use ghost_guard.Prelude.{
  String, Bool, true, false, ◌≡◌, refl, sym, ap, ◌∙◌, Option, none, some, List, [], ◌∷◌, ◌++◌,
  arith, if◌then◌else◌, ◌==◌, Option-cases, inl, inr,
}
use ghost_guard.Dict.{lookup, insert}
use ghost_guard.Dict.Laws.{lookup-insert}
use ghost_guard.Policy.Engine.{
  Rego, Engine, new_engine, LoadResult, loaded, parse_error, prepare_error, load_policy,
}
use ghost_guard.Policy.Engine.Loading.{Outcome, load_all, load_policy-Outcome}

module _ {M P F : Type 0} (opa : Rego M P F) where
  -- What the last text of the name that parses says, and `found` if there is none.
  unfoldable pub last_parsed : String → List (String × String) → Option M → Option M
  last_parsed asked [] found = found
  last_parsed asked ((name, text) ∷ ps) found =
      let here : Option M = elim (opa.parse name text) [ none ↦ found | some m ↦ some m ] in
      last_parsed asked ps (if name == asked then here else found)

  lookup-load_policy :
      (asked name text : String) (e : Engine M P)
      → lookup asked (load_policy opa name text e).0.modules ≡ (
          if name == asked
          then elim (opa.parse name text) [ none ↦ lookup asked e.modules | some m ↦ some m ]
          else lookup asked e.modules)
  unfolding load_policy
  lookup-load_policy asked name text e = elim (Option-cases (opa.parse name text)) [
    | inl unparsed ↦ rw (unparsed, load_policy) (ground arith)
    | inr (m, parsed) ↦
        let stored = lookup-insert name asked m e.modules in
        elim (Option-cases (opa.prepare (insert name m e.modules))) [
          | inl refused ↦ rw (parsed, load_policy) (rw (refused, load_policy) stored)
          | inr (q, compiled) ↦ rw (parsed, load_policy) (rw (compiled, load_policy) stored)
        ]
  ]

  lookup-load_all :
      (asked : String) (ps : List (String × String)) (e : Engine M P)
      → lookup asked (load_all opa ps e).0.modules ≡ last_parsed asked ps (lookup asked e.modules)
  unfolding load_all last_parsed
  lookup-load_all asked [] e = refl
  lookup-load_all asked ((name, text) ∷ ps) e =
      lookup-load_all asked ps (load_policy opa name text e).0
      ∙ ap (last_parsed asked ps) (lookup-load_policy asked name text e)

  -- The query of `e'` was compiled from the modules that there were after the first loads, and none of
  -- the later ones succeeded.
  abbrev pub IsCompiled : List (String × String) → Engine M P → Engine M P → Type 0
  IsCompiled ps e e' =
      (first : List (String × String)) × (later : List (String × String)) × (ps ≡ first ++ later)
      × (opa.prepare (load_all opa first e).0.modules ≡ some e'.prepared)
      × ((load_all opa later (load_all opa first e).0).1 ≡ false)

  -- Whether a load of several succeeded says which query is in force behind them.
  abbrev pub InForce : List (String × String) → Engine M P → Engine M P → Bool → Type 0
  InForce ps e e' false = e'.prepared ≡ e.prepared
  InForce ps e e' true = IsCompiled ps e e'

  InForce-step :
      (name text : String) (ps : List (String × String)) (e final : Engine M P) (r : LoadResult)
      (b : Bool)
      → Outcome opa name text e (load_policy opa name text e).0 r
      → (load_all opa ps (load_policy opa name text e).0).1 ≡ b
      → InForce ps (load_policy opa name text e).0 final b
      → InForce
          ((name, text) ∷ ps)
          e
          final
          (elim r [ loaded ↦ true | parse_error ↦ b | prepare_error ↦ b ])
  unfolding load_all
  InForce-step name text ps e final loaded false (m, parsed, compiled, stored) flag h =
      ((name, text) ∷ [], ps, refl, compiled ∙ ap some (sym h), flag)
  InForce-step name text ps e final loaded true out flag (first, later, split, compiled, failed) =
      ((name, text) ∷ first, later, ap (λ l. (name, text) ∷ l) split, compiled, failed)
  InForce-step name text ps e final parse_error false (unparsed, same) flag h =
      h ∙ ap (λ (x : Engine M P). x.prepared) same
  InForce-step name text ps e final parse_error true out flag
        (first, later, split, compiled, failed) =
      ((name, text) ∷ first, later, ap (λ l. (name, text) ∷ l) split, compiled, failed)
  InForce-step name text ps e final prepare_error false (m, parsed, refused, stored, same) flag h =
      h ∙ same
  InForce-step name text ps e final prepare_error true out flag
        (first, later, split, compiled, failed) =
      ((name, text) ∷ first, later, ap (λ l. (name, text) ∷ l) split, compiled, failed)

  load_all-InForce :
      (ps : List (String × String)) (e : Engine M P)
      → InForce ps e (load_all opa ps e).0 (load_all opa ps e).1
  unfolding load_all
  load_all-InForce [] e = refl
  load_all-InForce ((name, text) ∷ ps) e =
      InForce-step name text ps e (load_all opa ps (load_policy opa name text e).0).0 _ _
        (load_policy-Outcome opa name text e) refl
        (load_all-InForce ps (load_policy opa name text e).0)

  -- After any loads into a new engine its map has for each name the module of the last text of the name
  -- that parses, whether or not it compiled, and nothing where there is none. If no load succeeded the
  -- query in force is still the empty one; and else it was compiled from all modules that there were
  -- after some of the loads, of which none of the later ones succeeded.
  pub load_all-history :
      (asked : String) (ps : List (String × String))
      → let (e, ok) = load_all opa ps (new_engine opa) in
        (lookup asked e.modules ≡ last_parsed asked ps none) × InForce ps (new_engine opa) e ok
  unfolding new_engine lookup
  load_all-history asked ps =
      (lookup-load_all asked ps (new_engine opa), load_all-InForce ps (new_engine opa))
