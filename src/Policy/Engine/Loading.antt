-- ===== src/Policy/Engine/Loading.antt =====
-- What loading a policy does to the engine.
use ghost_guard.Prelude.{
  String, Bool, true, false, ◌≡◌, ◌≢◌, refl, ◌∙◌, none, some, List, [], ◌∷◌, arith, ◌==◌, eq_refl,
  All, Option-cases, inl, inr,
}
use ghost_guard.Dict.{Dict, lookup, insert}
use ghost_guard.Dict.Laws.{lookup-insert}
use ghost_guard.Policy.Engine.{
  Rego, Engine, LoadResult, loaded, parse_error, prepare_error, load_policy,
}

module _ {M P F : Type 0} (opa : Rego M P F) where
  -- What each of the three results says of the engine behind it.
  abbrev pub Outcome : String → String → Engine M P → Engine M P → LoadResult → Type 0
  Outcome name text e e' parse_error = (opa.parse name text ≡ none) × (e' ≡ e)
  Outcome name text e e' prepare_error =
      (m : M) × (opa.parse name text ≡ some m)
      × (opa.prepare e'.modules ≡ none)
      × (e'.modules ≡ insert name m e.modules)
      × (e'.prepared ≡ e.prepared)
  Outcome name text e e' loaded =
      (m : M) × (opa.parse name text ≡ some m)
      × (opa.prepare e'.modules ≡ some e'.prepared)
      × (e'.modules ≡ insert name m e.modules)

  pub load_policy-Outcome :
      (name text : String) (e : Engine M P)
      → Outcome name text e (load_policy opa name text e).0 (load_policy opa name text e).1
  unfolding load_policy
  load_policy-Outcome name text e = elim (Option-cases (opa.parse name text)) [
    | inl unparsed ↦ rw (unparsed, load_policy) (unparsed, refl)
    | inr (m, parsed) ↦ elim (Option-cases (opa.prepare (insert name m e.modules))) [
      | inl refused ↦
          rw (parsed, load_policy) (rw (refused, load_policy) (m, parsed, refused, refl, refl))
      | inr (q, compiled) ↦
          rw (parsed, load_policy) (rw (compiled, load_policy) (m, parsed, compiled, refl))
    ]
  ]

  -- The loads of a list of named texts, one after the other, and whether one of them succeeded.
  unfoldable pub load_all : List (String × String) → Engine M P → Engine M P × Bool
  load_all [] e = (e, false)
  load_all ((name, text) ∷ ps) e =
      let (e', r) = load_policy opa name text e in
      let (e'', later) = load_all ps e' in (e'', elim r [ loaded ↦ true | _ ↦ later ])

  -- The map holds a module with which nothing compiles.
  abbrev pub Poisoned : String → M → Engine M P → Type 0
  Poisoned name bad e = lookup name e.modules ≡ some bad

  load_policy-Poisoned :
      (name : String) (bad : M) (j text : String) (e : Engine M P)
      → ((ms : Dict M) → lookup name ms ≡ some bad → opa.prepare ms ≡ none)
      → (j == name) ≡ false
      → Poisoned name bad e
      → Poisoned name bad (load_policy opa j text e).0
        × ((load_policy opa j text e).0.prepared ≡ e.prepared)
        × ((load_policy opa j text e).1 ≢ loaded)
  unfolding load_policy
  load_policy-Poisoned name bad j text e never other h = elim (Option-cases (opa.parse j text)) [
    | inl unparsed ↦ rw (unparsed, load_policy) (h, refl, λ q. cc)
    | inr (m, parsed) ↦
        let kept : lookup name (insert j m e.modules) ≡ some bad =
          rw (lookup-insert j name m e.modules, other) h in
        rw (parsed, load_policy)
          (rw (never (insert j m e.modules) kept, load_policy) (kept, refl, λ q. cc))
  ]

  load_all-Poisoned :
      (name : String) (bad : M) (ps : List (String × String)) (e : Engine M P)
      → ((ms : Dict M) → lookup name ms ≡ some bad → opa.prepare ms ≡ none)
      → All (λ p. (p.0 == name) ≡ false) ps
      → Poisoned name bad e
      → ((load_all ps e).0.prepared ≡ e.prepared) × ((load_all ps e).1 ≡ false)
  unfolding load_all
  load_all-Poisoned name bad [] e never others h = (refl, refl)
  load_all-Poisoned name bad ((j, text) ∷ ps) e never (other, others) h =
      let (h', same, failed) = load_policy-Poisoned name bad j text e never other h in
      let (same', failed') =
        load_all-Poisoned name bad ps (load_policy opa j text e).0 never others h' in
      (same' ∙ same, ground arith)

  -- Once a policy has been read that parses and with which no set of modules compiles, no load of a
  -- policy of another name succeeds, and the query in force stays that of before.
  pub load_all-prepare_error :
      (name text : String) (bad : M) (ps : List (String × String)) (e : Engine M P)
      → opa.parse name text ≡ some bad
      → ((ms : Dict M) → lookup name ms ≡ some bad → opa.prepare ms ≡ none)
      → All (λ p. (p.0 == name) ≡ false) ps
      → ((load_all ps (load_policy opa name text e).0).0.prepared ≡ e.prepared)
        × ((load_all ps (load_policy opa name text e).0).1 ≡ false)
  unfolding load_policy
  load_all-prepare_error name text bad ps e parsed never others =
      let stored : lookup name (insert name bad e.modules) ≡ some bad =
        rw (lookup-insert name name bad e.modules, eq_refl name) in
      rw (parsed, load_policy)
        (rw (never (insert name bad e.modules) stored, load_policy)
          (load_all-Poisoned name bad ps (record e { modules = insert name bad e.modules }) never
            others stored))
