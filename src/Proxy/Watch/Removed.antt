-- ===== src/Proxy/Watch/Removed.antt =====
-- internal/proxy/proxy.go: what a tick of watchPolicies does about a policy file that is gone.
use ghost_guard.Prelude.{
  ◌≡◌, refl, ap, ◌∙◌, arith, ℕ, suc, String, Bool, true, false, Option, none, some, List, [], ◌∷◌,
  ◌==◌, ◌&◌, ◌&&◌, eq_iff, any, is_some, Option-cases, Bool-cases, inl, inr,
}
use ghost_guard.Prelude.Int.{ℤ}
use ghost_guard.Dict.{Dict, lookup, insert}
use ghost_guard.Dict.Laws.{lookup-insert}
use ghost_guard.Runtime.{Runtime}
use ghost_guard.Policy.Engine.{Rego, Engine, LoadResult, load_policy}
use ghost_guard.Proxy.State.{Proxy}
use ghost_guard.Proxy.Watch.{
  WatchEntry, is_watched, watched_names, is_newer, note, reload, watch_entry, watch_entries, forget,
  watch_tick,
}

-- The engine has a module of the name.
abbrev pub has_module : {M P : Type 0} → String → Engine M P → Bool
has_module name e = is_some (lookup name e.modules)

module _ {F M P : Type 0} (rt : Runtime F) (opa : Rego M P F)
    (explain : String → String → LoadResult → String) where
  has_module-load_policy :
      (name file text : String) (e : Engine M P)
      → has_module name e ≡ true
      → has_module name (load_policy opa file text e).0 ≡ true
  unfolding load_policy
  has_module-load_policy name file text e h = elim (Option-cases (opa.parse file text)) [
    | inl unparsed ↦ rw (unparsed, load_policy) h
    | inr (m, parsed) ↦
        let stays : is_some (lookup name (insert file m e.modules)) ≡ true =
          ground (arith, lookup-insert file name m e.modules) in
        elim (Option-cases (opa.prepare (insert file m e.modules))) [
          | inl clash ↦ rw (parsed, load_policy) (rw (clash, load_policy) stays)
          | inr (q, compiled) ↦ rw (parsed, load_policy) (rw (compiled, load_policy) stays)
        ]
  ]

  has_module-reload :
      (name : String) (now : ℤ) (file : String) (t : ℤ) (text : Option String) (last : Dict ℤ)
      (p : Proxy F M P)
      → has_module name p.engine ≡ true
      → has_module name (reload rt opa explain now file t text (last, p)).1.engine ≡ true
  unfolding reload
  has_module-reload name now file t none last p h = h
  has_module-reload name now file t (some text) last p h =
      let stays = has_module-load_policy name file text p.engine h in ground arith

  has_module-watch_entry :
      (name : String) (now : ℤ) (e : WatchEntry) (w : Dict ℤ × Proxy F M P)
      → has_module name w.1.engine ≡ true
      → has_module name (watch_entry rt opa explain now e w).1.engine ≡ true
  unfolding watch_entry
  has_module-watch_entry name now e (last, p) h = elim (Option-cases e.mod_time) [
    | inl unknown ↦ rw (unknown, watch_entry) h
    | inr (t, known) ↦
        let stays = has_module-reload name now e.name t e.content last p h in
        elim (Bool-cases (is_watched e && is_newer t (lookup e.name last))) [
          | inl newer ↦ rw (known, watch_entry) (rw newer stays)
          | inr same ↦ rw (known, watch_entry) (rw same h)
        ]
  ]

  has_module-watch_entries :
      (name : String) (at : ℕ → ℤ) (k : ℕ) (es : List WatchEntry) (w : Dict ℤ × Proxy F M P)
      → has_module name w.1.engine ≡ true
      → has_module name (watch_entries rt opa explain at k es w).1.engine ≡ true
  unfolding watch_entries
  has_module-watch_entries name at k [] w h = h
  has_module-watch_entries name at k (e ∷ es) w h =
      has_module-watch_entries name at (suc k) es (watch_entry rt opa explain (at k) e w)
        (has_module-watch_entry name (at k) e w h)

  engine-forget :
      (at : ℕ → ℤ) (k : ℕ) (names : List String) (last : Dict ℤ) (p : Proxy F M P)
      → (forget rt opa explain at k names last p).1.engine ≡ p.engine
  unfolding forget
  engine-forget at k names [] p = refl
  engine-forget at k names ((name, t) ∷ last) p =
      let kept = engine-forget at (suc k) names last p in
      let removed =
        engine-forget at (suc k) names last
          (note rt opa explain (at k) "info" ("policy removed: " & name) p) in
      elim (Bool-cases (any (λ n. n == name) names)) [
        | inl there ↦ rw there kept
        | inr gone ↦ rw gone removed
      ]

  lookup-forget :
      (asked : String) (at : ℕ → ℤ) (k : ℕ) (names : List String) (last : Dict ℤ) (p : Proxy F M P)
      → any (λ n. n == asked) names ≡ false
      → lookup asked (forget rt opa explain at k names last p).0 ≡ none
  unfolding forget lookup
  lookup-forget asked at k names [] p h = refl
  lookup-forget asked at k names ((name, t) ∷ last) p h =
      let kept = lookup-forget asked at (suc k) names last p h in
      let removed =
        lookup-forget asked at (suc k) names last
          (note rt opa explain (at k) "info" ("policy removed: " & name) p) h in
      elim (Bool-cases (any (λ n. n == name) names)) [
        | inl there ↦ elim (Bool-cases (name == asked)) [
          | inl equal ↦
              let same : name ≡ asked = (eq_iff name asked).0 equal in
              let gone : any (λ n. n == name) names ≡ false = rw same h in absurd (ground arith)
          | inr other ↦ rw there (rw other kept)
        ]
        | inr gone ↦ rw gone removed
      ]

  -- A tick that finds no policy file of a name forgets the file, but the engine, if it had a module of
  -- the name, has one after it.
  pub watch_tick-removed :
      (name : String) (order : Dict ℤ → Dict ℤ) (at later : ℕ → ℤ) (entries : List WatchEntry)
      (last : Dict ℤ) (p : Proxy F M P)
      → any (λ n. n == name) (watched_names entries) ≡ false
      → has_module name p.engine ≡ true
      → (lookup name (watch_tick rt opa explain order at later (some entries) (last, p)).0 ≡ none)
        × (has_module name
              (watch_tick rt opa explain order at later (some entries) (last, p)).1.engine
            ≡ true)
  unfolding watch_tick
  watch_tick-removed name order at later entries last p gone h =
      let (last1, p1) = watch_entries rt opa explain at 0 entries (last, p) in
      (
        lookup-forget name later 0 (watched_names entries) (order last1) p1 gone,
        ap (has_module name) (engine-forget later 0 (watched_names entries) (order last1) p1)
            ∙ has_module-watch_entries name at 0 entries (last, p) h,
      )
