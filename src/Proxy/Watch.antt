-- ===== src/Proxy/Watch.antt =====
-- internal/proxy/proxy.go: LoadPolicies, and the rounds of the goroutine watchPolicies that it starts.
pub mod Removed
use ghost_guard.Prelude.{
  ℕ, suc, String, Bool, true, false, not, ◌&&◌, Option, none, some, List, [], ◌∷◌, ◌==◌, ◌&◌, any,
  has_suffix, if◌then◌else◌,
}
use ghost_guard.Prelude.Int.{ℤ, ltb_ℤ}
use ghost_guard.Dict.{Dict, lookup, insert}
use ghost_guard.Runtime.{Runtime}
use ghost_guard.Policy.Engine.{Rego, LoadResult, loaded, parse_error, prepare_error, load_policy}
use ghost_guard.Policy.Loader.{DirEntry, load_policies_from_dir}
use ghost_guard.Audit.{log_message}
use ghost_guard.Proxy.State.{Proxy}

-- An entry of os.ReadDir, with the time that Info gives and what os.ReadFile gives at its path.
pub record WatchEntry : Type 0 where
  pub name : String
  pub is_dir : Bool
  pub mod_time : Option ℤ
  pub content : Option String

unfoldable pub is_watched : WatchEntry → Bool
is_watched e = not e.is_dir && has_suffix e.name ".rego"

-- newFiles, as its keys
unfoldable pub watched_names : List WatchEntry → List String
watched_names [] = []
watched_names (e ∷ es) = let rest = watched_names es in if is_watched e then e.name ∷ rest else rest

-- The times that a watcher begins with.
unfoldable pub first_times : List WatchEntry → Dict ℤ → Dict ℤ
first_times [] last = last
first_times (e ∷ es) last = first_times es (seen (is_watched e) e.mod_time)
  where
    seen : Bool → Option ℤ → Dict ℤ
    seen true (some t) = insert e.name t last
    seen true none = last
    seen false t = last

-- `!exists || info.ModTime().After(lastMod)`
unfoldable pub is_newer : ℤ → Option ℤ → Bool
is_newer t none = true
is_newer t (some before) = ltb_ℤ before t

-- `explain` is the text of LoadPolicy's error for a name and a content.
module _ {F M P : Type 0} (rt : Runtime F) (opa : Rego M P F)
    (explain : String → String → LoadResult → String) where
  abbrev pub note : ℤ → String → String → Proxy F M P → Proxy F M P
  note now level text p = record p { logger = log_message rt now level text p.logger }

  -- LoadPolicies, from its loop: `policies` in the order in which one range visits them. The result
  -- says whether no load failed; then the watcher is started.
  unfoldable pub load_named : (ℕ → ℤ) → ℕ → Dict String → Proxy F M P → Proxy F M P × Bool
  load_named at k [] p = (p, true)
  load_named at k ((name, text) ∷ policies) p =
      let (engine, r) = load_policy opa name text p.engine in
      let p1 : Proxy F M P = record p { engine = engine } in
      let rest =
        load_named at (suc k) policies (note (at k) "info" ("loaded policy: " & name) p1) in
      elim r [ loaded ↦ rest | parse_error ↦ (p1, false) | prepare_error ↦ (p1, false) ]

  unfoldable pub load_policies :
      (Dict String → Dict String)
      → (ℕ → ℤ)
      → Option (List DirEntry)
      → Proxy F M P
      → Proxy F M P × Bool
  load_policies order at dir p = elim (load_policies_from_dir dir) [
    | none ↦ (p, false)
    | some policies ↦ load_named at 0 (order policies) p
  ]

  -- What a watcher does with a file that is new or newer, `t` being its time.
  unfoldable pub reload :
      ℤ → String → ℤ → Option String → Dict ℤ × Proxy F M P → Dict ℤ × Proxy F M P
  reload now name t none (last, p) = (last, p)
  reload now name t (some text) (last, p) =
      let (engine, r) = load_policy opa name text p.engine in
      let p1 : Proxy F M P = record p { engine = engine } in
      let refused : Dict ℤ × Proxy F M P =
        (last, note now "error" ("reloading policy " & name & ": " & explain name text r) p1) in
      elim r [
        | loaded ↦ (insert name t last, note now "info" ("reloaded policy: " & name) p1)
        | parse_error ↦ refused
        | prepare_error ↦ refused
      ]

  unfoldable pub watch_entry : ℤ → WatchEntry → Dict ℤ × Proxy F M P → Dict ℤ × Proxy F M P
  watch_entry now e (last, p) = elim e.mod_time [
    | none ↦ (last, p)
    | some t ↦
        if is_watched e && is_newer t (lookup e.name last)
        then reload now e.name t e.content (last, p)
        else (last, p)
  ]

  unfoldable pub watch_entries :
      (ℕ → ℤ) → ℕ → List WatchEntry → Dict ℤ × Proxy F M P → Dict ℤ × Proxy F M P
  watch_entries at k [] w = w
  watch_entries at k (e ∷ es) w = watch_entries at (suc k) es (watch_entry (at k) e w)

  -- The loop over lastModTimes, in the order of the range: a file that is gone is forgotten.
  unfoldable pub forget : (ℕ → ℤ) → ℕ → List String → Dict ℤ → Proxy F M P → Dict ℤ × Proxy F M P
  forget at k names [] p = ([], p)
  forget at k names ((name, t) ∷ last) p =
      let (kept, q) = forget at (suc k) names last p in
      let gone = forget at (suc k) names last (note (at k) "info" ("policy removed: " & name) p) in
      if any (λ n. n == name) names then ((name, t) ∷ kept, q) else gone

  -- A tick: `dir` is what os.ReadDir gives, and `order` the order of the range.
  unfoldable pub watch_tick :
      (Dict ℤ → Dict ℤ)
      → (ℕ → ℤ)
      → (ℕ → ℤ)
      → Option (List WatchEntry)
      → Dict ℤ × Proxy F M P
      → Dict ℤ × Proxy F M P
  watch_tick order at later none w = w
  watch_tick order at later (some entries) w =
      let (last, p) = watch_entries at 0 entries w in
      forget later 0 (watched_names entries) (order last) p
