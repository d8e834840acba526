-- ===== src/Tests/Watch.antt =====
-- internal/proxy/proxy.go: a tick of the watcher after the file of a loaded policy was removed.
use ghost_guard.Prelude.{◌≡◌, refl, any, none, ◌==◌, String, true, false, some, [], ◌∷◌, List}
use ghost_guard.Prelude.Int.{ℤ, pos}
use ghost_guard.Dict.{Dict, lookup, insert}
use ghost_guard.Policy.Engine.{LoadResult, load_policy, new_engine}
use ghost_guard.Proxy.Watch.{WatchEntry, is_watched, watched_names, watch_tick}
use ghost_guard.Proxy.Watch.Removed.{has_module, watch_tick-removed}
use ghost_guard.Tests.World.{runtime, opa, proxy}

abbrev explain : String → String → LoadResult → String
explain name text r = "rego_parse_error"

abbrev same_order : Dict ℤ → Dict ℤ
same_order last = last

abbrev left : List WatchEntry
left =
    record { name = "b.rego"; is_dir = false; mod_time = some (pos 2); content = some "allow" } ∷ []

abbrev times : Dict ℤ
times = ("a.rego", pos 1) ∷ ("b.rego", pos 2) ∷ []

removed_file : any (λ n. n == "a.rego") (watched_names left) ≡ false
unfolding watched_names is_watched
removed_file = refl

loaded_module : has_module "a.rego" proxy.engine ≡ true
unfolding load_policy new_engine lookup insert
loaded_module = refl

watch_tick-removed_example :
    (lookup "a.rego"
        (watch_tick runtime opa explain same_order pos pos (some left) (times, proxy)).0
      ≡ none)
    × (has_module "a.rego"
          (watch_tick runtime opa explain same_order pos pos (some left) (times, proxy)).1.engine
        ≡ true)
watch_tick-removed_example =
    watch_tick-removed runtime opa explain "a.rego" same_order pos pos left times proxy removed_file
      loaded_module
