-- ===== src/Tests/Loop.antt =====
-- internal/proxy/intercept.go: a call that goes on and one that is denied.
use ghost_guard.Prelude.{◌≡◌, refl, [], ◌∷◌}
use ghost_guard.Audit.{new_logger}
use ghost_guard.Proxy.Inspect.{announce_dry_run, inspect}
use ghost_guard.Proxy.Inspect.Enforce.{state_of, frame-announce_dry_run}
use ghost_guard.Proxy.Inspect.Trail.{
  WritesAll, entries, observed, added, silent-announce_dry_run, trail-inspect,
}
use ghost_guard.Tests.World.{runtime, opa, outside, env, proxy, call, event}

logger-WritesAll : WritesAll runtime opa outside env proxy.logger
unfolding new_logger
logger-WritesAll entry = refl

trail-inspect_example :
    let q = state_of (
      inspect runtime opa outside
        (announce_dry_run runtime opa outside)
        env
        0
        (call "read_file" ∷ call "shell" ∷ call "ping" ∷ [])
        proxy
        (event "shell")) in
    (q.logger
      ≡ added runtime opa outside env
          (entries runtime opa outside env 0
            (call "read_file" ∷ call "shell" ∷ call "ping" ∷ [])
            proxy.engine)
          proxy.logger)
    × (q.detector
        ≡ observed runtime opa outside env 0
            (call "read_file" ∷ call "shell" ∷ call "ping" ∷ [])
            proxy.engine
            proxy.detector)
trail-inspect_example =
    trail-inspect runtime opa outside env (announce_dry_run runtime opa outside)
      (frame-announce_dry_run runtime opa outside env)
      (silent-announce_dry_run runtime opa outside env) 0
      (call "read_file" ∷ call "shell" ∷ call "ping" ∷ []) proxy (event "shell") refl
      logger-WritesAll
