-- ===== src/Proxy/Config/Merge.antt =====
-- internal/proxy/proxy.go: MergeConfig with overrides that set nothing.
use ghost_guard.Prelude.{◌≡◌, refl, true}
use ghost_guard.Prelude.Int.{pos}
use ghost_guard.Runtime.{Runtime}
use ghost_guard.Proxy.Config.{Config, merge_config, zero_config}

module _ {F : Type 0} (rt : Runtime F) where
  -- Empty overrides change nothing, if the float zero equals itself.
  pub merge_config-zero_config :
      (base : Config F)
      → rt.eq (rt.of_int (pos 0)) (rt.of_int (pos 0)) ≡ true
      → merge_config rt base (zero_config rt) ≡ base
  unfolding merge_config zero_config
  merge_config-zero_config base zero_eq = rw zero_eq refl
