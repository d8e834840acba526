-- ===== src/Tests/Settings.antt =====
-- internal/proxy/proxy.go and cmd/ghostguard/main.go: a file with a setting, and flags laid over it.
use ghost_guard.Prelude.{true, false, some, ◌≡◌, refl}
use ghost_guard.Prelude.Int.{ℤ, pos}
use ghost_guard.Proxy.Config.{ConfigFile, yaml, Flags, merge_config, zero_config}
use ghost_guard.Proxy.Config.Merge.{merge_config-zero_config}
use ghost_guard.Tests.World.{runtime, config}

-- A file that sets the dashboard's address and a dry run and nothing else.
abbrev file : ConfigFile ℤ
file = yaml (λ c. some record c { dash_addr = ":9999"; dry_run = true })

abbrev flags : Flags ℤ
flags = record {
  port = "8888";
  dash_port = "";
  policies = "";
  audit_log = "";
  webhook = "";
  slack = "";
  dry_run = false;
  rate_limit = pos 5;
  rate_window = pos 0;
  rate_threshold = pos 0;
  entropy_threshold = pos 0;
}

merge_config-zero_config_example : merge_config runtime config (zero_config runtime) ≡ config
merge_config-zero_config_example = merge_config-zero_config runtime config refl
