-- ===== src/Proxy/Config/Overrides.antt =====
-- cmd/ghostguard/main.go, cmdServe, with LoadConfig and MergeConfig of internal/proxy/proxy.go: what the
-- flags of `serve` make of the configuration of the file.
use Prim.Native.String.append
use ghost_guard.Prelude.{String, Bool, true, false, ◌||◌, if◌then◌else◌, ◌==◌, ◌&◌}
use ghost_guard.Prelude.Int.{pos, ltb_ℤ}
use ghost_guard.Runtime.{Runtime}
use ghost_guard.Proxy.Config.{Config, Flags}

-- Whether a text has a character.
is_cons : String → Bool
is_cons String.[] = false
is_cons (String.◌∷◌ c s) = true

module _ {F : Type 0} (rt : Runtime F) where
  -- The configuration with every flag that is given in the place of its setting: a text that is not
  -- empty, a number above zero, or the switch to a dry run.
  abbrev pub with_flags : Flags F → Config F → Config F
  with_flags f base = record base {
    listen_addr = if f.port == "" then base.listen_addr else ":" & f.port;
    dash_addr = if f.dash_port == "" then base.dash_addr else ":" & f.dash_port;
    policy_dir = if f.policies == "" then base.policy_dir else f.policies;
    alert_webhook = if f.webhook == "" then base.alert_webhook else f.webhook;
    slack_webhook = if f.slack == "" then base.slack_webhook else f.slack;
    audit_log_path = if f.audit_log == "" then base.audit_log_path else f.audit_log;
    dry_run = f.dry_run || base.dry_run;
    rate_limit = if ltb_ℤ (pos 0) f.rate_limit then f.rate_limit else base.rate_limit;
    rate_window = if ltb_ℤ (pos 0) f.rate_window then f.rate_window else base.rate_window;
    detector = record (base.detector) {
      rate_threshold =
          if rt.lt (rt.of_int (pos 0)) f.rate_threshold
          then f.rate_threshold
          else base.detector.rate_threshold;
      entropy_threshold =
          if rt.lt (rt.of_int (pos 0)) f.entropy_threshold
          then f.entropy_threshold
          else base.detector.entropy_threshold;
    };
  }
