-- ===== src/Proxy/Config.antt =====
-- internal/proxy/proxy.go: Config, DefaultConfig, LoadConfig and MergeConfig; and the overrides that
-- cmd/ghostguard/main.go builds from the flags of `serve`.
pub mod Merge
pub mod Overrides
use ghost_guard.Prelude.{
  String, Bool, true, false, Option, none, some, List, [], ◌∷◌, if◌then◌else◌, ◌==◌, ◌&◌,
}
use ghost_guard.Prelude.Int.{ℤ, pos, eqb_ℤ, ltb_ℤ}
use ghost_guard.Runtime.{Runtime}
use ghost_guard.Detector.Analyze.{DetectorConfig, default_config}

pub record Config (F : Type 0) : Type 0 where
  pub listen_addr : String
  pub dash_addr : String
  pub policy_dir : String
  pub target_hosts : List String
  pub alert_webhook : String
  pub slack_webhook : String
  pub audit_log_path : String
  pub dry_run : Bool
  pub rate_limit : ℤ  -- int
  pub rate_window : ℤ
  pub detector : DetectorConfig F
  pub baseline_path : String

-- `if s != "" { t = s }`
abbrev pub or_text : String → String → String
or_text s t = if s == "" then t else s

-- `if n != 0 { m = n }`
abbrev pub or_int : ℤ → ℤ → ℤ
or_int n m = if eqb_ℤ n (pos 0) then m else n

abbrev pub or_list {ℓ} : {A : Type ℓ} → List A → List A → List A
or_list [] ys = ys
or_list (x ∷ xs) ys = x ∷ xs

-- The value of a configuration file, as LoadConfig reads it: no such file, an error in reading it,
-- or what yaml.Unmarshal makes of it over a configuration, `none` being an error.
pub data ConfigFile (F : Type 0) : Type 0 where
  missing unreadable : ConfigFile F
  yaml : (Config F → Option (Config F)) → ConfigFile F

-- The flags of `serve`.
pub record Flags (F : Type 0) : Type 0 where
  pub port : String
  pub dash_port : String
  pub policies : String
  pub audit_log : String
  pub webhook : String
  pub slack : String
  pub dry_run : Bool
  pub rate_limit : ℤ
  pub rate_window : ℤ
  pub rate_threshold : F
  pub entropy_threshold : F

module _ {F : Type 0} (rt : Runtime F) where
  open rt use {of_int, lt, eq}

  -- `if x != 0 { y = x }`
  abbrev pub or_float : F → F → F
  or_float x y = if eq x (of_int (pos 0)) then y else x

  unfoldable pub default_proxy_config : Config F
  unfolding default_config
  default_proxy_config = record {
    listen_addr = ":8081";
    dash_addr = ":9090";
    policy_dir = "";
    target_hosts =
        "api.openai.com" ∷ "api.anthropic.com" ∷ "generativelanguage.googleapis.com" ∷ [];
    alert_webhook = "";
    slack_webhook = "";
    audit_log_path = "";
    dry_run = false;
    rate_limit = pos 60;
    rate_window = pos 60000000000;
    detector = default_config rt;
    baseline_path = "";
  }

  -- LoadConfig; `none` is an error.
  unfoldable pub load_config : ConfigFile F → Option (Config F)
  unfolding default_proxy_config
  load_config missing = some default_proxy_config
  load_config unreadable = none
  load_config (yaml decode) = decode default_proxy_config

  unfoldable pub merge_config : Config F → Config F → Config F
  merge_config base overrides = record base {
    listen_addr = or_text overrides.listen_addr base.listen_addr;
    dash_addr = or_text overrides.dash_addr base.dash_addr;
    policy_dir = or_text overrides.policy_dir base.policy_dir;
    target_hosts = or_list overrides.target_hosts base.target_hosts;
    alert_webhook = or_text overrides.alert_webhook base.alert_webhook;
    slack_webhook = or_text overrides.slack_webhook base.slack_webhook;
    audit_log_path = or_text overrides.audit_log_path base.audit_log_path;
    dry_run = if overrides.dry_run then overrides.dry_run else base.dry_run;
    rate_limit = or_int overrides.rate_limit base.rate_limit;
    rate_window = or_int overrides.rate_window base.rate_window;
    detector = record (base.detector) {
      rate_threshold = or_float overrides.detector.rate_threshold base.detector.rate_threshold;
      entropy_threshold =
          or_float overrides.detector.entropy_threshold base.detector.entropy_threshold;
    };
    baseline_path = or_text overrides.baseline_path base.baseline_path;
  }

  -- `proxy.Config{}`
  unfoldable pub zero_config : Config F
  zero_config = record {
    listen_addr = "";
    dash_addr = "";
    policy_dir = "";
    target_hosts = [];
    alert_webhook = "";
    slack_webhook = "";
    audit_log_path = "";
    dry_run = false;
    rate_limit = pos 0;
    rate_window = pos 0;
    detector = record {
      rate_threshold = of_int (pos 0);
      entropy_threshold = of_int (pos 0);
      window_interval = pos 0;
      window_max_age = pos 0;
      max_prev_tools = pos 0;
      baseline_path = "";
    };
    baseline_path = "";
  }

  -- The overrides of cmdServe.
  unfoldable pub overrides_of : Flags F → Config F
  unfolding zero_config
  overrides_of f =
      let z = zero_config in
      record z {
        listen_addr = if f.port == "" then z.listen_addr else ":" & f.port;
        dash_addr = if f.dash_port == "" then z.dash_addr else ":" & f.dash_port;
        policy_dir = if f.policies == "" then z.policy_dir else f.policies;
        audit_log_path = if f.audit_log == "" then z.audit_log_path else f.audit_log;
        alert_webhook = if f.webhook == "" then z.alert_webhook else f.webhook;
        slack_webhook = if f.slack == "" then z.slack_webhook else f.slack;
        dry_run = if f.dry_run then true else z.dry_run;
        rate_limit = if ltb_ℤ (pos 0) f.rate_limit then f.rate_limit else z.rate_limit;
        rate_window = if ltb_ℤ (pos 0) f.rate_window then f.rate_window else z.rate_window;
        detector = record (z.detector) {
          rate_threshold =
              if lt (of_int (pos 0)) f.rate_threshold
              then f.rate_threshold
              else z.detector.rate_threshold;
          entropy_threshold =
              if lt (of_int (pos 0)) f.entropy_threshold
              then f.entropy_threshold
              else z.detector.entropy_threshold;
        };
      }

  -- The configuration that `serve` runs with.
  unfoldable pub serve_config : ConfigFile F → Flags F → Option (Config F)
  unfolding load_config merge_config overrides_of
  serve_config file flags = elim (load_config file) [
    | none ↦ none
    | some cfg ↦ some (merge_config cfg (overrides_of flags))
  ]
