-- ===== src/Cmd/Serve.antt =====
-- cmd/ghostguard/main.go: cmdServe, from the flags to the end of the process.
use ghost_guard.Prelude.{ℕ, String, Bool, true, false, Option, none, some, List, if◌then◌else◌}
use ghost_guard.Prelude.Int.{ℤ}
use ghost_guard.Dict.{Dict}
use ghost_guard.Runtime.{Runtime}
use ghost_guard.Detector.Persist.{BaselineData, ReadFile}
use ghost_guard.Policy.Engine.{Rego, LoadResult}
use ghost_guard.Policy.Loader.{DirEntry}
use ghost_guard.Audit.{LogEntry}
use ghost_guard.Proxy.Config.{Config, ConfigFile, Flags, serve_config}
use ghost_guard.Proxy.Watch.{load_policies}
use ghost_guard.Proxy.Certs.{Made, CertManager}
use ghost_guard.Proxy.Serve.{
  Server, Created, created, NewError, StartEnd, not_listening, context_done, serve_ended, new_proxy,
  start_context,
}

-- How cmdServe ends: the configuration cannot be loaded, New fails, or StartContext returns, with the
-- warning about the policies, if there was one.
pub data ServeEnd (F M P K X C : Type 0) : Type 0 where
  bad_config : ServeEnd F M P K X C
  not_created : NewError → ServeEnd F M P K X C
  returned : (warned : Bool) → Server F M P K X C → StartEnd → ServeEnd F M P K X C

-- `err != nil && err != context.Canceled`
unfoldable pub start_status : StartEnd → ℕ
start_status (not_listening text) = 1
start_status context_done = 0
start_status (serve_ended none) = 0
start_status (serve_ended (some text)) = 1

unfoldable pub serve_status : {F M P K X C : Type 0} → ServeEnd F M P K X C → ℕ
unfolding start_status
serve_status bad_config = 1
serve_status (not_created e) = 1
serve_status (returned warned s e) = start_status e

-- What the system answers to cmdServe: the flags' file, what New meets, the directory of the policies and
-- the order of the range over them, and what StartContext meets.
pub record ServeWorld (F K X C : Type 0) : Type 0 where
  pub config_file : String → ConfigFile F
  pub parse_baseline : String → Option (BaselineData F)
  pub baseline_file : ReadFile
  pub certs : Made (CertManager K X C)
  pub open_log : String → Option (LogEntry F → Option String)
  pub writer : LogEntry F → Option String
  pub read_dir : String → Option (List DirEntry)
  pub order : Dict String → Dict String
  pub explain : String → String → LoadResult → String
  pub exporting : Option String
  pub listening : Option String
  pub ends : Option (Option String)
  pub creates : ℕ → ℤ
  pub loads : ℕ → ℤ
  pub starts : ℕ → ℤ

module _ {F M P K X C : Type 0} (rt : Runtime F) (opa : Rego M P F) (w : ServeWorld F K X C) where
  -- cmdServe behind New
  unfoldable pub serve_created : Config F → Server F M P K X C → ServeEnd F M P K X C
  serve_created cfg s =
      let (p, ok) =
        load_policies rt opa w.explain w.order w.loads (w.read_dir cfg.policy_dir) s.proxy in
      let ready : Server F M P K X C = record s { proxy = p } in
      let (stopped, e) = start_context rt opa w.starts w.exporting w.listening w.ends ready in
      returned (if ok then false else true) stopped e

  -- cmdServe, from the path of `--config` and the other flags
  unfoldable pub run_serve : String → Flags F → ServeEnd F M P K X C
  unfolding serve_created
  run_serve path flags = elim (serve_config rt (w.config_file path) flags) [
    | none ↦ bad_config
    | some cfg ↦
        elim (new_proxy rt opa w.parse_baseline w.creates w.baseline_file w.certs w.open_log
          w.writer cfg) [ Created.refused e ↦ not_created e | created s ↦ serve_created cfg s ]
  ]
