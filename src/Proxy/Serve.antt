-- ===== src/Proxy/Serve.antt =====
-- internal/proxy/proxy.go: New, StartContext, Shutdown and ServeHTTP; internal/proxy/intercept.go:
-- handleConnect. Servers, sockets and files are given by what the system answers.
pub mod Stop
pub mod Routes
use ghost_guard.Prelude.{
  ℕ, String, Bool, true, false, not, ◌&&◌, ◌||◌, Option, none, some, List, [], ◌∷◌, ◌++◌,
  if◌then◌else◌, ◌==◌, ◌&◌, contains, starts_with,
}
use ghost_guard.Prelude.Int.{ℤ, pos}
use ghost_guard.Runtime.{Runtime}
use ghost_guard.Detector.Analyze.{new_detector}
use ghost_guard.Detector.Persist.{BaselineData, ReadFile}
use ghost_guard.Detector.RateLimit.{new_rate_limiter}
use ghost_guard.Policy.Engine.{Rego, new_engine, policy_count}
use ghost_guard.Alert.{Outside, Sink, stdout_sink, webhook_sink, slack_sink}
use ghost_guard.Audit.{LogEntry, Logger, new_logger, log_message}
use ghost_guard.Dashboard.{Page, new_dashboard, route}
use ghost_guard.Proxy.Config.{Config}
use ghost_guard.Proxy.Extract.{Codec}
use ghost_guard.Proxy.Forward.{Request}
use ghost_guard.Proxy.State.{Proxy, Env, Reply, plain}
use ghost_guard.Proxy.Handle.{handle_http}
use ghost_guard.Proxy.Certs.{CertError, Made, made, failed, CertManager}

-- What Shutdown does to the outside.
pub data Closing : Type 0 where
  stop_channel dash_server http_server : Closing

-- A Proxy with its certificates and its servers: whether there is one for the dashboard, whether
-- `stopOnce` has run, and what Shutdown has closed, the oldest first.
pub record Server (F M P K X C : Type 0) : Type 0 where
  pub proxy : Proxy F M P
  pub cert_manager : CertManager K X C
  pub has_dash : Bool
  pub stopped : Bool
  pub closings : List Closing

pub data NewError : Type 0 where
  creating_certs : CertError → NewError
  creating_logger : NewError

-- What New returns.
pub data Created (F M P K X C : Type 0) : Type 0 where
  created : Server F M P K X C → Created F M P K X C
  refused : NewError → Created F M P K X C

-- What ends StartContext: the listener's error, the context's end, or the server's.
pub data StartEnd : Type 0 where
  not_listening : String → StartEnd
  context_done : StartEnd
  serve_ended : Option String → StartEnd

-- Hijack, if the writer has it.
pub data Hijack : Type 0 where
  unsupported : Hijack
  refused : String → Hijack
  hijacked : Hijack

-- What ServeHTTP ends with: a page of the dashboard; an answer; a tunnel to a host; or a connection that
-- has got the status 200 and nothing more.
pub data Served (F : Type 0) : Type 0 where
  page : Page → Served F
  answered : Reply F → Served F
  tunnelled : String → Served F
  dropped : Served F

unfoldable pub sinks_of : {F : Type 0} → Config F → List Sink
sinks_of config =
    (stdout_sink
      ∷ (if config.alert_webhook == "" then [] else webhook_sink config.alert_webhook ∷ []))
    ++ (if config.slack_webhook == ""
        then []
        else slack_sink config.slack_webhook "#ghostguard" ∷ [])

-- The host that handleConnect dials.
unfoldable pub dialled_host : String → String
dialled_host host = if contains host ":" then host else host & ":443"

-- The requests that ServeHTTP hands to the dashboard.
unfoldable pub is_local : String → Bool
is_local host = starts_with host "localhost" || starts_with host "127.0.0.1"

unfoldable pub is_dash_path : String → Bool
is_dash_path path = path == "/ghostguard" || starts_with path "/ghostguard/"

module _ {F M P K X C : Type 0} where
  -- Shutdown
  unfoldable pub shutdown : Server F M P K X C → Server F M P K X C
  shutdown s = record s {
    stopped = true;
    closings =
        (s.closings ++ (if s.stopped then [] else stop_channel ∷ []))
        ++ ((if s.has_dash then dash_server ∷ [] else []) ++ http_server ∷ []);
  }

module _ {F M P : Type 0} (rt : Runtime F) (opa : Rego M P F) where
  -- New: `parse` and `file` are those of the detector's baseline file, `certs` what NewCertManager
  -- returns, `open_log` audit.NewFileLogger's opening of a file, and `writer` log.Writer().
  unfoldable pub new_proxy :
      {K X C : Type 0}
      → (String → Option (BaselineData F))
      → (ℕ → ℤ)
      → ReadFile
      → Made (CertManager K X C)
      → (String → Option (LogEntry F → Option String))
      → (LogEntry F → Option String)
      → Config F
      → Created F M P K X C
  unfolding sinks_of
  new_proxy parse at file (failed e) open_log writer config = refused (creating_certs e)
  new_proxy {K} {X} {C} parse at file (made certs) open_log writer config =
      let write : Option (LogEntry F → Option String) =
        if config.audit_log_path == "" then some writer else open_log config.audit_log_path in
      elim write [
        | none ↦ refused creating_logger
        | some write ↦ created (record {
          proxy = record {
            config = config;
            engine = new_engine opa;
            detector = new_detector rt parse (at 0) file config.detector;
            rate_limiter = new_rate_limiter config.rate_limit config.rate_window;
            sinks = sinks_of config;
            logger = new_logger write;
            dash = new_dashboard (at 1);
            sent = [];
            forwarded = [];
          };
          cert_manager = certs;
          has_dash = not (config.dash_addr == "");
          stopped = false;
          closings = [];
        })
      ]

  abbrev pub say : ℤ → String → String → Proxy F M P → Proxy F M P
  say now level text p = record p { logger = log_message rt now level text p.logger }

  -- The messages of StartContext; `exporting` is the error of ExportCA.
  unfoldable pub announce_start : (ℕ → ℤ) → Option String → Proxy F M P → Proxy F M P
  announce_start at exporting p =
      let p1 = say (at 0) "info" ("GhostGuard proxy starting on " & p.config.listen_addr) p in
      let p2 = say (at 1) "info" ("Policies loaded: " & rt.decimal (policy_count p.engine)) p1 in
      let p3 : Proxy F M P =
        if p.config.dry_run
        then say (at 2) "info" "DRY-RUN mode: policies evaluated but not enforced" p2
        else p2 in
      elim exporting [
        | none ↦ say (at 3) "info" "CA certificate exported to ghostguard-ca.pem" p3
        | some text ↦ say (at 3) "warn" ("could not export CA: " & text) p3
      ]

  -- The goroutine of the dashboard's server; `error` is what ListenAndServe returns, if it is not
  -- http.ErrServerClosed.
  unfoldable pub serve_dash : (ℕ → ℤ) → Option String → Proxy F M P → Proxy F M P
  serve_dash at error p =
      let p1 = say (at 0) "info" ("Dashboard on http://localhost" & p.config.dash_addr) p in
      elim error [ none ↦ p1 | some text ↦ say (at 1) "error" ("dashboard error: " & text) p1 ]

  -- StartContext by its own thread: `listening` is the error of net.Listen, `ends` is what `select`
  -- finds, `none` being the end of the context.
  unfoldable pub start_context :
      {K X C : Type 0}
      → (ℕ → ℤ)
      → Option String
      → Option String
      → Option (Option String)
      → Server F M P K X C
      → Server F M P K X C × StartEnd
  unfolding announce_start shutdown
  start_context {K} {X} {C} at exporting listening ends s =
      let s1 : Server F M P K X C = record s { proxy = announce_start at exporting s.proxy } in
      elim listening [
        | some text ↦ (s1, not_listening text)
        | none ↦ elim ends [ none ↦ (shutdown s1, context_done) | some e ↦ (s1, serve_ended e) ]
      ]

  -- handleConnect; `dial` is the error of net.Dial.
  unfoldable pub handle_connect :
      (ℕ → ℤ) → (String → Option String) → Hijack → Request → Proxy F M P → Proxy F M P × Served F
  unfolding dialled_host
  handle_connect at dial outcome r p =
      let host = dialled_host r.host in
      elim (dial host) [
        | some text ↦ (
          say (at 0) "error" ("connecting to " & host & ": " & text) p,
          answered (plain (pos 502) "connection failed"),
        )
        | none ↦ elim outcome [
          | unsupported ↦ (say (at 0) "error" "http hijacking not supported" p, dropped)
          | Hijack.refused text ↦ (say (at 0) "error" ("hijacking connection: " & text) p, dropped)
          | hijacked ↦ (p, tunnelled host)
        ]
      ]

module _ {F M P : Type 0} (rt : Runtime F) (opa : Rego M P F) (o : Outside F)
    (codec : Codec F) where
  -- ServeHTTP
  unfoldable pub serve_http :
      Env → (String → Option String) → Hijack → Request → Proxy F M P → Proxy F M P × Served F
  unfolding is_local is_dash_path
  serve_http env dial outcome r p =
      let (q, reply) = handle_http rt opa o codec env r p in
      if is_local r.host && is_dash_path r.url.path
      then (p, page (route r.url.path))
      else if r.method == "CONNECT"
      then handle_connect rt opa env.before dial outcome r p
      else (q, answered reply)
