-- ===== src/Tests/Serve.antt =====
-- internal/proxy: requests given to ServeHTTP, the calls of Shutdown, and a window of the rate limiter.
use ghost_guard.Prelude.{
  ℕ, ◌≤◌, String, Option, none, true, false, [], ◌∷◌, List, ◌≡◌, ◌↔◌, refl, arith, ◌&&◌, count_if,
}
use ghost_guard.Prelude.Int.{ℤ, pos, ◌+ℤ◌}
use ghost_guard.Dict.{Dict, lookup}
use ghost_guard.Audit.{new_logger}
use ghost_guard.Policy.Engine.{new_engine}
use ghost_guard.Dashboard.{not_found}
use ghost_guard.Detector.Persist.{missing}
use ghost_guard.Detector.RateLimit.{new_rate_limiter}
use ghost_guard.Detector.RateLimit.Laws.{quota, new_rate_limiter-IsValid}
use ghost_guard.Detector.RateLimit.Quota.{IsClosed, Until}
use ghost_guard.Proxy.Extract.{is_ai_endpoint}
use ghost_guard.Proxy.Forward.{Request}
use ghost_guard.Proxy.State.{Env, Proxy}
use ghost_guard.Proxy.Handle.Limited.{is_counted, calls_to, sent_of, sent_of-quota}
use ghost_guard.Proxy.Certs.{made}
use ghost_guard.Proxy.Serve.{
  Server, unsupported, hijacked, page, tunnelled, created, new_proxy, sinks_of, serve_http,
  is_local, is_dash_path,
}
use ghost_guard.Proxy.Serve.Routes.{serve_http-not_found, serve_http-tunnelled}
use ghost_guard.Proxy.Serve.Stop.{is_stop, is_http, shutdowns, new_proxy-shutdowns}
use ghost_guard.Tests.World.{
  runtime, opa, outside, codec, env, proxy, request, config, logger, no_baseline,
}
use ghost_guard.Tests.Certs.{manager}

abbrev dash_request : Request
dash_request = record (request "") {
  host = "localhost:8081";
  url = record { scheme = ""; host = ""; path = "/ghostguard/metrics"; query = "" };
}

abbrev connect_request : Request
connect_request = record (request "") { method = "CONNECT" }

abbrev reached : String → Option String
reached host = none

dash-is_local : is_local dash_request.host ≡ true
unfolding is_local
dash-is_local = refl

dash-is_dash_path : is_dash_path dash_request.url.path ≡ true
unfolding is_dash_path
dash-is_dash_path = refl

serve_http-not_found_example :
    serve_http runtime opa outside codec env reached unsupported dash_request proxy
    ≡ (proxy, page not_found)
serve_http-not_found_example =
    serve_http-not_found runtime opa outside codec env reached unsupported dash_request proxy
      dash-is_local dash-is_dash_path

connect_request-other :
    (is_local connect_request.host && is_dash_path connect_request.url.path) ≡ false
unfolding is_local
connect_request-other = refl

-- A proxy with other policies, other counts and a dry run.
abbrev other_proxy : Proxy ℤ String (Dict String)
other_proxy = record proxy {
  config = record config { dry_run = true };
  engine = new_engine opa;
  rate_limiter = new_rate_limiter (pos 0) (pos 60);
}

serve_http-tunnelled_example :
    let (q, s) = serve_http runtime opa outside codec env reached hijacked connect_request proxy in
    (record q { logger = proxy.logger } ≡ proxy)
    × (s
        ≡ (serve_http runtime opa outside codec env reached hijacked connect_request other_proxy).1)
    × ((s ≡ tunnelled "api.openai.com:443")
        ↔ ((reached "api.openai.com:443" ≡ none) × (hijacked ≡ hijacked)))
serve_http-tunnelled_example =
    serve_http-tunnelled runtime opa outside codec env reached hijacked connect_request proxy
      other_proxy connect_request-other refl

abbrev server : Server ℤ String (Dict String) ℕ String (ℕ × String)
server = record {
  proxy = record proxy { engine = record { modules = []; prepared = [] }; sinks = sinks_of config };
  cert_manager = manager;
  has_dash = true;
  stopped = false;
  closings = [];
}

server-created :
    new_proxy runtime opa no_baseline
      (λ n. pos 0)
      missing
      (made manager)
      (λ name. none)
      logger.write
      config
    ≡ created server
unfolding new_proxy new_engine new_logger
server-created = refl

new_proxy-shutdowns_example :
    (count_if is_stop (shutdowns 2 server).closings ≡ 1)
    × (count_if is_http (shutdowns 2 server).closings ≡ 2)
new_proxy-shutdowns_example =
    new_proxy-shutdowns runtime opa no_baseline (λ n. pos 0) missing (made manager) (λ name. none)
      logger.write config server 1 server-created

abbrev later_requests : List (Env × Request)
later_requests = (env, request "ping") ∷ (env, request "ping") ∷ []

proxy-counted : is_counted proxy.config (request "ping") ≡ true
unfolding is_ai_endpoint
proxy-counted = refl

proxy-IsClosed : IsClosed (env.before 1) (lookup "api.openai.com" proxy.rate_limiter.windows)
unfolding new_rate_limiter lookup
proxy-IsClosed = tt

later_requests-Until :
    Until "api.openai.com"
      (env.before 1 +ℤ proxy.rate_limiter.interval)
      (calls_to proxy.config later_requests)
unfolding new_rate_limiter ◌+ℤ◌ is_ai_endpoint
later_requests-Until = (λ e. omega arith, (λ e. omega arith, tt))

-- Three requests in one window, of which two may be sent on.
sent_of-quota_example :
    sent_of runtime opa outside codec "api.openai.com"
      ((env, request "ping") ∷ later_requests)
      proxy
    ≤ quota proxy.rate_limiter.limit
sent_of-quota_example =
    sent_of-quota runtime opa outside codec "api.openai.com" env (request "ping") later_requests
      proxy (new_rate_limiter-IsValid (pos 2) (pos 60) (omega arith, omega arith)) proxy-counted
      refl proxy-IsClosed later_requests-Until
