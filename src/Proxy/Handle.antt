-- ===== src/Proxy/Handle.antt =====
-- internal/proxy/intercept.go: handleHTTP and writeDenyResponse.
pub mod Enforce
pub mod Denials
pub mod Limited
pub mod Undecoded
use Prim.Native.String.{len}
use ghost_guard.Prelude.{
  ℕ, String, Bool, true, false, not, ◌&&◌, ◌||◌, Option, none, some, List, [], ◌∷◌, ◌++◌,
  if◌then◌else◌, ◌&◌, ◌==◌, starts_with,
}
use ghost_guard.Prelude.Int.{ℤ, pos, ◌-ℤ◌}
use ghost_guard.Runtime.{Runtime}
use ghost_guard.Dict.{lookup}
use ghost_guard.Model.{Json, str, obj, end, field, ToolCall, InterceptionEvent, PolicyDecision}
use ghost_guard.Detector.RateLimit.{RateLimiter, allow as allow_call}
use ghost_guard.Policy.Engine.{Rego}
use ghost_guard.Alert.{Outside}
use ghost_guard.Audit.{Logger, log_event, log_message}
use ghost_guard.Dashboard.{Page, record_event, route}
use ghost_guard.Proxy.Config.{Config}
use ghost_guard.Proxy.Extract.{
  Codec, Header, first_value, is_ai_endpoint, extract_tool_calls, extract_tool_results,
}
use ghost_guard.Proxy.Forward.{
  Request, OutRequest, Upstream, unreachable, replied, out_request, copy_headers,
}
use ghost_guard.Proxy.State.{Proxy, Env, Reply, plain, json, copied}
use ghost_guard.Proxy.Inspect.{
  Inspected, denied, passed, announce_dry_run, announce_nothing, inspect,
}

module _ {F : Type 0} where
  abbrev pub rate_limited : Json F
  rate_limited = obj (
      field "error"
        (obj (
          field "message" (str "GhostGuard: rate limit exceeded") (
            field "type" (str "rate_limit_exceeded")
              (field "code" (str "rate_limit_exceeded") end))))
        end)

  -- writeDenyResponse
  unfoldable pub deny_response : PolicyDecision → Reply F
  deny_response d = json (pos 403) (
      obj (
        field "error"
          (obj (
            field "message" (str ("GhostGuard: " & d.reason)) (
              field "type" (str "policy_violation") (
                field "policy" (str d.policy_name)
                  (field "code" (str "content_policy_violation") end)))))
          end))

  unfoldable pub new_event : Env → String → Request → String → InterceptionEvent F
  new_event env host r body = record {
    id = env.id;
    method = r.method;
    path = r.url.path;
    host = host;
    tool_calls = [];
    tool_results = [];
    decisions = [];
    anomalies = [];
    alerts = [];
    request_size = pos (len body);
    response_size = pos 0;
    duration = pos 0;
    timestamp = env.before 0;
    upstream_status = pos 0;
  }

module _ {F : Type 0} (config : Config F) where
  abbrev pub is_ai : Request → Bool
  is_ai r = is_ai_endpoint config.target_hosts r.host r.url.path

-- r.Header.Get("anthropic-version"), the key made canonical
abbrev pub anthropic_version : Header → String
anthropic_version h = first_value (lookup "Anthropic-Version" h)

abbrev pub calls_of : {F : Type 0} → Codec F → Request → String → List (ToolCall F)
calls_of codec r body = extract_tool_calls codec r.url.path r.host (anthropic_version r.header) body

module _ {F M P : Type 0} (rt : Runtime F) (opa : Rego M P F) (o : Outside F)
    (codec : Codec F) where
  abbrev pub complain : ℤ → String → Proxy F M P → Proxy F M P
  complain now text p = record p { logger = log_message rt now "error" text p.logger }

  -- The event of a response that was read.
  unfoldable pub close_event : Env → Bool → ℤ → String → InterceptionEvent F → InterceptionEvent F
  unfolding ◌-ℤ◌
  close_event env ai status body event = record event {
    response_size = pos (len body);
    upstream_status = status;
    duration = env.after 2 -ℤ env.before 0;
    tool_results = if ai then extract_tool_results codec body else event.tool_results;
  }

  -- LogEvent, the message about its error, and RecordEvent
  unfoldable pub finish_event : Env → InterceptionEvent F → Proxy F M P → Proxy F M P
  finish_event env event p =
      let (logger, e) = log_event rt (env.after 3) event p.logger in
      record p {
        logger = elim e [
          | none ↦ logger
          | some text ↦ log_message rt (env.after 4) "error" ("logging event: " & text) logger
        ];
        dash = record_event (env.after 5) event p.dash;
      }

  -- handleHTTP once the upstream has answered `forwardToUpstream`.
  unfoldable pub receive_http :
      Env → Request → InterceptionEvent F → Proxy F M P → Upstream → Proxy F M P × Reply F
  receive_http env r event p (unreachable text) = (
    complain (env.after 0) ("upstream request failed: " & text) p,
    plain (pos 502) "upstream request failed",
  )
  receive_http env r event p (replied status header none) = (
    complain (env.after 1) ("reading response body: " & env.response_error) p,
    plain (pos 500) "error reading response",
  )
  receive_http env r event p (replied status header (some text)) = (
    finish_event env (close_event env (is_ai p.config r) status text event) p,
    copied status (copy_headers header []) text,
  )

  -- handleHTTP from `p.forwardToUpstream` on.
  unfoldable pub forward_http :
      Env → Request → String → InterceptionEvent F → Proxy F M P → Proxy F M P × Reply F
  forward_http env r body event p =
      let out = out_request p.config r body in
      receive_http env r event (record p { forwarded = p.forwarded ++ out ∷ [] }) (env.upstream out)

  -- The reply to a loop that has ended.
  unfoldable pub conclude_http : Env → Request → String → Inspected F M P → Proxy F M P × Reply F
  conclude_http env r body (denied p d) = (p, deny_response d)
  conclude_http env r body (passed p event) = forward_http env r body event p

  -- What handleHTTP does with a request for an AI provider, once its body is read.
  unfoldable pub handle_ai :
      Env → Request → String → InterceptionEvent F → Proxy F M P → Proxy F M P × Reply F
  handle_ai env r body event p =
      let (limiter, ok) = allow_call (env.before 1) r.host p.rate_limiter in
      let p1 : Proxy F M P = record p { rate_limiter = limiter } in
      let tcs = calls_of codec r body in
      if ok
      then conclude_http env r body (
          inspect rt opa o (announce_dry_run rt opa o) env 0 tcs p1
            (record event { tool_calls = tcs }))
      else (
        record p1 {
          logger =
              log_message rt (env.before 2) "warn" ("rate limit exceeded for " & r.host) p.logger;
        },
        json (pos 429) rate_limited,
      )

  unfoldable pub handle_http : Env → Request → Proxy F M P → Proxy F M P × Reply F
  handle_http env r p = elim r.body [
    | none ↦ (
      complain (env.before 1) ("reading request body: " & env.request_error) p,
      plain (pos 400) "error reading request",
    )
    | some body ↦
        let event = new_event env r.host r body in
        if is_ai p.config r then handle_ai env r body event p else forward_http env r body event p
  ]
