-- ===== src/Tests/Proxy.antt =====
-- internal/proxy: a request that is denied, one that goes on, and one that cannot be decoded.
use ghost_guard.Prelude.{◌≡◌, refl, true, none, [], ◌∷◌, ◌++◌, if◌then◌else◌}
use ghost_guard.Dict.{lookup}
use ghost_guard.Detector.RateLimit.{new_rate_limiter, allow}
use ghost_guard.Proxy.Inspect.{announce_dry_run, inspect}
use ghost_guard.Proxy.Inspect.Enforce.{
  verdict, first_denial, frame-announce_dry_run, verdict-inspect,
}
use ghost_guard.Proxy.Forward.{out_request}
use ghost_guard.Proxy.Handle.{handle_http}
use ghost_guard.Proxy.Handle.Enforce.{sent_on, answer, judge, handle_http-judge}
use ghost_guard.Proxy.Handle.Denials.{denied_calls-handle_http}
use ghost_guard.Proxy.Handle.Undecoded.{Undecoded, forwarded-Undecoded}
use ghost_guard.Proxy.Mitm.{addressed, mitm_round}
use ghost_guard.Proxy.Mitm.Judge.{answer_of, mitm_round-judge}
use ghost_guard.Tests.World.{runtime, opa, outside, codec, env, proxy, request, call, event}

handle_http-judge_example :
    ((handle_http runtime opa outside codec env (request "shell") proxy).0.forwarded
      ≡ proxy.forwarded
        ++ sent_on proxy.config
            (request "shell")
            (judge runtime opa outside codec env (request "shell") proxy))
    × ((handle_http runtime opa outside codec env (request "shell") proxy).1
        ≡ answer env proxy.config
            (request "shell")
            (judge runtime opa outside codec env (request "shell") proxy))
handle_http-judge_example = handle_http-judge runtime opa outside codec env (request "shell") proxy

verdict-inspect_example :
    verdict (
      inspect runtime opa outside
        (announce_dry_run runtime opa outside)
        env
        0
        (call "read_file" ∷ call "shell" ∷ [])
        proxy
        (event "shell"))
    ≡ (if proxy.config.dry_run
        then none
        else first_denial runtime opa outside env 0
            (call "read_file" ∷ call "shell" ∷ [])
            proxy.engine)
verdict-inspect_example =
    verdict-inspect runtime opa outside env (announce_dry_run runtime opa outside)
      (frame-announce_dry_run runtime opa outside env) 0 (call "read_file" ∷ call "shell" ∷ [])
      proxy (event "shell")

denied_calls-handle_http_example :
    (handle_http runtime opa outside codec env (request "shell") proxy).0.dash.metrics.denied_calls
    ≡ proxy.dash.metrics.denied_calls
denied_calls-handle_http_example =
    denied_calls-handle_http runtime opa outside codec env (request "shell") proxy refl

empty_body-Undecoded : Undecoded codec ""
unfolding Undecoded
empty_body-Undecoded = (refl, refl, refl)

first_call-allow : (allow (env.before 1) "api.openai.com" proxy.rate_limiter).1 ≡ true
unfolding allow new_rate_limiter lookup
first_call-allow = refl

forwarded-Undecoded_example :
    (handle_http runtime opa outside codec env (request "") proxy).0.forwarded
    ≡ proxy.forwarded ++ out_request proxy.config (request "") "" ∷ []
forwarded-Undecoded_example =
    forwarded-Undecoded runtime opa outside codec env (request "") "" proxy refl
      empty_body-Undecoded first_call-allow

mitm_round-judge_example :
    ((mitm_round runtime opa outside codec env "api.openai.com" (request "ping") proxy).0.forwarded
      ≡ proxy.forwarded
        ++ sent_on proxy.config (addressed "api.openai.com" (request "ping")) (
            judge runtime opa outside codec env
              (addressed "api.openai.com" (request "ping"))
              proxy))
    × ((mitm_round runtime opa outside codec env "api.openai.com" (request "ping") proxy).1
        ≡ answer_of env proxy.config (addressed "api.openai.com" (request "ping")) (
            judge runtime opa outside codec env
              (addressed "api.openai.com" (request "ping"))
              proxy))
mitm_round-judge_example =
    mitm_round-judge runtime opa outside codec env "api.openai.com" (request "ping") proxy
