-- ===== src/Proxy/Handle/Undecoded.antt =====
-- internal/proxy/intercept.go: bodies that the decoders of extractToolCalls refuse.
use ghost_guard.Prelude.{◌≡◌, refl, ap, ◌∙◌, arith, true, String, none, some, [], ◌∷◌, ◌++◌}
use ghost_guard.Runtime.{Runtime}
use ghost_guard.Detector.RateLimit.{allow}
use ghost_guard.Policy.Engine.{Rego}
use ghost_guard.Alert.{Outside}
use ghost_guard.Proxy.Extract.{
  Codec, extract_tool_calls, parse_openai_tool_calls, parse_anthropic_tool_calls,
  parse_gemini_tool_calls,
}
use ghost_guard.Proxy.Forward.{Request, out_request}
use ghost_guard.Proxy.State.{Proxy, Env}
use ghost_guard.Proxy.Handle.{calls_of, handle_http}
use ghost_guard.Proxy.Inspect.Enforce.{first_denial}
use ghost_guard.Proxy.Handle.Enforce.{
  accepted, judge, judge_ai, on_denial, sent_on, handle_http-judge,
}

-- No decoder reads the body.
unfoldable pub Undecoded : {F : Type 0} → Codec F → String → Type 0
Undecoded codec body =
    (codec.openai_body body ≡ none)
    × (codec.anthropic_body body ≡ none)
    × (codec.gemini_body body ≡ none)

module _ {F M P : Type 0} (rt : Runtime F) (opa : Rego M P F) (o : Outside F)
    (codec : Codec F) where
  extract_tool_calls-Undecoded :
      (path host version body : String)
      → Undecoded codec body
      → extract_tool_calls codec path host version body ≡ []
  unfolding Undecoded extract_tool_calls parse_openai_tool_calls parse_anthropic_tool_calls
      parse_gemini_tool_calls
  extract_tool_calls-Undecoded path host version body (h1, h2, h3) = ground arith

  no_denial-Undecoded :
      (env : Env) (r : Request) (body : String) (p : Proxy F M P)
      → Undecoded codec body
      → first_denial rt opa o env 0 (calls_of codec r body) p.engine ≡ none
  unfolding first_denial
  no_denial-Undecoded env r body p h = rw (extract_tool_calls-Undecoded _ _ _ body h) refl

  judge-Undecoded :
      (env : Env) (r : Request) (body : String) (p : Proxy F M P)
      → r.body ≡ some body
      → Undecoded codec body
      → (allow (env.before 1) r.host p.rate_limiter).1 ≡ true
      → judge rt opa o codec env r p ≡ accepted body
  unfolding judge judge_ai on_denial
  judge-Undecoded env r body p read h ok =
      let clean = no_denial-Undecoded env r body p h in ground arith

  -- A body that no decoder reads goes on to the upstream, under any policies, if the limit of calls is
  -- not reached.
  pub forwarded-Undecoded :
      (env : Env) (r : Request) (body : String) (p : Proxy F M P)
      → r.body ≡ some body
      → Undecoded codec body
      → (allow (env.before 1) r.host p.rate_limiter).1 ≡ true
      → (handle_http rt opa o codec env r p).0.forwarded
        ≡ p.forwarded ++ out_request p.config r body ∷ []
  unfolding sent_on
  forwarded-Undecoded env r body p read h ok =
      (handle_http-judge rt opa o codec env r p).0
      ∙ ap (λ j. p.forwarded ++ sent_on p.config r j) (judge-Undecoded env r body p read h ok)
