-- ===== src/Proxy/Mitm.antt =====
-- internal/proxy/intercept.go: mitmHTTPS, the loop over the requests of a connection whose TLS the
-- proxy has ended itself.
pub mod Judge
use ghost_guard.Prelude.{
  ℕ, suc, String, Bool, true, false, Option, none, some, List, [], ◌∷◌, ◌++◌, if◌then◌else◌, ◌&◌,
}
use ghost_guard.Prelude.Int.{ℤ, pos}
use ghost_guard.Runtime.{Runtime}
use ghost_guard.Model.{InterceptionEvent}
use ghost_guard.Detector.RateLimit.{allow}
use ghost_guard.Policy.Engine.{Rego}
use ghost_guard.Alert.{Outside}
use ghost_guard.Proxy.Extract.{Codec, Header}
use ghost_guard.Proxy.Forward.{
  Url, Request, OutRequest, Upstream, unreachable, replied, out_request,
}
use ghost_guard.Proxy.State.{Proxy, Env}
use ghost_guard.Proxy.Inspect.{Inspected, denied, passed, announce_nothing, inspect}
use ghost_guard.Proxy.Handle.{complain, calls_of, is_ai, new_event, close_event, finish_event}

-- What a round writes to the client: nothing; a response that is a status and no body; or, by
-- resp.Write, the upstream's response, whose body the round has read to its end and closed before.
pub data Answer : Type 0 where
  nothing : Answer
  status_only : (status : ℤ) → Answer
  rewritten : (status : ℤ) → Header → Answer

-- `req.URL.Scheme = "https"; req.URL.Host = hostname`
unfoldable pub addressed : String → Request → Request
addressed hostname r = record r { url = record (r.url) { scheme = "https"; host = hostname } }

module _ {F M P : Type 0} (rt : Runtime F) (opa : Rego M P F) (o : Outside F)
    (codec : Codec F) where
  -- A round once the upstream has answered.
  unfoldable pub receive_mitm :
      Env → Request → InterceptionEvent F → Proxy F M P → Upstream → Proxy F M P × Answer
  receive_mitm env r event p (unreachable text) =
      (complain rt opa o codec (env.after 0) ("upstream request failed: " & text) p, nothing)
  receive_mitm env r event p (replied status header none) = (p, nothing)
  receive_mitm env r event p (replied status header (some text)) = (
    finish_event rt opa o codec env
        (close_event rt opa o codec env (is_ai p.config r) status text event) p,
    rewritten status header,
  )

  unfoldable pub forward_mitm :
      Env → Request → String → InterceptionEvent F → Proxy F M P → Proxy F M P × Answer
  forward_mitm env r body event p =
      let out = out_request p.config r body in
      receive_mitm env r event (record p { forwarded = p.forwarded ++ out ∷ [] }) (env.upstream out)

  unfoldable pub conclude_mitm : Env → Request → String → Inspected F M P → Proxy F M P × Answer
  conclude_mitm env r body (denied p d) = (p, status_only (pos 403))
  conclude_mitm env r body (passed p event) = forward_mitm env r body event p

  unfoldable pub mitm_ai :
      Env → Request → String → InterceptionEvent F → Proxy F M P → Proxy F M P × Answer
  mitm_ai env r body event p =
      let (limiter, ok) = allow (env.before 1) r.host p.rate_limiter in
      let p1 : Proxy F M P = record p { rate_limiter = limiter } in
      let tcs = calls_of codec r body in
      if ok
      then conclude_mitm env r body (
          inspect rt opa o (announce_nothing rt opa o) env 0 tcs p1
            (record event { tool_calls = tcs }))
      else (p1, status_only (pos 429))

  -- A round, from the request that was read.
  unfoldable pub mitm_round : Env → String → Request → Proxy F M P → Proxy F M P × Answer
  mitm_round env hostname req p =
      let r = addressed hostname req in
      elim req.body [
        | none ↦ (
          complain rt opa o codec (env.before 1) ("reading request body: " & env.request_error) p,
          nothing,
        )
        | some body ↦
            let event = new_event env hostname r body in
            if is_ai p.config r then mitm_ai env r body event p else forward_mitm env r body event p
      ]

  -- Only a round that wrote the upstream's response is followed by another.
  unfoldable pub goes_on : Answer → Bool
  goes_on nothing = false
  goes_on (status_only status) = false
  goes_on (rewritten status header) = true

  -- The loop: `reqs` are the requests that http.ReadRequest gives before it ends with an error, and
  -- `envs i` is what round `i` meets. The answers are listed in their order.
  unfoldable pub mitm_https :
      (ℕ → Env) → String → List Request → Proxy F M P → Proxy F M P × List Answer
  mitm_https envs hostname [] p = (p, [])
  mitm_https envs hostname (req ∷ reqs) p =
      let (p1, answer) = mitm_round (envs 0) hostname req p in
      let (p2, answers) = mitm_https (λ i. envs (suc i)) hostname reqs p1 in
      if goes_on answer then (p2, answer ∷ answers) else (p1, answer ∷ [])
