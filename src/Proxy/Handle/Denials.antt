-- ===== src/Proxy/Handle/Denials.antt =====
-- internal/proxy/intercept.go: the requests that handleHTTP denies, and the counters of the dashboard.
use ghost_guard.Prelude.{
  ◌≡◌, refl, ap, ◌∙◌, arith, Bool, true, false, String, Option, none, some, List, [], ◌∷◌,
  if◌then◌else◌,
}
use ghost_guard.Prelude.Int.{ℤ}
use ghost_guard.Runtime.{Runtime}
use ghost_guard.Model.{PolicyDecision, Action, allow, deny, log, InterceptionEvent}
use ghost_guard.Detector.RateLimit.{allow as allow_call}
use ghost_guard.Policy.Engine.{Rego}
use ghost_guard.Alert.{Outside}
use ghost_guard.Dashboard.{
  Metrics, Dashboard, count_decision, count_decisions, record_metrics, record_event,
}
use ghost_guard.Proxy.Extract.{Codec}
use ghost_guard.Proxy.Forward.{Request, Upstream, unreachable, replied}
use ghost_guard.Proxy.State.{Proxy, Env, Reply}
use ghost_guard.Proxy.Inspect.{Inspected, denied, passed, is_deny, announce_dry_run}
use ghost_guard.Proxy.Inspect.Enforce.{
  Frame, frame, state_of, counted, NoDenial, frame-announce_dry_run, frame-inspect,
  NoDenial-inspect,
}
use ghost_guard.Proxy.Handle.{
  new_event, close_event, finish_event, receive_http, is_ai, calls_of, forward_http, conclude_http,
  handle_ai, handle_http,
}

denied_calls-count_decision :
    (a : Action) (m : Metrics)
    → is_deny a ≡ false
    → (count_decision a m).denied_calls ≡ m.denied_calls
unfolding count_decision is_deny
denied_calls-count_decision deny m h = grind arith
denied_calls-count_decision allow m h = refl
denied_calls-count_decision log m h = refl

denied_calls-count_decisions :
    (ds : List PolicyDecision) (m : Metrics)
    → NoDenial ds
    → (count_decisions ds m).denied_calls ≡ m.denied_calls
unfolding count_decisions NoDenial
denied_calls-count_decisions [] m h = refl
denied_calls-count_decisions (d ∷ ds) m (allowed, h) =
    denied_calls-count_decisions ds (count_decision d.action m) h
    ∙ denied_calls-count_decision d.action m allowed

denied_calls-record_event :
    {F : Type 0} (now : ℤ) (event : InterceptionEvent F) (d : Dashboard F)
    → NoDenial event.decisions
    → (record_event now event d).metrics.denied_calls ≡ d.metrics.denied_calls
unfolding record_event record_metrics
denied_calls-record_event now event d h = denied_calls-count_decisions event.decisions _ h

module _ {F M P : Type 0} (rt : Runtime F) (opa : Rego M P F) (o : Outside F)
    (codec : Codec F) where
  abbrev denied_calls : Proxy F M P → ℤ
  denied_calls p = p.dash.metrics.denied_calls

  denied_calls-receive_http :
      (env : Env) (r : Request) (event : InterceptionEvent F) (p : Proxy F M P) (u : Upstream)
      → NoDenial event.decisions
      → denied_calls (receive_http rt opa o codec env r event p u).0 ≡ denied_calls p
  unfolding receive_http finish_event close_event
  denied_calls-receive_http env r event p (unreachable text) h = refl
  denied_calls-receive_http env r event p (replied status header none) h = refl
  denied_calls-receive_http env r event p (replied status header (some text)) h =
      denied_calls-record_event _ _ p.dash h

  denied_calls-forward_http :
      (env : Env) (r : Request) (body : String) (event : InterceptionEvent F) (p : Proxy F M P)
      → NoDenial event.decisions
      → denied_calls (forward_http rt opa o codec env r body event p).0 ≡ denied_calls p
  unfolding forward_http
  denied_calls-forward_http env r body event p h = denied_calls-receive_http env r event _ _ h

  denied_calls-conclude_http :
      (env : Env) (r : Request) (body : String) (x : Inspected F M P)
      → NoDenial (counted x)
      → denied_calls (conclude_http rt opa o codec env r body x).0 ≡ denied_calls (state_of x)
  unfolding conclude_http counted state_of
  denied_calls-conclude_http env r body (denied q d) h = refl
  denied_calls-conclude_http env r body (passed q event) h =
      denied_calls-forward_http env r body event q h

  denied_calls-if :
      (p : Proxy F M P) (b : Bool) (x y : Proxy F M P × Reply F)
      → denied_calls x.0 ≡ denied_calls p
      → denied_calls y.0 ≡ denied_calls p
      → denied_calls (if b then x else y).0 ≡ denied_calls p
  denied_calls-if p true x y hx hy = hx
  denied_calls-if p false x y hx hy = hy

  denied_calls-handle_ai :
      (env : Env) (r : Request) (body : String) (event : InterceptionEvent F) (p : Proxy F M P)
      → p.config.dry_run ≡ false
      → NoDenial event.decisions
      → denied_calls (handle_ai rt opa o codec env r body event p).0 ≡ denied_calls p
  unfolding handle_ai frame
  denied_calls-handle_ai env r body event p live h =
      let (limiter, ok) = allow_call (env.before 1) r.host p.rate_limiter in
      let p1 : Proxy F M P = record p { rate_limiter = limiter } in
      let tcs = calls_of codec r body in
      let announce = announce_dry_run rt opa o in
      let quiet = frame-announce_dry_run rt opa o env in
      let event1 : InterceptionEvent F = record event { tool_calls = tcs } in
      denied_calls-if p ok _ _
        (denied_calls-conclude_http env r body _
            (NoDenial-inspect rt opa o env announce quiet 0 tcs p1 event1 live h)
          ∙ ap (λ (f : Frame F M P). f.dash.metrics.denied_calls)
              (frame-inspect rt opa o env announce quiet 0 tcs p1 event1))
        refl

  denied_calls-readable :
      (env : Env) (r : Request) (body : Option String) (p : Proxy F M P)
      → p.config.dry_run ≡ false
      → denied_calls (handle_http rt opa o codec env (record r { body = body }) p).0
        ≡ denied_calls p
  unfolding handle_http new_event NoDenial
  denied_calls-readable env r none p live = refl
  denied_calls-readable env r (some body) p live =
      let r1 : Request = record r { body = some body } in
      let event = new_event env r.host r1 body in
      denied_calls-if p (is_ai p.config r) _ _ (denied_calls-handle_ai env r1 body event p live tt)
        (denied_calls-forward_http env r1 body event p tt)

  -- Without a dry run, a request leaves the dashboard's number of denied calls as it was, also a
  -- request that is answered with a denial.
  pub denied_calls-handle_http :
      (env : Env) (r : Request) (p : Proxy F M P)
      → p.config.dry_run ≡ false
      → (handle_http rt opa o codec env r p).0.dash.metrics.denied_calls
        ≡ p.dash.metrics.denied_calls
  denied_calls-handle_http env r p live = denied_calls-readable env r r.body p live
