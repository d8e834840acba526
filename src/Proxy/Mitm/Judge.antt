-- ===== src/Proxy/Mitm/Judge.antt =====
-- internal/proxy/intercept.go: a round of mitmHTTPS against the judgement of handleHTTP.
use mathlib.Core.List.{append-nil}
use ghost_guard.Prelude.{
  ◌≡◌, refl, sym, ap, ◌∙◌, ℕ, Bool, true, false, String, Option, none, some, [], ◌∷◌, ◌++◌,
  if◌then◌else◌,
}
use ghost_guard.Prelude.Int.{ℤ, pos}
use ghost_guard.Runtime.{Runtime}
use ghost_guard.Model.{InterceptionEvent, ToolCall, PolicyDecision}
use ghost_guard.Detector.RateLimit.{allow}
use ghost_guard.Policy.Engine.{Rego}
use ghost_guard.Alert.{Outside}
use ghost_guard.Proxy.Config.{Config}
use ghost_guard.Proxy.Extract.{Codec}
use ghost_guard.Proxy.Forward.{Request, Upstream, unreachable, replied, out_request}
use ghost_guard.Proxy.State.{Proxy, Env}
use ghost_guard.Proxy.Inspect.{Inspected, denied, passed, announce_nothing, inspect}
use ghost_guard.Proxy.Inspect.Enforce.{
  Frame, frame, state_of, verdict, frame-inspect, verdict-inspect,
}
use ghost_guard.Proxy.Handle.{is_ai, calls_of, new_event, finish_event}
use ghost_guard.Proxy.Handle.Enforce.{
  Judgement, unreadable, limited, refused, accepted, on_denial, sent_on, judge, judge_ai,
}
use ghost_guard.Proxy.Mitm.{
  Answer, nothing, status_only, rewritten, addressed, receive_mitm, forward_mitm, conclude_mitm,
  mitm_ai, mitm_round,
}

-- What is written for an upstream's reply, and for a judgement.
unfoldable pub rewritten_of : Upstream → Answer
rewritten_of (unreachable text) = nothing
rewritten_of (replied status header none) = nothing
rewritten_of (replied status header (some text)) = rewritten status header

unfoldable pub answer_of : {F : Type 0} → Env → Config F → Request → Judgement → Answer
answer_of env config r unreadable = nothing
answer_of env config r limited = status_only (pos 429)
answer_of env config r (refused d) = status_only (pos 403)
answer_of env config r (accepted body) = rewritten_of (env.upstream (out_request config r body))

module _ {F M P : Type 0} (rt : Runtime F) (opa : Rego M P F) (o : Outside F)
    (codec : Codec F) where
  -- The result of a round is the one of the judgement.
  unfoldable pub Follows : Env → Request → Proxy F M P → Judgement → Proxy F M P × Answer → Type 0
  Follows env r p j (q, answer) =
      (q.forwarded ≡ p.forwarded ++ sent_on p.config r j) × (answer ≡ answer_of env p.config r j)

  receive_mitm-rewritten :
      (env : Env) (r : Request) (event : InterceptionEvent F) (p : Proxy F M P) (u : Upstream)
      → ((receive_mitm rt opa o codec env r event p u).0.forwarded ≡ p.forwarded)
        × ((receive_mitm rt opa o codec env r event p u).1 ≡ rewritten_of u)
  unfolding receive_mitm finish_event rewritten_of
  receive_mitm-rewritten env r event p (unreachable text) = (refl, refl)
  receive_mitm-rewritten env r event p (replied status header none) = (refl, refl)
  receive_mitm-rewritten env r event p (replied status header (some text)) = (refl, refl)

  forward_mitm-Follows :
      (env : Env) (r : Request) (body : String) (event : InterceptionEvent F) (p : Proxy F M P)
      → Follows env r p (accepted body) (forward_mitm rt opa o codec env r body event p)
  unfolding forward_mitm Follows sent_on answer_of
  forward_mitm-Follows env r body event p = receive_mitm-rewritten env r event _ _

  conclude_mitm-Follows :
      (env : Env) (r : Request) (body : String) (p : Proxy F M P) (x : Inspected F M P)
      → frame (state_of x) ≡ frame p
      → Follows env r p (on_denial body (verdict x)) (conclude_mitm rt opa o codec env r body x)
  unfolding conclude_mitm Follows verdict state_of on_denial sent_on answer_of frame
  conclude_mitm-Follows env r body p (denied q d) h =
      (ap (λ (f : Frame F M P). f.forwarded) h ∙ sym (append-nil p.forwarded), refl)
  conclude_mitm-Follows env r body p (passed q event) h =
      let (same, written) = forward_mitm-Follows env r body event q in
      (
        same ∙ ap (λ (f : Frame F M P). f.forwarded ++ out_request f.config r body ∷ []) h,
        written
            ∙ ap (λ (f : Frame F M P). rewritten_of (env.upstream (out_request f.config r body))) h,
      )

  Follows-if :
      (env : Env) (r : Request) (p : Proxy F M P) (b : Bool) (i j : Judgement)
      (x y : Proxy F M P × Answer)
      → Follows env r p i x
      → Follows env r p j y
      → Follows env r p (if b then i else j) (if b then x else y)
  Follows-if env r p true i j x y hx hy = hx
  Follows-if env r p false i j x y hx hy = hy

  frame-announce_nothing :
      (at : ℕ → ℤ) (tc : ToolCall F) (d : PolicyDecision) (p : Proxy F M P)
      → frame (announce_nothing rt opa o at tc d p) ≡ frame p
  frame-announce_nothing at tc d p = refl

  mitm_ai-Follows :
      (env : Env) (r : Request) (body : String) (event : InterceptionEvent F) (p : Proxy F M P)
      → Follows env r p
          (judge_ai rt opa o codec env r body p)
          (mitm_ai rt opa o codec env r body event p)
  unfolding mitm_ai judge_ai Follows frame sent_on answer_of
  mitm_ai-Follows env r body event p =
      let (limiter, ok) = allow (env.before 1) r.host p.rate_limiter in
      let p1 : Proxy F M P = record p { rate_limiter = limiter } in
      let tcs = calls_of codec r body in
      let event1 : InterceptionEvent F = record event { tool_calls = tcs } in
      let announce = announce_nothing rt opa o in
      let ended = inspect rt opa o announce env 0 tcs p1 event1 in
      let (same, written) =
        conclude_mitm-Follows env r body p1 ended
          (frame-inspect rt opa o env announce frame-announce_nothing 0 tcs p1 event1) in
      let told = verdict-inspect rt opa o env announce frame-announce_nothing 0 tcs p1 event1 in
      Follows-if env r p ok _ _ _ _
        (
          same ∙ ap (λ d. p.forwarded ++ sent_on p.config r (on_denial body d)) told,
          written ∙ ap (λ d. answer_of env p.config r (on_denial body d)) told,
        )
        (sym (append-nil p.forwarded), refl)

  mitm_round-Follows :
      (env : Env) (hostname : String) (r : Request) (body : Option String) (p : Proxy F M P)
      → Follows env
          (addressed hostname (record r { body = body }))
          p
          (judge rt opa o codec env (addressed hostname (record r { body = body })) p)
          (mitm_round rt opa o codec env hostname (record r { body = body }) p)
  unfolding mitm_round judge Follows sent_on answer_of addressed
  mitm_round-Follows env hostname r none p = (sym (append-nil p.forwarded), refl)
  mitm_round-Follows env hostname r (some body) p =
      let r1 = addressed hostname (record r { body = some body }) in
      let event = new_event env hostname r1 body in
      Follows-if env r1 p (is_ai p.config r1) _ _ _ _ (mitm_ai-Follows env r1 body event p)
        (forward_mitm-Follows env r1 body event p)

  -- A round sends on the requests that handle_http would send on for the request with the connection's
  -- host in its URL, and answers by the same judgement, a denial and a call too many with no body.
  pub mitm_round-judge :
      (env : Env) (hostname : String) (r : Request) (p : Proxy F M P)
      → ((mitm_round rt opa o codec env hostname r p).0.forwarded
          ≡ p.forwarded
            ++ sent_on p.config
                (addressed hostname r)
                (judge rt opa o codec env (addressed hostname r) p))
        × ((mitm_round rt opa o codec env hostname r p).1
            ≡ answer_of env p.config
                (addressed hostname r)
                (judge rt opa o codec env (addressed hostname r) p))
  unfolding Follows
  mitm_round-judge env hostname r p = mitm_round-Follows env hostname r r.body p
