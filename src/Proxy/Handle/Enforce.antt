-- ===== src/Proxy/Handle/Enforce.antt =====
-- internal/proxy/intercept.go: what handleHTTP sends on and what it answers, against a judgement of
-- the request that is made before anything is done with it.
use mathlib.Core.List.{append-nil}
use ghost_guard.Prelude.{
  ◌≡◌, refl, sym, ap, ◌∙◌, Bool, true, false, String, Option, none, some, List, [], ◌∷◌, ◌++◌,
  if◌then◌else◌,
}
use ghost_guard.Prelude.Int.{pos}
use ghost_guard.Runtime.{Runtime}
use ghost_guard.Model.{PolicyDecision, InterceptionEvent}
use ghost_guard.Detector.RateLimit.{allow}
use ghost_guard.Policy.Engine.{Rego}
use ghost_guard.Alert.{Outside}
use ghost_guard.Proxy.Config.{Config}
use ghost_guard.Proxy.Extract.{Codec}
use ghost_guard.Proxy.Forward.{
  Request, OutRequest, Upstream, unreachable, replied, out_request, copy_headers,
}
use ghost_guard.Proxy.State.{Proxy, Env, Reply, plain, json, copied}
use ghost_guard.Proxy.Inspect.{Inspected, denied, passed, announce_dry_run, inspect}
use ghost_guard.Proxy.Inspect.Enforce.{
  Frame, frame, state_of, verdict, first_denial, frame-announce_dry_run, frame-inspect,
  verdict-inspect,
}
use ghost_guard.Proxy.Handle.{
  rate_limited, deny_response, new_event, is_ai, calls_of, finish_event, receive_http, forward_http,
  conclude_http, handle_ai, handle_http,
}

-- What is to become of a request: its body cannot be read; its host is over the limit of calls; a call
-- in it is denied; or it goes on to the upstream with the body that was read.
pub data Judgement : Type 0 where
  unreadable : Judgement
  limited : Judgement
  refused : PolicyDecision → Judgement
  accepted : (body : String) → Judgement

unfoldable pub on_denial : String → Option PolicyDecision → Judgement
on_denial body none = accepted body
on_denial body (some d) = refused d

module _ {F : Type 0} where
  -- The requests that a judgement sends on.
  unfoldable pub sent_on : Config F → Request → Judgement → List OutRequest
  sent_on config r unreadable = []
  sent_on config r limited = []
  sent_on config r (refused d) = []
  sent_on config r (accepted body) = out_request config r body ∷ []

  -- The answer to a client whose request was sent on.
  unfoldable pub relayed : Upstream → Reply F
  relayed (unreachable text) = plain (pos 502) "upstream request failed"
  relayed (replied status header none) = plain (pos 500) "error reading response"
  relayed (replied status header (some text)) = copied status (copy_headers header []) text

  unfoldable pub answer : Env → Config F → Request → Judgement → Reply F
  answer env config r unreadable = plain (pos 400) "error reading request"
  answer env config r limited = json (pos 429) rate_limited
  answer env config r (refused d) = deny_response d
  answer env config r (accepted body) = relayed (env.upstream (out_request config r body))

module _ {F M P : Type 0} (rt : Runtime F) (opa : Rego M P F) (o : Outside F)
    (codec : Codec F) where
  -- In a dry run no call is refused.
  unfoldable pub judge_ai : Env → Request → String → Proxy F M P → Judgement
  judge_ai env r body p =
      if (allow (env.before 1) r.host p.rate_limiter).1
      then on_denial body (
          if p.config.dry_run
          then none
          else first_denial rt opa o env 0 (calls_of codec r body) p.engine)
      else limited

  unfoldable pub judge : Env → Request → Proxy F M P → Judgement
  judge env r p = elim r.body [
    | none ↦ unreadable
    | some body ↦ if is_ai p.config r then judge_ai env r body p else accepted body
  ]

  forwarded-receive_http :
      (env : Env) (r : Request) (event : InterceptionEvent F) (p : Proxy F M P) (u : Upstream)
      → (receive_http rt opa o codec env r event p u).0.forwarded ≡ p.forwarded
  unfolding receive_http finish_event
  forwarded-receive_http env r event p (unreachable text) = refl
  forwarded-receive_http env r event p (replied status header none) = refl
  forwarded-receive_http env r event p (replied status header (some text)) = refl

  reply-receive_http :
      (env : Env) (r : Request) (event : InterceptionEvent F) (p : Proxy F M P) (u : Upstream)
      → (receive_http rt opa o codec env r event p u).1 ≡ relayed u
  unfolding receive_http relayed
  reply-receive_http env r event p (unreachable text) = refl
  reply-receive_http env r event p (replied status header none) = refl
  reply-receive_http env r event p (replied status header (some text)) = refl

  forwarded-forward_http :
      (env : Env) (r : Request) (body : String) (event : InterceptionEvent F) (p : Proxy F M P)
      → (forward_http rt opa o codec env r body event p).0.forwarded
        ≡ p.forwarded ++ out_request p.config r body ∷ []
  unfolding forward_http
  forwarded-forward_http env r body event p = forwarded-receive_http env r event _ _

  reply-forward_http :
      (env : Env) (r : Request) (body : String) (event : InterceptionEvent F) (p : Proxy F M P)
      → (forward_http rt opa o codec env r body event p).1
        ≡ relayed (env.upstream (out_request p.config r body))
  unfolding forward_http
  reply-forward_http env r body event p = reply-receive_http env r event _ _

  -- The requests and the answer of a loop that has ended.
  forwarded-conclude_http :
      (env : Env) (r : Request) (body : String) (p : Proxy F M P) (x : Inspected F M P)
      → frame (state_of x) ≡ frame p
      → (conclude_http rt opa o codec env r body x).0.forwarded
        ≡ p.forwarded ++ sent_on p.config r (on_denial body (verdict x))
  unfolding conclude_http verdict state_of on_denial sent_on frame
  forwarded-conclude_http env r body p (denied q d) h =
      ap (λ (f : Frame F M P). f.forwarded) h ∙ sym (append-nil p.forwarded)
  forwarded-conclude_http env r body p (passed q event) h =
      forwarded-forward_http env r body event q
      ∙ ap (λ (f : Frame F M P). f.forwarded ++ out_request f.config r body ∷ []) h

  reply-conclude_http :
      (env : Env) (r : Request) (body : String) (p : Proxy F M P) (x : Inspected F M P)
      → frame (state_of x) ≡ frame p
      → (conclude_http rt opa o codec env r body x).1
        ≡ answer env p.config r (on_denial body (verdict x))
  unfolding conclude_http verdict state_of on_denial answer frame
  reply-conclude_http env r body p (denied q d) h = refl
  reply-conclude_http env r body p (passed q event) h =
      reply-forward_http env r body event q
      ∙ ap (λ (f : Frame F M P). relayed (env.upstream (out_request f.config r body))) h

  -- What handle_http does, told by its judgement.
  unfoldable pub Judged : Env → Request → Proxy F M P → Judgement → Proxy F M P × Reply F → Type 0
  Judged env r p j (q, reply) =
      (q.forwarded ≡ p.forwarded ++ sent_on p.config r j) × (reply ≡ answer env p.config r j)

  Judged-if :
      (env : Env) (r : Request) (p : Proxy F M P) (b : Bool) (i j : Judgement)
      (x y : Proxy F M P × Reply F)
      → Judged env r p i x
      → Judged env r p j y
      → Judged env r p (if b then i else j) (if b then x else y)
  Judged-if env r p true i j x y hx hy = hx
  Judged-if env r p false i j x y hx hy = hy

  handle_ai-Judged :
      (env : Env) (r : Request) (body : String) (event : InterceptionEvent F) (p : Proxy F M P)
      → Judged env r p (judge_ai env r body p) (handle_ai rt opa o codec env r body event p)
  unfolding handle_ai judge_ai Judged frame sent_on answer
  handle_ai-Judged env r body event p =
      let (limiter, ok) = allow (env.before 1) r.host p.rate_limiter in
      let p1 : Proxy F M P = record p { rate_limiter = limiter } in
      let tcs = calls_of codec r body in
      let announce = announce_dry_run rt opa o in
      let quiet = frame-announce_dry_run rt opa o env in
      let event1 : InterceptionEvent F = record event { tool_calls = tcs } in
      let ended = inspect rt opa o (announce_dry_run rt opa o) env 0 tcs p1 event1 in
      let kept = frame-inspect rt opa o env announce quiet 0 tcs p1 event1 in
      let told = verdict-inspect rt opa o env announce quiet 0 tcs p1 event1 in
      Judged-if env r p ok _ _ _ _
        (
          forwarded-conclude_http env r body p1 ended kept
              ∙ ap (λ d. p.forwarded ++ sent_on p.config r (on_denial body d)) told,
          reply-conclude_http env r body p1 ended kept
              ∙ ap (λ d. answer env p.config r (on_denial body d)) told,
        )
        (sym (append-nil p.forwarded), refl)

  handle_http-Judged :
      (env : Env) (r : Request) (body : Option String) (p : Proxy F M P)
      → Judged env
          (record r { body = body })
          p
          (judge env (record r { body = body }) p)
          (handle_http rt opa o codec env (record r { body = body }) p)
  unfolding handle_http judge Judged sent_on answer
  handle_http-Judged env r none p = (sym (append-nil p.forwarded), refl)
  handle_http-Judged env r (some body) p =
      let r1 : Request = record r { body = some body } in
      let event = new_event env r.host r1 body in
      Judged-if env r1 p (is_ai p.config r) _ _ _ _ (handle_ai-Judged env r1 body event p)
        (forwarded-forward_http env r1 body event p, reply-forward_http env r1 body event p)

  -- The requests that handle_http sends on are, after those of before, the ones of the judgement of the
  -- request, one if it is accepted and else none; and the answer is the judgement's: 400, 429, the 403
  -- with the reason of the denial, or, for an accepted one, the upstream's response, 502 or 500.
  pub handle_http-judge :
      (env : Env) (r : Request) (p : Proxy F M P)
      → ((handle_http rt opa o codec env r p).0.forwarded
          ≡ p.forwarded ++ sent_on p.config r (judge env r p))
        × ((handle_http rt opa o codec env r p).1 ≡ answer env p.config r (judge env r p))
  unfolding Judged
  handle_http-judge env r p = handle_http-Judged env r r.body p
