-- ===== src/Proxy/Handle/Limited.antt =====
-- internal/proxy/intercept.go with internal/detector/ratelimit.go: how many requests of a host
-- handleHTTP sends on while a window of the rate limiter is open.
use ghost_guard.Prelude.{
  ◌≡◌, refl, ap, ◌∙◌, arith, ℕ, ◌+◌, ◌-◌, ◌≤◌, Bool, true, false, ◌&&◌, String, Option, none, some,
  is_some, List, [], ◌∷◌, if◌then◌else◌, ◌==◌, length, length-append, Bool-cases, Option-cases, inl,
  inr,
}
use ghost_guard.Prelude.Int.{◌+ℤ◌}
use ghost_guard.Dict.{lookup}
use ghost_guard.Runtime.{Runtime}
use ghost_guard.Model.{InterceptionEvent}
use ghost_guard.Detector.RateLimit.{RateLimiter, allow}
use ghost_guard.Detector.RateLimit.Laws.{quota, IsValid}
use ghost_guard.Detector.RateLimit.Quota.{Call, admitted, Until, IsClosed, admitted-window}
use ghost_guard.Policy.Engine.{Rego}
use ghost_guard.Alert.{Outside}
use ghost_guard.Proxy.Config.{Config}
use ghost_guard.Proxy.Extract.{Codec}
use ghost_guard.Proxy.Forward.{Request, Upstream, unreachable, replied}
use ghost_guard.Proxy.State.{Proxy, Env, Reply}
use ghost_guard.Proxy.Inspect.{Inspected, denied, passed, announce_dry_run}
use ghost_guard.Proxy.Inspect.Enforce.{
  Frame, frame, state_of, frame-announce_dry_run, frame-inspect,
}
use ghost_guard.Proxy.Handle.{
  new_event, is_ai, calls_of, finish_event, receive_http, forward_http, conclude_http, handle_ai,
  handle_http,
}
use ghost_guard.Proxy.Handle.Enforce.{
  Judgement, unreadable, limited, refused, accepted, sent_on, judge_ai, judge, handle_http-judge,
}

-- The parts that count the calls.
record Limits (F : Type 0) : Type 0 where
  config : Config F
  limiter : RateLimiter

limits : {F M P : Type 0} → Proxy F M P → Limits F
limits p = record { config = p.config; limiter = p.rate_limiter }

-- A request whose body is read and that is for an AI provider.
abbrev pub is_counted : {F : Type 0} → Config F → Request → Bool
is_counted config r = is_some r.body && is_ai config r

-- The calls of the limiter that a sequence of requests makes.
abbrev pub calls_to : {F : Type 0} → Config F → List (Env × Request) → List Call
calls_to config [] = []
calls_to config ((env, r) ∷ rs) =
    let rest = calls_to config rs in
    if is_counted config r then (env.before 1, r.host) ∷ rest else rest

length-sent_on :
    {F : Type 0} (config : Config F) (r : Request) (j : Judgement) → length (sent_on config r j) ≤ 1
unfolding sent_on
length-sent_on config r unreadable = omega arith
length-sent_on config r limited = omega arith
length-sent_on config r (refused d) = omega arith
length-sent_on config r (accepted body) = omega arith

module _ {F M P : Type 0} (rt : Runtime F) (opa : Rego M P F) (o : Outside F)
    (codec : Codec F) where
  limits-receive_http :
      (env : Env) (r : Request) (event : InterceptionEvent F) (p : Proxy F M P) (u : Upstream)
      → limits (receive_http rt opa o codec env r event p u).0 ≡ limits p
  unfolding limits receive_http finish_event
  limits-receive_http env r event p (unreachable text) = refl
  limits-receive_http env r event p (replied status header none) = refl
  limits-receive_http env r event p (replied status header (some text)) = refl

  limits-forward_http :
      (env : Env) (r : Request) (body : String) (event : InterceptionEvent F) (p : Proxy F M P)
      → limits (forward_http rt opa o codec env r body event p).0 ≡ limits p
  unfolding forward_http limits
  limits-forward_http env r body event p = limits-receive_http env r event _ _

  limits-conclude_http :
      (env : Env) (r : Request) (body : String) (p : Proxy F M P) (x : Inspected F M P)
      → frame (state_of x) ≡ frame p
      → limits (conclude_http rt opa o codec env r body x).0 ≡ limits p
  unfolding conclude_http frame state_of limits
  limits-conclude_http env r body p (denied q d) h =
      ap (λ (f : Frame F M P). record { config = f.config; limiter = f.rate_limiter }) h
  limits-conclude_http env r body p (passed q event) h =
      limits-forward_http env r body event q
      ∙ ap (λ (f : Frame F M P). record { config = f.config; limiter = f.rate_limiter }) h

  limits-if :
      (b : Bool) (x y : Proxy F M P × Reply F) {l : Limits F}
      → limits x.0 ≡ l
      → limits y.0 ≡ l
      → limits (if b then x else y).0 ≡ l
  limits-if true x y hx hy = hx
  limits-if false x y hx hy = hy

  limits-handle_ai :
      (env : Env) (r : Request) (body : String) (event : InterceptionEvent F) (p : Proxy F M P)
      → limits (handle_ai rt opa o codec env r body event p).0
        ≡ record { config = p.config; limiter = (allow (env.before 1) r.host p.rate_limiter).0 }
  unfolding handle_ai limits
  limits-handle_ai env r body event p =
      let (limiter, ok) = allow (env.before 1) r.host p.rate_limiter in
      let p1 : Proxy F M P = record p { rate_limiter = limiter } in
      let tcs = calls_of codec r body in
      let event1 : InterceptionEvent F = record event { tool_calls = tcs } in
      limits-if ok _ _
        (limits-conclude_http env r body p1 _ (
          frame-inspect rt opa o env (announce_dry_run rt opa o)
            (frame-announce_dry_run rt opa o env) 0 tcs p1 event1))
        refl

  -- The proxy after a request, its body given apart.
  limits-handle_http :
      (env : Env) (r : Request) (body : Option String) (p : Proxy F M P)
      → let r1 : Request = record r { body = body } in
        limits (handle_http rt opa o codec env r1 p).0 ≡ record {
          config = p.config;
          limiter =
              if is_counted p.config r1
              then (allow (env.before 1) r.host p.rate_limiter).0
              else p.rate_limiter;
        }
  unfolding handle_http limits
  limits-handle_http env r none p = refl
  limits-handle_http env r (some body) p =
      let r1 : Request = record r { body = some body } in
      let event = new_event env r.host r1 body in
      elim (Bool-cases (is_ai p.config r)) [
        | inl ai ↦ rw (ai) (limits-handle_ai env r1 body event p)
        | inr other ↦ rw (other) (limits-forward_http env r1 body event p)
      ]

  -- How many requests a handling of one sends on.
  abbrev pub sent_by : Env → Request → Proxy F M P → ℕ
  sent_by env r p = length (handle_http rt opa o codec env r p).0.forwarded - length p.forwarded

  judge-limited :
      (env : Env) (r : Request) (p : Proxy F M P)
      → is_counted p.config r ≡ true
      → (allow (env.before 1) r.host p.rate_limiter).1 ≡ false
      → judge rt opa o codec env r p ≡ limited
  unfolding judge judge_ai
  judge-limited env r p counted over = elim (Option-cases r.body) [
    | inl unread ↦ absurd (ground (arith, unread))
    | inr (body, read) ↦
        let ai : is_ai p.config r ≡ true = rw read at counted in rw (read, judge, ai, over) refl
  ]

  sent_by-allow :
      (env : Env) (r : Request) (p : Proxy F M P)
      → is_counted p.config r ≡ true
      → sent_by env r p ≤ (if (allow (env.before 1) r.host p.rate_limiter).1 then 1 else 0)
  unfolding sent_on
  sent_by-allow env r p counted =
      rw ((handle_http-judge rt opa o codec env r p).0, length-append)
        (elim (Bool-cases (allow (env.before 1) r.host p.rate_limiter).1) [
          | inl ok ↦ ground (arith, ok, length-sent_on p.config r (judge rt opa o codec env r p))
          | inr over ↦ rw (over, judge-limited env r p counted over) (omega arith)
        ])

  -- The requests for an AI provider under the host `key` that are sent on, of those that handle_http is
  -- given one after the other.
  unfoldable pub sent_of : String → List (Env × Request) → Proxy F M P → ℕ
  sent_of key [] p = 0
  sent_of key ((env, r) ∷ rs) p =
      (if is_counted p.config r && r.host == key then sent_by env r p else 0)
      + sent_of key rs (handle_http rt opa o codec env r p).0

  sent_of-admitted :
      (key : String) (rs : List (Env × Request)) (p : Proxy F M P)
      → sent_of key rs p ≤ admitted key (calls_to p.config rs) p.rate_limiter
  unfolding sent_of admitted limits
  sent_of-admitted key [] p = omega arith
  sent_of-admitted key ((env, r) ∷ rs) p =
      let q = (handle_http rt opa o codec env r p).0 in
      let rest = sent_of-admitted key rs q in
      let kept = limits-handle_http env r r.body p in
      let config : q.config ≡ p.config = ap (λ (l : Limits F). l.config) kept in
      let limiter : q.rate_limiter ≡ (
          if is_counted p.config r
          then (allow (env.before 1) r.host p.rate_limiter).0
          else p.rate_limiter) =
        ap (λ (l : Limits F). l.limiter) kept in
      elim (Bool-cases (is_counted p.config r)) [
        | inl ai ↦
            let rest' = rw (config, limiter, ai) at rest in
            rw ai (ground (arith, rest', sent_by-allow env r p ai))
        | inr other ↦ let rest' = rw (config, limiter, other) at rest in rw other (omega arith)
      ]

  -- Of the requests that handle_http is given one after the other from a valid limiter on, the first of
  -- them for an AI provider, with a body that is read, and of a host with no open window: as long as
  -- those of the host that ask the limiter do so up to the end of the window that the first opens, no
  -- more of them are sent on than the limit, or than one where the limit is below one.
  pub sent_of-quota :
      (key : String) (env : Env) (r : Request) (rs : List (Env × Request)) (p : Proxy F M P)
      → IsValid p.rate_limiter
      → is_counted p.config r ≡ true
      → r.host ≡ key
      → IsClosed (env.before 1) (lookup key p.rate_limiter.windows)
      → Until key (env.before 1 +ℤ p.rate_limiter.interval) (calls_to p.config rs)
      → sent_of key ((env, r) ∷ rs) p ≤ quota p.rate_limiter.limit
  sent_of-quota key env r rs p v counted at closed u =
      let all = sent_of-admitted key ((env, r) ∷ rs) p in
      let all' = rw (counted, at) at all in
      let window =
        admitted-window key (env.before 1) (calls_to p.config rs) p.rate_limiter v closed u in
      ground (arith, all', window)
