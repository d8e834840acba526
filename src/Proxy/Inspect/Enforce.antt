-- ===== src/Proxy/Inspect/Enforce.antt =====
-- internal/proxy/intercept.go: which denial the loop over the tool calls enforces, and what it leaves
-- as it was.
use ghost_guard.Prelude.{
  ◌≡◌, refl, sym, ap, arith, ℕ, suc, ◌+◌, ◌*◌, Bool, true, false, not, ◌&&◌, Option, none, some,
  List, [], ◌∷◌, ◌++◌, if◌then◌else◌, All, All-append, ◌∙◌,
}
use ghost_guard.Prelude.Int.{ℤ}
use ghost_guard.Runtime.{Runtime}
use ghost_guard.Model.{ToolCall, Anomaly, InterceptionEvent, PolicyDecision}
use ghost_guard.Detector.RateLimit.{RateLimiter}
use ghost_guard.Detector.Analyze.{analyze}
use ghost_guard.Policy.Engine.{Rego, Engine, evaluate}
use ghost_guard.Alert.{Outside, alert_anomaly}
use ghost_guard.Dashboard.{Dashboard}
use ghost_guard.Proxy.Config.{Config}
use ghost_guard.Proxy.Forward.{OutRequest}
use ghost_guard.Proxy.State.{Proxy, Env}
use ghost_guard.Proxy.Inspect.{
  Inspected, denied, passed, is_deny, decide, note_decision, send_denial, announce_dry_run,
  send_anomalies, observe, inspect,
}

-- The parts that the loop only reads, or does not touch.
pub record Frame (F M P : Type 0) : Type 0 where
  pub config : Config F
  pub engine : Engine M P
  pub rate_limiter : RateLimiter
  pub dash : Dashboard F
  pub forwarded : List OutRequest

unfoldable pub frame : {F M P : Type 0} → Proxy F M P → Frame F M P
frame p = record {
  config = p.config;
  engine = p.engine;
  rate_limiter = p.rate_limiter;
  dash = p.dash;
  forwarded = p.forwarded;
}

-- The proxy when the loop ends, and the denial that it answers with.
unfoldable pub state_of : {F M P : Type 0} → Inspected F M P → Proxy F M P
state_of (denied p d) = p
state_of (passed p event) = p

unfoldable pub verdict : {F M P : Type 0} → Inspected F M P → Option PolicyDecision
verdict (denied p d) = some d
verdict (passed p event) = none

-- The decisions that reach the dashboard: those of a loop that goes through all calls.
unfoldable pub counted : {F M P : Type 0} → Inspected F M P → List PolicyDecision
counted (denied p d) = []
counted (passed p event) = event.decisions

if-same : (b : Bool) {x : Option PolicyDecision} → (if b then x else x) ≡ x
if-same true = refl
if-same false = refl

unfoldable pub NoDenial : List PolicyDecision → Type 0
NoDenial ds = All (λ (d : PolicyDecision). is_deny d.action ≡ false) ds

module _ {F M P : Type 0} where
  -- What holds of both ends of a round holds of the one that its test takes.
  frame-if :
      (b : Bool) (x y : Inspected F M P) {f : Frame F M P}
      → frame (state_of x) ≡ f
      → frame (state_of y) ≡ f
      → frame (state_of (if b then x else y)) ≡ f
  frame-if true x y hx hy = hx
  frame-if false x y hx hy = hy

  verdict-if :
      (is_denied dry_run : Bool) (q : Proxy F M P) (d : PolicyDecision) (rest : Inspected F M P)
      (next : Option PolicyDecision)
      → verdict rest ≡ (if dry_run then none else next)
      → verdict (if is_denied && not dry_run then denied q d else rest)
        ≡ (if dry_run then none else if is_denied then some d else next)
  unfolding verdict
  verdict-if true true q d rest next h = h
  verdict-if true false q d rest next h = refl
  verdict-if false true q d rest next h = h
  verdict-if false false q d rest next h = h

  NoDenial-if :
      (b dry_run : Bool) (q : Proxy F M P) (d : PolicyDecision) (rest : Inspected F M P)
      → dry_run ≡ false
      → (b ≡ false → NoDenial (counted rest))
      → NoDenial (counted (if b && not dry_run then denied q d else rest))
  unfolding counted NoDenial
  NoDenial-if true true q d rest live h = grind arith
  NoDenial-if true false q d rest live h = tt
  NoDenial-if false true q d rest live h = h refl
  NoDenial-if false false q d rest live h = h refl

module _ {F M P : Type 0} (rt : Runtime F) (opa : Rego M P F) (o : Outside F) (env : Env) where
  -- The decision on the first call, from round `i`, that the engine denies.
  unfoldable pub first_denial : ℕ → List (ToolCall F) → Engine M P → Option PolicyDecision
  first_denial i [] engine = none
  first_denial i (tc ∷ tcs) engine =
      let d = evaluate opa (env.during i 0) tc engine in
      let rest = first_denial (suc i) tcs engine in if is_deny d.action then some d else rest

  frame-send_anomalies :
      (at : ℕ → ℤ) (k : ℕ) (anomalies : List (Anomaly F)) (p : Proxy F M P)
      → frame (send_anomalies rt opa o at k anomalies p) ≡ frame p
  unfolding send_anomalies frame
  frame-send_anomalies at k [] p = refl
  frame-send_anomalies at k (a ∷ rest) p =
      frame-send_anomalies at (suc k) rest
        (record p { sent = p.sent ++ (alert_anomaly rt o p.sinks (λ j. at (12 + 2 * k + j)) a).0 })

  pub frame-announce_dry_run :
      (at : ℕ → ℤ) (tc : ToolCall F) (d : PolicyDecision) (p : Proxy F M P)
      → frame (announce_dry_run rt opa o at tc d p) ≡ frame p
  unfolding announce_dry_run frame
  frame-announce_dry_run at tc d p = ground arith

  frame-observe :
      (order : ℕ → List ℤ → List ℤ) (at : ℕ → ℤ) (tc : ToolCall F) (p : Proxy F M P)
      → frame (observe rt opa o order at tc p).0 ≡ frame p
  unfolding observe frame
  frame-observe order at tc p =
      frame-send_anomalies at 0 (analyze rt order (λ j. at (6 + j)) tc p.detector).1
        (record p { detector = (analyze rt order (λ j. at (6 + j)) tc p.detector).0 })

  -- The messages about denials that a dry run does not enforce leave the frame as it is, as those of
  -- both handlers do.
  module _ (announce : (ℕ → ℤ) → ToolCall F → PolicyDecision → Proxy F M P → Proxy F M P)
      (quiet : (at : ℕ → ℤ) (tc : ToolCall F) (d : PolicyDecision) (p : Proxy F M P)
        → frame (announce at tc d p) ≡ frame p) where
    -- The proxy after a round that is not denied.
    abbrev pub next : ℕ → ToolCall F → Proxy F M P → Proxy F M P
    next i tc p =
        let at = env.during i in
        let d = decide rt opa o (at 0) tc p in
        (observe rt opa o (env.order i) at tc
          (announce at tc d (record p { logger = note_decision rt opa o at d p.logger }))).0

    pub frame-next : (i : ℕ) (tc : ToolCall F) (p : Proxy F M P) → frame (next i tc p) ≡ frame p
    unfolding frame
    frame-next i tc p =
        let at = env.during i in
        let d = decide rt opa o (at 0) tc p in
        let noted : Proxy F M P = record p { logger = note_decision rt opa o at d p.logger } in
        frame-observe (env.order i) at tc (announce at tc d noted) ∙ quiet at tc d noted

    -- Whatever the calls are, the loop leaves the frame as it was.
    pub frame-inspect :
        (i : ℕ) (tcs : List (ToolCall F)) (p : Proxy F M P) (event : InterceptionEvent F)
        → frame (state_of (inspect rt opa o announce env i tcs p event)) ≡ frame p
    unfolding inspect state_of send_denial frame
    frame-inspect i [] p event = refl
    frame-inspect i (tc ∷ tcs) p event =
        frame-if (is_deny (decide rt opa o (env.during i 0) tc p).action && not p.config.dry_run) _
          _ refl (frame-inspect (suc i) tcs (next i tc p) _ ∙ frame-next i tc p)

    -- The loop answers with the decision on the first call that the engine denies, and with none in a
    -- dry run or if it denies no call.
    pub verdict-inspect :
        (i : ℕ) (tcs : List (ToolCall F)) (p : Proxy F M P) (event : InterceptionEvent F)
        → verdict (inspect rt opa o announce env i tcs p event)
          ≡ (if p.config.dry_run then none else first_denial i tcs p.engine)
    unfolding inspect verdict first_denial observe frame
    verdict-inspect i [] p event = sym (if-same p.config.dry_run)
    verdict-inspect i (tc ∷ tcs) p event =
        verdict-if (is_deny (decide rt opa o (env.during i 0) tc p).action) p.config.dry_run _ _ _ _
          (verdict-inspect (suc i) tcs (next i tc p) _
            ∙ ap
                (λ (f : Frame F M P).
                  if f.config.dry_run then none else first_denial (suc i) tcs f.engine)
                (frame-next i tc p))

    -- Outside of a dry run no denial reaches the dashboard.
    pub NoDenial-inspect :
        (i : ℕ) (tcs : List (ToolCall F)) (p : Proxy F M P) (event : InterceptionEvent F)
        → p.config.dry_run ≡ false
        → NoDenial event.decisions
        → NoDenial (counted (inspect rt opa o announce env i tcs p event))
    unfolding inspect counted observe frame NoDenial
    NoDenial-inspect i [] p event live h = h
    NoDenial-inspect i (tc ∷ tcs) p event live h =
        let d = decide rt opa o (env.during i 0) tc p in
        NoDenial-if (is_deny d.action) p.config.dry_run _ _ _ live (λ allowed.
          NoDenial-inspect (suc i) tcs (next i tc p) _
            (ap (λ (f : Frame F M P). f.config.dry_run) (frame-next i tc p) ∙ live)
            (All-append _ event.decisions (d ∷ []) h (allowed, tt)))
