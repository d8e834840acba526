-- ===== src/Proxy/Inspect.antt =====
-- internal/proxy/intercept.go: the loop over the tool calls of a request, which handleHTTP and
-- mitmHTTPS share but for the message of a dry run.
pub mod Enforce
pub mod Trail
use ghost_guard.Prelude.{
  ℕ, suc, ◌+◌, ◌*◌, String, Bool, true, false, not, ◌&&◌, Option, none, some, List, [], ◌∷◌, ◌++◌,
  if◌then◌else◌, ◌&◌,
}
use ghost_guard.Prelude.Int.{ℤ}
use ghost_guard.Runtime.{Runtime}
use ghost_guard.Model.{
  ToolCall, Anomaly, InterceptionEvent, PolicyDecision, Action, allow, deny, log,
}
use ghost_guard.Detector.Analyze.{analyze}
use ghost_guard.Policy.Engine.{Rego, evaluate}
use ghost_guard.Alert.{Outside, alert_anomaly, alert_decision}
use ghost_guard.Audit.{Logger, log_decision, log_message}
use ghost_guard.Proxy.State.{Proxy, Env}

unfoldable pub is_deny : Action → Bool
is_deny deny = true
is_deny allow = false
is_deny log = false

-- The loop returns to the client with a denial, or goes through all calls.
pub data Inspected (F M P : Type 0) : Type 0 where
  denied : Proxy F M P → PolicyDecision → Inspected F M P
  passed : Proxy F M P → InterceptionEvent F → Inspected F M P

module _ {F M P : Type 0} (rt : Runtime F) (opa : Rego M P F) (o : Outside F) where
  -- `decision := p.engine.Evaluate(&tc)`
  abbrev pub decide : ℤ → ToolCall F → Proxy F M P → PolicyDecision
  decide now tc p = evaluate opa now tc p.engine

  -- `if err := p.logger.LogDecision(&decision); err != nil { … }`
  unfoldable pub note_decision : (ℕ → ℤ) → PolicyDecision → Logger F → Logger F
  note_decision at d l =
      let (l', e) = log_decision rt (at 1) d l in
      elim e [
        | none ↦ l'
        | some text ↦ log_message rt (at 2) "error" ("logging decision: " & text) l'
      ]

  -- `p.alertMgr.AlertDecision(&decision)`, its error dropped
  unfoldable pub send_denial : (ℕ → ℤ) → PolicyDecision → Proxy F M P → Proxy F M P
  send_denial at d p = record p {
    sent = p.sent ++ (alert_decision rt o p.sinks (λ j. at (3 + j)) d).0;
  }

  -- The message of handleHTTP about a denial that a dry run does not enforce.
  unfoldable pub announce_dry_run :
      (ℕ → ℤ) → ToolCall F → PolicyDecision → Proxy F M P → Proxy F M P
  announce_dry_run at tc d p =
      if is_deny d.action && p.config.dry_run
      then record p {
        logger =
            log_message rt (at 5) "dry-run" ("would deny: " & tc.name & " - " & d.reason) p.logger;
      }
      else p

  -- mitmHTTPS has no such message.
  abbrev pub announce_nothing : (ℕ → ℤ) → ToolCall F → PolicyDecision → Proxy F M P → Proxy F M P
  announce_nothing at tc d p = p

  -- `for _, a := range anomalies { p.alertMgr.AlertAnomaly(&a) }`
  unfoldable pub send_anomalies : (ℕ → ℤ) → ℕ → List (Anomaly F) → Proxy F M P → Proxy F M P
  send_anomalies at k [] p = p
  send_anomalies at k (a ∷ anomalies) p =
      send_anomalies at (suc k) anomalies
        (record p { sent = p.sent ++ (alert_anomaly rt o p.sinks (λ j. at (12 + 2 * k + j)) a).0 })

  -- `anomalies := p.detector.Analyze(&tc)`, and the alerts
  unfoldable pub observe :
      (ℕ → List ℤ → List ℤ) → (ℕ → ℤ) → ToolCall F → Proxy F M P → Proxy F M P × List (Anomaly F)
  observe order at tc p =
      let (detector, anomalies) = analyze rt order (λ j. at (6 + j)) tc p.detector in
      (send_anomalies at 0 anomalies (record p { detector = detector }), anomalies)

  module _ (announce : (ℕ → ℤ) → ToolCall F → PolicyDecision → Proxy F M P → Proxy F M P)
      (env : Env) where
    -- The loop, from its round `i`.
    unfoldable pub inspect :
        ℕ → List (ToolCall F) → Proxy F M P → InterceptionEvent F → Inspected F M P
    inspect i [] p event = passed p event
    inspect i (tc ∷ tcs) p event =
        let at = env.during i in
        let d = decide (at 0) tc p in
        let p1 : Proxy F M P = record p { logger = note_decision at d p.logger } in
        let (p2, anomalies) = observe (env.order i) at tc (announce at tc d p1) in
        let rest = inspect (suc i) tcs p2 (record event {
          decisions = event.decisions ++ d ∷ [];
          anomalies = event.anomalies ++ anomalies;
        }) in
        if is_deny d.action && not p.config.dry_run then denied (send_denial at d p1) d else rest
