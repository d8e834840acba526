-- ===== src/Proxy/Inspect/Trail.antt =====
-- internal/proxy/intercept.go: what the loop over the tool calls leaves in the audit log and in the
-- detector, outside of a dry run.
use mathlib.Core.List.{append-nil, append_assoc}
use ghost_guard.Prelude.{
  ◌≡◌, refl, ap, arith, ℕ, suc, ◌+◌, Bool, true, false, not, ◌&&◌, none, List, [], ◌∷◌, ◌++◌,
  if◌then◌else◌, ◌∙◌, Bool-cases, inl, inr,
}
use ghost_guard.Prelude.Int.{ℤ}
use ghost_guard.Runtime.{Runtime}
use ghost_guard.Model.{ToolCall, Anomaly, InterceptionEvent, PolicyDecision}
use ghost_guard.Detector.Analyze.{Detector, analyze}
use ghost_guard.Policy.Engine.{Rego, Engine, evaluate}
use ghost_guard.Alert.{Outside}
use ghost_guard.Audit.{Logger, LogEntry, decision_entry, log_decision, encode}
use ghost_guard.Proxy.State.{Proxy, Env}
use ghost_guard.Proxy.Inspect.{
  Inspected, is_deny, decide, note_decision, send_denial, announce_dry_run, send_anomalies, observe,
  inspect,
}
use ghost_guard.Proxy.Inspect.Enforce.{Frame, frame, state_of, next, frame-next}

module _ {F M P : Type 0} (rt : Runtime F) (opa : Rego M P F) (o : Outside F) (env : Env) where
  -- The entries on the decisions about the calls from round `i` on, up to the first denial.
  unfoldable pub entries : ℕ → List (ToolCall F) → Engine M P → List (LogEntry F)
  entries i [] engine = []
  entries i (tc ∷ tcs) engine =
      let d = evaluate opa (env.during i 0) tc engine in
      let rest = entries (suc i) tcs engine in
      decision_entry rt (env.during i 1) d ∷ (if is_deny d.action then [] else rest)

  -- The detector after the analysis of the calls before the first denial.
  unfoldable pub observed : ℕ → List (ToolCall F) → Engine M P → Detector F → Detector F
  observed i [] engine detector = detector
  observed i (tc ∷ tcs) engine detector =
      let d = evaluate opa (env.during i 0) tc engine in
      let rest =
        observed (suc i) tcs engine
          (analyze rt (env.order i) (λ j. env.during i (6 + j)) tc detector).0 in
      if is_deny d.action then detector else rest

  -- Every entry can be written.
  abbrev pub WritesAll : Logger F → Type 0
  WritesAll l = (entry : LogEntry F) → l.write entry ≡ none

  abbrev pub added : List (LogEntry F) → Logger F → Logger F
  added es l = record l { written = l.written ++ es }

  encode_all : (e : LogEntry F) (l : Logger F) → WritesAll l → encode e l ≡ (added (e ∷ []) l, none)
  unfolding encode
  encode_all e l all = rw (all e, encode) refl

  log_decision-all :
      (now : ℤ) (d : PolicyDecision) (l : Logger F)
      → WritesAll l
      → log_decision rt now d l ≡ (added (decision_entry rt now d ∷ []) l, none)
  unfolding log_decision
  log_decision-all now d l all = encode_all (decision_entry rt now d) l all

  -- What holds of both ends of a round outside of a dry run holds of the one that its test takes.
  trail-if :
      (b dry_run : Bool) (x y : Inspected F M P) (e : LogEntry F) (rest : List (LogEntry F))
      (l : Logger F) (before after : Detector F)
      → dry_run ≡ false
      → ((state_of x).logger ≡ added (e ∷ []) l) × ((state_of x).detector ≡ before)
      → ((state_of y).logger ≡ added (e ∷ rest) l) × ((state_of y).detector ≡ after)
      → ((state_of (if b && not dry_run then x else y)).logger
          ≡ added (e ∷ (if b then [] else rest)) l)
        × ((state_of (if b && not dry_run then x else y)).detector ≡ (if b then before else after))
  trail-if true true x y e rest l before after live hx hy = absurd (ground arith)
  trail-if true false x y e rest l before after live hx hy = hx
  trail-if false true x y e rest l before after live hx hy = hy
  trail-if false false x y e rest l before after live hx hy = hy

  logger-note_decision :
      (at : ℕ → ℤ) (d : PolicyDecision) (l : Logger F)
      → WritesAll l
      → note_decision rt opa o at d l ≡ added (decision_entry rt (at 1) d ∷ []) l
  unfolding note_decision
  logger-note_decision at d l all =
      let logged = log_decision-all (at 1) d l all in
      rw (note_decision, logged) (ap (λ x. x.0) logged)

  logger-send_anomalies :
      (at : ℕ → ℤ) (k : ℕ) (anomalies : List (Anomaly F)) (p : Proxy F M P)
      → ((send_anomalies rt opa o at k anomalies p).logger ≡ p.logger)
        × ((send_anomalies rt opa o at k anomalies p).detector ≡ p.detector)
  unfolding send_anomalies
  logger-send_anomalies at k [] p = (refl, refl)
  logger-send_anomalies at k (a ∷ rest) p = logger-send_anomalies at (suc k) rest _

  pub silent-announce_dry_run :
      (at : ℕ → ℤ) (tc : ToolCall F) (d : PolicyDecision) (p : Proxy F M P)
      → p.config.dry_run ≡ false
      → announce_dry_run rt opa o at tc d p ≡ p
  unfolding announce_dry_run
  silent-announce_dry_run at tc d p live = elim (Bool-cases (is_deny d.action)) [
    | inl stops ↦ rw (stops, live) refl
    | inr goes ↦ rw goes refl
  ]

  -- The messages about denials leave the frame as it is, and outside of a dry run there are none, as in
  -- both handlers.
  module _ (announce : (ℕ → ℤ) → ToolCall F → PolicyDecision → Proxy F M P → Proxy F M P)
      (quiet : (at : ℕ → ℤ) (tc : ToolCall F) (d : PolicyDecision) (p : Proxy F M P)
        → frame (announce at tc d p) ≡ frame p)
      (silent : (at : ℕ → ℤ) (tc : ToolCall F) (d : PolicyDecision) (p : Proxy F M P)
        → p.config.dry_run ≡ false
        → announce at tc d p ≡ p) where
    trail-next :
        (i : ℕ) (tc : ToolCall F) (p : Proxy F M P)
        → p.config.dry_run ≡ false
        → WritesAll p.logger
        → let q = next rt opa o env announce quiet i tc p in
          (q.logger
            ≡ added
                (decision_entry rt (env.during i 1) (evaluate opa (env.during i 0) tc p.engine)
                  ∷ [])
                p.logger)
          × (q.detector ≡ (analyze rt (env.order i) (λ j. env.during i (6 + j)) tc p.detector).0)
    unfolding observe
    trail-next i tc p live all =
        let at = env.during i in
        let d = decide rt opa o (at 0) tc p in
        let noted : Proxy F M P = record p { logger = note_decision rt opa o at d p.logger } in
        rw (silent at tc d noted live) (
          let (logger, detector) = logger-send_anomalies at 0 _ _ in
          (logger ∙ logger-note_decision at d p.logger all, detector))

    -- Outside of a dry run and with a log that can be written, whatever messages about a dry run leave
    -- the proxy's other parts as they are and are made in a dry run only, the loop appends to the log one
    -- entry for each call up to the first that the engine denies, on the decision about it, in their
    -- order, and has the detector analyse the calls before that one, in their order, and no other.
    pub trail-inspect :
        (i : ℕ) (tcs : List (ToolCall F)) (p : Proxy F M P) (event : InterceptionEvent F)
        → p.config.dry_run ≡ false
        → WritesAll p.logger
        → let q = state_of (inspect rt opa o announce env i tcs p event) in
          (q.logger ≡ added (entries i tcs p.engine) p.logger)
          × (q.detector ≡ observed i tcs p.engine p.detector)
    unfolding inspect state_of entries observed send_denial frame
    trail-inspect i [] p event live all = (rw (append-nil p.logger.written) refl, refl)
    trail-inspect i (tc ∷ tcs) p event live all =
        let d = decide rt opa o (env.during i 0) tc p in
        let q = next rt opa o env announce quiet i tc p in
        let (logger, detector) = trail-next i tc p live all in
        let kept = frame-next rt opa o env announce quiet i tc p in
        let live' : q.config.dry_run ≡ false =
          ap (λ (f : Frame F M P). f.config.dry_run) kept ∙ live in
        let engine : q.engine ≡ p.engine = ap (λ (f : Frame F M P). f.engine) kept in
        let all' : WritesAll q.logger =
          λ entry. ap (λ (l : Logger F). l.write entry) logger ∙ all entry in
        let at = env.during i in
        let noted : Proxy F M P = record p { logger = note_decision rt opa o at d p.logger } in
        let event' : InterceptionEvent F = record event {
          decisions = event.decisions ++ d ∷ [];
          anomalies =
              event.anomalies ++ (observe rt opa o (env.order i) at tc (announce at tc d noted)).1;
        } in
        let (logger', detector') = trail-inspect (suc i) tcs q event' live' all' in
        let told = rw (logger, engine) at logger' in
        let seen = rw (detector, engine) at detector' in
        trail-if (is_deny d.action) p.config.dry_run _ _ _ _ p.logger _ _ live
          (logger-note_decision at d p.logger all, refl)
          (
            told
                ∙ ap (λ w. added w (record p.logger { written = [] }))
                    (append_assoc p.logger.written _ _),
            seen,
          )
