-- ===== src/Detector/Analyze/Checks.antt =====
-- What an analysis reports, given the history of the calls before it.
use ghost_guard.Prelude.{
  ℕ, ◌+◌, ◌-◌, ◌<◌, ◌^◌, String, Bool, true, false, not, ◌&&◌, ◌||◌, ◌≡◌, refl, sym, ◌∙◌, ap,
  any-append, List, arith, ◌==◌, length, any, ltb, Option, none, some, is_some, inl, inr,
  Bool-cases,
}
use ghost_guard.Prelude.Int.{ℤ, pos, ltb_ℤ, add64, add64-suc}
use ghost_guard.Model.{
  ToolCall, Anomaly, AnomalyType, high_rate, high_entropy, unknown_tool, suspicious_seq,
  anomaly_string,
}
use ghost_guard.Runtime.{Runtime}
use ghost_guard.Detector.Analyze.{
  Detector, DetectorConfig, suspicious_prev, check_rate, check_entropy, check_unknown_tool,
  check_suspicious_sequence, analyze, to_list,
}
use ghost_guard.Detector.Analyze.Sequence.{is_dangerous, is_some-suspicious_prev}
use ghost_guard.Detector.Analyze.Tools.{recent, knows, Tracks, check_rate-kept}

abbrev pub is_kind : {F : Type 0} → AnomalyType → Anomaly F → Bool
is_kind kind a = anomaly_string a.kind == anomaly_string kind

-- The analysis reports an anomaly of this kind.
abbrev pub reports : {F : Type 0} → AnomalyType → List (Anomaly F) → Bool
reports kind found = any (is_kind kind) found

module _ {F : Type 0} (rt : Runtime F) where
  rate-kind :
      (at : ℕ → ℤ) (tc : ToolCall F) (d : Detector F) (a : Anomaly F)
      → (check_rate rt at tc d).1 ≡ some a
      → a.kind ≡ high_rate
  unfolding check_rate
  rate-kind at tc d a h = ground arith

  entropy-kind :
      (order : ℕ → List ℤ → List ℤ) (at : ℕ → ℤ) (tc : ToolCall F) (d : Detector F) (a : Anomaly F)
      → check_entropy rt order at tc d ≡ some a
      → a.kind ≡ high_entropy
  unfolding check_entropy
  entropy-kind order at tc d a h = ground arith

  unknown-kind :
      (at : ℕ → ℤ) (tc : ToolCall F) (d : Detector F) (a : Anomaly F)
      → check_unknown_tool rt at tc d ≡ some a
      → a.kind ≡ unknown_tool
  unfolding check_unknown_tool
  unknown-kind at tc d a h = ground arith

  sequence-kind :
      (at : ℕ → ℤ) (tc : ToolCall F) (d : Detector F) (a : Anomaly F)
      → check_suspicious_sequence rt at tc d ≡ some a
      → a.kind ≡ suspicious_seq
  unfolding check_suspicious_sequence
  sequence-kind at tc d a h = ground arith

-- A check that reports one kind reports that kind if it reports anything, and no other.
reports-to_list :
    {F : Type 0} (kind : AnomalyType) (o : Option (Anomaly F))
    → ((a : Anomaly F) → o ≡ some a → a.kind ≡ kind)
    → (k : AnomalyType)
    → reports k (to_list o) ≡ (anomaly_string kind == anomaly_string k && is_some o)
reports-to_list kind none h k = ground arith
reports-to_list kind (some a) h k = rw (h a refl) (ground arith)

module _ {F : Type 0} (rt : Runtime F) (order : ℕ → List ℤ → List ℤ) (at : ℕ → ℤ) (tc : ToolCall F)
    (d : Detector F) where
  -- The detector between the first check and the others.
  abbrev counted : Detector F
  counted = (check_rate rt at tc d).0

  reports-analyze :
      (k : AnomalyType)
      → reports k (analyze rt order at tc d).1 ≡ (
          anomaly_string high_rate == anomaly_string k && is_some (check_rate rt at tc d).1
          || (anomaly_string high_entropy == anomaly_string k
                && is_some (check_entropy rt order at tc counted)
              || (anomaly_string unknown_tool == anomaly_string k
                    && is_some (check_unknown_tool rt at tc counted)
                  || anomaly_string suspicious_seq == anomaly_string k
                    && is_some (check_suspicious_sequence rt at tc counted))))
  unfolding analyze
  reports-analyze k = simp (
    any-append,
    reports-to_list high_rate _ (rate-kind rt at tc d) k,
    reports-to_list high_entropy _ (entropy-kind rt order at tc counted) k,
    reports-to_list unknown_tool _ (unknown-kind rt at tc counted) k,
    reports-to_list suspicious_seq _ (sequence-kind rt at tc counted) k,
  )

  reports-unknown_tool :
      reports unknown_tool (analyze rt order at tc d).1
      ≡ is_some (check_unknown_tool rt at tc counted)
  reports-unknown_tool = reports-analyze unknown_tool ∙ unfold anomaly_string in ground arith

  reports-suspicious_seq :
      reports suspicious_seq (analyze rt order at tc d).1
      ≡ is_some (check_suspicious_sequence rt at tc counted)
  reports-suspicious_seq = reports-analyze suspicious_seq ∙ unfold anomaly_string in ground arith

  reports-high_rate :
      reports high_rate (analyze rt order at tc d).1 ≡ is_some (check_rate rt at tc d).1
  reports-high_rate = reports-analyze high_rate ∙ unfold anomaly_string in ground arith

  is_some-check_unknown_tool :
      is_some (check_unknown_tool rt at tc d)
      ≡ (not (knows tc.name d.known_tools) && ltb_ℤ (pos 5) d.rate_baseline.count)
  unfolding check_unknown_tool
  is_some-check_unknown_tool = ground arith

  is_some-check_suspicious_sequence :
      is_some (check_suspicious_sequence rt at tc d)
      ≡ is_some (suspicious_prev tc.name d.previous_tools)
  unfolding check_suspicious_sequence
  is_some-check_suspicious_sequence = ground arith

  is_some-check_rate :
      is_some (check_rate rt at tc d).1 ≡ true
      → ltb_ℤ (check_rate rt at tc d).0.rate_baseline.count (pos 10) ≡ false
  unfolding check_rate
  is_some-check_rate h = ground arith

module _ {F : Type 0} (rt : Runtime F) (order : ℕ → List ℤ → List ℤ) (config : DetectorConfig F)
    (names : List String) (at : ℕ → ℤ) (tc : ToolCall F) (d : Detector F)
    (h : length names < 2 ^ 63 - 1) (t : Tracks config names d) where
  count-check_rate : (check_rate rt at tc d).0.rate_baseline.count ≡ pos (length names + 1)
  count-check_rate =
      (check_rate-kept rt order at tc d).3
      ∙ ap (λ n. add64 n (pos 1)) t.counted
      ∙ add64-suc (length names) h

  -- A detector is in the state of one that was made with no stored baseline and has analysed the calls
  -- of a history, fewer than 2 ^ 63 - 1. It reports a call as one of an unknown tool exactly when the
  -- tool is not among those of the history, and the history and the call are more than five calls; and
  -- as a suspicious sequence exactly when one of the last `max_prev_tools` tools of the history makes a
  -- pair of the table with the tool.
  pub analyze-reports :
      (reports unknown_tool (analyze rt order at tc d).1
        ≡ (not (any (λ n. n == tc.name) names) && ltb 5 (length names + 1)))
      × (reports suspicious_seq (analyze rt order at tc d).1
          ≡ any (is_dangerous tc.name) (recent config.max_prev_tools names))
  analyze-reports =
      let (same_config, same_prev, same_known, one_more) = check_rate-kept rt order at tc d in
      let d1 = (check_rate rt at tc d).0 in
      (
        reports-unknown_tool rt order at tc d
            ∙ is_some-check_unknown_tool rt order at tc d1
            ∙ rw (count-check_rate, ap (knows tc.name) same_known ∙ t.known tc.name) (ground arith),
        reports-suspicious_seq rt order at tc d
            ∙ is_some-check_suspicious_sequence rt order at tc d1
            ∙ is_some-suspicious_prev tc.name d1.previous_tools
            ∙ ap (any (is_dangerous tc.name)) (same_prev ∙ t.remembered),
      )

  -- A detector is in the state of one that was made with no stored baseline and has analysed the calls
  -- of a history. It reports no call as one of a high rate while the history and the call are fewer than
  -- ten calls.
  pub analyze-high_rate :
      length names + 1 < 10 → reports high_rate (analyze rt order at tc d).1 ≡ false
  analyze-high_rate few = elim (Bool-cases (reports high_rate (analyze rt order at tc d).1)) [
    | inl e ↦
        let enough =
          is_some-check_rate rt order at tc d (sym (reports-high_rate rt order at tc d) ∙ e) in
        absurd (ground (arith, rw count-check_rate at enough))
    | inr none_reported ↦ none_reported
  ]
