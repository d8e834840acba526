-- ===== src/Tests/Detector.antt =====
-- internal/detector: a window, baselines, an entropy and a detector on a few calls.
use ghost_guard.Prelude.{
  ℕ, ◌+◌, ◌≡◌, refl, arith, String, false, not, ◌&&◌, List, [], ◌∷◌, map, ◌==◌, ◌&◌, any, is_some,
  length, ltb, All,
}
use ghost_guard.Prelude.Int.{ℤ, pos}
use ghost_guard.Model.{unknown_tool, suspicious_seq, high_rate}
use ghost_guard.Detector.Window.{new_sliding_window, record_call, truncate}
use ghost_guard.Detector.Window.Laws.{record_all, occurrences, record_call-record_all}
use ghost_guard.Detector.Baseline.{new_baseline}
use ghost_guard.Detector.Baseline.Laws.{
  IsOrder, update_all, Within, IsFrom, update_all-new_baseline,
}
use ghost_guard.Detector.Persist.{missing}
use ghost_guard.Detector.Entropy.{tally_all}
use ghost_guard.Detector.Entropy.Counts.{count_of, total, IsPositive, tally_all-counts}
use ghost_guard.Detector.Analyze.{Detector, analyze, suspicious_prev}
use ghost_guard.Detector.Analyze.Tools.{
  Tracks, recent, analyze_all, analyze_all-new_detector-Tracks,
}
use ghost_guard.Detector.Analyze.Sequence.{is_dangerous, is_some-suspicious_prev}
use ghost_guard.Detector.Analyze.Checks.{reports, analyze-reports, analyze-high_rate}
use ghost_guard.Tests.World.{runtime, no_baseline, detector_config, detector, call}

abbrev stamp : ℤ → String
stamp t = "t"

record_call-record_all_example :
    (record_call stamp (pos 70) "exec" (
      record_all stamp
        ((pos 61, "exec") ∷ (pos 62, "read_file") ∷ [])
        (new_sliding_window (pos 60) (pos 600)))).1
    ≡ pos (
        occurrences stamp
          (pos 60)
          ("exec" & ":" & stamp (truncate (pos 70) (pos 60)))
          ((pos 61, "exec") ∷ (pos 62, "read_file") ∷ [])
        + 1)
record_call-record_all_example =
    record_call-record_all stamp (pos 60) (pos 600) (pos 70) "exec"
      ((pos 61, "exec") ∷ (pos 62, "read_file") ∷ []) (omega arith)

runtime-IsOrder : IsOrder runtime
runtime-IsOrder = record { irrefl = λ a. ground arith; trans = λ a b c p q. ground arith }

abbrev values : List (ℤ × ℤ)
values = (pos 1, pos 4) ∷ (pos 2, pos 9) ∷ (pos 3, pos 2) ∷ []

update_all-new_baseline_example :
    All
      (Within runtime runtime-IsOrder
        (update_all runtime runtime-IsOrder values (new_baseline runtime)))
      values
    × IsFrom runtime runtime-IsOrder runtime.max_float values
        (update_all runtime runtime-IsOrder values (new_baseline runtime)).min
    × IsFrom runtime runtime-IsOrder
        (runtime.neg runtime.max_float)
        values
        (update_all runtime runtime-IsOrder values (new_baseline runtime)).max
update_all-new_baseline_example = update_all-new_baseline runtime runtime-IsOrder values

abbrev text : List ℕ
text = 97 ∷ 98 ∷ 97 ∷ []

tally_all-counts_example :
    (count_of 97 (tally_all text []) ≡ ghost_guard.Detector.Entropy.Counts.occurrences 97 text)
    × (total (tally_all text []) ≡ length text)
    × All IsPositive (tally_all text [])
tally_all-counts_example = tally_all-counts 97 text (omega arith)

is_some-suspicious_prev_example :
    is_some (suspicious_prev "exec" ("ping" ∷ "read_file" ∷ []))
    ≡ any (is_dangerous "exec") ("ping" ∷ "read_file" ∷ [])
is_some-suspicious_prev_example = is_some-suspicious_prev "exec" ("ping" ∷ "read_file" ∷ [])

abbrev order : ℕ → List ℤ → List ℤ
order i l = l

abbrev history : List (ghost_guard.Model.ToolCall ℤ)
history = call "read_file" ∷ call "ping" ∷ []

abbrev names : List String
names = map (λ tc. tc.name) history

abbrev experienced : Detector ℤ
experienced = analyze_all runtime order (λ i j. pos j) history detector

analyze_all-new_detector-Tracks_example : Tracks detector_config names experienced
analyze_all-new_detector-Tracks_example =
    analyze_all-new_detector-Tracks runtime order no_baseline (pos 0) missing detector_config
      (λ i j. pos j) history refl (omega arith)

experienced-Tracks : Tracks detector_config names experienced
experienced-Tracks =
    analyze_all-new_detector-Tracks runtime order no_baseline (pos 0) missing detector_config
      (λ i j. pos j) history refl (omega arith)

analyze-reports_example :
    (reports unknown_tool (analyze runtime order pos (call "exec") experienced).1
      ≡ (not (any (λ n. n == "exec") names) && ltb 5 (length names + 1)))
    × (reports suspicious_seq (analyze runtime order pos (call "exec") experienced).1
        ≡ any (is_dangerous "exec") (recent detector_config.max_prev_tools names))
analyze-reports_example =
    analyze-reports runtime order detector_config names pos (call "exec") experienced (omega arith)
      experienced-Tracks

analyze-high_rate_example :
    reports high_rate (analyze runtime order pos (call "exec") experienced).1 ≡ false
analyze-high_rate_example =
    analyze-high_rate runtime order detector_config names pos (call "exec") experienced
      (omega arith) experienced-Tracks (omega arith)
