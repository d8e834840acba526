-- ===== src/Detector/Persist/RoundTrip.antt =====
-- What a baseline is after it was saved and loaded again.
use ghost_guard.Prelude.{String, ◌≡◌, Option, Option-cases, inl, inr, some, arith, if◌then◌else◌}
use ghost_guard.Prelude.Int.{ℤ, ◌-ℤ◌, ltb_ℤ}
use ghost_guard.Detector.Baseline.{Baseline}
use ghost_guard.Runtime.{Runtime}
use ghost_guard.Detector.Persist.{BaselineData, ReadFile, contents, day, load, saved_data, save}

module _ {F : Type 0} (rt : Runtime F) (print : BaselineData F → Option String)
    (parse : String → Option (BaselineData F)) (write : String → Option ReadFile)
    (parse-print : (saved : BaselineData F) (text : String)
      → print saved ≡ some text
      → parse text ≡ some saved)
    (write_reads : (text : String) (file : ReadFile)
      → write text ≡ some file
      → file ≡ contents text) where
  -- If parsing undoes printing, and a file that was written holds its text: a baseline that was saved at
  -- `before`, with no error, and is loaded at `now` has, not more than a day later, its count, mean,
  -- squares and extremes; later than that the file changes nothing. Neither is an error.
  pub load-save :
      (before now : ℤ) (b fresh : Baseline F) (file : ReadFile)
      → save print write before b ≡ some file
      → load rt parse now file fresh
        ≡ some
            (if ltb_ℤ day (now -ℤ before) then fresh else record b { last_seen = fresh.last_seen })
  unfolding save load saved_data
  load-save before now b fresh file e = elim (Option-cases (print (saved_data before b))) [
    | inl failed ↦ cc (rw (failed, save) at e)
    | inr (text, printed) ↦
        let stored : file ≡ contents text = write_reads text file (rw (printed, save) at e) in
        let parsed : parse text ≡ some (saved_data before b) = parse-print _ text printed in
        rw (stored, load) (rw (parsed, load) (ground arith))
  ]
