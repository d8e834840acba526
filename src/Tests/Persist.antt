-- ===== src/Tests/Persist.antt =====
-- internal/detector/persist.go: a baseline that is saved, and loaded an hour later.
use ghost_guard.Prelude.{
  ◌≡◌, refl, sym, ap, ◌∙◌, arith, String, Bool, true, ◌&&◌, Option, none, some, if◌then◌else◌, ◌==◌,
  Bool-cases, inl, inr,
}
use ghost_guard.Prelude.Int.{ℤ, pos, negsuc, ◌-ℤ◌, ltb_ℤ, eqb_ℤ}
use ghost_guard.Detector.Baseline.{Baseline, new_baseline}
use ghost_guard.Detector.Persist.{BaselineData, ReadFile, contents, day, load, save, saved_data}
use ghost_guard.Detector.Persist.RoundTrip.{load-save}
use ghost_guard.Tests.World.{runtime}

abbrev baseline : Baseline ℤ
baseline = record {
  count = pos 3;
  mean = pos 5;
  m2 = pos 8;
  min = pos 2;
  max = pos 9;
  last_seen = pos 40;
}

abbrev sample : BaselineData ℤ
sample = record {
  count = pos 3;
  mean = pos 5;
  m2 = pos 8;
  min = pos 2;
  max = pos 9;
  saved_at = pos 1000;
}

abbrev is_sample : BaselineData ℤ → Bool
is_sample s =
    eqb_ℤ s.count (pos 3)
    && (eqb_ℤ s.mean (pos 5)
        && (eqb_ℤ s.m2 (pos 8)
            && (eqb_ℤ s.min (pos 2) && (eqb_ℤ s.max (pos 9) && eqb_ℤ s.saved_at (pos 1000)))))

-- One baseline can be printed, and its text can be parsed.
abbrev print : BaselineData ℤ → Option String
print s = if is_sample s then some "sample" else none

abbrev parse : String → Option (BaselineData ℤ)
parse text = if text == "sample" then some sample else none

abbrev write : String → Option ReadFile
write text = some (contents text)

same_int : (a b : ℤ) → eqb_ℤ a b ≡ true → a ≡ b
same_int (pos n) (pos m) h = ap pos (ground arith)
same_int (pos n) (negsuc m) h = absurd (ground arith)
same_int (negsuc n) (pos m) h = absurd (ground arith)
same_int (negsuc n) (negsuc m) h = ap negsuc (ground arith)

is_sample_lem : (s : BaselineData ℤ) → is_sample s ≡ true → s ≡ sample
is_sample_lem s h =
    let count : s.count ≡ pos 3 = same_int _ _ (ground arith) in
    let mean : s.mean ≡ pos 5 = same_int _ _ (ground arith) in
    let m2 : s.m2 ≡ pos 8 = same_int _ _ (ground arith) in
    let min : s.min ≡ pos 2 = same_int _ _ (ground arith) in
    let max : s.max ≡ pos 9 = same_int _ _ (ground arith) in
    let saved_at : s.saved_at ≡ pos 1000 = same_int _ _ (ground arith) in
    rw (count, mean, m2, min, max, saved_at) refl

parse-print : (s : BaselineData ℤ) (text : String) → print s ≡ some text → parse text ≡ some s
parse-print s text h = elim (Bool-cases (is_sample s)) [
  | inl equal ↦
      let same_text : "sample" ≡ text = ground arith in
      ap parse (sym same_text) ∙ ap some (sym (is_sample_lem s equal))
  | inr unequal ↦ absurd (ground arith)
]

write_reads : (text : String) (file : ReadFile) → write text ≡ some file → file ≡ contents text
write_reads text file h = ground arith

saved : save print write (pos 1000) baseline ≡ some (contents "sample")
unfolding save saved_data
saved = refl

load-save_example :
    load runtime parse (pos 3600000001000) (contents "sample") (new_baseline runtime)
    ≡ some (
        if ltb_ℤ day (pos 3600000001000 -ℤ pos 1000)
        then new_baseline runtime
        else record baseline { last_seen = (new_baseline runtime).last_seen })
load-save_example =
    load-save runtime print parse write parse-print write_reads (pos 1000) (pos 3600000001000)
      baseline (new_baseline runtime) (contents "sample") saved
