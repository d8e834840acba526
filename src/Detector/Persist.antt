-- ===== src/Detector/Persist.antt =====
-- internal/detector/persist.go: the baseline on disk. The file's text is decoded and encoded by the
-- functions `parse` and `print` (encoding/json).
pub mod RoundTrip
use ghost_guard.Prelude.{ℕ, String, Bool, Option, none, some, if◌then◌else◌}
use ghost_guard.Prelude.Int.{ℤ, pos, ◌-ℤ◌, ltb_ℤ}
use ghost_guard.Runtime.{Runtime}
use ghost_guard.Detector.Baseline.{Baseline, new_baseline}

pub record BaselineData (F : Type 0) : Type 0 where
  pub count : ℤ  -- int64
  pub mean : F
  pub m2 : F
  pub min : F
  pub max : F
  pub saved_at : ℤ

-- What os.ReadFile returns: `missing` is an error of which os.IsNotExist holds.
pub data ReadFile : Type 0 where
  missing unreadable : ReadFile
  contents : String → ReadFile

-- 24*time.Hour
abbrev pub day : ℤ
day = pos 86400000000000

-- The fields that `load` sets.
abbrev pub restore : {F : Type 0} → BaselineData F → Baseline F → Baseline F
restore saved b = record b {
  count = saved.count;
  mean = saved.mean;
  m2 = saved.m2;
  min = saved.min;
  max = saved.max;
}

module _ {F : Type 0} (rt : Runtime F) (parse : String → Option (BaselineData F)) where
  -- load; `none` is an error
  unfoldable pub load : ℤ → ReadFile → Baseline F → Option (Baseline F)
  unfolding ◌-ℤ◌
  load now missing b = some b
  load now unreadable b = none
  load now (contents text) b = elim (parse text) [
    | none ↦ none
    | some saved ↦ some (if ltb_ℤ day (now -ℤ saved.saved_at) then b else restore saved b)
  ]

  unfoldable pub new_persistent_baseline : ℤ → ReadFile → Option (Baseline F)
  unfolding load new_baseline
  new_persistent_baseline now file = load now file (new_baseline rt)

-- Save, up to the write: what it marshals
unfoldable pub saved_data : {F : Type 0} → ℤ → Baseline F → BaselineData F
saved_data now b = record {
  count = b.count;
  mean = b.mean;
  m2 = b.m2;
  min = b.min;
  max = b.max;
  saved_at = now;
}

-- Save: the text of the file after it, if `write` does not fail; `none` is an error.
unfoldable pub save :
    {F : Type 0}
    → (BaselineData F → Option String)
    → (String → Option ReadFile)
    → ℤ
    → Baseline F
    → Option ReadFile
unfolding saved_data
save print write now b = elim (print (saved_data now b)) [ none ↦ none | some text ↦ write text ]
