-- ===== src/Detector/Baseline.antt =====
-- internal/detector/baseline.go: Welford's running mean and variance. `now` is the reading of the
-- clock that `Update` takes.
pub mod Laws
use ghost_guard.Prelude.{Bool, if◌then◌else◌, ℕ}
use ghost_guard.Prelude.Int.{ℤ, pos, ltb_ℤ, add64, sub64}
use ghost_guard.Runtime.{Runtime}

pub record Baseline (F : Type 0) : Type 0 where
  pub count : ℤ  -- int64
  pub mean : F
  pub m2 : F
  pub min : F
  pub max : F
  pub last_seen : ℤ

module _ {F : Type 0} (rt : Runtime F) where
  open rt use {of_int, max_float, neg, add, sub, mul, div, sqrt, lt, eq}

  unfoldable pub new_baseline : Baseline F
  new_baseline = record {
    count = pos 0;
    mean = of_int (pos 0);
    m2 = of_int (pos 0);
    min = max_float;
    max = neg max_float;
    last_seen = pos 0;
  }

  unfoldable pub update : ℤ → F → Baseline F → Baseline F
  unfolding add64
  update now value b =
      let n = add64 b.count (pos 1) in
      let delta = sub value b.mean in
      let mean' = add b.mean (div delta (of_int n)) in
      let delta2 = sub value mean' in
      record {
        count = n;
        mean = mean';
        m2 = add b.m2 (mul delta delta2);
        min = if lt value b.min then value else b.min;
        max = if lt b.max value then value else b.max;
        last_seen = now;
      }

  unfoldable pub variance : Baseline F → F
  unfolding sub64
  variance b =
      if ltb_ℤ b.count (pos 2) then of_int (pos 0) else div b.m2 (of_int (sub64 b.count (pos 1)))

  unfoldable pub std_dev : Baseline F → F
  unfolding variance
  std_dev b = sqrt (variance b)

  unfoldable pub z_score : F → Baseline F → F
  unfolding std_dev
  z_score value b =
      let std = std_dev b in
      if eq std (of_int (pos 0)) then of_int (pos 0) else div (sub value b.mean) std
