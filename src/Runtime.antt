-- ===== src/Runtime.antt =====
-- What the code uses of Go's runtime and standard library and the model does not compute: the
-- arithmetic of `float64`, and the texts that `fmt`, `time` and `encoding/json` print. A theorem
-- that needs a law of these has it among its hypotheses.
use ghost_guard.Prelude.{ℕ, String, Bool, Option}
use ghost_guard.Prelude.Int.{ℤ}
use ghost_guard.Model.{Args, Json}

pub record Runtime (F : Type 0) : Type 0 where
  -- float64: the conversion of an integer, and the constant n / 10
  pub of_int : ℤ → F
  pub tenths : ℤ → F
  pub max_float : F  -- math.MaxFloat64
  pub neg : F → F
  pub add : F → F → F
  pub sub : F → F → F
  pub mul : F → F → F
  pub div : F → F → F
  pub sqrt : F → F
  pub log2 : F → F
  pub lt : F → F → Bool
  pub eq : F → F → Bool
  -- fmt: `%.nf` and `%d`, and `%v` of the arguments of a call
  pub fixed : ℕ → F → String
  pub decimal : ℤ → String
  pub sprint_args : Args F → String
  -- Format(time.RFC3339), Format(time.RFC3339Nano) in UTC
  pub rfc3339 : ℤ → String
  pub rfc3339_nano : ℤ → String
  -- json.Marshal, `none` where it returns an error
  pub marshal : Json F → Option String
