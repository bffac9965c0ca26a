-- ===== src/Floats.antt =====
-- The `float64` values of internal/storage, as 64-bit patterns. Their arithmetic is that of the machine and
-- of Go's packages `math` and `time`, and comes as a parameter.
use tealis.Base.{ℕ, Bool}
use tealis.Base.Int.{ℤ}

pub record Arithmetic : Type 0 where
  pub add : ℕ → ℕ → ℕ
  pub sub : ℕ → ℕ → ℕ
  pub mul : ℕ → ℕ → ℕ
  pub div : ℕ → ℕ → ℕ
  pub neg : ℕ → ℕ
  -- `math.Pow` and `math.Log`
  pub pow : ℕ → ℕ → ℕ
  pub log : ℕ → ℕ
  -- `math.Sqrt`, `math.Sin`, `math.Cos` and `math.Atan2`
  pub sqrt : ℕ → ℕ
  pub sin : ℕ → ℕ
  pub cos : ℕ → ℕ
  pub atan2 : ℕ → ℕ → ℕ
  -- `<` and `==`
  pub below : ℕ → ℕ → Bool
  pub equal : ℕ → ℕ → Bool
  -- `float64(n)` and `int64(x)`
  pub of_int : ℤ → ℕ
  pub to_int64 : ℕ → ℤ
  -- `Seconds` of a time.Duration
  pub seconds : ℤ → ℕ
