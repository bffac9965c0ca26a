-- ===== src/Base/Ends.antt =====
-- How a Go call ends: it returns, it panics (a failed type assertion, an index out of range, or a
-- call of `panic`), or it blocks for ever on a lock that its own goroutine holds.

pub data Outcome {ℓ} (A : Type ℓ) : Type ℓ where
  ok : A → Outcome A
  panic : Outcome A
  deadlock : Outcome A

infixl 5 ◌>>=◌
abbrev pub ◌>>=◌ {ℓ κ} : {A : Type ℓ} {B : Type κ} → Outcome A → (A → Outcome B) → Outcome B
ok a >>= f = f a
panic >>= f = panic
deadlock >>= f = deadlock
