-- ===== src/Tealis/Expiry.antt =====
-- Expiry: `EX`, `TTL`, `PERSIST` and one round of the loop of `StartCleanup` (tealis.go).
pub mod Cleanup
pub mod Deadlines
use tealis.Base.{
  ℕ, zero, suc, ◌*◌, ◌/◌, ◌^◌, List, [], ◌∷◌, Option, none, some, Bool, true, false, if◌then◌else◌,
}
use tealis.Base.Int.{ℤ, pos, negsuc, ◌+ℤ◌, ◌-ℤ◌, ltb_ℤ}
use tealis.Base.Text.{Text}
use tealis.Base.Dict.{Dict, lookup, insert, erase}
use tealis.Floats.{Arithmetic}
use tealis.Tealis.{Tealis, drop_key}

abbrev pub second : ℕ
second = 1_000_000_000

-- `exists && now.After(expiry)` for `expiry, exists := r.Expiries[key]`
abbrev pub is_past : ℤ → Option ℤ → Bool
is_past now none = false
is_past now (some expiry) = ltb_ℤ expiry now

unfoldable pub ex : Text → ℤ → ℤ → Tealis → Tealis
ex key duration now s = record s { expiries = insert key (now +ℤ duration) s.expiries }

module _ (arithmetic : Arithmetic) where
  -- `int64(remaining)` for a float `remaining`, if `remaining > 0`
  abbrev pub seconds_left : ℕ → ℤ
  seconds_left remaining =
      if arithmetic.below 0 remaining then arithmetic.to_int64 remaining else negsuc 1

  -- `time.Until(expiry).Seconds()` is what remains.
  abbrev ttl_of_expiry : ℤ → Option ℤ → ℤ
  ttl_of_expiry now none = negsuc 0
  ttl_of_expiry now (some expiry) = seconds_left (arithmetic.seconds (expiry -ℤ now))

  unfoldable pub ttl : Text → ℤ → Tealis → ℤ
  ttl key now s = elim (lookup key s.store) [
    | none ↦ negsuc 1
    | some v ↦ ttl_of_expiry now (lookup key s.expiries)
  ]

unfoldable pub persist : Text → Tealis → ℕ × Tealis
persist key s = elim (lookup key s.store) [
  | none ↦ (0, s)
  | some v ↦ elim (lookup key s.expiries) [
    | none ↦ (0, s)
    | some expiry ↦ (1, record s { expiries = erase key s.expiries })
  ]
]

-- `for key, expiry := range r.Expiries`
sweep : ℤ → Dict ℤ → Tealis → Tealis
sweep now [] s = s
sweep now ((key, expiry) ∷ es) s = sweep now es (if ltb_ℤ expiry now then drop_key key s else s)

-- One tick of the ticker of `StartCleanup`.
unfoldable pub cleanup : ℤ → Tealis → Tealis
unfolding sweep
cleanup now s = sweep now s.expiries s
