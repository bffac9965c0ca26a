-- ===== src/Tealis/Expiry/Cleanup.antt =====
-- One round of the loop of `StartCleanup` (internal/storage/tealis.go).
use tealis.Base.{[], ◌∷◌, none, ◌≡◌, refl, arith, if◌then◌else◌}
use tealis.Base.Int.{ℤ, ltb_ℤ}
use tealis.Base.Text.{Text, text_eq_iff}
use tealis.Base.Dict.{Dict, lookup, lookup-erase, IsDict}
use tealis.Tealis.{Tealis, drop_key}
use tealis.Tealis.Expiry.{is_past, sweep, cleanup}

module _ (now : ℤ) (j : Text) where
  sweep-store :
      (es : Dict ℤ) (s : Tealis)
      → IsDict es
      → lookup j (sweep now es s).store
        ≡ (if is_past now (lookup j es) then none else lookup j s.store)
  unfolding sweep lookup
  sweep-store [] s h = refl
  sweep-store ((key, expiry) ∷ es) s h = ground (
    arith,
    sweep-store es (if ltb_ℤ expiry now then drop_key key s else s) h.1,
    lookup-erase j key s.store,
    text_eq_iff key j,
  )

  sweep-expiries :
      (es : Dict ℤ) (s : Tealis)
      → IsDict es
      → lookup j (sweep now es s).expiries
        ≡ (if is_past now (lookup j es) then none else lookup j s.expiries)
  unfolding sweep lookup
  sweep-expiries [] s h = refl
  sweep-expiries ((key, expiry) ∷ es) s h = ground (
    arith,
    sweep-expiries es (if ltb_ℤ expiry now then drop_key key s else s) h.1,
    lookup-erase j key s.expiries,
    text_eq_iff key j,
  )

  -- A round at `now` deletes the keys whose expiry is before `now`, with their expiries, and leaves
  -- every other key and expiry as it is.
  pub cleanup-lookup :
      (s : Tealis)
      → IsDict s.expiries
      → (lookup j (cleanup now s).store
          ≡ (if is_past now (lookup j s.expiries) then none else lookup j s.store))
        × (lookup j (cleanup now s).expiries
            ≡ (if is_past now (lookup j s.expiries) then none else lookup j s.expiries))
  unfolding cleanup
  cleanup-lookup s h = (sweep-store s.expiries s h, sweep-expiries s.expiries s h)
