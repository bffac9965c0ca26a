-- ===== src/Tealis/Expiry/Deadlines.antt =====
-- `TTL` and `PERSIST` (internal/storage/tealis.go) after `Set` and `EX`, and `Get` around a cleanup.
use tealis.Base.{
  ℕ, suc, ltb→lt, ltb→le, ◌-◌, ◌≤◌, ◌<◌, refl, none, true, false, ok, ltb, ◌≡◌, arith,
  if◌then◌else◌, is_some, Bool-cases, inl, inr,
}
use tealis.Base.Int.{ℤ, pos, negsuc, ◌+ℤ◌, ◌-ℤ◌, ◌≤ℤ◌, int_laws}
use tealis.Base.Text.{Text}
use tealis.Base.Dict.{lookup, IsDict, lookup-insert_self, lookup-erase_self}
use tealis.Floats.{Arithmetic}
use tealis.Mutex.{rlock, lock}
use tealis.Value.{string}
use tealis.Tealis.{Tealis}
use tealis.Tealis.Expiry.{is_past, ttl, persist, cleanup, seconds_left}
use tealis.Tealis.Expiry.Cleanup.{cleanup-lookup}
use tealis.StringCommands.{set, get}

-- After a cleanup at `now`, a `Get` at `now` never blocks: it misses the keys that had expired and
-- returns for the others what it would have returned before.
pub get-cleanup :
    (now : ℤ) (key : Text) (s : Tealis)
    → IsDict s.expiries
    → (get key now (cleanup now s)).0
      ≡ (if is_past now (lookup key s.expiries) then ok none else (get key now s).0)
unfolding get rlock lock
get-cleanup now key s h = ground (arith, cleanup-lookup now key s h)

difference : (now : ℤ) (d e : ℕ) → (now +ℤ pos d) -ℤ (now +ℤ pos e) ≡ pos d -ℤ pos e
difference now d e = omega int_laws

positive_difference : (d e : ℕ) → e < d → pos d -ℤ pos e ≡ pos (suc (d - e - 1))
unfolding ◌-ℤ◌
positive_difference d e h = ground arith

not_positive_difference : (d e : ℕ) → d ≤ e → pos d -ℤ pos e ≤ℤ pos 0
unfolding ◌-ℤ◌
not_positive_difference d e h = ground arith

module _ (arithmetic : Arithmetic) where
  -- The seconds of a duration are a positive number exactly if the duration is.
  pub record IsSeconds : Type 0 where
    pub positive : (n : ℕ) → 0 < n → arithmetic.below 0 (arithmetic.seconds (pos n)) ≡ true
    pub zero_or_less : (z : ℤ) → z ≤ℤ pos 0 → arithmetic.below 0 (arithmetic.seconds z) ≡ false

  left_of :
      (law : IsSeconds) (now : ℤ) (d e : ℕ)
      → seconds_left arithmetic (arithmetic.seconds ((now +ℤ pos d) -ℤ (now +ℤ pos e)))
        ≡ (if ltb e d then arithmetic.to_int64 (arithmetic.seconds (pos (d - e))) else negsuc 1)
  left_of law now d e = elim (Bool-cases (ltb e d)) [
    | inl left ↦
        let some_left : 0 < d - e = omega (arith, ltb→lt e d left) in
        let same : suc (d - e - 1) ≡ d - e = omega (arith, some_left) in
        rw
          (
            left,
            difference now d e,
            positive_difference d e (ltb→lt e d left),
            same,
            law.positive (d - e) some_left,
          )
          refl
    | inr over ↦
        rw
          (
            over,
            difference now d e,
            law.zero_or_less (pos d -ℤ pos e) (not_positive_difference d e (ltb→le e d over)),
          )
          refl
  ]

  -- `TTL` of a key, `e` nanoseconds after `Set` gave it `d` nanoseconds to live: the seconds of the `d - e` that are left, cut to an integer, or -2 where none of the time is left. The float64 seconds of a duration are positive exactly if the duration is.
  pub ttl-set :
      (law : IsSeconds) (key value : Text) (now : ℤ) (d e : ℕ) (s : Tealis)
      → 0 < d
      → ttl arithmetic key (now +ℤ pos e) (set key value (pos d) now s)
        ≡ (if ltb e d then arithmetic.to_int64 (arithmetic.seconds (pos (d - e))) else negsuc 1)
  unfolding ttl set
  ttl-set law key value now d e s h = ground (
    arith,
    lookup-insert_self key (string value) s.store,
    lookup-insert_self key (now +ℤ pos d) s.expiries,
    left_of law now d e,
  )

-- `PERSIST` returns 1 if the key is there and has an expiry, and else 0. After it `TTL` says -1 for a key
-- that is there and -2 for one that is not, the expiry of a key that is there is not past at any time,
-- and the values are as before.
pub persist_lem :
    (arithmetic : Arithmetic) (key : Text) (t : ℤ) (s : Tealis)
    → ((persist key s).0 ≡ (
        if is_some (lookup key s.store)
        then (if is_some (lookup key s.expiries) then 1 else 0)
        else 0))
      × (ttl arithmetic key t (persist key s).1
          ≡ (if is_some (lookup key s.store) then negsuc 0 else negsuc 1))
      × (is_some (lookup key s.store) ≡ true
          → is_past t (lookup key (persist key s).1.expiries) ≡ false)
      × ((persist key s).1.store ≡ s.store)
unfolding persist ttl
persist_lem arithmetic key t s = ground (arith, lookup-erase_self key s.expiries)
