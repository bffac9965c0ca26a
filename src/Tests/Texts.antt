-- ===== src/Tests/Texts.antt =====
-- Examples for strings, numbers and expiry (internal/storage/string.go and tealis.go).
use tealis.Base.{
  ◌/◌, ℕ, none, some, true, ok, deadlock, ◌≡◌, ◌↔◌, refl, arith, if◌then◌else◌, ltb, length,
  get_elem?, ◌-◌,
}
use tealis.Base.Int.{pos, negsuc, ◌+ℤ◌}
use tealis.Base.Text.{Text, text_eq}
use tealis.Base.Dict.{lookup}
use tealis.Ranges.{window}
use tealis.Value.{string}
use tealis.Tealis.{put}
use tealis.Tealis.Expiry.{is_past, second, ttl, cleanup}
use tealis.Floats.{Arithmetic}
use tealis.Tealis.Expiry.Cleanup.{cleanup-lookup}
use tealis.Tealis.Expiry.Deadlines.{IsSeconds, ttl-set}
use tealis.StringCommands.{set, get, get_range, set_range}
use tealis.StringCommands.ReadWrite.{get_deadlock, get-set}
use tealis.StringCommands.Substrings.{get_range-window, set_range-spliced}
use tealis.Tests.Data.{k, b, hello, expiring, arithmetic}

get_deadlock_example :
    ((get k (pos 11) expiring).1 ≡ expiring)
    × (((get k (pos 11) expiring).0 ≡ deadlock)
        ↔ (is_past (pos 11) (lookup k expiring.expiries) ≡ true))
get_deadlock_example = get_deadlock k (pos 11) expiring

get-set_example : (get k (pos 20) (set k b (pos 5) (pos 9) expiring)).0 ≡ deadlock
unfolding text_eq ◌+ℤ◌
get-set_example = get-set k k b (pos 5) (pos 9) (pos 20) expiring

cleanup-lookup_example :
    (lookup k (cleanup (pos 11) expiring).store ≡ none)
    × (lookup k (cleanup (pos 11) expiring).expiries ≡ none)
unfolding lookup text_eq
cleanup-lookup_example = cleanup-lookup (pos 11) k expiring (refl, tt)

-- A float64 value is a number of nanoseconds here.
abbrev nanoseconds : Arithmetic
nanoseconds = record arithmetic { to_int64 = λ x. pos (x / second) }

nanoseconds-IsSeconds : IsSeconds nanoseconds
nanoseconds-IsSeconds = record {
  positive = λ n h. ground arith;
  zero_or_less = λ z h. ground arith;
}

ttl-set_example :
    ttl nanoseconds k (pos 1_500_000_000) (set k b (pos 3_000_000_000) (pos 0) expiring) ≡ pos 1
unfolding ◌+ℤ◌
ttl-set_example =
    ttl-set nanoseconds nanoseconds-IsSeconds k b (pos 0) 3_000_000_000 1_500_000_000 expiring
      (omega arith)

get_range-window_example :
    (r : Text) × (get_range k (pos 1) (negsuc 0) expiring ≡ ok r)
    × ((i : ℕ) → get_elem? r i ≡ window hello 1 (pos 4) i)
unfolding lookup text_eq ◌+ℤ◌
get_range-window_example = get_range-window k hello (pos 1) (negsuc 0) expiring refl

set_range-spliced_example :
    (t : Text) × (set_range k (pos 1) b expiring ≡ (ok (length t), put k (string t) expiring))
    × (length t ≡ 2)
    × ((i : ℕ)
        → get_elem? t i ≡ (
            if ltb i 1
            then (if ltb i 5 then get_elem? hello i else some b' ')
            else get_elem? b (i - 1)))
unfolding lookup text_eq
set_range-spliced_example = set_range-spliced k hello b 1 expiring refl
