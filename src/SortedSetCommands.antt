-- ===== src/SortedSetCommands.antt =====
-- The server's methods of internal/storage/zset.go. A `*SortedSet` is the value of one key only, so that it stands
-- in the store as what it points to. Each method holds `Mu` to its end, and the set's own lock within it, which
-- nothing else takes.
use tealis.Base.{ℕ, List, [], none, some, Bool, false, Outcome, ok, panic, deadlock}
use tealis.Base.Int.{ℤ, negsuc}
use tealis.Base.Text.{Text}
use tealis.Base.Dict.{lookup}
use tealis.Floats.{Arithmetic}
use tealis.Value.{SortedSet, sorted_set, as_sorted_set}
pub mod Scores
use tealis.SkipList.{new_sorted_set}
use tealis.SkipList.Adding.{add}
use tealis.SkipList.Removing.{remove}
use tealis.SkipList.Listing.{range, rank, range_by_score}
use tealis.Tealis.{Tealis, Action, put}

module _ (arithmetic : Arithmetic) where
  -- `r.Store[key] = ss`
  unfoldable pub store_set : Text → Outcome SortedSet → Action ℕ
  store_set key (ok x) s = (ok 1, put key (sorted_set x) s)
  store_set key panic s = (panic, s)
  store_set key deadlock s = (deadlock, s)

  -- `ZAdd`, which panics at a key of another type. `source` is that of a new set.
  unfoldable pub zadd : (ℕ → Bool × ℕ) → ℕ → Text → ℕ → Text → Action ℕ
  zadd float32 source key score member s = elim (lookup key s.store) [
    | none ↦ store_set key (add arithmetic float32 member score (new_sorted_set source)) s
    | some v ↦ elim (as_sorted_set v) [
      | none ↦ (panic, s)
      | some x ↦ store_set key (add arithmetic float32 member score x) s
    ]
  ]

-- What a method does that reads the set of a key: `absent` at no key, a panic at another type.
unfoldable pub reading : {A : Type 0} → A → (SortedSet → Outcome A) → Text → Tealis → Outcome A
reading absent f key s = elim (lookup key s.store) [
  | none ↦ ok absent
  | some v ↦ elim (as_sorted_set v) [ none ↦ panic | some x ↦ f x ]
]

-- `ZRange`
unfoldable pub zrange : Text → ℤ → ℤ → Tealis → Outcome (List Text)
zrange key start end s = reading [] (range start end) key s

-- `ZRank`
unfoldable pub zrank : Text → Text → Tealis → Outcome ℤ
zrank key member s = reading (negsuc 0) (rank member) key s

-- `ZRangeByScore`
unfoldable pub zrange_by_score : Arithmetic → Text → ℕ → ℕ → Tealis → Outcome (List Text)
zrange_by_score arithmetic key min max s = reading [] (range_by_score arithmetic min max) key s

unfoldable pub store_removed : Text → Outcome (Bool × SortedSet) → Action Bool
store_removed key (ok (removed, x)) s = (ok removed, put key (sorted_set x) s)
store_removed key panic s = (panic, s)
store_removed key deadlock s = (deadlock, s)

-- `ZRem`
unfoldable pub zrem : Text → Text → Action Bool
zrem key member s = elim (lookup key s.store) [
  | none ↦ (ok false, s)
  | some v ↦ elim (as_sorted_set v) [
    | none ↦ (panic, s)
    | some x ↦ store_removed key (remove member x) s
  ]
]
