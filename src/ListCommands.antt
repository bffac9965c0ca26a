-- ===== src/ListCommands.antt =====
-- internal/storage/list.go. Each method holds `Mu` to its end.
pub mod Deque
pub mod Refinement
pub mod Ranges
use tealis.Base.{
  ℕ, suc, ◌-◌, List, [], ◌∷◌, ◌++◌, Option, none, some, Bool, true, false, Outcome, ok, panic,
  if◌then◌else◌, length, take, get_elem?,
}
use tealis.Base.Int.{ℤ, pos, negsuc, ◌+ℤ◌, ltb_ℤ, leb_ℤ}
use tealis.Base.Text.{Text}
use tealis.Base.Dict.{lookup, insert}
use tealis.Ranges.{slice, from_end, at_least_zero}
use tealis.Value.{Value, list, as_list, as_array, and_then}
use tealis.Tealis.{Tealis, Action, put}

-- The empty list that a push makes under a missing key.
list_or_new : Option Value → Value
list_or_new none = list []
list_or_new (some v) = v

-- A push: the new list is computed from the old one, which must be a list.
push : (List Text → List Text) → Text → Action ℕ
unfolding list_or_new
push f key s = elim (as_list (list_or_new (lookup key s.store))) [
  | none ↦ (panic, s)
  | some l ↦ (ok (length (f l)), put key (list (f l)) s)
]

-- `RPUSH`: `append(list, values...)`
unfoldable pub rpush : Text → List Text → Action ℕ
unfolding push
rpush key values = push (λ l. l ++ values) key

-- `LPUSH`: `append(values, list...)`
unfoldable pub lpush : Text → List Text → Action ℕ
unfolding push
lpush key values = push (λ l. values ++ l) key

-- `LPOP`: the first element, if there is one.
unfoldable pub lpop : Text → Tealis → Option Text × Tealis
lpop key s = elim (and_then (lookup key s.store) as_list) [
  | none ↦ (none, s)
  | some [] ↦ (none, s)
  | some (x ∷ xs) ↦ (some x, put key (list xs) s)
]

-- `RPOP`: the last element, if there is one.
unfoldable pub rpop : Text → Tealis → Option Text × Tealis
rpop key s = elim (and_then (lookup key s.store) as_list) [
  | none ↦ (none, s)
  | some [] ↦ (none, s)
  | some (x ∷ xs) ↦ (get_elem? (x ∷ xs) (length xs), put key (list (take (length xs) (x ∷ xs))) s)
]

elements : List Text → ℤ → ℤ → Outcome (List Text)
elements l start stop =
    let len : ℤ = pos (length l) in
    let start : ℤ = at_least_zero (from_end start (length l)) in
    let stop : ℤ = from_end stop (length l) in
    let stop : ℤ = if leb_ℤ len stop then len +ℤ negsuc 0 else stop in
    if ltb_ℤ stop start then ok [] else slice l start (stop +ℤ pos 1)

unfoldable pub lrange : Text → ℤ → ℤ → Tealis → Outcome (List Text)
unfolding elements
lrange key start stop s = elim (and_then (lookup key s.store) as_list) [
  | none ↦ ok []
  | some l ↦ elements l start stop
]

-- `LLEN`: a `[]interface{}` is measured too, and what is neither panics.
unfoldable pub llen : Text → Tealis → Outcome ℕ
llen key s = elim (lookup key s.store) [
  | none ↦ ok 0
  | some v ↦ elim (as_array v) [
    | some a ↦ ok (length a)
    | none ↦ elim (as_list v) [ some l ↦ ok (length l) | none ↦ panic ]
  ]
]
