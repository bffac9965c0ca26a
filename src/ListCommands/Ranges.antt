-- ===== src/ListCommands/Ranges.antt =====
-- `LRANGE` (internal/storage/list.go): which elements it picks.
use tealis.Base.{
  ℕ, ◌+◌, ◌-◌, List, [], some, Outcome, ok, leb, if◌then◌else◌, length, take, drop, get_elem?, true,
  false, ◌≤◌, ◌⊎◌, ◌≡◌, sym, arith, Bool-cases, inl, inr,
}
use tealis.Base.Int.{ℤ, pos, negsuc, ◌+ℤ◌, ltb_ℤ, leb_ℤ, pos_part}
use tealis.Base.Text.{Text}
use tealis.Base.Dict.{lookup}
use tealis.Ranges.{
  slice, from_end, window, window_empty, window-slice, cut_last, +ℤ-one, at_least_zero-eq-pos,
}
use tealis.Value.{list, as_list}
use tealis.Tealis.{Tealis}
use tealis.ListCommands.{elements, lrange}

-- The end of `elements`, for a start that is settled.
abbrev tail_of_elements : List Text → ℕ → ℤ → Outcome (List Text)
tail_of_elements l lo stop =
    let stop : ℤ = if leb_ℤ (pos (length l)) stop then pos (length l) +ℤ negsuc 0 else stop in
    if ltb_ℤ stop (pos lo) then ok [] else slice l (pos lo) (stop +ℤ pos 1)

-- A stop that is cut to the last index lies before a start behind the list; so does one that counts
-- from the end to before the first element.
cut_before :
    (len lo : ℕ) (stop : ℤ)
    → (len ≤ lo) ⊎ (leb_ℤ (pos lo) stop ≡ false)
    → ltb_ℤ (if leb_ℤ (pos len) stop then pos len +ℤ negsuc 0 else stop) (pos lo) ≡ true
unfolding ◌+ℤ◌
cut_before len lo (pos n) h = ground arith
cut_before len lo (negsuc n) h = ground arith

tail_of_elements-window :
    (l : List Text) (lo : ℕ) (stop : ℤ)
    → (r : List Text) × (tail_of_elements l lo stop ≡ ok r)
      × ((i : ℕ) → get_elem? r i ≡ window l lo stop i)
tail_of_elements-window l lo (negsuc stop) = (
  [],
  rw (cut_before (length l) lo (negsuc stop) (inr (ground arith))),
  λ i. sym (window_empty l lo (negsuc stop) i (inl (ground arith))),
)
tail_of_elements-window l lo (pos stop) = elim (Bool-cases (leb (length l) lo)) [
  | inl beyond ↦ (
    [],
    rw (cut_before (length l) lo (pos stop) (inl (ground arith))),
    λ i. sym (window_empty l lo (pos stop) i (inr (ground arith))),
  )
  | inr inside ↦ elim (Bool-cases (leb lo stop)) [
    | inl some_items ↦
        let sliced = window-slice l lo stop (ground arith) (ground arith) in
        (
          take ((if leb (length l) stop then length l - 1 else stop) + 1 - lo) (drop lo l),
          rw (cut_last (length l) stop (ground arith), +ℤ-one) (ground (arith, sliced.0)),
          sliced.1,
        )
    | inr no_items ↦ (
      [],
      rw (cut_before (length l) lo (pos stop) (inr (ground arith))),
      λ i. sym (window_empty l lo (pos stop) i (inl (ground arith))),
    )
  ]
]

elements-window :
    (l : List Text) (start stop : ℤ)
    → (r : List Text) × (elements l start stop ≡ ok r)
      × ((i : ℕ)
          → get_elem? r i
            ≡ window l (pos_part (from_end start (length l))) (from_end stop (length l)) i)
unfolding elements
elements-window l start stop =
    rw at_least_zero-eq-pos
      (tail_of_elements-window l (pos_part (from_end start (length l))) (from_end stop (length l)))

lrange-list :
    (key : Text) (l : List Text) (start stop : ℤ) (s : Tealis)
    → lookup key s.store ≡ some (list l)
    → lrange key start stop s ≡ elements l start stop
unfolding lrange as_list
lrange-list key l start stop s e = ground arith

-- `LRANGE` of a list never panics. It returns the elements from `start` to `stop`, both counted in,
-- where a negative index counts from the end of the list.
pub lrange-window :
    (key : Text) (l : List Text) (start stop : ℤ) (s : Tealis)
    → lookup key s.store ≡ some (list l)
    → (r : List Text) × (lrange key start stop s ≡ ok r)
      × ((i : ℕ)
          → get_elem? r i
            ≡ window l (pos_part (from_end start (length l))) (from_end stop (length l)) i)
lrange-window key l start stop s e =
    rw (lrange-list key l start stop s e) (elements-window l start stop)
