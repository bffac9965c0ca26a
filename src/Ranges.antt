-- ===== src/Ranges.antt =====
-- Index ranges as GETRANGE, LRANGE and Go's slice expressions read them.
use tealis.Base.{
  ℕ, zero, suc, ◌+◌, ◌-◌, ◌≤◌, ◌<◌, List, [], ◌∷◌, Option, none, false, ◌&&◌, Outcome, ok, panic,
  ltb, leb, if◌then◌else◌, length, take, drop, get_elem?, ◌≡◌, ◌⊎◌, refl, arith, get_elem?-drop,
  get_elem?-take_of_lt, get_elem?-take_of_le,
}
use tealis.Base.Int.{ℤ, pos, negsuc, ◌+ℤ◌, leb_ℤ, pos_part}

-- `s[lo:hi]`
abbrev pub slice : {A : Type 0} → List A → ℤ → ℤ → Outcome (List A)
slice xs (pos lo) (pos hi) =
    if leb lo hi && leb hi (length xs) then ok (take (hi - lo) (drop lo xs)) else panic
slice xs (pos lo) (negsuc hi) = panic
slice xs (negsuc lo) hi = panic

-- A negative index counts from the end.
abbrev pub from_end : ℤ → ℕ → ℤ
from_end (pos i) len = pos i
from_end (negsuc i) len = pos len +ℤ negsuc i

abbrev pub at_least_zero : ℤ → ℤ
at_least_zero (pos i) = pos i
at_least_zero (negsuc i) = pos 0

-- The items that a range from `lo` to `hi`, both counted in, picks from `xs`: the bounds of `xs` need
-- no mention, since there is no item beyond them.
abbrev pub window : {A : Type 0} → List A → ℕ → ℤ → ℕ → Option A
window xs lo hi i = if leb_ℤ (pos (lo + i)) hi then get_elem? xs (lo + i) else none

module _ {A : Type 0} where
  get_elem?_of_length-le : (xs : List A) (i : ℕ) → length xs ≤ i → get_elem? xs i ≡ none
  get_elem?_of_length-le [] i h = refl
  get_elem?_of_length-le (x ∷ xs) zero h = absurd (omega arith)
  get_elem?_of_length-le (x ∷ xs) (suc i) h = get_elem?_of_length-le xs i (omega arith)

  get_elem?-take-drop :
      (xs : List A) (lo k i : ℕ)
      → get_elem? (take k (drop lo xs)) i ≡ (if ltb i k then get_elem? xs (lo + i) else none)
  get_elem?-take-drop xs lo k i = ground (
    arith,
    get_elem?-take_of_lt k i (drop lo xs),
    get_elem?-take_of_le k i (drop lo xs),
    get_elem?-drop lo i xs,
  )

module _ {A : Type 0} where
  -- A range that starts behind its end, or behind the last item, picks nothing.
  pub window_empty :
      (xs : List A) (lo : ℕ) (hi : ℤ) (i : ℕ)
      → ((leb_ℤ (pos lo) hi ≡ false) ⊎ (length xs ≤ lo))
      → window xs lo hi i ≡ none
  window_empty xs lo (pos hi) i h = ground (arith, get_elem?_of_length-le xs (lo + i))
  window_empty xs lo (negsuc hi) i h = ground arith

  -- One whose end is cut to the last item is taken by a slice expression.
  pub window-slice :
      (xs : List A) (lo hi : ℕ)
      → lo ≤ hi
      → lo < length xs
      → let last = (if leb (length xs) hi then length xs - 1 else hi) in
        (slice xs (pos lo) (pos (last + 1)) ≡ ok (take (last + 1 - lo) (drop lo xs)))
        × ((i : ℕ) → get_elem? (take (last + 1 - lo) (drop lo xs)) i ≡ window xs lo (pos hi) i)
  window-slice xs lo hi h k = (
    ground arith,
    λ i. ground (
      arith,
      get_elem?-take-drop xs lo ((if leb (length xs) hi then length xs - 1 else hi) + 1 - lo) i,
      get_elem?_of_length-le xs (lo + i),
    ),
  )

-- The last index that a range may have, and the step from it to the end of a slice expression.
pub cut_last :
    (len end : ℕ)
    → 0 < len
    → (if leb_ℤ (pos len) (pos end) then pos len +ℤ negsuc 0 else pos end)
      ≡ pos (if leb len end then len - 1 else end)
unfolding ◌+ℤ◌
cut_last len end h = ground arith

pub +ℤ-one : (k : ℕ) → pos k +ℤ pos 1 ≡ pos (k + 1)
unfolding ◌+ℤ◌
+ℤ-one k = ground arith

pub at_least_zero-eq-pos : (z : ℤ) → at_least_zero z ≡ pos (pos_part z)
at_least_zero-eq-pos (pos n) = refl
at_least_zero-eq-pos (negsuc n) = refl
