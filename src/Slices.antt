-- ===== src/Slices.antt =====
-- The `[]byte` values of internal/storage/bitmap.go and bitfield.go. A slice shows the first bytes of an
-- array in `Tealis.arrays`; the length of the array is its capacity, and a write through one slice is
-- seen through the others on the array.
pub mod Contents
use tealis.Base.{
  ℕ, ◌+◌, ◌-◌, List, [], ◌∷◌, ◌++◌, Option, none, some, length, take, drop, get_elem?, set,
  replicate,
}
use tealis.Base.Text.{Text}
use tealis.Base.Dict.{lookup}
use tealis.Value.{Slice, as_bytes, and_then}
use tealis.Tealis.{Tealis}

-- `data, _ := r.Store[key].([]byte)`, where `none` is the nil slice.
abbrev pub slice_at : Text → Tealis → Option Slice
slice_at key s = and_then (lookup key s.store) as_bytes

abbrev pub or_empty : Option (List ℕ) → List ℕ
or_empty none = []
or_empty (some a) = a

-- What a slice shows.
abbrev pub content : Slice → List (List ℕ) → List ℕ
content b arrays = take b.len (or_empty (get_elem? arrays b.array))

abbrev pub content_of : Option Slice → List (List ℕ) → List ℕ
content_of none arrays = []
content_of (some b) arrays = content b arrays

-- `newData := make([]byte, n); copy(newData, data)`, where `n` is at least `len(data)`
abbrev pub padded : List ℕ → ℕ → List ℕ
padded cells n = cells ++ replicate (n - length cells) 0

-- A new array, and the slice of all of it.
abbrev pub alloc : List ℕ → Tealis → Slice × Tealis
alloc cells s = (
  record { array = length s.arrays; len = length cells },
  record s { arrays = s.arrays ++ cells ∷ [] },
)

-- `data[i] = v`
abbrev pub store_byte : Slice → ℕ → ℕ → Tealis → Tealis
store_byte b i v s = record s {
  arrays = set s.arrays b.array (set (or_empty (get_elem? s.arrays b.array)) i v);
}

-- Every byte that the slice shows is written.
abbrev pub store_all : Slice → List ℕ → Tealis → Tealis
store_all b cells s = record s {
  arrays =
      set s.arrays b.array (cells ++ drop (length cells) (or_empty (get_elem? s.arrays b.array)));
}
