-- ===== src/Slices/Contents.antt =====
-- What slices show after an allocation or a write (internal/storage/bitmap.go and bitfield.go).
use tealis.Base.{
  ℕ, zero, suc, ◌≤◌, ◌<◌, List, [], ◌∷◌, ◌++◌, Option, none, some, if◌then◌else◌, length, take,
  drop, get_elem?, set, length-append, length-set, length-take, get_elem?-set_self,
  get_elem?-set_ne, take_of_length-le, take_append_length, ◌≡◌, ◌≢◌, refl, sym, ap, arith,
}
use tealis.Base.Text.{Text, text_eq}
use tealis.Base.Dict.{lookup-insert}
use tealis.Value.{Slice, bytes, as_bytes}
use tealis.Tealis.{Tealis, put}
use tealis.Slices.{slice_at, or_empty, content, alloc, store_byte, store_all}

-- The slice lies within an array that is there.
abbrev pub Sound : Slice → List (List ℕ) → Type 0
Sound b arrays = (b.array < length arrays) × (b.len ≤ length (or_empty (get_elem? arrays b.array)))

-- The same of the value of a key, if it is a slice.
abbrev pub SoundIf : Option Slice → List (List ℕ) → Type 0
SoundIf none arrays = Unit
SoundIf (some b) arrays = Sound b arrays

module _ {A : Type 0} where
  take-set : (n i : ℕ) (v : A) (xs : List A) → take n (set xs i v) ≡ set (take n xs) i v
  take-set zero i v xs = refl
  take-set (suc n) i v [] = refl
  take-set (suc n) zero v (x ∷ xs) = refl
  take-set (suc n) (suc i) v (x ∷ xs) = ap (◌∷◌ x) (take-set n i v xs)

  take-append-drop : (n : ℕ) (xs ys : List A) → length xs ≡ n → take n (xs ++ ys) ≡ xs
  take-append-drop n xs ys e = rw (sym e) (take_append_length xs ys)

pub length-content :
    (b : Slice) (arrays : List (List ℕ)) → Sound b arrays → length (content b arrays) ≡ b.len
length-content b arrays h = omega (arith, length-take b.len (or_empty (get_elem? arrays b.array)))

module _ (b : Slice) (s : Tealis) (sound : Sound b s.arrays) where
  pub content-store_byte :
      (i v : ℕ) → content b (store_byte b i v s).arrays ≡ set (content b s.arrays) i v
  content-store_byte i v =
      rw
        (get_elem?-set_self s.arrays b.array (set (or_empty (get_elem? s.arrays b.array)) i v)
          sound.0)
        (take-set b.len i v (or_empty (get_elem? s.arrays b.array)))

  pub content-store_all :
      (cells : List ℕ) → length cells ≡ b.len → content b (store_all b cells s).arrays ≡ cells
  content-store_all cells h =
      let old = or_empty (get_elem? s.arrays b.array) in
      rw (get_elem?-set_self s.arrays b.array (cells ++ drop (length cells) old) sound.0)
        (take-append-drop b.len cells _ h)

  pub store_byte-Sound : (i v : ℕ) → Sound b (store_byte b i v s).arrays
  store_byte-Sound i v =
      let old = or_empty (get_elem? s.arrays b.array) in
      rw (length-set, get_elem?-set_self s.arrays b.array (set old i v) sound.0)
        (sound.0, rw length-set sound.1)

  pub store_all-Sound :
      (cells : List ℕ) → length cells ≡ b.len → Sound b (store_all b cells s).arrays
  store_all-Sound cells h =
      let old = or_empty (get_elem? s.arrays b.array) in
      rw
        (length-set, get_elem?-set_self s.arrays b.array (cells ++ drop (length cells) old) sound.0)
        (sound.0, omega (arith, length-append cells (drop (length cells) old)))

-- A write leaves the slices of other arrays alone.
module _ (b c : Slice) (s : Tealis) (apart : b.array ≢ c.array) where
  pub content-store_byte_ne : (i v : ℕ) → content c (store_byte b i v s).arrays ≡ content c s.arrays
  content-store_byte_ne i v = rw (
      get_elem?-set_ne s.arrays b.array c.array (set (or_empty (get_elem? s.arrays b.array)) i v)
        apart)

  pub content-store_all_ne :
      (cells : List ℕ) → content c (store_all b cells s).arrays ≡ content c s.arrays
  content-store_all_ne cells = rw (
      get_elem?-set_ne s.arrays b.array c.array
        (cells ++ drop (length cells) (or_empty (get_elem? s.arrays b.array))) apart)

  pub store_all-Sound_other :
      (cells : List ℕ) → Sound c s.arrays → Sound c (store_all b cells s).arrays
  store_all-Sound_other cells h =
      let old = or_empty (get_elem? s.arrays b.array) in
      rw
        (
          length-set,
          get_elem?-set_ne s.arrays b.array c.array (cells ++ drop (length cells) old) apart,
        )
        h

get_elem?-push_last :
    (arrays : List (List ℕ)) (cells : List ℕ)
    → get_elem? (arrays ++ cells ∷ []) (length arrays) ≡ some cells
get_elem?-push_last [] cells = refl
get_elem?-push_last (a ∷ arrays) cells = get_elem?-push_last arrays cells

get_elem?-push_lt :
    (arrays : List (List ℕ)) (cells : List ℕ) (i : ℕ)
    → i < length arrays
    → get_elem? (arrays ++ cells ∷ []) i ≡ get_elem? arrays i
get_elem?-push_lt [] cells i h = absurd (omega arith)
get_elem?-push_lt (a ∷ arrays) cells zero h = refl
get_elem?-push_lt (a ∷ arrays) cells (suc i) h = get_elem?-push_lt arrays cells i (omega arith)

pub content-alloc :
    (cells : List ℕ) (s : Tealis) → content (alloc cells s).0 (alloc cells s).1.arrays ≡ cells
content-alloc cells s =
    rw (get_elem?-push_last s.arrays cells) (take_of_length-le (length cells) cells (omega arith))

pub alloc-Sound : (cells : List ℕ) (s : Tealis) → Sound (alloc cells s).0 (alloc cells s).1.arrays
alloc-Sound cells s =
    rw (get_elem?-push_last s.arrays cells)
      (omega (arith, length-append s.arrays (cells ∷ [])), omega arith)

-- The other slices show what they showed.
pub content-alloc_old :
    (b : Slice) (cells : List ℕ) (s : Tealis)
    → Sound b s.arrays
    → content b (alloc cells s).1.arrays ≡ content b s.arrays
content-alloc_old b cells s h = rw (get_elem?-push_lt s.arrays cells b.array h.0)

pub alloc-Sound_old :
    (b : Slice) (cells : List ℕ) (s : Tealis) → Sound b s.arrays → Sound b (alloc cells s).1.arrays
alloc-Sound_old b cells s h =
    rw (get_elem?-push_lt s.arrays cells b.array h.0)
      (omega (arith, h.0, length-append s.arrays (cells ∷ [])), h.1)

pub slice_at-put :
    (key j : Text) (b : Slice) (s : Tealis)
    → slice_at j (put key (bytes b) s) ≡ (if text_eq key j then some b else slice_at j s)
unfolding as_bytes
slice_at-put key j b s = ground (arith, lookup-insert j key (bytes b) s.store)
