-- ===== src/BitmapCommands/ReadBack.antt =====
-- `SETBIT` against `GETBIT` (internal/storage/bitmap.go).
use tealis.Base.{
  ℕ, zero, suc, append-nil, ◌+◌, ◌-◌, ◌/◌, ◌%◌, ◌<◌, ◌≡◌, ◌≢◌, refl, sym, ap, ◌∙◌, List, [], ◌∷◌,
  ◌++◌, Option, none, some, ok, if◌then◌else◌, leb, ◌==◌, length, get_elem?, replicate, arith,
  length-append, length-replicate, inl, inr, false, Bool-cases,
}
use tealis.Base.Int.{ℤ, pos}
use tealis.Base.Text.{Text, text_eq, text_eq_iff, text_eq_refl}
use tealis.Value.{Slice, as_bytes, and_then}
use tealis.Base.Dict.{lookup}
use tealis.Tealis.{Tealis}
use tealis.Slices.{slice_at, content, content_of, alloc, store_byte}
use tealis.Slices.Contents.{
  Sound, SoundIf, length-content, content-store_byte, content-store_byte_ne, content-alloc,
  alloc-Sound, content-alloc_old, slice_at-put,
}
use tealis.BitmapCommands.{setbit, getbit, widened, change_bit, with_bit, bit_of}
use tealis.BitmapCommands.Cells.{
  bit_at, bit_value, bit_at-set, bit_at-append_zeros, masked_bit_lem, shifted_bit_lem,
}

-- `r.Store[key].([]byte)` of two keys on one array
abbrev pub Apart : Option Slice → Option Slice → Type 0
Apart (some b) (some c) = b.array ≢ c.array
Apart _ _ = Unit

get_elem?_of_lt :
    (cells : List ℕ) (i : ℕ) → i < length cells → (byte : ℕ) × (get_elem? cells i ≡ some byte)
get_elem?_of_lt [] i h = absurd (omega arith)
get_elem?_of_lt (c ∷ cells) zero h = (c, refl)
get_elem?_of_lt (c ∷ cells) (suc i) h = get_elem?_of_lt cells i (omega arith)

-- What `SETBIT` may write to: a slice that is long enough, shows the old bytes and zeros, and shares
-- its array with no slice that the old one did not share its own with.
Wide : ℕ → Option Slice → Tealis → Slice × Tealis → Type 0
Wide i old s (b, t) =
    Sound b t.arrays
    × (i < b.len)
    × (t.store ≡ s.store)
    × ((n : ℕ) × (content b t.arrays ≡ content_of old s.arrays ++ replicate n 0))
    × ((c : Slice)
        → Sound c s.arrays
        → Apart old (some c)
        → (b.array ≢ c.array) × (content c t.arrays ≡ content c s.arrays))

alloc-Wide :
    (i n : ℕ) (old : Option Slice) (s : Tealis)
    → i < length (content_of old s.arrays ++ replicate n 0)
    → Wide i old s (alloc (content_of old s.arrays ++ replicate n 0) s)
unfolding Wide
alloc-Wide i n old s h =
    let cells = content_of old s.arrays ++ replicate n 0 in
    (
      alloc-Sound cells s,
      h,
      refl,
      (n, content-alloc cells s),
      λ c sound apart. (λ e. omega (arith, e, sound.0), content-alloc_old c cells s sound),
    )

kept-Wide :
    (i : ℕ) (b : Slice) (s : Tealis) → Sound b s.arrays → i < b.len → Wide i (some b) s (b, s)
unfolding Wide
kept-Wide i b s h l =
    (h, l, refl, (0, sym (append-nil (content b s.arrays))), λ c sound apart. (apart, refl))

widened-Wide :
    (i : ℕ) (old : Option Slice) (s : Tealis)
    → SoundIf old s.arrays
    → Wide i old s (widened i old s)
unfolding widened
widened-Wide i none s h =
    alloc-Wide i (i + 1 - 0) none s (omega (arith, length-replicate {A = ℕ} (i + 1 - 0) 0))
widened-Wide i (some b) s h = elim (Bool-cases (leb (length (content b s.arrays)) i)) [
  | inl l ↦ rw l (
      alloc-Wide i (i + 1 - length (content b s.arrays)) (some b) s (
        omega (
          arith,
          length-append (content b s.arrays) (replicate (i + 1 - length (content b s.arrays)) 0),
          length-replicate {A = ℕ} (i + 1 - length (content b s.arrays)) 0,
        )))
  | inr l ↦ rw l (kept-Wide i b s h (ground (arith, length-content b s.arrays h)))
]

module _ (key : Text) (o : ℕ) (v : ℤ) (s : Tealis) (b : Slice) (t : Tealis)
    (wide : Wide (o / 8) (slice_at key s) s (b, t)) where
  -- The write at a slice that is wide enough.
  change_bit-bit :
      (p : ℕ)
      → ((change_bit key (o / 8) (o % 8) v (b, t)).0 ≡ ok (getbit key (pos o) s))
        × (getbit key (pos p) (change_bit key (o / 8) (o % 8) v (b, t)).1
            ≡ (if p == o then bit_value v else getbit key (pos p) s))
  unfolding Wide change_bit getbit
  change_bit-bit p =
      let (sound, inside, store, (n, e), rest) = wide in
      let len = length-content b t.arrays sound in
      let (byte, at) = get_elem?_of_lt (content b t.arrays) (o / 8) (omega (arith, len, inside)) in
      let old : (q : ℕ) → bit_at (content b t.arrays) q ≡ getbit key (pos q) s =
        λ q. rw e (bit_at-append_zeros (content_of (slice_at key s) s.arrays) n q) in
      rw (change_bit, at)
        (
          ap ok (
              masked_bit_lem (o % 8) byte
              ∙ sym (shifted_bit_lem (o % 8) byte)
              ∙ sym (ap (bit_of (o % 8)) at)
              ∙ old o),
          rw (slice_at-put, text_eq_refl, content-store_byte b t sound)
              (bit_at-set (content b t.arrays) o p byte v at (omega (arith, len, inside))
                ∙ rw old refl),
        )

  -- What another key's slice shows after the write.
  content_of-other :
      (i w : ℕ) (old : Option Slice)
      → SoundIf old s.arrays
      → Apart (slice_at key s) old
      → content_of old (store_byte b i w t).arrays ≡ content_of old s.arrays
  unfolding Wide
  content_of-other i w none h apart = refl
  content_of-other i w (some c) h apart =
      let (sound, inside, store, zeros, rest) = wide in
      let (ne, same) = rest c h apart in content-store_byte_ne b c t ne i w ∙ same

  change_bit-other :
      (j : Text) (p : ℕ)
      → key ≢ j
      → SoundIf (slice_at j s) s.arrays
      → Apart (slice_at key s) (slice_at j s)
      → getbit j (pos p) (change_bit key (o / 8) (o % 8) v (b, t)).1 ≡ getbit j (pos p) s
  unfolding Wide getbit change_bit
  change_bit-other j p k h apart =
      let (sound, inside, store, (n, e), rest) = wide in
      let len = length-content b t.arrays sound in
      let (byte, at) = get_elem?_of_lt (content b t.arrays) (o / 8) (omega (arith, len, inside)) in
      let w = with_bit v (o % 8) byte in
      let there : slice_at j t ≡ slice_at j s = ap (λ d. and_then (lookup j d) as_bytes) store in
      let other : text_eq key j ≡ false = ground (arith, text_eq_iff key j, k) in
      rw
        (
          change_bit,
          at,
          slice_at-put,
          other,
          there,
          content_of-other (o / 8) w (slice_at j s) h apart,
        )
        refl

-- For a key whose value is a slice of an array that is there, or no byte slice at all: `SETBIT` returns the bit that `GETBIT` read at that offset, and after it `GETBIT` reads at every offset of the key what it read before, except that it reads 1 at the offset itself if the value is 1 and 0 there for every other value.
pub getbit-setbit :
    (key : Text) (o p : ℕ) (v : ℤ) (s : Tealis)
    → SoundIf (slice_at key s) s.arrays
    → ((setbit key (pos o) v s).0 ≡ ok (getbit key (pos o) s))
      × (getbit key (pos p) (setbit key (pos o) v s).1
          ≡ (if p == o then bit_value v else getbit key (pos p) s))
unfolding setbit
getbit-setbit key o p v s h =
    change_bit-bit key o v s _ _ (widened-Wide (o / 8) (slice_at key s) s h) p

-- `SETBIT` at a key leaves the bits of every other key whose value is no byte slice, or a slice of an array that is there and that is not the array of the first key's slice.
pub getbit-setbit_ne :
    (key j : Text) (o p : ℕ) (v : ℤ) (s : Tealis)
    → key ≢ j
    → SoundIf (slice_at key s) s.arrays
    → SoundIf (slice_at j s) s.arrays
    → Apart (slice_at key s) (slice_at j s)
    → getbit j (pos p) (setbit key (pos o) v s).1 ≡ getbit j (pos p) s
unfolding setbit
getbit-setbit_ne key j o p v s k h g apart =
    change_bit-other key o v s _ _ (widened-Wide (o / 8) (slice_at key s) s h) j p k g apart
