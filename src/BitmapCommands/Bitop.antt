-- ===== src/BitmapCommands/Bitop.antt =====
-- `BITOP` of internal/storage/bitmap.go as a whole: the result, bit by bit, and where it is kept.
use tealis.Base.{ℕ, ◌+◌, ◌≡◌, ◌≢◌, refl, ap, ◌∙◌, List, [], ◌∷◌, some, ok}
use tealis.Base.Int.{pos}
use tealis.Base.Text.{Text, text_eq_refl}
use tealis.Base.Dict.{lookup}
use tealis.Value.{Slice, as_bytes, and_then}
use tealis.Tealis.{Tealis}
use tealis.Slices.{slice_at, content}
use tealis.Slices.Contents.{Sound, slice_at-put}
use tealis.BitmapCommands.{
  getbit, combine_key, next_round, combine_keys, store_result, bitop_from, bitop,
}
use tealis.BitmapCommands.Cells.{bit_at}
use tealis.BitmapCommands.Operations.{LogicOp, op_name, on_bits}
use tealis.BitmapCommands.Rounds.{Later, Round, Later-trans, Later-Sound, combine_with-Round}

-- The keys have slices of arrays that are there, and not of the array of `b`.
abbrev pub AllApart : Slice → List Text → Tealis → Type 0
AllApart b [] s = Unit
AllApart b (key ∷ keys) s =
    ((d : Slice) × ((slice_at key s ≡ some d) × (Sound d s.arrays) × (b.array ≢ d.array)))
    × AllApart b keys s

-- The bits of the keys at a place, combined from the left.
abbrev pub bits_of : LogicOp → ℕ → ℕ → List Text → Tealis → ℕ
bits_of o p bit [] s = bit
bits_of o p bit (key ∷ keys) s = bits_of o p (on_bits o bit (getbit key (pos p) s)) keys s

slice_at-Later :
    (key : Text) (b : Slice) (s : Tealis) (c : Slice) (t : Tealis)
    → Later b s c t
    → slice_at key t ≡ slice_at key s
unfolding Later
slice_at-Later key b s c t (sound, store, rest) = ap (λ d. and_then (lookup key d) as_bytes) store

-- A later state has the other keys' slices, and they read the same.
Later-AllApart :
    (b : Slice) (s : Tealis) (c : Slice) (t : Tealis) (keys : List Text)
    → Later b s c t
    → AllApart b keys s
    → AllApart c keys t
      × ((o : LogicOp) (p bit : ℕ) → bits_of o p bit keys t ≡ bits_of o p bit keys s)
unfolding Later getbit
Later-AllApart b s c t [] later h = (tt, λ o p bit. refl)
Later-AllApart b s c t (key ∷ keys) later ((d, (at, sound, apart)), h) =
    let (now, store, others) = later in
    let (sound', apart', same) = others d sound apart in
    let (rest, bits) = Later-AllApart b s c t keys later h in
    let there : slice_at key t ≡ some d = slice_at-Later key b s c t later ∙ at in
    (((d, (there, sound', apart')), rest), λ o p bit. rw (there, same, at) (bits o p _))

-- The loop from the second key on.
combine_keys-bits :
    (o : LogicOp) (i : ℕ) (keys : List Text) (b : Slice) (s : Tealis)
    → Sound b s.arrays
    → AllApart b keys s
    → (c : Slice) × ((t : Tealis) × ((combine_keys (op_name o) i keys (b, s) ≡ (ok c, t))
          × Later b s c t
          × ((p : ℕ)
              → bit_at (content c t.arrays) p
                ≡ bits_of o p (bit_at (content b s.arrays) p) keys s)))
unfolding combine_keys combine_key next_round Later Round getbit
combine_keys-bits o i [] b s sound h =
    (b, (s, (refl, (sound, refl, λ d sound' apart. (sound', apart, refl)), λ p. refl)))
combine_keys-bits o i (key ∷ keys) b s sound ((d, (at, sound', apart)), h) =
    let (c, (t, (e, round))) = combine_with-Round o i (content d s.arrays) b s sound in
    let (later, bits) = round in
    let (still, same) = Later-AllApart b s c t keys later h in
    let (c', (t', (e', later', bits'))) =
      combine_keys-bits o (i + 1) keys c t (Later-Sound b s c t later) still in
    (
      c',
      (
        t',
        (
          rw (at, e, e') refl,
          Later-trans b s c t c' t' later later',
          λ p. bits' p ∙ rw (bits, same, at) refl,
        ),
      ),
    )

-- The loop from the first key on, which is combined with itself.
all_keys-bits :
    (o : LogicOp) (first : Text) (keys : List Text) (b : Slice) (s : Tealis)
    → slice_at first s ≡ some b
    → Sound b s.arrays
    → AllApart b keys s
    → (c : Slice) × ((t : Tealis) × ((combine_keys (op_name o) 0 (first ∷ keys) (b, s) ≡ (ok c, t))
          × ((p : ℕ)
              → bit_at (content c t.arrays) p
                ≡ bits_of o p
                    (on_bits o (getbit first (pos p) s) (getbit first (pos p) s))
                    keys
                    s)))
unfolding combine_keys combine_key next_round Round getbit
all_keys-bits o first keys b s at sound h =
    let (c, (t, (e, round))) = combine_with-Round o 0 (content b s.arrays) b s sound in
    let (later, bits) = round in
    let (still, same) = Later-AllApart b s c t keys later h in
    let (c', (t', (e', later', bits'))) =
      combine_keys-bits o 1 keys c t (Later-Sound b s c t later) still in
    (c', (t', (rw (at, e, e') refl, λ p. bits' p ∙ rw (bits, same, at) refl)))

-- `BITOP` of AND, OR or XOR where the first key's value is a slice of an array that is there, and every other key's is one too, of another array than the first's: it does not panic, and each bit of the destination is the bits of the keys combined from the left, a key that is too short giving 0, where the first key's bit is combined with itself before the others. (So for XOR the first key does not count.)
pub bitop-getbit :
    (o : LogicOp) (dest first : Text) (rest : List Text) (b : Slice) (s : Tealis) (p : ℕ)
    → slice_at first s ≡ some b
    → Sound b s.arrays
    → AllApart b rest s
    → ((bitop (op_name o) dest (first ∷ rest) s).0 ≡ ok tt)
      × (getbit dest (pos p) (bitop (op_name o) dest (first ∷ rest) s).1
          ≡ bits_of o p (on_bits o (getbit first (pos p) s) (getbit first (pos p) s)) rest s)
unfolding bitop bitop_from store_result getbit
bitop-getbit o dest first rest b s p at sound h =
    let (c, (t, (e, bits))) = all_keys-bits o first rest b s at sound h in
    rw (at, bitop_from, e, store_result, slice_at-put, text_eq_refl) (refl, bits p ∙ rw at refl)
