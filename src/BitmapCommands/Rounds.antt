-- ===== src/BitmapCommands/Rounds.antt =====
-- The rounds of `BITOP` of internal/storage/bitmap.go, on the arrays that slices share.
use tealis.Base.{
  ℕ, ◌-◌, ◌/◌, ◌%◌, ◌≤◌, ◌≡◌, ◌≢◌, refl, ap, ◌∙◌, List, some, ok, ltb, ltb→le, length, replicate,
  arith, length-append, length-replicate, inl, inr, Bool-cases,
}
use tealis.Value.{Slice}
use tealis.Tealis.{Tealis}
use tealis.Slices.{content, padded, alloc, store_all}
use tealis.Slices.Contents.{
  Sound, length-content, content-store_all, content-store_all_ne, store_all-Sound,
  store_all-Sound_other, content-alloc, alloc-Sound, content-alloc_old, alloc-Sound_old,
}
use tealis.BitmapCommands.{combine_all, widened_to, write_result, combine_with}
use tealis.BitmapCommands.Cells.{bit_at, bit_at-append_zeros}
use tealis.BitmapCommands.Operations.{LogicOp, op_name, on_bits, Combined, combine_all-Combined}

-- A state of the loop after a round or more: the store is as it was, and slices of other arrays show what they showed.
unfoldable pub Later : Slice → Tealis → Slice → Tealis → Type 0
Later b s c t =
    Sound c t.arrays
    × (t.store ≡ s.store)
    × ((d : Slice)
        → Sound d s.arrays
        → b.array ≢ d.array
        → Sound d t.arrays × (c.array ≢ d.array) × (content d t.arrays ≡ content d s.arrays))

pub Later-trans :
    (b : Slice) (s : Tealis) (c : Slice) (t : Tealis) (e : Slice) (u : Tealis)
    → Later b s c t
    → Later c t e u
    → Later b s e u
unfolding Later
Later-trans b s c t e u (h, store, rest) (g, store', rest') = (
  g,
  store' ∙ store,
  λ d sound apart.
      let (sound', apart', same) = rest d sound apart in
      let (sound'', apart'', same') = rest' d sound' apart' in (sound'', apart'', same' ∙ same),
)

pub Later-Sound :
    (b : Slice) (s : Tealis) (c : Slice) (t : Tealis) → Later b s c t → Sound c t.arrays
unfolding Later
Later-Sound b s c t h = h.0

-- `if len(result) < len(data)` makes the result wide enough and adds no bits.
widened_to-Later :
    (n : ℕ) (b : Slice) (s : Tealis)
    → Sound b s.arrays
    → (c : Slice) × ((t : Tealis) × ((widened_to n (b, s) ≡ (c, t))
          × Later b s c t
          × (n ≤ length (content c t.arrays))
          × ((p : ℕ) → bit_at (content c t.arrays) p ≡ bit_at (content b s.arrays) p)))
unfolding widened_to Later
widened_to-Later n b s h = elim (Bool-cases (ltb (length (content b s.arrays)) n)) [
  | inl l ↦
      let cells = padded (content b s.arrays) n in
      let shown = content-alloc cells s in
      (
        (alloc cells s).0,
        (
          (alloc cells s).1,
          (
            rw l refl,
            (
              alloc-Sound cells s,
              refl,
              λ d sound apart. (
                alloc-Sound_old d cells s sound,
                (λ e. omega (arith, e, sound.0)),
                content-alloc_old d cells s sound,
              ),
            ),
            rw shown (
                omega (
                  arith,
                  length-append (content b s.arrays)
                      (replicate (n - length (content b s.arrays)) 0),
                  length-replicate {A = ℕ} (n - length (content b s.arrays)) 0,
                )),
            λ p.
                rw shown
                  (bit_at-append_zeros (content b s.arrays) (n - length (content b s.arrays)) p),
          ),
        ),
      )
  | inr l ↦ (
    b,
    (s, (rw l refl, (h, refl, λ d sound apart. (sound, apart, refl)), ltb→le _ _ l, λ p. refl)),
  )
]

-- The same against bytes that may be fewer.
combine_all-padded :
    (o : LogicOp) (i : ℕ) (xs ys : List ℕ)
    → length ys ≤ length xs
    → (zs : List ℕ) × ((combine_all (op_name o) i xs (padded ys (length xs)) ≡ some zs)
        × (length zs ≡ length xs)
        × ((p : ℕ) → bit_at zs p ≡ on_bits o (bit_at xs p) (bit_at ys p)))
unfolding Combined
combine_all-padded o i xs ys h =
    let wide = replicate {A = ℕ} (length xs - length ys) 0 in
    let (zs, (e, len, same)) =
      combine_all-Combined o i xs (padded ys (length xs)) (
        omega (arith, length-append ys wide, length-replicate {A = ℕ} (length xs - length ys) 0)) in
    (
      zs,
      (
        e,
        len,
        λ p.
            same (p % 8) (p / 8)
            ∙ ap (on_bits o (bit_at xs p)) (bit_at-append_zeros ys (length xs - length ys) p),
      ),
    )

-- One round: the bits of the result are combined with those of the bytes given.
unfoldable pub Round : LogicOp → List ℕ → Slice → Tealis → Slice → Tealis → Type 0
Round o ys b s c t =
    Later b s c t
    × ((p : ℕ)
        → bit_at (content c t.arrays) p ≡ on_bits o (bit_at (content b s.arrays) p) (bit_at ys p))

store_all-Later :
    (cells : List ℕ) (b : Slice) (s : Tealis)
    → Sound b s.arrays
    → length cells ≡ b.len
    → Later b s b (store_all b cells s)
unfolding Later
store_all-Later cells b s h len = (
  store_all-Sound b s h cells len,
  refl,
  λ d sound apart. (
    store_all-Sound_other b d s apart cells sound,
    apart,
    content-store_all_ne b d s apart cells,
  ),
)

pub combine_with-Round :
    (o : LogicOp) (i : ℕ) (ys : List ℕ) (b : Slice) (s : Tealis)
    → Sound b s.arrays
    → (c : Slice) × ((t : Tealis) × ((combine_with (op_name o) i ys (widened_to (length ys) (b, s))
            ≡ (ok c, t))
          × Round o ys b s c t))
unfolding Round combine_with write_result
combine_with-Round o i ys b s h =
    let (c, (t, (e, later, wide, bits))) = widened_to-Later (length ys) b s h in
    let (zs, (f, len, same)) = combine_all-padded o i (content c t.arrays) ys wide in
    let sound : Sound c t.arrays = Later-Sound b s c t later in
    let size = length-content c t.arrays sound in
    (
      c,
      (
        store_all c zs t,
        (
          rw (e, combine_with, f) refl,
          (
            Later-trans b s c t c (store_all c zs t) later
                (store_all-Later zs c t sound (omega (arith, len, size))),
            λ p.
                rw (content-store_all c t sound zs (omega (arith, len, size)))
                  (same p ∙ ap (λ (x : ℕ). on_bits o x (bit_at ys p)) (bits p)),
          ),
        ),
      ),
    )
