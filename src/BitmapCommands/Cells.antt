-- ===== src/BitmapCommands/Cells.antt =====
-- The bits of a bitmap as cells: what `SETBIT` of internal/storage/bitmap.go leaves for `GETBIT`.
use Prim.Native.Nat.{differ, min, bit_and, bit_xor}
use tealis.Base.{
  ℕ, zero, suc, false, ◌-◌, ◌/◌, ◌%◌, ◌^◌, ◌≤◌, ◌<◌, ◌≡◌, ◌≢◌, refl, sym, ap, ◌∙◌, List, [], ◌∷◌,
  ◌++◌, none, some, if◌then◌else◌, ltb, ◌==◌, ==_iff, length, get_elem?, set, replicate, arith,
  get_elem?-append, get_elem?-set_self, get_elem?-set_ne, inl, inr, Bool-cases, ltb→le,
}
use tealis.Base.Bits.{
  digit, digit-le-one, digit-zero, digit-bit_and, digit-bit_or, digit-bit_xor, digit-pow,
  digit-eq-shift, bit_and-one, bit_and-pow,
}
use tealis.Base.Int.{ℤ, pos, negsuc}
use tealis.BitmapCommands.{with_bit, masked_bit, shifted_bit, bit_of}

-- The bit at a place.
abbrev pub bit_at : List ℕ → ℕ → ℕ
bit_at cells p = bit_of (p % 8) (get_elem? cells (p / 8))

-- `value == 1`
abbrev pub bit_value : ℤ → ℕ
bit_value (pos (suc zero)) = 1
bit_value _ = 0

pub shifted_bit_lem : (k byte : ℕ) → shifted_bit k byte ≡ digit k byte
unfolding shifted_bit
shifted_bit_lem k byte = bit_and-one (byte / 2 ^ k) ∙ sym (digit-eq-shift k byte)

pub masked_bit_lem : (k byte : ℕ) → masked_bit k byte ≡ digit k byte
unfolding masked_bit
masked_bit_lem k byte = bit_and-pow k byte

-- `&^=` clears a digit.
cleared : (d : ℕ) → d ≤ 1 → (differ d (min d 1) ≡ 0) × (differ d (min d 0) ≡ d)
cleared zero h = (refl, refl)
cleared (suc zero) h = (refl, refl)
cleared (suc (suc d)) h = absurd (omega arith)

cleared_bit :
    (k i byte : ℕ)
    → digit k (bit_xor byte (bit_and byte (2 ^ i))) ≡ (if k == i then 0 else digit k byte)
cleared_bit k i byte =
    let c = cleared (digit k byte) (digit-le-one k byte) in
    rw (digit-bit_xor, digit-bit_and, digit-pow)
      (elim (Bool-cases (k == i)) [ inl h ↦ rw h c.0 | inr h ↦ rw h c.1 ])

digit-with_bit :
    (v : ℤ) (k i byte : ℕ)
    → digit k (with_bit v i byte) ≡ (if k == i then bit_value v else digit k byte)
unfolding with_bit
digit-with_bit (pos zero) k i byte = cleared_bit k i byte
digit-with_bit (pos (suc zero)) k i byte =
    rw (digit-bit_or, digit-pow) (ground (arith, digit-le-one k byte))
digit-with_bit (pos (suc (suc n))) k i byte = cleared_bit k i byte
digit-with_bit (negsuc n) k i byte = cleared_bit k i byte

-- What one write leaves at each place.
pub bit_at-set :
    (cells : List ℕ) (o p byte : ℕ) (v : ℤ)
    → get_elem? cells (o / 8) ≡ some byte
    → o / 8 < length cells
    → bit_at (set cells (o / 8) (with_bit v (o % 8) byte)) p
      ≡ (if p == o then bit_value v else bit_at cells p)
bit_at-set cells o p byte v e l = elim (Bool-cases (o / 8 == p / 8)) [
  | inl h ↦
      let same = (==_iff (o / 8) (p / 8)).0 h in
      let new : get_elem? (set cells (o / 8) (with_bit v (o % 8) byte)) (p / 8)
          ≡ some (with_bit v (o % 8) byte) =
        rw (sym same) (get_elem?-set_self cells (o / 8) _ l) in
      let old : get_elem? cells (p / 8) ≡ some byte = rw (sym same) e in
      let places : (p % 8 == o % 8) ≡ (p == o) = ground (arith, same) in
      rw (new, old, shifted_bit_lem (p % 8) (with_bit v (o % 8) byte), digit-with_bit, places)
        (ap (λ (t : ℕ). if p == o then bit_value v else t) (sym (shifted_bit_lem (p % 8) byte)))
  | inr h ↦
      let apart : o / 8 ≢ p / 8 = λ q. ground (arith, ==_iff (o / 8) (p / 8)) in
      let other : (p == o) ≡ false = ground (arith, apart) in
      rw (get_elem?-set_ne cells (o / 8) (p / 8) (with_bit v (o % 8) byte) apart, other) refl
]

get_elem?_of_le : (cells : List ℕ) (i : ℕ) → length cells ≤ i → get_elem? cells i ≡ none
get_elem?_of_le [] i h = refl
get_elem?_of_le (c ∷ cells) zero h = absurd (omega arith)
get_elem?_of_le (c ∷ cells) (suc i) h = get_elem?_of_le cells i (omega arith)

bit_of_zeros : (bit n i : ℕ) → bit_of bit (get_elem? (replicate n 0) i) ≡ 0
bit_of_zeros bit zero i = refl
bit_of_zeros bit (suc n) zero = shifted_bit_lem bit 0 ∙ digit-zero bit
bit_of_zeros bit (suc n) (suc i) = bit_of_zeros bit n i

-- Zeros at the end are not seen.
pub bit_at-append_zeros :
    (cells : List ℕ) (n p : ℕ) → bit_at (cells ++ replicate n 0) p ≡ bit_at cells p
bit_at-append_zeros cells n p =
    rw (get_elem?-append (p / 8) cells (replicate n 0))
      (elim (Bool-cases (ltb (p / 8) (length cells))) [
        | inl h ↦ rw h refl
        | inr h ↦
            rw (h, get_elem?_of_le cells (p / 8) (omega (arith, h, ltb→le)))
              (bit_of_zeros (p % 8) n (p / 8 - length cells))
      ])
