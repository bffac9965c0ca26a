-- ===== src/BitfieldCommands/Values.antt =====
-- The bits of a value that internal/storage/bitfield.go writes and reads, and the value that they make.
use Prim.Native.Nat.{bit_and, max}
use native.Mathlib.Nat.{pow-suc}
use tealis.Base.{
  ℕ, zero, suc, ◌+◌, ◌-◌, ◌*◌, ◌/◌, ◌^◌, ◌≤◌, ◌<◌, ◌≡◌, refl, sym, ap, ◌∙◌, List, some, ok,
  if◌then◌else◌, length, ltb, leb, ◌==◌, ==_iff, ltb→lt, ltb→le, lt→ltb, inl, inr, ◌&&◌, Bool-cases,
  arith,
}
use tealis.Base.Bits.{
  digit, digit-zero, digit-bit_and, digit-pow, digit-eq-shift, bit_and-pow, ext_digit, eq_of_digits,
  lt_of_digits,
}
use tealis.Base.Int.{ℤ, pos, negsuc, ◌-ℤ◌, ◌≤ℤ◌}
use tealis.Base.Text.{Text, codes}
use tealis.BitfieldCommands.{int_bit, write_bits, read_bits, signed}
use tealis.BitfieldCommands.Places.{high_bit, write_bits-bits}
use tealis.BitfieldCommands.Reading.{read_bits-bits}

own_places :
    (size q k : ℕ) (f g : ℕ → ℕ)
    → max 0 (
        if ltb k size
        then (let p : ℕ = q + (size - 1 - k) in
            if leb q p && ltb p (q + size) then f (size - 1 - (p - q)) else g p)
        else 0)
      ≡ (if ltb k size then f k else 0)
own_places size q k f g = elim (Bool-cases (ltb k size)) [
  | inl l ↦
      let below = ltb→lt k size l in
      let place : size - 1 - (q + (size - 1 - k) - q) ≡ k = omega (arith, below) in
      rw (l, place) (ground (arith, below))
  | inr l ↦ rw l refl
]

module _ (size q : ℕ) (value : ℤ) (cells : List ℕ) (h : q + size ≤ 8 * length cells)
    (low : q + size < 2 ^ 63) where
  -- The two loops, one after the other.
  pub read-write :
      (new : List ℕ) × ((v : ℕ) × ((write_bits size (pos q) value cells ≡ some new)
          × (length new ≡ length cells)
          × (read_bits size (pos q) 0 new ≡ ok (inr v))
          × ((k : ℕ) → digit k v ≡ (if ltb k size then int_bit value k else 0))))
  read-write =
      let (new, (e, len, wrote)) = write_bits-bits size q value cells h low in
      let (v, (e', read)) = read_bits-bits size q 0 new (omega (arith, h, len)) low in
      (
        new,
        (
          v,
          (
            e,
            len,
            e',
            λ k.
                read k
                ∙ rw (digit-zero, wrote) (own_places size q k (int_bit value) (high_bit cells)),
          ),
        ),
      )

complement-digit : (m n k : ℕ) → n < 2 ^ m → k < m → digit k (2 ^ m - 1 - n) ≡ 1 - digit k n
complement-digit zero n k h g = absurd (omega arith)
complement-digit (suc m) n zero h g = omega (arith, pow-suc 2 m)
complement-digit (suc m) n (suc k) h g =
    let half : (2 ^ suc m - 1 - n) / 2 ≡ 2 ^ m - 1 - n / 2 = omega (arith, pow-suc 2 m) in
    rw half (complement-digit m (n / 2) k (omega (arith, pow-suc 2 m)) (omega arith))

-- What the types hold.
pub data BitType : Type 0 where
  i8 : BitType
  u16 : BitType

abbrev pub type_name : BitType → Text
type_name i8 = codes "i8"
type_name u16 = codes "u16"

abbrev pub InRange : BitType → ℤ → Type 0
InRange i8 v = (negsuc 127 ≤ℤ v) × (v ≤ℤ pos 127)
InRange u16 v = (pos 0 ≤ℤ v) × (v ≤ℤ pos 65535)

abbrev pub size_of : BitType → ℕ
size_of i8 = 8
size_of u16 = 16

-- The digits below `size` of a number of at most so many.
unfoldable pub Digits : ℕ → ℤ → ℕ → Type 0
Digits size value v = (k : ℕ) → digit k v ≡ (if ltb k size then int_bit value k else 0)

small : (size : ℕ) (value : ℤ) (v : ℕ) → Digits size value v → v < 2 ^ size
unfolding Digits
small size value v h = lt_of_digits size v (λ k l. h k ∙ ground (arith, l))

pos-Digits : (size n v : ℕ) → n < 2 ^ size → Digits size (pos n) v → v ≡ n
unfolding Digits int_bit
pos-Digits size n v l h =
    eq_of_digits size v n (small size (pos n) v h) l
      (λ k g. h k ∙ rw (lt→ltb k size g) (sym (digit-eq-shift k n)))

negsuc-Digits : (n v : ℕ) → n < 128 → Digits 8 (negsuc n) v → v ≡ 255 - n
unfolding Digits int_bit
negsuc-Digits n v l h = eq_of_digits 8 v (255 - n) (small 8 (negsuc n) v h) (omega arith) (λ k g.
    h k
    ∙ rw (lt→ltb k 8 g) (
        ap (λ (t : ℕ). 1 - t) (sym (digit-eq-shift k n))
        ∙ sym (complement-digit 8 n k (omega arith) g)))

clear_place : (i v : ℕ) → digit i v ≡ 0 → bit_and v (2 ^ i) ≡ 0
clear_place i v h = ext_digit (bit_and v (2 ^ i)) 0 (λ k.
    digit-bit_and k v (2 ^ i)
    ∙ rw (digit-pow, digit-zero)
        (elim (Bool-cases (k == i)) [
          | inl e ↦ (let same = (==_iff k i).0 e in rw same (ground (arith, h)))
          | inr e ↦ rw e (omega arith)
        ]))

-- `value & 128`
top_bit : (v : ℕ) → v < 256 → (bit_and v 128 == 0) ≡ ltb v 128
top_bit v l = elim (Bool-cases (ltb v 128)) [
  | inl s ↦
      (let none_left = clear_place 7 v (digit-eq-shift 7 v ∙ omega (arith, ltb→lt v 128 s)) in
        ground (arith, none_left))
  | inr s ↦
      (let there : bit_and v 128 / 128 ≡ 1 =
          bit_and-pow 7 v ∙ digit-eq-shift 7 v ∙ omega (arith, ltb→le v 128 s) in
        ground (arith, there))
]

pub signed-Digits :
    (t : BitType) (value : ℤ) (v : ℕ)
    → InRange t value
    → Digits (size_of t) value v
    → signed (size_of t) v ≡ value
unfolding signed ◌-ℤ◌
signed-Digits i8 (pos n) v h d =
    let same = pos-Digits 8 n v (omega (arith, h.1)) d in
    rw (top_bit v (omega (arith, same, h.1)), same) (ground (arith, h.1))
signed-Digits i8 (negsuc n) v h d =
    let same = negsuc-Digits n v (omega (arith, h.0)) d in
    rw (top_bit v (omega (arith, same)), same) (ground (arith, h.0))
signed-Digits u16 (pos n) v h d = ap pos (pos-Digits 16 n v (omega (arith, h.1)) d)
signed-Digits u16 (negsuc n) v h d = absurd (omega (arith, h.0))
