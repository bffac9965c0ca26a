-- ===== src/BitfieldCommands/Places.antt =====
-- The loop of `setBitfieldValue` (internal/storage/bitfield.go), bit by bit.
use tealis.Base.{
  ℕ, zero, suc, ◌+◌, ◌-◌, ◌*◌, ◌/◌, ◌%◌, ◌^◌, ◌≤◌, ◌<◌, ◌≡◌, ◌≢◌, refl, sym, ◌∙◌, List, [], ◌∷◌,
  Option, none, some, if◌then◌else◌, length, get_elem?, set, ltb, leb, ◌==◌, ==_iff, ltb→lt, ltb→le,
  inl, inr, false, ◌&&◌, Bool-cases, arith, get_elem?-set_self, get_elem?-set_ne, length-set,
}
use native.Mathlib.Nat.{pow-suc, pow-le-pow_right, one-le-pow}
use tealis.Base.Bits.{digit, digit-le-one, digit-bit_and, digit-bit_or, digit-pow}
use tealis.Base.Int.{ℤ, pos, negsuc, ◌+ℤ◌, wrap64}
use tealis.BitfieldCommands.{int_bit, put_bit, write_place, place_of, write_bits}

-- `2 ^ n - 1` has the digit 1 at each place below `n`, and without `2 ^ k` it has 0 at `k`.
digit-ones : (n j : ℕ) → j < n → digit j (2 ^ n - 1) ≡ 1
digit-ones zero j h = absurd (omega arith)
digit-ones (suc n) zero h = omega (arith, pow-suc 2 n, one-le-pow n 2 (omega arith))
digit-ones (suc n) (suc j) h =
    let half : (2 ^ suc n - 1) / 2 ≡ 2 ^ n - 1 =
      omega (arith, pow-suc 2 n, one-le-pow n 2 (omega arith)) in
    rw half (digit-ones n j (omega arith))

two_pow_lt : (k n : ℕ) → k < n → 2 ^ k < 2 ^ n
two_pow_lt k n h =
    let g : 2 ^ suc k ≤ 2 ^ n = pow-le-pow_right (omega arith) h in
    omega (arith, pow-suc 2 k, one-le-pow k 2 (omega arith), g)

digit-mask : (n k j : ℕ) → k < n → j < n → digit j (2 ^ n - 1 - 2 ^ k) ≡ (if j == k then 0 else 1)
digit-mask zero k j h g = absurd (omega arith)
digit-mask (suc n) zero zero h g = omega (arith, pow-suc 2 n, one-le-pow n 2 (omega arith))
digit-mask (suc n) zero (suc j) h g =
    let half : (2 ^ suc n - 1 - 1) / 2 ≡ 2 ^ n - 1 =
      omega (arith, pow-suc 2 n, one-le-pow n 2 (omega arith)) in
    rw half (digit-ones n j (omega arith) ∙ ground arith)
digit-mask (suc n) (suc k) zero h g =
    ground
      (arith, pow-suc 2 n, pow-suc 2 k, one-le-pow k 2 (omega arith), two_pow_lt k n (omega arith))
digit-mask (suc n) (suc k) (suc j) h g =
    let half : (2 ^ suc n - 1 - 2 ^ suc k) / 2 ≡ 2 ^ n - 1 - 2 ^ k =
      omega (arith, pow-suc 2 n, pow-suc 2 k) in
    rw half (digit-mask n k j (omega arith) (omega arith) ∙ ground arith)

-- One bit of a byte is written, and the others are as before.
digit-put_bit :
    (bit k j byte : ℕ)
    → bit ≤ 1
    → k < 8
    → j < 8
    → digit j (put_bit bit k byte) ≡ (if j == k then bit else digit j byte)
unfolding put_bit
digit-put_bit zero k j byte h g l =
    rw (digit-bit_and, digit-mask 8 k j g l) (ground (arith, digit-le-one j byte))
digit-put_bit (suc zero) k j byte h g l =
    rw (digit-bit_or, digit-pow) (ground (arith, digit-le-one j byte))
digit-put_bit (suc (suc n)) k j byte h g l = absurd (omega arith)

-- The bit at a place, counted from the high end of each byte.
abbrev pub bit_in : ℕ → Option ℕ → ℕ
bit_in shift none = 0
bit_in shift (some byte) = digit shift byte

abbrev pub high_bit : List ℕ → ℕ → ℕ
high_bit cells q = bit_in (7 - q % 8) (get_elem? cells (q / 8))

int_bit-le-one : (v : ℤ) (k : ℕ) → int_bit v k ≤ 1
unfolding int_bit
int_bit-le-one (pos n) k = omega arith
int_bit-le-one (negsuc n) k = omega arith

pub get_elem?_of_lt :
    (cells : List ℕ) (i : ℕ) → i < length cells → (byte : ℕ) × (get_elem? cells i ≡ some byte)
get_elem?_of_lt [] i h = absurd (omega arith)
get_elem?_of_lt (c ∷ cells) zero h = (c, refl)
get_elem?_of_lt (c ∷ cells) (suc i) h = get_elem?_of_lt cells i (omega arith)

-- One write.
Written : List ℕ → ℕ → ℕ → List ℕ → Type 0
Written cells q bit new =
    (write_place (place_of (pos q)) bit cells ≡ some new)
    × (length new ≡ length cells)
    × ((p : ℕ) → high_bit new p ≡ (if p == q then bit else high_bit cells p))

write_place-Written :
    (cells : List ℕ) (q bit : ℕ)
    → bit ≤ 1
    → q < 8 * length cells
    → (new : List ℕ) × Written cells q bit new
unfolding Written place_of write_place
write_place-Written cells q bit h l =
    let (byte, at) = get_elem?_of_lt cells (q / 8) (omega arith) in
    let fresh = put_bit bit (7 - q % 8) byte in
    let new = set cells (q / 8) fresh in
    (
      new,
      (
        rw (write_place, at) refl,
        length-set cells (q / 8) fresh,
        λ p. elim (Bool-cases (q / 8 == p / 8)) [
          | inl e ↦
              let same = (==_iff (q / 8) (p / 8)).0 e in
              let there : get_elem? new (p / 8) ≡ some fresh =
                rw (sym same) (get_elem?-set_self cells (q / 8) fresh (omega arith)) in
              let old : get_elem? cells (p / 8) ≡ some byte = rw (sym same) at in
              let places : (7 - p % 8 == 7 - q % 8) ≡ (p == q) = ground (arith, same) in
              rw
                (
                  there,
                  old,
                  digit-put_bit bit (7 - q % 8) (7 - p % 8) byte h (omega arith) (omega arith),
                  places,
                )
                refl
          | inr e ↦
              let apart : q / 8 ≢ p / 8 = λ r. ground (arith, ==_iff (q / 8) (p / 8)) in
              let other : (p == q) ≡ false = ground (arith, apart) in
              rw (get_elem?-set_ne cells (q / 8) (p / 8) fresh apart, other) refl
        ],
      ),
    )

pub next_place : (q : ℕ) → q + 1 < 2 ^ 63 → wrap64 (pos q +ℤ pos 1) ≡ pos (q + 1)
unfolding ◌+ℤ◌ wrap64
next_place q h = ground arith

-- The first place of a stretch, and those after it.
two_steps :
    (left q p old : ℕ) (f : ℕ → ℕ)
    → (if leb (q + 1) p && ltb p (q + 1 + left)
        then f (left - 1 - (p - (q + 1)))
        else if p == q
        then f left
        else old)
      ≡ (if leb q p && ltb p (q + suc left) then f (suc left - 1 - (p - q)) else old)
two_steps left q p old f = elim (Bool-cases (p == q)) [
  | inl e ↦
      (let same = (==_iff p q).0 e in
        let zero_on : suc left - 1 - (p - q) ≡ left = omega (arith, same) in
        rw zero_on (ground (arith, same)))
  | inr e ↦ elim (Bool-cases (ltb p q)) [
    | inl l ↦ ground (arith, ltb→lt p q l)
    | inr l ↦
        (let step : suc left - 1 - (p - q) ≡ left - 1 - (p - (q + 1)) =
            ground (arith, e, ltb→le p q l) in
          rw step (ground (arith, e)))
  ]
]

-- What the whole loop writes.
pub write_bits-bits :
    (left q : ℕ) (value : ℤ) (cells : List ℕ)
    → q + left ≤ 8 * length cells
    → q + left < 2 ^ 63
    → (new : List ℕ) × ((write_bits left (pos q) value cells ≡ some new)
        × (length new ≡ length cells)
        × ((p : ℕ)
            → high_bit new p ≡ (
                if leb q p && ltb p (q + left)
                then int_bit value (left - 1 - (p - q))
                else high_bit cells p)))
unfolding Written write_bits
write_bits-bits zero q value cells h small = (cells, (refl, refl, λ p. ground arith))
write_bits-bits (suc left) q value cells h small =
    let (mid, (e, len, one)) =
      write_place-Written cells q (int_bit value left) (int_bit-le-one value left) (omega arith) in
    let (new, (e', len', rest)) =
      write_bits-bits left (q + 1) value mid (omega (arith, len)) (omega arith) in
    (
      new,
      (
        rw (write_bits, e, next_place q (omega arith), e') refl,
        len' ∙ len,
        λ p. rest p ∙ rw one (two_steps left q p (high_bit cells p) (int_bit value)),
      ),
    )
