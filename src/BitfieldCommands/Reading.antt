-- ===== src/BitfieldCommands/Reading.antt =====
-- The loop of `getBitfieldValue` (internal/storage/bitfield.go), bit by bit.
use Prim.Native.Nat.{bit_and, bit_or, max}
use tealis.Base.{
  ℕ, zero, suc, ◌+◌, ◌-◌, ◌*◌, ◌/◌, ◌%◌, ◌^◌, ◌≤◌, ◌<◌, ◌≡◌, refl, sym, ◌∙◌, List, ok,
  if◌then◌else◌, length, get_elem?, ltb, ◌==◌, ==_iff, ltb→lt, ltb→le, inl, inr, Bool-cases, arith,
}
use tealis.Base.Bits.{
  digit, digit-le-one, digit-zero, digit-bit_or, digit-pow, digit-eq-shift, bit_and-one,
}
use tealis.Base.Int.{pos}
use tealis.BitfieldCommands.{place_of, read_place, read_bits}
use tealis.BitfieldCommands.Places.{bit_in, high_bit, get_elem?_of_lt, next_place}

digit-shifted : (k n bit : ℕ) → bit ≤ 1 → digit k (bit * 2 ^ n) ≡ (if k == n then bit else 0)
digit-shifted k n zero h =
    let none_set : 0 * 2 ^ n ≡ 0 = omega arith in rw none_set (digit-zero k ∙ ground arith)
digit-shifted k n (suc zero) h =
    let one_set : 1 * 2 ^ n ≡ 2 ^ n = omega arith in rw one_set (digit-pow k n)
digit-shifted k n (suc (suc bit)) h = absurd (omega arith)

read_step :
    (left k q a : ℕ) (f : ℕ → ℕ)
    → max
        (max a (if k == left then f q else 0))
        (if ltb k left then f (q + 1 + (left - 1 - k)) else 0)
      ≡ max a (if ltb k (suc left) then f (q + (suc left - 1 - k)) else 0)
read_step left k q a f = elim (Bool-cases (k == left)) [
  | inl e ↦
      let same = (==_iff k left).0 e in
      let place : q + (suc left - 1 - k) ≡ q = omega (arith, same) in
      rw place (ground (arith, same))
  | inr e ↦ elim (Bool-cases (ltb k left)) [
    | inl l ↦
        let below = ltb→lt k left l in
        let place : q + (suc left - 1 - k) ≡ q + 1 + (left - 1 - k) = omega (arith, below) in
        rw place (ground (arith, below))
    | inr l ↦ ground (arith, e, ltb→le k left l)
  ]
]

-- What the loop of `getBitfieldValue` reads: the bits of the places, the first one highest, over those of `acc`.
pub read_bits-bits :
    (left q acc : ℕ) (cells : List ℕ)
    → q + left ≤ 8 * length cells
    → q + left < 2 ^ 63
    → (v : ℕ) × ((read_bits left (pos q) acc cells ≡ ok (inr v))
        × ((k : ℕ)
            → digit k v
              ≡ max (digit k acc) (if ltb k left then high_bit cells (q + (left - 1 - k)) else 0)))
unfolding read_bits place_of read_place
read_bits-bits zero q acc cells h small = (acc, (refl, λ k. ground arith))
read_bits-bits (suc left) q acc cells h small =
    let (byte, at) = get_elem?_of_lt cells (q / 8) (omega arith) in
    let bit = bit_and (byte / 2 ^ (7 - q % 8)) 1 in
    let same : bit ≡ high_bit cells q =
      bit_and-one (byte / 2 ^ (7 - q % 8)) ∙ sym (digit-eq-shift (7 - q % 8) byte) ∙ rw at refl in
    let at_most : bit_in (7 - q % 8) (get_elem? cells (q / 8)) ≤ 1 =
      rw at (digit-le-one (7 - q % 8) byte) in
    let (v, (e, bits)) =
      read_bits-bits left (q + 1) (bit_or acc (bit * 2 ^ left)) cells (omega arith) (omega arith) in
    (
      v,
      (
        rw (read_bits, read_place, at, next_place q (omega arith), e) refl,
        λ k.
            bits k
            ∙ rw
                (
                  digit-bit_or,
                  digit-shifted k left bit
                      (omega (arith, same, digit-le-one (7 - q % 8) byte, at_most)),
                  same,
                )
                (read_step left k q (digit k acc) (high_bit cells)),
      ),
    )
