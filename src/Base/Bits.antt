-- ===== src/Base/Bits.antt =====
-- The binary digits of a number, and what Go's `&`, `|` and `^` do to them.
use tealis.Base.Tests.{◌==◌, if◌then◌else◌}
use Prim.Native.Nat.{
  ℕ, differ, zero, suc, ◌+◌, ◌*◌, ◌/◌, ◌%◌, ◌^◌, ◌≤◌, ◌<◌, min, max, digits, bit_and, bit_or,
  bit_xor, bit_and-bitwise, bit_or-bitwise, bit_xor-bitwise,
}
use mathlib.Core.Path.{◌≡◌, refl, sym, ap, ◌∙◌}
use native.Mathlib.Nat.{pow-suc, div-div-eq-div-mul}
use native.Mathlib.Omega.{arith}

-- The digit of place `k`, the lowest at place 0.
abbrev pub digit : ℕ → ℕ → ℕ
digit zero a = a % 2
digit (suc k) a = digit k (a / 2)

pub digit-le-one : (k a : ℕ) → digit k a ≤ 1
digit-le-one zero a = omega arith
digit-le-one (suc k) a = digit-le-one k (a / 2)

pub digit-zero : (k : ℕ) → digit k 0 ≡ 0
digit-zero zero = refl
digit-zero (suc k) = digit-zero k

-- A native operation works place by place: on what its fuel reaches, and on the rest by `z`.
module _ (z : ℕ → ℕ) (f : ℕ → ℕ → ℕ) (rest : (k b : ℕ) → digit k (z b) ≡ f 0 (digit k b))
    (small : (a b : ℕ) → a ≤ 1 → b ≤ 1 → f a b ≤ 1) where
  digit-digits : (k n a b : ℕ) → a ≤ n → digit k (digits z f n a b) ≡ f (digit k a) (digit k b)
  digit-digits k zero zero b h = rest k b ∙ rw digit-zero
  digit-digits k (suc n) zero b h = rest k b ∙ rw digit-zero
  digit-digits zero (suc n) (suc a) b h =
      omega (arith, small (suc a % 2) (b % 2) (omega arith) (omega arith))
  digit-digits (suc k) (suc n) (suc a) b h =
      let low = small (suc a % 2) (b % 2) (omega arith) (omega arith) in
      let half : (digits z f n (suc a / 2) (b / 2) * 2 + f (suc a % 2) (b % 2)) / 2
          ≡ digits z f n (suc a / 2) (b / 2) =
        omega (arith, low) in
      rw half (digit-digits k n (suc a / 2) (b / 2) (omega arith))
  digit-digits k zero (suc a) b h = absurd (omega arith)

differ-le-one : (a b : ℕ) → a ≤ 1 → b ≤ 1 → differ a b ≤ 1
differ-le-one zero b h g = g
differ-le-one (suc a) zero h g = h
differ-le-one (suc a) (suc b) h g = differ-le-one a b (omega arith) (omega arith)

pub digit-bit_and : (k a b : ℕ) → digit k (bit_and a b) ≡ min (digit k a) (digit k b)
digit-bit_and k a b = rw bit_and-bitwise (
    digit-digits (λ b. 0) min (λ k b. rw digit-zero (omega arith)) (λ a b h g. omega arith) k a a b
      (omega arith))

pub digit-bit_or : (k a b : ℕ) → digit k (bit_or a b) ≡ max (digit k a) (digit k b)
digit-bit_or k a b =
    rw bit_or-bitwise (
      digit-digits (λ b. b) max (λ k b. omega arith) (λ a b h g. omega arith) k a a b (omega arith))

pub digit-bit_xor : (k a b : ℕ) → digit k (bit_xor a b) ≡ differ (digit k a) (digit k b)
digit-bit_xor k a b =
    rw bit_xor-bitwise
      (digit-digits (λ b. b) differ (λ k b. refl) differ-le-one k a a b (omega arith))

pow-suc_left : (k : ℕ) → 2 ^ suc k ≡ 2 * 2 ^ k
pow-suc_left k = omega (arith, pow-suc 2 k)

two_pow_half : (k : ℕ) → 2 ^ suc k / 2 ≡ 2 ^ k
two_pow_half k = omega (arith, pow-suc 2 k)

-- A power of two has one digit.
pub digit-pow : (k i : ℕ) → digit k (2 ^ i) ≡ (if k == i then 1 else 0)
digit-pow zero zero = refl
digit-pow (suc k) zero = rw digit-zero (ground arith)
digit-pow zero (suc i) = ground (arith, pow-suc 2 i)
digit-pow (suc k) (suc i) = rw two_pow_half (digit-pow k i ∙ ground arith)

-- A shift to the right.
pub digit-eq-shift : (k a : ℕ) → digit k a ≡ a / 2 ^ k % 2
digit-eq-shift zero a = omega arith
digit-eq-shift (suc k) a =
    digit-eq-shift k (a / 2)
    ∙ ap (λ (t : ℕ). t % 2)
        (div-div-eq-div-mul a 2 (2 ^ k) ∙ ap (λ (t : ℕ). a / t) (omega (arith, pow-suc 2 k)))

-- Numbers of at most `n` digits are told apart by them.
pub eq_of_digits :
    (n a b : ℕ) → a < 2 ^ n → b < 2 ^ n → ((k : ℕ) → k < n → digit k a ≡ digit k b) → a ≡ b
eq_of_digits zero a b h g e = omega arith
eq_of_digits (suc n) a b h g e =
    let halves =
      eq_of_digits n (a / 2) (b / 2) (omega (arith, pow-suc 2 n)) (omega (arith, pow-suc 2 n))
        (λ k l. e (suc k) (omega arith)) in
    omega (arith, halves, e 0 (omega arith))

-- Digits from place `n` on are 0 in a number below `2 ^ n`, and this is all that such a number needs.
pub digit_of_lt : (n k a : ℕ) → a < 2 ^ n → n ≤ k → digit k a ≡ 0
digit_of_lt zero k a h g = let e : a ≡ 0 = omega arith in rw e (digit-zero k)
digit_of_lt (suc n) (suc k) a h g =
    digit_of_lt n k (a / 2) (omega (arith, pow-suc 2 n)) (omega arith)
digit_of_lt (suc n) zero a h g = absurd (omega arith)

lt-two-pow : (n a : ℕ) → a ≤ n → a < 2 ^ n
lt-two-pow zero a h = omega arith
lt-two-pow (suc n) a h = omega (arith, lt-two-pow n n (omega arith), pow-suc 2 n)

-- Numbers are told apart by their digits.
pub ext_digit : (a b : ℕ) → ((k : ℕ) → digit k a ≡ digit k b) → a ≡ b
ext_digit a b h =
    eq_of_digits (a + b) a b (lt-two-pow (a + b) a (omega arith))
      (lt-two-pow (a + b) b (omega arith)) (λ k l. h k)

pub lt_of_digits : (n a : ℕ) → ((k : ℕ) → n ≤ k → digit k a ≡ 0) → a < 2 ^ n
lt_of_digits zero a h =
    let none_left = ext_digit a 0 (λ k. h k (omega arith) ∙ sym (digit-zero k)) in
    omega (arith, none_left)
lt_of_digits (suc n) a h =
    omega (arith, lt_of_digits n (a / 2) (λ k l. h (suc k) (omega arith)), pow-suc 2 n)

-- `a & 1`
pub bit_and-one : (a : ℕ) → bit_and a 1 ≡ a % 2
bit_and-one a =
    let low =
      lt_of_digits 1 (bit_and a 1)
        (λ k l. digit-bit_and k a 1 ∙ rw (digit_of_lt 1 k 1 (omega arith) l) (omega arith)) in
    omega (arith, low, digit-bit_and 0 a 1)

-- `(a & 1 << k) >> k`
pub bit_and-pow : (k a : ℕ) → bit_and a (2 ^ k) / 2 ^ k ≡ digit k a
bit_and-pow zero a = rw bit_and-one (omega arith)
bit_and-pow (suc k) a =
    let half : bit_and a (2 ^ suc k) / 2 ≡ bit_and (a / 2) (2 ^ k) = ext_digit _ _ (λ i.
      digit-bit_and (suc i) a (2 ^ suc k)
      ∙ rw (two_pow_half k) (sym (digit-bit_and i (a / 2) (2 ^ k)))) in
    ap (λ (t : ℕ). bit_and a (2 ^ suc k) / t) (pow-suc_left k)
    ∙ sym (div-div-eq-div-mul (bit_and a (2 ^ suc k)) 2 (2 ^ k))
    ∙ ap (λ (t : ℕ). t / 2 ^ k) half
    ∙ bit_and-pow k (a / 2)
