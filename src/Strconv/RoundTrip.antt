-- ===== src/Strconv/RoundTrip.antt =====
-- `Atoi` reads back what `Itoa` writes, and never leaves the range of a 64-bit int.
use native.Mathlib.Nat.{pow-suc}
use tealis.Base.{
  ℕ, zero, suc, ◌+◌, ◌-◌, ◌*◌, ◌/◌, ◌%◌, ◌^◌, ◌<◌, [], ◌∷◌, ◌++◌, append_assoc, append-nil, Option,
  none, some, ◌≡◌, ap, ◌∙◌, inl, inr, arith, ltb, Bool-cases, ltb→lt, ◌==◌,
}
use tealis.Base.Int.{ℤ, pos, negsuc, IsInt64}
use tealis.Base.Text.{Text}
use tealis.Strconv.{
  format_digits, itoa, parse_digits, parse_natural, in_range_pos, in_range_neg, atoi,
}

parse_digits-cons :
    (acc d : ℕ) (s : Text)
    → d < 10
    → parse_digits acc ((48 + d) ∷ s) ≡ parse_digits (acc * 10 + d) s
unfolding parse_digits
parse_digits-cons acc d s h =
    let e : acc * 10 + (48 + d - 48) ≡ acc * 10 + d = omega arith in rw e (ground arith)

-- One digit more needs ten times the room.
div_ten_bound : (fuel n : ℕ) → n < 10 ^ suc fuel → n / 10 < 10 ^ fuel
div_ten_bound fuel n h = omega (arith, pow-suc 10 fuel)

parse_digits-format_digits :
    (fuel n : ℕ) (s : Text)
    → n < 10 ^ fuel
    → parse_digits 0 (format_digits fuel n ++ s) ≡ parse_digits n s
unfolding format_digits
parse_digits-format_digits zero n s h = let e : n ≡ 0 = omega arith in rw e
parse_digits-format_digits (suc fuel) n s h = elim (Bool-cases (ltb n 10)) [
  | inl one_digit ↦ rw one_digit (
      parse_digits-cons 0 n s (ltb→lt n 10 one_digit)
      ∙ ap (λ (k : ℕ). parse_digits k s) (omega arith))
  | inr more ↦
      rw (more, append_assoc)
        (parse_digits-format_digits fuel (n / 10) ((48 + n % 10) ∷ s) (div_ten_bound fuel n h)
          ∙ parse_digits-cons (n / 10) (n % 10) s (omega arith)
          ∙ ap (λ (k : ℕ). parse_digits k s) {x = n / 10 * 10 + n % 10} {y = n} (omega arith))
]

-- The first digit is one: neither a sign, nor missing.
format_digits-head :
    (fuel n : ℕ) → (d : ℕ) × (r : Text) × (d < 10) × (format_digits (suc fuel) n ≡ (48 + d) ∷ r)
unfolding format_digits
format_digits-head zero n = elim (Bool-cases (ltb n 10)) [
  | inl one_digit ↦ (n, [], ltb→lt n 10 one_digit, rw one_digit)
  | inr more ↦ (n % 10, [], omega arith, rw more)
]
format_digits-head (suc fuel) n = elim (Bool-cases (ltb n 10)) [
  | inl one_digit ↦ (n, [], ltb→lt n 10 one_digit, rw one_digit)
  | inr more ↦
      let (d, r, small, e) = format_digits-head fuel (n / 10) in
      (d, r ++ (48 + n % 10) ∷ [], small, rw more (ap (λ (t : Text). t ++ (48 + n % 10) ∷ []) e))
]

parse_natural-format_digits : (n : ℕ) → n < 10 ^ 20 → parse_natural (format_digits 20 n) ≡ some n
unfolding parse_natural
parse_natural-format_digits n h =
    let (d, r, _, e) = format_digits-head 19 n in
    let whole : parse_digits 0 (format_digits 20 n ++ []) ≡ some n =
      parse_digits-format_digits 20 n [] h in
    rw e (rw (append-nil, e) at whole)

-- What `Itoa` writes for a 64-bit int, `Atoi` reads back as the same int.
pub atoi-itoa : (z : ℤ) → IsInt64 z → atoi (itoa z) ≡ some z
unfolding atoi itoa
atoi-itoa (pos n) h =
    let (d, r, small, e) = format_digits-head 19 n in
    let parsed : parse_natural ((48 + d) ∷ r) ≡ some n =
      rw e at (parse_natural-format_digits n (omega arith)) in
    rw e (ground arith)
atoi-itoa (negsuc n) h = rw (parse_natural-format_digits (suc n) (omega arith)) (ground arith)

parse_range_pos : (o : Option ℕ) (z : ℤ) → in_range_pos o ≡ some z → IsInt64 z
unfolding in_range_pos
parse_range_pos none z h = cc
parse_range_pos (some n) (pos m) h = ground arith
parse_range_pos (some n) (negsuc m) h = ground arith

parse_range_neg : (o : Option ℕ) (z : ℤ) → in_range_neg o ≡ some z → IsInt64 z
unfolding in_range_neg
parse_range_neg none z h = cc
parse_range_neg (some zero) (pos m) h = ground arith
parse_range_neg (some zero) (negsuc m) h = cc
parse_range_neg (some (suc n)) (pos m) h = ground arith
parse_range_neg (some (suc n)) (negsuc m) h = ground arith

-- What `Atoi` accepts lies in the range of a 64-bit int.
pub atoi-IsInt64 : (t : Text) (z : ℤ) → atoi t ≡ some z → IsInt64 z
unfolding atoi
atoi-IsInt64 [] z h = cc
atoi-IsInt64 (c ∷ s) z h = elim (Bool-cases (c == b'-')) [
  | inl minus ↦ parse_range_neg (parse_natural s) z (rw minus at h)
  | inr no_minus ↦ elim (Bool-cases (c == b'+')) [
    | inl plus ↦ parse_range_pos (parse_natural s) z (rw (no_minus, plus) at h)
    | inr no_sign ↦ parse_range_pos (parse_natural (c ∷ s)) z (rw (no_minus, no_sign) at h)
  ]
]
