-- ===== src/Strconv.antt =====
-- What the program uses of Go's package `strconv`: `Itoa` and `Atoi` of a 64-bit int.
pub mod RoundTrip
use tealis.Base.{
  ℕ, zero, suc, ◌+◌, ◌-◌, ◌*◌, ◌/◌, ◌%◌, ◌^◌, List, [], ◌∷◌, ◌++◌, Option, none, some, Bool, true,
  false, ◌&&◌, not, ltb, leb, ◌==◌, if◌then◌else◌,
}
use tealis.Base.Int.{ℤ, pos, negsuc}
use tealis.Base.Text.{Text}

-- The decimal digits of `n`, for at most `fuel` digits.
unfoldable pub format_digits : ℕ → ℕ → Text
format_digits zero n = []
format_digits (suc fuel) n =
    let rest = format_digits fuel (n / 10) in
    if ltb n 10 then (48 + n) ∷ [] else rest ++ (48 + n % 10) ∷ []

-- `strconv.Itoa`. An int has at most 19 digits.
unfoldable pub itoa : ℤ → Text
itoa (pos n) = format_digits 20 n
itoa (negsuc n) = b'-' ∷ format_digits 20 (suc n)

abbrev is_digit : ℕ → Bool
is_digit c = leb 48 c && leb c 57

parse_digits : ℕ → Text → Option ℕ
parse_digits acc [] = some acc
parse_digits acc (c ∷ s) =
    let rest = parse_digits (acc * 10 + (c - 48)) s in if is_digit c then rest else none

-- At least one digit, and nothing else.
parse_natural : Text → Option ℕ
unfolding parse_digits
parse_natural [] = none
parse_natural (c ∷ s) = parse_digits 0 (c ∷ s)

in_range_pos : Option ℕ → Option ℤ
in_range_pos none = none
in_range_pos (some n) = if ltb n (2 ^ 63) then some (pos n) else none

in_range_neg : Option ℕ → Option ℤ
in_range_neg none = none
in_range_neg (some zero) = some (pos 0)
in_range_neg (some (suc n)) = if ltb n (2 ^ 63) then some (negsuc n) else none

-- `strconv.Atoi`: an optional sign and decimal digits, within the range of a 64-bit int.
unfoldable pub atoi : Text → Option ℤ
unfolding parse_natural in_range_pos in_range_neg
atoi [] = none
atoi (c ∷ s) =
    if c == b'-'
    then in_range_neg (parse_natural s)
    else if c == b'+'
    then in_range_pos (parse_natural s)
    else in_range_pos (parse_natural (c ∷ s))

-- The digits of a number, cut at the largest `uint64`; `none` if something else comes before that.
digits_value : ℕ → Text → Option ℕ
digits_value acc [] = some acc
digits_value acc (c ∷ s) =
    let next : ℕ = acc * 10 + (c - 48) in
    let rest = digits_value next s in
    if not (is_digit c) then none else if leb (2 ^ 64) next then some (2 ^ 64 - 1) else rest

natural_value : Text → Option ℕ
unfolding digits_value
natural_value [] = none
natural_value (c ∷ s) = digits_value 0 (c ∷ s)

clamped_pos : Option ℕ → ℤ
clamped_pos none = pos 0
clamped_pos (some n) = if ltb n (2 ^ 63) then pos n else pos (2 ^ 63 - 1)

clamped_neg : Option ℕ → ℤ
clamped_neg none = pos 0
clamped_neg (some zero) = pos 0
clamped_neg (some (suc n)) = if ltb n (2 ^ 63) then negsuc n else negsuc (2 ^ 63 - 1)

-- What `strconv.Atoi` returns beside the error: 0, or the nearest int for a number that is out of range.
unfoldable pub atoi_value : Text → ℤ
unfolding natural_value clamped_pos clamped_neg
atoi_value [] = pos 0
atoi_value (c ∷ s) =
    if c == b'-'
    then clamped_neg (natural_value s)
    else if c == b'+'
    then clamped_pos (natural_value s)
    else clamped_pos (natural_value (c ∷ s))
