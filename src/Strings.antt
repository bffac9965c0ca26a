-- ===== src/Strings.antt =====
-- What the program uses of Go's package `strings`, over bytes: `Join`, `Fields`, `ToUpper` and others.
pub mod Fields
use tealis.Base.{
  ℕ, zero, suc, ltb, ◌+◌, ◌-◌, List, [], ◌∷◌, ◌++◌, map, Bool, true, false, ◌&&◌, ◌||◌, leb, ◌==◌,
  if◌then◌else◌,
}
use tealis.Base.Text.{Text}

-- `strings.Join(parts, sep)`
unfoldable pub join : Text → List Text → Text
join sep [] = []
join sep (p ∷ []) = p
join sep (p ∷ q ∷ ps) = p ++ (sep ++ join sep (q ∷ ps))

-- The ASCII characters of `unicode.IsSpace`.
abbrev pub is_space : ℕ → Bool
is_space c = (leb 9 c && leb c 13) || c == 32

-- A word that ends is a field unless it is empty.
abbrev pub flush : Text → List Text → List Text
flush [] fs = fs
flush (c ∷ w) fs = (c ∷ w) ∷ fs

-- How many bytes follow `c` in a white-space character beyond ASCII that begins with it: one for U+0085 and
-- U+00A0, two for U+1680, U+2000 to U+200A, U+2028, U+2029, U+202F, U+205F and U+3000. In UTF-8 the first byte
-- of a character is no byte within another one.
unfoldable pub wide_space : ℕ → Text → ℕ
wide_space c [] = 0
wide_space c (d ∷ []) = if c == 194 && (d == 133 || d == 160) then 1 else 0
wide_space c (d ∷ e ∷ s) =
    if c == 194 && (d == 133 || d == 160)
    then 1
    else if (c == 225 && (d == 154 && e == 128))
        || ((c == 226
              && ((d == 128 && ((leb 128 e && leb e 138) || (e == 168 || (e == 169 || e == 175))))
                  || (d == 129 && e == 159)))
            || (c == 227 && (d == 128 && e == 128)))
    then 2
    else 0

abbrev pub begins_space : ℕ → Text → Bool
begins_space c s = is_space c || ltb 0 (wide_space c s)

-- With the bytes that are left of a white-space character, and the word so far.
fields_from : ℕ → Text → Text → List Text
fields_from left word [] = flush word []
fields_from (suc left) word (c ∷ s) = fields_from left word s
fields_from zero word (c ∷ s) =
    let ended = flush word (fields_from (wide_space c s) [] s) in
    let longer = fields_from 0 (word ++ c ∷ []) s in if begins_space c s then ended else longer

-- `strings.Fields`: the words between runs of white space.
unfoldable pub fields : Text → List Text
unfolding fields_from
fields = fields_from 0 []

abbrev pub upper : ℕ → ℕ
upper c = if leb b'a' c && leb c b'z' then c - 32 else c

-- `strings.ToUpper`, as far as its result is compared with ASCII text: beyond ASCII there are two letters, dotless
-- i and long s, whose upper case is an ASCII letter; other letters beyond ASCII are left as they are.
unfoldable pub to_upper : Text → Text
to_upper [] = []
to_upper (c ∷ []) = upper c ∷ []
to_upper (c ∷ d ∷ s) =
    let after = to_upper s in
    let rest = to_upper (d ∷ s) in
    if c == 196 && d == 177
    then b'I' ∷ after
    else if c == 197 && d == 191
    then b'S' ∷ after
    else upper c ∷ rest

-- The byte before a text that is split: a separator, or more of the first part.
abbrev pub begin_part : Bool → ℕ → List Text → List Text
begin_part true c parts = [] ∷ parts
begin_part false c [] = (c ∷ []) ∷ []
begin_part false c (p ∷ parts) = (c ∷ p) ∷ parts

-- `strings.Split` at a one-byte separator: one part more than there are separators.
unfoldable pub split : ℕ → Text → List Text
split sep [] = [] ∷ []
split sep (c ∷ s) = begin_part (c == sep) c (split sep s)

abbrev pub lower : ℕ → ℕ
lower c = if leb b'A' c && leb c b'Z' then c + 32 else c

-- `strings.ToLower`
unfoldable pub to_lower : Text → Text
to_lower = map lower
