-- ===== src/Parser/RoundTrip.antt =====
-- ParseCommand (internal/protocol/parser.go) reads back parts that are written in double quotes.
use tealis.Base.{
  ℕ, zero, suc, ◌≤◌, ◌≡◌, refl, sym, ap, ◌∙◌, List, [], ◌∷◌, ◌++◌, append-nil, append_assoc, map,
  some, false, ◌==◌, length, length-append, arith,
}
use tealis.Base.Text.{Text, codes}
use tealis.Strings.{join}
use tealis.Parser.{
  is_blank, is_quote, until_quote, matches, trim_left, before_trimmed, trim_right, trim,
  parse_command,
}

-- A part that can be written between double quotes: it has none itself, and no single quote at its ends.
abbrev pub NoDouble : Text → Type 0
NoDouble [] = Unit
NoDouble (c ∷ w) = ((c == b'"') ≡ false) × NoDouble w

abbrev pub EndsPlain : Text → Type 0
EndsPlain [] = Unit
EndsPlain (c ∷ []) = is_quote c ≡ false
EndsPlain (c ∷ d ∷ w) = EndsPlain (d ∷ w)

abbrev pub StartsPlain : Text → Type 0
StartsPlain [] = Unit
StartsPlain (c ∷ w) = is_quote c ≡ false

abbrev pub Quotable : Text → Type 0
Quotable w = NoDouble w × StartsPlain w × EndsPlain w

abbrev pub AllQuotable : List Text → Type 0
AllQuotable [] = Unit
AllQuotable (w ∷ ws) = Quotable w × AllQuotable ws

abbrev pub quoted : Text → Text
quoted w = b'"' ∷ w ++ b'"' ∷ []

until_quote-NoDouble :
    (w rest : Text) → NoDouble w → until_quote b'"' (w ++ b'"' ∷ rest) ≡ some (w, rest)
unfolding until_quote
until_quote-NoDouble [] rest h = ground arith
until_quote-NoDouble (c ∷ w) rest h = rw (until_quote-NoDouble w rest h.1, h.0) refl

trim_right-quote : (w : Text) → EndsPlain w → trim_right (w ++ b'"' ∷ []) ≡ w
unfolding trim_right before_trimmed is_quote
trim_right-quote [] h = refl
trim_right-quote (c ∷ []) h = rw h refl
trim_right-quote (c ∷ d ∷ w) h = rw (trim_right-quote (d ∷ w) h) refl

trim-quoted : (w : Text) → StartsPlain w → EndsPlain w → trim (quoted w) ≡ w
unfolding trim trim_left is_quote trim_right
trim-quoted [] s e = refl
trim-quoted (c ∷ w) s e = rw s (trim_right-quote (c ∷ w) e)

-- A quoted part is one match.
matches-quoted :
    (n : ℕ) (w rest : Text)
    → NoDouble w
    → matches (suc n) (quoted w ++ rest) ≡ quoted w ∷ matches n rest
unfolding matches is_quote
matches-quoted n w rest h = rw (append_assoc, until_quote-NoDouble w rest h) refl

matches-nil : (n : ℕ) → matches n [] ≡ []
unfolding matches
matches-nil zero = refl
matches-nil (suc n) = refl

matches-blank : (n : ℕ) (s : Text) → matches (suc n) (32 ∷ s) ≡ matches n s
unfolding matches is_quote is_blank
matches-blank n s = refl

matches-joined :
    (n : ℕ) (ws : List Text)
    → length (join (codes " ") (map quoted ws)) ≤ n
    → AllQuotable ws
    → matches n (join (codes " ") (map quoted ws)) ≡ map quoted ws
unfolding join
matches-joined zero [] h q = matches-nil 0
matches-joined (suc n) [] h q = matches-nil (suc n)
matches-joined zero (w ∷ []) h q = absurd (omega arith)
matches-joined (suc n) (w ∷ []) h q =
    ap (matches (suc n)) (sym (append-nil (quoted w)))
    ∙ matches-quoted n w [] q.0.0
    ∙ rw matches-nil refl
matches-joined zero (w ∷ v ∷ ws) h q = absurd (omega arith)
matches-joined (suc zero) (w ∷ v ∷ ws) h q =
    absurd
      (omega (arith, length-append (w ++ b'"' ∷ []) (32 ∷ join (codes " ") (map quoted (v ∷ ws)))))
matches-joined (suc (suc n)) (w ∷ v ∷ ws) h q =
    let others = join (codes " ") (map quoted (v ∷ ws)) in
    let short = length-append (w ++ b'"' ∷ []) (32 ∷ others) in
    matches-quoted (suc n) w (32 ∷ others) q.0.0
    ∙ rw (matches-blank n others, matches-joined n (v ∷ ws) (omega (arith, short)) q.1) refl

map-trim-quoted : (ws : List Text) → AllQuotable ws → map trim (map quoted ws) ≡ ws
map-trim-quoted [] q = refl
map-trim-quoted (w ∷ ws) q = rw (trim-quoted w q.0.1 q.0.2, map-trim-quoted ws q.1) refl

-- Parts without a double quote, and without a single quote at their ends, that are written in double quotes and parted by spaces are read back by ParseCommand, whatever spaces and other bytes they hold.
pub parse_command-quoted :
    (ws : List Text) → AllQuotable ws → parse_command (join (codes " ") (map quoted ws)) ≡ ws
unfolding parse_command
parse_command-quoted ws q =
    rw (matches-joined (length (join (codes " ") (map quoted ws))) ws (omega arith) q)
      (map-trim-quoted ws q)
