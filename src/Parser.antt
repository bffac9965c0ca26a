-- ===== src/Parser.antt =====
-- ParseCommand of internal/protocol/parser.go: the matches of its regular expression
-- `"([^"]*)"|'([^']*)'|[^\s]+`, from the left, where the first alternative that fits counts. All that the
-- expression and `Trim` name is ASCII, so that bytes serve for runes. The fuel is the length of the input,
-- and each match takes a byte at least.
pub mod Matches
pub mod RoundTrip
use tealis.Base.{
  ℕ, zero, suc, List, [], ◌∷◌, ◌++◌, map, Option, none, some, Bool, true, false, ◌||◌, not, ◌==◌,
  if◌then◌else◌, length,
}
use tealis.Base.Text.{Text}

-- `\s`
unfoldable pub is_blank : ℕ → Bool
is_blank c = c == 32 || c == 9 || c == 10 || c == 12 || c == 13

unfoldable pub is_quote : ℕ → Bool
is_quote c = c == b'"' || c == b'\''

-- The text before the next quote and the text after it, if there is one.
unfoldable pub until_quote : ℕ → Text → Option (Text × Text)
until_quote q [] = none
until_quote q (c ∷ s) = elim (until_quote q s) [
  | none ↦ if c == q then some ([], s) else none
  | some (w, rest) ↦ if c == q then some ([], s) else some (c ∷ w, rest)
]

-- `[^\s]+` as long as it goes, and what follows.
unfoldable pub word_of : Text → Text × Text
word_of [] = ([], [])
word_of (c ∷ s) = let (w, rest) = word_of s in if is_blank c then ([], c ∷ s) else (c ∷ w, rest)

-- `FindAllString`
unfoldable pub matches : ℕ → Text → List Text
matches zero s = []
matches (suc fuel) [] = []
matches (suc fuel) (c ∷ s) =
    let plain = (c ∷ (word_of s).0) ∷ matches fuel (word_of s).1 in
    let skipped = matches fuel s in
    if is_quote c
    then elim (until_quote c s) [
      | none ↦ plain
      | some (w, rest) ↦ (c ∷ w ++ c ∷ []) ∷ matches fuel rest
    ]
    else if is_blank c
    then skipped
    else plain

unfoldable pub trim_left : Text → Text
trim_left [] = []
trim_left (c ∷ s) = let rest = trim_left s in if is_quote c then rest else c ∷ s

-- A byte before a text that is trimmed at its end.
unfoldable pub before_trimmed : ℕ → Text → Text
before_trimmed c [] = if is_quote c then [] else c ∷ []
before_trimmed c (d ∷ s) = c ∷ d ∷ s

unfoldable pub trim_right : Text → Text
trim_right [] = []
trim_right (c ∷ s) = before_trimmed c (trim_right s)

-- `strings.Trim` of the two quotes
unfoldable pub trim : Text → Text
trim s = trim_right (trim_left s)

-- `ParseCommand`
unfoldable pub parse_command : Text → List Text
parse_command input = map trim (matches (length input) input)
