-- ===== src/Parser/Matches.antt =====
-- The scan of ParseCommand (internal/protocol/parser.go) has fuel enough.
use tealis.Base.{
  ℕ, zero, suc, ◌≤◌, ◌≡◌, refl, [], ◌∷◌, Option, none, some, length, arith, Option-cases, inl, inr,
}
use mathlib.Core.Path.{subst}
use tealis.Base.Text.{Text}
use tealis.Parser.{until_quote, word_of, matches}

length-word_of : (s : Text) → length (word_of s).1 ≤ length s
unfolding word_of
length-word_of [] = omega arith
length-word_of (c ∷ s) = ground (arith, length-word_of s)

-- What follows a quote that closes.
abbrev Shorter : Text → Option (Text × Text) → Type 0
Shorter s none = Unit
Shorter s (some (w, rest)) = length rest ≤ length s

until_quote-Shorter : (q : ℕ) (s : Text) → Shorter s (until_quote q s)
unfolding until_quote
until_quote-Shorter q [] = tt
until_quote-Shorter q (c ∷ s) = ground (arith, until_quote-Shorter q s)

-- All fuel from the length of the text on gives the same matches.
pub matches_enough : (n m : ℕ) (s : Text) → length s ≤ n → length s ≤ m → matches n s ≡ matches m s
unfolding matches
matches_enough zero zero s h g = refl
matches_enough zero (suc m) [] h g = refl
matches_enough zero (suc m) (c ∷ s) h g = absurd (omega arith)
matches_enough (suc n) zero [] h g = refl
matches_enough (suc n) zero (c ∷ s) h g = absurd (omega arith)
matches_enough (suc n) (suc m) [] h g = refl
matches_enough (suc n) (suc m) (c ∷ s) h g =
    let after = length-word_of s in
    let word = matches_enough n m (word_of s).1 (omega (arith, after)) (omega (arith, after)) in
    let blank = matches_enough n m s (omega arith) (omega arith) in
    elim (Option-cases (until_quote c s)) [
      | inl e ↦ rw (matches, e, word, blank) refl
      | inr ((w, rest), e) ↦
          let shorter : Shorter s (some (w, rest)) =
            subst (Shorter s) e (until_quote-Shorter c s) in
          let later = matches_enough n m rest (omega (arith, shorter)) (omega (arith, shorter)) in
          rw (matches, e, word, blank, later) refl
    ]
