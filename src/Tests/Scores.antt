-- ===== src/Tests/Scores.antt =====
-- Examples for sorted sets (internal/storage/zset.go).
use tealis.Base.{
  ℕ, ◌+◌, ◌%◌, ◌==◌, List, [], ◌∷◌, ◌++◌, Bool, true, false, Outcome, ok, ◌≡◌, ◌⊎◌, refl, sym, ap,
  arith,
}
use mathlib.Core.Path.{subst}
use tealis.Base.Int.{pos}
use tealis.Base.Text.{Text}
use tealis.Tealis.{Tealis}
use tealis.SkipList.Memory.{Entry}
use tealis.SkipList.Entries.{IsNumber, IsFloatOrder, place}
use tealis.SortedSetCommands.{zadd, zrange, zrange_by_score, zrem}
use tealis.SortedSetCommands.Scores.{
  Scores, absent, SameElsewhere, zadd-place, zrange-listed, zrange_by_score-between, zrem_removes,
  zrem_found,
}
use tealis.Tests.Data.{arithmetic, k, a, b, started}

-- One level more on every third draw.
abbrev coin : ℕ → Bool × ℕ
coin n = ((n % 3) == 1, n + 1)

order : IsFloatOrder arithmetic
order = record {
  equal_sym = λ x y h. ground arith;
  equal_trans = λ x y z h g. ground arith;
  below_trans = λ x y z h g. ground arith;
  below_equal = λ x y z h g. ground arith;
  equal_below = λ x y z h g. ground arith;
  total = λ x y h g. ground arith;
}

zadd-Scores :
    (member : Text) (score : ℕ) (es : List Entry) (s : Tealis)
    → IsNumber arithmetic score
    → Scores arithmetic k s es
    → Scores arithmetic k
        (zadd arithmetic coin 0 k score member s).1
        (place arithmetic (member, score) es)
zadd-Scores member score es s number h =
    let (s', (done, (held, same))) =
      zadd-place arithmetic coin 0 k order member score es s number h in
    subst (λ t. Scores arithmetic k t (place arithmetic (member, score) es))
      (sym (ap (λ t. t.1) done)) held

-- The member b at 5, and a at 3.
abbrev one : Tealis
one = (zadd arithmetic coin 0 k 5 b started).1

abbrev two : Tealis
two = (zadd arithmetic coin 0 k 3 a one).1

abbrev entries : List Entry
entries = (a, 3) ∷ (b, 5) ∷ []

two-Scores : Scores arithmetic k two entries
unfolding place tealis.SkipList.Entries.before tealis.Base.Dict.lookup tealis.Base.Text.text_eq
two-Scores = zadd-Scores a 3 ((b, 5) ∷ []) one refl (zadd-Scores b 5 [] started refl (absent refl))

zadd-place_example :
    (s' : Tealis) × ((zadd arithmetic coin 0 k 4 k two ≡ (ok 1, s'))
      × (Scores arithmetic k s' (place arithmetic (k, 4) entries) × SameElsewhere k two s'))
zadd-place_example = zadd-place arithmetic coin 0 k order k 4 entries two refl two-Scores

zrange-listed_example : zrange k (pos 0) (pos 1) two ≡ ok (a ∷ b ∷ [])
zrange-listed_example = zrange-listed arithmetic k (pos 0) (pos 1) entries two two-Scores

zrange_by_score-between_example : zrange_by_score arithmetic k 4 5 two ≡ ok (b ∷ [])
unfolding tealis.SkipList.ByScore.between
zrange_by_score-between_example =
    zrange_by_score-between arithmetic k order 4 5 entries two two-Scores

zrem_removes_example :
    ((s' : Tealis) × ((zrem k b two ≡ (ok false, s'))
        × (Scores arithmetic k s' entries × SameElsewhere k two s')))
    ⊎ ((em : List Entry) × ((er : List Entry) × ((score : ℕ) × ((entries ≡ em ++ (b, score) ∷ er)
              × ((s' : Tealis) × ((zrem k b two ≡ (ok true, s'))
                    × (Scores arithmetic k s' (em ++ er) × SameElsewhere k two s')))))))
zrem_removes_example = zrem_removes arithmetic k b entries two two-Scores

zrem_found_example :
    (s' : Tealis) × ((zrem k b two ≡ (ok true, s'))
      × (Scores arithmetic k s' ((a, 3) ∷ []) × SameElsewhere k two s'))
unfolding tealis.Base.Text.text_lt
zrem_found_example =
    zrem_found arithmetic k b 5 ((a, 3) ∷ []) [] two (refl, tt) (refl, tt) two-Scores
