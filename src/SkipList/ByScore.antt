-- ===== src/SkipList/ByScore.antt =====
-- What `ZRangeByScore` lists of a sorted set (internal/storage/zset.go).
use tealis.Base.{
  ℕ, zero, suc, ◌≤◌, ◌<◌, List, [], ◌∷◌, Option, true, false, ◌&&◌, not, if◌then◌else◌, ◌≡◌, refl,
  ap, inl, inr, Bool-cases, Outcome, ok, length, arith,
}
use tealis.Base.Text.{Text}
use tealis.Floats.{Arithmetic}
use tealis.Value.{SortedSet}
use tealis.SkipList.{Nodes, rounds_of}
use tealis.SkipList.Listing.{first, at_most, skip_below, keys_up_to, range_by_score}
use tealis.SkipList.Memory.{Entry}
use tealis.SkipList.Entries.{IsFloatOrder, before, AllBehind, Sorted}
use tealis.SkipList.Meaning.{Holds, Represents}
use tealis.SkipList.Lists.{first_of, Bottom, node_of_entry, header-first}

module _ (arithmetic : Arithmetic) where
  -- The members whose score is not below `min` and is at most `max`.
  unfoldable pub between : ℕ → ℕ → List Entry → List Text
  between min max [] = []
  between min max (e ∷ es) =
      if not (arithmetic.below e.1 min) && at_most arithmetic e.1 max
      then e.0 ∷ between min max es
      else between min max es

  abbrev AllAtLeast : ℕ → List Entry → Type 0
  AllAtLeast min [] = Unit
  AllAtLeast min (e ∷ es) = (arithmetic.below e.1 min ≡ false) × AllAtLeast min es

  abbrev AllAbove : ℕ → List Entry → Type 0
  AllAbove max [] = Unit
  AllAbove max (e ∷ es) = (at_most arithmetic e.1 max ≡ false) × AllAbove max es

  between-AllAbove : (min max : ℕ) (es : List Entry) → AllAbove max es → between min max es ≡ []
  unfolding between
  between-AllAbove min max [] h = refl
  between-AllAbove min max (e ∷ es) h = ground (arith, h.0, between-AllAbove min max es h.1)

  module _ (order : IsFloatOrder arithmetic) where
    below_behind :
        (e f : Entry) (min : ℕ)
        → before arithmetic e f ≡ true
        → arithmetic.below e.1 min ≡ false
        → arithmetic.below f.1 min ≡ false
    unfolding before
    below_behind e f min h g =
        ground (arith, order.below_trans e.1 f.1 min, order.equal_below e.1 f.1 min)

    above_behind :
        (e f : Entry) (max : ℕ)
        → before arithmetic e f ≡ true
        → at_most arithmetic e.1 max ≡ false
        → at_most arithmetic f.1 max ≡ false
    unfolding before
    above_behind e f max h g = ground (
      arith,
      order.below_trans e.1 f.1 max,
      order.below_equal e.1 f.1 max,
      order.equal_below e.1 f.1 max,
      order.equal_trans e.1 f.1 max,
    )

    AllAtLeast-behind :
        (e : Entry) (es : List Entry) (min : ℕ)
        → AllBehind arithmetic e es
        → arithmetic.below e.1 min ≡ false
        → AllAtLeast min es
    AllAtLeast-behind e [] min h g = tt
    AllAtLeast-behind e (f ∷ es) min h g =
        (below_behind e f min h.0 g, AllAtLeast-behind e es min h.1 g)

    AllAbove-behind :
        (e : Entry) (es : List Entry) (max : ℕ)
        → AllBehind arithmetic e es
        → at_most arithmetic e.1 max ≡ false
        → AllAbove max es
    AllAbove-behind e [] max h g = tt
    AllAbove-behind e (f ∷ es) max h g =
        (above_behind e f max h.0 g, AllAbove-behind e es max h.1 g)

    -- The second loop, from an entry that is not below `min`.
    keys_up_to-between :
        (min max : ℕ) (nodes : Nodes) (rounds : ℕ) (l : List ℕ) (es : List Entry)
        → length l < rounds
        → Bottom nodes l
        → Holds nodes l es
        → Sorted arithmetic es
        → AllAtLeast min es
        → keys_up_to arithmetic max nodes rounds (first_of l) ≡ ok (between min max es)
    unfolding keys_up_to between
    keys_up_to-between min max nodes zero l es h b holds s low = elim h [ ]
    keys_up_to-between min max nodes (suc rounds) [] [] h b holds s low = refl
    keys_up_to-between min max nodes (suc rounds) [] (e ∷ es) h b holds s low = absurd holds
    keys_up_to-between min max nodes (suc rounds) (c ∷ l) [] h b holds s low = absurd holds
    keys_up_to-between min max nodes (suc rounds) (c ∷ l) (e ∷ es) h b holds s low =
        let (n, (there, same)) = node_of_entry nodes c e holds.0 in
        let score : n.score ≡ e.1 = ap (λ (f : Entry). f.1) same in
        let key : n.key ≡ e.0 = ap (λ (f : Entry). f.0) same in
        elim (Bool-cases (at_most arithmetic e.1 max)) [
          | inl inside ↦
              let rest =
                keys_up_to-between min max nodes rounds l es (omega arith) b.1 holds.1 s.1 low.1 in
              rw (there, keys_up_to) (ground (arith, score, key, inside, b.0, rest, low.0))
          | inr outside ↦
              let none_behind =
                between-AllAbove min max es (AllAbove-behind e es max s.0 outside) in
              rw (there, keys_up_to) (ground (arith, score, outside, none_behind))
        ]

    -- Where the first loop stops.
    record Skipped (min max : ℕ) (nodes : Nodes) (result : Outcome (Option ℕ)) (l : List ℕ)
        (es : List Entry) : Type 0 where
      rest : List ℕ
      left : List Entry
      done : result ≡ ok (first_of rest)
      bottom : Bottom nodes rest
      holds : Holds nodes rest left
      sorted : Sorted arithmetic left
      high : AllAtLeast min left
      same : between min max es ≡ between min max left
      shorter : length rest ≤ length l

    skip_below-Skipped :
        (min max : ℕ) (nodes : Nodes) (rounds : ℕ) (l : List ℕ) (es : List Entry)
        → length l < rounds
        → Bottom nodes l
        → Holds nodes l es
        → Sorted arithmetic es
        → Skipped min max nodes (skip_below arithmetic min nodes rounds (first_of l)) l es
    unfolding skip_below between
    skip_below-Skipped min max nodes zero l es h b holds s = elim h [ ]
    skip_below-Skipped min max nodes (suc rounds) [] [] h b holds s = record {
      rest = [];
      left = [];
      done = refl;
      bottom = tt;
      holds = tt;
      sorted = tt;
      high = tt;
      same = refl;
      shorter = omega arith;
    }
    skip_below-Skipped min max nodes (suc rounds) [] (e ∷ es) h b holds s = absurd holds
    skip_below-Skipped min max nodes (suc rounds) (c ∷ l) [] h b holds s = absurd holds
    skip_below-Skipped min max nodes (suc rounds) (c ∷ l) (e ∷ es) h b holds s =
        let (n, (there, same)) = node_of_entry nodes c e holds.0 in
        let score : n.score ≡ e.1 = ap (λ (f : Entry). f.1) same in
        elim (Bool-cases (arithmetic.below e.1 min)) [
          | inl low ↦
              let w = skip_below-Skipped min max nodes rounds l es (omega arith) b.1 holds.1 s.1 in
              record {
                rest = w.rest;
                left = w.left;
                done = rw (there, skip_below) (ground (arith, score, low, b.0, w.done));
                bottom = w.bottom;
                holds = w.holds;
                sorted = w.sorted;
                high = w.high;
                same = rw low w.same;
                shorter = omega (arith, w.shorter);
              }
          | inr high ↦ record {
            rest = c ∷ l;
            left = e ∷ es;
            done = rw (there, skip_below) (ground (arith, score, high));
            bottom = b;
            holds = holds;
            sorted = s;
            high = (high, AllAtLeast-behind e es min s.0 high);
            same = refl;
            shorter = omega arith;
          }
        ]

    -- `ZRangeByScore` lists exactly the members whose score is not below `min` and is at most `max`, in order.
    pub range_by_score-between :
        (min max : ℕ) (x : SortedSet) (es : List Entry)
        → Represents arithmetic x es
        → range_by_score arithmetic min max x ≡ ok (between min max es)
    unfolding range_by_score
    range_by_score-between min max x es h =
        let (next, bottom) = header-first x h.addresses h.laid in
        let w =
          skip_below-Skipped min max x.nodes (rounds_of x.nodes) h.addresses es
            (omega (arith, h.laid.room)) bottom h.holds h.sorted in
        rw (next, first, w.done, w.same)
          (keys_up_to-between min max x.nodes (rounds_of x.nodes) w.rest w.left
            (omega (arith, w.shorter, h.laid.room)) w.bottom w.holds w.sorted w.high)
