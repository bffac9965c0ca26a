-- ===== src/SkipList/Deleting.antt =====
-- `ZRem` of a sorted set (internal/storage/zset.go) takes one entry out: the list without
-- the node.
use tealis.Base.{
  ℕ, ◌+◌, ◌-◌, ◌≤◌, ◌<◌, List, [], ◌∷◌, ◌++◌, Option, some, Bool, true, false, ◌≡◌, ◌≢◌, refl, sym,
  ◌∙◌, ap, fun_ext, ◌⊎◌, inl, inr, Bool-cases, ltb, ltb→lt, ltb→le, ok, ◌>>=◌, get_elem?, length,
  length-append, arith,
}
use mathlib.Core.Path.{subst}
use tealis.Value.{SkipListNode, SortedSet}
use tealis.SkipList.{forward_at, header, max_level}
use tealis.SkipList.Removing.{unlink, remove_at}
use tealis.SkipList.Chains.{
  All, All-append, append-All, All-imp, Distinct, Distinct-middle, first_tall, first_tall_reached,
  last_tall, last_tall-All, last_tall-tall, Links, Links-unskip,
}
use tealis.SkipList.Splices.{Links-remove}
use tealis.SkipList.Walks.{tall_at}
use tealis.SkipList.Searches.{tall_at_below}
use tealis.SkipList.Memory.{Entry, entry_at, length-of_get}
use tealis.SkipList.Unlinking.{UnlinkedAt, Unlinked, PointsTo, Unlinkable, unlink-Unlinked}
use tealis.SkipList.Lowering.{first_tall_low, Links-last_tall, lower_lem}
use tealis.SkipList.Meaning.{Holds, Holds-frame, Laid}

first_tall-All :
    (tall : ℕ → Bool) (P : ℕ → Type 0) (l : List ℕ)
    → All P l
    → (y : ℕ) → first_tall tall l ≡ some y
    → P y
unfolding first_tall
first_tall-All tall P [] h y e = absurd (cc e)
first_tall-All tall P (x ∷ l) h y e = elim (Bool-cases (tall x)) [
  | inl t ↦ let same : x ≡ y = ground (arith, e, t) in subst P same h.0
  | inr t ↦ first_tall-All tall P l h.1 y (ground (arith, e, t))
]

module _ (x : SortedSet) (m r : List ℕ) (c : ℕ) (laid : Laid x (m ++ c ∷ r)) (update : List ℕ)
    (count : length update ≡ x.level)
    (updates : (j : ℕ)
      → j < x.level
      → get_elem? update j ≡ some (last_tall (tall_at x.nodes j) header m)) where
  abbrev u : ℕ → ℕ
  u j = last_tall (tall_at x.nodes j) header m

  apart : All (λ y. c ≢ y) (header ∷ m) × All (λ y. c ≢ y) r
  apart = Distinct-middle (header ∷ m) r c laid.distinct

  high_header : (j : ℕ) → j < x.level → tall_at x.nodes j header ≡ true
  high_header j h = laid.header_tall j (omega (arith, h, laid.level_max))

  points : (j : ℕ) → j < x.level → PointsTo c (u j) j x.nodes
  points j h =
      let next =
        Links-last_tall (tall_at x.nodes j) (forward_at x.nodes j) header m (c ∷ r)
          (high_header j h) (laid.links j) in
      record {
        has = last_tall-tall (tall_at x.nodes j) header m (high_header j h);
        there = λ t. next ∙ ap some (first_tall_reached (tall_at x.nodes j) c r t);
        past = λ t e.
            first_tall-All (tall_at x.nodes j) (λ y. c ≢ y) r apart.1 c (behind j t (sym next ∙ e))
              refl;
        apart = last_tall-All (tall_at x.nodes j) (λ y. c ≢ y) header m apart.0.0 apart.0.1;
      }
    where
      behind :
          (j : ℕ)
          → tall_at x.nodes j c ≡ false
          → some (first_tall (tall_at x.nodes j) (c ∷ r)) ≡ some (some c)
          → first_tall (tall_at x.nodes j) r ≡ some c
      behind j t e = cc (e, first_tall_low (tall_at x.nodes j) c r t)

  unlinkable : Unlinkable c 0 update x.nodes
  unlinkable k v e =
      let k-lt : k < x.level = omega (arith, length-of_get update k v e, count) in
      let same : u k ≡ v = cc (e, updates k k-lt) in
      let level : 0 + k ≡ k = omega arith in
      subst (λ j. PointsTo c v j x.nodes) (sym level)
        (subst (λ w. PointsTo c w k x.nodes) same (points k k-lt))

  unlinked : Unlinked c 0 update x.nodes (unlink c 0 update x.nodes)
  unlinked = unlink-Unlinked c 0 update x.nodes unlinkable

  Links-high :
      (j : ℕ)
      → j < x.level
      → tall_at x.nodes j c ≡ true
      → Links (tall_at x.nodes j) (forward_at unlinked.nodes' j) (header ∷ m ++ r)
  Links-high j h t =
      let level : 0 + j ≡ j = omega arith in
      let here =
        subst (λ i. UnlinkedAt c (u j) i x.nodes unlinked.nodes') level
          (unlinked.unlinked j (u j) (updates j h)
            (subst (λ i. tall_at x.nodes i c ≡ true) (sym level) t)) in
      Links-remove (tall_at x.nodes j) (forward_at x.nodes j) (forward_at unlinked.nodes' j) c r t
        header m (high_header j h) laid.distinct (laid.links j) here.at (λ y a b. here.others y a)

  Links-low :
      (j : ℕ)
      → tall_at x.nodes j c ≡ false
      → Links (tall_at x.nodes j) (forward_at unlinked.nodes' j) (header ∷ m ++ r)
  Links-low j t =
      let same : forward_at unlinked.nodes' j ≡ forward_at x.nodes j =
        fun_ext (λ y. unlinked.kept j y (inl t)) in
      subst (λ (f : ℕ → Option (Option ℕ)). Links (tall_at x.nodes j) f (header ∷ m ++ r))
        (sym same)
        (Links-unskip (tall_at x.nodes j) (forward_at x.nodes j) c (header ∷ m) r t (laid.links j))

  -- Above the level of the set no node is tall.
  low_above :
      (j : ℕ)
      → x.level ≤ j
      → (tall_at x.nodes j c ≡ true) ⊎ (tall_at x.nodes j c ≡ false)
      → tall_at x.nodes j c ≡ false
  low_above j h (inr t) = t
  low_above j h (inl t) =
      let low = (All-append (λ y. tall_at x.nodes x.level y ≡ false) m (c ∷ r) laid.low).1.0 in
      absurd (cc (tall_at_below x.nodes j x.level c h t, low))

  Links-left :
      (j : ℕ) → Links (tall_at unlinked.nodes' j) (forward_at unlinked.nodes' j) (header ∷ m ++ r)
  Links-left j =
      let same : tall_at x.nodes j ≡ tall_at unlinked.nodes' j =
        fun_ext (λ y. sym (unlinked.same.same_tall j y)) in
      subst (λ (t : ℕ → Bool). Links t (forward_at unlinked.nodes' j) (header ∷ m ++ r)) same
        (elim (Bool-cases (ltb j x.level)) [
          | inl h ↦ elim (Bool-cases (tall_at x.nodes j c)) [
            | inl t ↦ Links-high j (ltb→lt j x.level h) t
            | inr t ↦ Links-low j t
          ]
          | inr h ↦
              Links-low j (low_above j (ltb→le j x.level h) (Bool-cases (tall_at x.nodes j c)))
        ])

  -- What holds of the nodes holds of those that are left.
  all_left : (P : ℕ → Type 0) → All P (m ++ c ∷ r) → All P (m ++ r)
  all_left P h = let (front, back) = All-append P m (c ∷ r) h in append-All P m r front back.1

  Distinct-left : (l k : List ℕ) → Distinct (l ++ c ∷ k) → Distinct (l ++ k)
  Distinct-left [] k h = h.1
  Distinct-left (y ∷ l) k h =
      let (front, back) = All-append (λ z. y ≢ z) l (c ∷ k) h.0 in
      (append-All (λ z. y ≢ z) l k front back.1, Distinct-left l k h.1)

  tall_kept :
      (j : ℕ) (b : Bool) → (y : ℕ) → tall_at x.nodes j y ≡ b → tall_at unlinked.nodes' j y ≡ b
  tall_kept j b y h = unlinked.same.same_tall j y ∙ h

  -- The set that `remove_at` makes.
  pub removed_at :
      (n : SkipListNode)
      → (x' : SortedSet) × ((remove_at x update (some (c, n)) ≡ ok (true, x'))
          × (Laid x' (m ++ r)
              × ((l : List ℕ) (es : List Entry) → Holds x.nodes l es → Holds x'.nodes l es)))
  unfolding remove_at
  removed_at n =
      let nodes' = unlinked.nodes' in
      let low =
        All-imp (λ y. tall_at x.nodes x.level y ≡ false) (λ y. tall_at nodes' x.level y ≡ false)
          (tall_kept x.level false) (m ++ r)
          (all_left (λ y. tall_at x.nodes x.level y ≡ false) laid.low) in
      let top = λ (j : ℕ) (h : j < max_level). tall_kept j true header (laid.header_tall j h) in
      let (level', (done, (pos, (le, low')))) =
        lower_lem nodes' (m ++ r) x.level Links-left top laid.level_pos laid.level_max low in
      let x' : SortedSet = record x { nodes = nodes'; level = level'; length = x.length - 1 } in
      (
        x',
        (
          rw (unlinked.done, done, ◌>>=◌) refl,
          (
            record {
              links = Links-left;
              distinct = Distinct-left (header ∷ m) r laid.distinct;
              grounded =
                  All-imp (λ y. tall_at x.nodes 0 y ≡ true) (λ y. tall_at nodes' 0 y ≡ true)
                    (tall_kept 0 true) (m ++ r)
                    (all_left (λ y. tall_at x.nodes 0 y ≡ true) laid.grounded);
              low = low';
              header_tall = top;
              level_pos = pos;
              level_max = omega (arith, le, laid.level_max);
              counted = omega (arith, laid.counted, length-append m r, length-append m (c ∷ r));
              room = omega (
                arith,
                laid.room,
                unlinked.same.same_length,
                length-append m r,
                length-append m (c ∷ r),
              );
            },
            λ l es h. Holds-frame x.nodes nodes' l es (all_same l) h,
          ),
        ),
      )
    where
      all_same : (l : List ℕ) → All (λ y. entry_at unlinked.nodes' y ≡ entry_at x.nodes y) l
      all_same [] = tt
      all_same (y ∷ l) = (unlinked.same.same_entry y, all_same l)
