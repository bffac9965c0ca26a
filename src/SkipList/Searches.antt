-- ===== src/SkipList/Searches.antt =====
-- The search over the levels of a skip list (internal/storage/zset.go): where it ends, and what it leaves in
-- `update`. It holds for every test, also one that the order of the list does not respect.
use tealis.Base.{
  ℕ, zero, suc, ◌-◌, ◌≤◌, ◌<◌, List, [], ◌∷◌, ◌++◌, Option, none, some, Bool, true, false,
  if◌then◌else◌, ◌≡◌, refl, sym, ◌∙◌, ap, ◌⊎◌, inl, inr, Bool-cases, Outcome, ok, is_some, ltb,
  length, length-append, get_elem?, get_elem?-append, arith, append_assoc, append-nil,
}
use tealis.Value.{SkipListNode}
use tealis.SkipList.{Nodes, forward_at, walk, search, rounds_of}
use tealis.SkipList.Chains.{
  All, All-append, append-All, All-imp, last_of, last_of-append, first_tall, first_tall_reached,
  last_tall, last_tall-last_of, last_tall-append, last_tall_none, Links, Links-last_of,
}
use tealis.SkipList.Walks.{tall_at, less_at, Blocked, Passed, Walked, walk-Walked}

get_elem?_below :
    (l : List (Option ℕ)) (j k : ℕ)
    → k ≤ j
    → is_some (get_elem? l j) ≡ true
    → is_some (get_elem? l k) ≡ true
get_elem?_below [] j k h e = absurd (cc e)
get_elem?_below (x ∷ l) j zero h e = refl
get_elem?_below (x ∷ l) zero (suc k) h e = absurd (omega arith)
get_elem?_below (x ∷ l) (suc j) (suc k) h e = get_elem?_below l j k (omega arith) e

-- A node that reaches a level reaches those below it.
pub tall_at_below :
    (nodes : Nodes) (j k c : ℕ) → k ≤ j → tall_at nodes j c ≡ true → tall_at nodes k c ≡ true
unfolding forward_at
tall_at_below nodes j k c h t = of (get_elem? nodes c) t
  where
    of :
        (n : Option SkipListNode)
        → is_some
            (elim n as (λ _. Option (Option ℕ)) [ none ↦ none | some a ↦ get_elem? a.forward j ])
          ≡ true
        → is_some
            (elim n as (λ _. Option (Option ℕ)) [ none ↦ none | some a ↦ get_elem? a.forward k ])
          ≡ true
    of none e = absurd (cc e)
    of (some a) e = get_elem?_below a.forward j k h e

get_elem?_last : (l : List ℕ) (i u : ℕ) → length l ≡ i → get_elem? (l ++ u ∷ []) i ≡ some u
get_elem?_last l i u h = rw (get_elem?-append, h) (ground arith)

module _ (less : SkipListNode → Bool) (nodes : Nodes) where
  -- Where a search over the levels below `levels` ends, from `c` with `rest` behind it.
  pub record Searched (levels : ℕ) (result : Outcome (List ℕ × ℕ)) (c : ℕ) (rest : List ℕ)
      : Type 0 where
    pub m : List ℕ
    pub r : List ℕ
    pub update : List ℕ
    pub parts : rest ≡ m ++ r
    pub found : result ≡ ok (update, last_of c m)
    pub count : length update ≡ levels
    -- the node of each level behind which the place is
    pub updates : (j : ℕ) → j < levels → get_elem? update j ≡ some (last_tall (tall_at nodes j) c m)
    pub passed : (j : ℕ) → levels ≤ suc j → Passed less nodes j m
    pub blocked : 0 < levels → Blocked less nodes 0 r
    pub ends : (m ≡ []) ⊎ (less_at less nodes (last_of c m) ≡ true)

  -- What the levels below have passed does not reach a level where the walk has stopped.
  none_tall :
      (i : ℕ) (m r : List ℕ)
      → Blocked less nodes i (m ++ r)
      → Passed less nodes i m
      → All (λ x. tall_at nodes i x ≡ false) m
  unfolding first_tall
  none_tall i [] r stop pass = tt
  none_tall i (x ∷ m) r stop pass = elim (Bool-cases (tall_at nodes i x)) [
    | inl t ↦ absurd (cc (stop x (first_tall_reached (tall_at nodes i) x (m ++ r) t), pass.0 t))
    | inr t ↦ (t, none_tall i m r (λ y e. stop y (rw t e)) pass.1)
  ]

  Blocked-behind :
      (i : ℕ) (m r : List ℕ)
      → Blocked less nodes i (m ++ r)
      → All (λ x. tall_at nodes i x ≡ false) m
      → Blocked less nodes i r
  unfolding first_tall
  Blocked-behind i [] r stop h = stop
  Blocked-behind i (x ∷ m) r stop h = Blocked-behind i m r (λ y e. stop y (rw h.0 e)) h.1

  last_ends :
      (c : ℕ) (m k : List ℕ)
      → (m ≡ []) ⊎ (less_at less nodes (last_of c m) ≡ true)
      → (k ≡ []) ⊎ (less_at less nodes (last_of (last_of c m) k) ≡ true)
      → (m ++ k ≡ []) ⊎ (less_at less nodes (last_of c (m ++ k)) ≡ true)
  last_ends c m k h (inr g) = inr (rw last_of-append g)
  last_ends c [] k h (inl g) = inl g
  last_ends c (x ∷ m) k (inl h) (inl g) = absurd (cc h)
  last_ends c (x ∷ m) k (inr h) (inl g) = inr (rw (g, append-nil) h)

  -- One level on top of those below it.
  Searched-step :
      (i : ℕ) (c : ℕ) (rest : List ℕ)
      → (w : Walked less nodes i (walk less nodes i (rounds_of nodes) c) c rest)
      → Searched i (search less nodes i (last_of c w.m)) (last_of c w.m) w.r
      → Searched (suc i) (search less nodes (suc i) c) c rest
  unfolding search
  Searched-step i c rest w s = record {
    m = w.m ++ s.m;
    r = s.r;
    update = s.update ++ u ∷ [];
    parts = w.parts ∙ ap (λ t. w.m ++ t) s.parts ∙ sym (append_assoc w.m s.m s.r);
    found =
        rw (w.found, s.found)
          (ap (λ (e : ℕ). ok (s.update ++ u ∷ [], e)) (sym (last_of-append c w.m s.m)));
    count = omega (arith, length-append s.update (u ∷ []), s.count);
    updates = at;
    passed = λ j h.
        append-All _ w.m s.m
          (All-imp (λ x. tall_at nodes i x ≡ true → less_at less nodes x ≡ true)
            (λ x. tall_at nodes j x ≡ true → less_at less nodes x ≡ true)
            (λ x p t. p (tall_at_below nodes j i x (omega arith) t)) w.m w.passed)
          (s.passed j (omega arith));
    blocked = blocked_at i none_left s.blocked refl;
    ends = last_ends c w.m s.m w.ends s.ends;
  }
    where
      u : ℕ
      u = last_of c w.m

      stop : Blocked less nodes i (s.m ++ s.r)
      stop = rw (sym s.parts) w.blocked

      none_left : All (λ x. tall_at nodes i x ≡ false) s.m
      none_left = none_tall i s.m s.r stop (s.passed i (omega arith))

      blocked_at :
          (k : ℕ)
          → All (λ x. tall_at nodes i x ≡ false) s.m
          → (0 < k → Blocked less nodes 0 s.r)
          → k ≡ i
          → 0 < suc i
          → Blocked less nodes 0 s.r
      blocked_at zero t b e h = rw e (Blocked-behind i s.m s.r stop t)
      blocked_at (suc k) t b e h = b (omega arith)

      front :
          (j : ℕ)
          → ltb j i ≡ true
          → (if ltb j (length s.update)
              then get_elem? s.update j
              else get_elem? (u ∷ []) (j - length s.update))
            ≡ get_elem? s.update j
      front j h = rw (s.count, h) refl

      at :
          (j : ℕ)
          → j < suc i
          → get_elem? (s.update ++ u ∷ []) j ≡ some (last_tall (tall_at nodes j) c (w.m ++ s.m))
      at j h = elim (Bool-cases (ltb j i)) [
        | inl below ↦
            let j-lt : j < i = ground arith in
            let reached = tall_at_below nodes i j u (omega (arith, j-lt)) w.is_tall in
            let here : last_tall (tall_at nodes j) c w.m ≡ u =
              last_tall-last_of (tall_at nodes j) c w.m reached in
            rw (last_tall-append (tall_at nodes j) c w.m s.m, here)
              (get_elem?-append j s.update (u ∷ []) ∙ front j below ∙ s.updates j j-lt)
        | inr top ↦
            let same : j ≡ i = ground arith in
            let here : last_tall (tall_at nodes i) c w.m ≡ u =
              last_tall-last_of (tall_at nodes i) c w.m w.is_tall in
            let stays : last_tall (tall_at nodes i) u s.m ≡ u =
              last_tall_none (tall_at nodes i) u s.m none_left in
            rw (same, last_tall-append (tall_at nodes i) c w.m s.m, here, stays)
              (get_elem?_last s.update i u s.count)
      ]

  -- The search ends, and does not panic, where the chains of its levels are linked.
  pub search-Searched :
      (levels : ℕ) (c : ℕ) (rest : List ℕ)
      → All (λ x. is_some (get_elem? nodes x) ≡ true) rest
      → length rest < rounds_of nodes
      → ((j : ℕ) → j < levels → tall_at nodes j c ≡ true)
      → ((j : ℕ) → j < levels → Links (tall_at nodes j) (forward_at nodes j) (c ∷ rest))
      → Searched levels (search less nodes levels c) c rest
  unfolding search last_of
  search-Searched zero c rest there short reached links = record {
    m = [];
    r = rest;
    update = [];
    parts = refl;
    found = refl;
    count = refl;
    updates = λ j h. elim h [ ];
    passed = λ j h. tt;
    blocked = λ h. elim h [ ];
    ends = inl refl;
  }
  search-Searched (suc i) c rest there short reached links =
      let w =
        walk-Walked less nodes i (rounds_of nodes) c rest short (reached i (omega arith)) there
          (links i (omega arith)) in
      let there' : All (λ x. is_some (get_elem? nodes x) ≡ true) (w.m ++ w.r) =
        rw (sym w.parts) there in
      let shorter : length w.r < rounds_of nodes =
        omega (arith, short, ap (length {0}) w.parts, length-append w.m w.r) in
      Searched-step i c rest w (
        search-Searched i (last_of c w.m) w.r
          (All-append (λ x. is_some (get_elem? nodes x) ≡ true) w.m w.r there').1 shorter
          (λ j h. tall_at_below nodes i j (last_of c w.m) (omega (arith, h)) w.is_tall)
          (λ j h.
            Links-last_of (tall_at nodes j) (forward_at nodes j) c w.m w.r
              (rw (sym w.parts) (links j (omega (arith, h))))))
