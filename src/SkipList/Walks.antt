-- ===== src/SkipList/Walks.antt =====
-- The walk along one level of a skip list and the search over the levels (internal/storage/zset.go).
use tealis.Base.{
  ℕ, zero, suc, ◌<◌, List, [], ◌∷◌, ◌++◌, Option, none, some, Bool, true, false, ◌≡◌, refl, sym,
  ◌∙◌, ap, ◌⊎◌, inl, inr, Bool-cases, Outcome, ok, is_some, length, get_elem?, arith,
}
use tealis.Value.{SkipListNode}
use tealis.SkipList.{Nodes, forward_at, walk}
use tealis.SkipList.Chains.{All, last_of, first_tall, first_tall_reached, Links, Links-unskip}

abbrev pub tall_at : Nodes → ℕ → ℕ → Bool
tall_at nodes i c = is_some (forward_at nodes i c)

-- The test of a search, on an address.
unfoldable pub less_at : (SkipListNode → Bool) → Nodes → ℕ → Bool
less_at less nodes c = elim (get_elem? nodes c) [ none ↦ false | some n ↦ less n ]

module _ (less : SkipListNode → Bool) (nodes : Nodes) where
  -- The first node of a level is one at which a walk stops.
  abbrev pub Blocked : ℕ → List ℕ → Type 0
  Blocked i r = (x : ℕ) → first_tall (tall_at nodes i) r ≡ some x → less_at less nodes x ≡ false

  -- A walk along the level goes through the nodes.
  abbrev pub Passed : ℕ → List ℕ → Type 0
  Passed i m = All (λ x. tall_at nodes i x ≡ true → less_at less nodes x ≡ true) m

  -- Where a walk from `c` with `rest` behind it ends: behind `m`, in front of `r`.
  pub record Walked (i : ℕ) (result : Outcome ℕ) (c : ℕ) (rest : List ℕ) : Type 0 where
    pub m : List ℕ
    pub r : List ℕ
    pub parts : rest ≡ m ++ r
    pub found : result ≡ ok (last_of c m)
    pub is_tall : tall_at nodes i (last_of c m) ≡ true
    pub blocked : Blocked i r
    pub passed : Passed i m
    pub ends : (m ≡ []) ⊎ (less_at less nodes (last_of c m) ≡ true)

module _ (less : SkipListNode → Bool) (nodes : Nodes) (i : ℕ) where
  -- A walk that stops at once.
  walk_stops :
      (rounds : ℕ) (c : ℕ)
      → (p : Option ℕ) → forward_at nodes i c ≡ some p
      → ((x : ℕ)
          → p ≡ some x
          → (is_some (get_elem? nodes x) ≡ true) × (less_at less nodes x ≡ false))
      → walk less nodes i (suc rounds) c ≡ ok c
  unfolding walk less_at
  walk_stops rounds c none e h = rw (e, walk) refl
  walk_stops rounds c (some x) e h = ground (arith, h x refl, e)

  walk_goes :
      (rounds : ℕ) (c x : ℕ)
      → forward_at nodes i c ≡ some (some x)
      → less_at less nodes x ≡ true
      → walk less nodes i (suc rounds) c ≡ walk less nodes i rounds x
  unfolding walk less_at
  walk_goes rounds c x e h = ground arith

  -- A node in front that does not reach the level.
  Walked-skip :
      (result : Outcome ℕ) (c x : ℕ) (l : List ℕ)
      → tall_at nodes i x ≡ false
      → Walked less nodes i result c l
      → Walked less nodes i result c (x ∷ l)
  unfolding last_of first_tall
  Walked-skip result c x l t w = skipped w.m w.parts w.found w.is_tall w.passed w.ends
    where
      skipped :
          (m : List ℕ)
          → l ≡ m ++ w.r
          → result ≡ ok (last_of c m)
          → tall_at nodes i (last_of c m) ≡ true
          → Passed less nodes i m
          → (m ≡ []) ⊎ (less_at less nodes (last_of c m) ≡ true)
          → Walked less nodes i result c (x ∷ l)
      skipped [] parts found is_tall passed ends = record {
        m = [];
        r = x ∷ w.r;
        parts = ap (◌∷◌ x) parts;
        found = found;
        is_tall = is_tall;
        blocked = λ y e. w.blocked y (rw t at e);
        passed = tt;
        ends = inl refl;
      }
      skipped (y ∷ m) parts found is_tall passed ends = record {
        m = x ∷ y ∷ m;
        r = w.r;
        parts = ap (◌∷◌ x) parts;
        found = found;
        is_tall = is_tall;
        blocked = w.blocked;
        passed = ((λ p. absurd (cc (p, t))), passed);
        ends = elim ends [ inl e ↦ absurd (cc e) | inr e ↦ inr e ];
      }

  pub walk-Walked :
      (rounds : ℕ) (c : ℕ) (rest : List ℕ)
      → length rest < rounds
      → tall_at nodes i c ≡ true
      → All (λ x. is_some (get_elem? nodes x) ≡ true) rest
      → Links (tall_at nodes i) (forward_at nodes i) (c ∷ rest)
      → Walked less nodes i (walk less nodes i rounds c) c rest
  unfolding last_of first_tall
  walk-Walked zero c rest h t there links = absurd (omega arith)
  walk-Walked (suc rounds) c [] h t there links = record {
    m = [];
    r = [];
    parts = refl;
    found = walk_stops rounds c none (links.0 t) (λ x e. absurd (cc e));
    is_tall = t;
    blocked = λ x e. absurd (cc e);
    passed = tt;
    ends = inl refl;
  }
  walk-Walked (suc rounds) c (x ∷ l) h t there links = elim (Bool-cases (tall_at nodes i x)) [
    | inr skipped ↦ Walked-skip (walk less nodes i (suc rounds) c) c x l skipped (
        walk-Walked (suc rounds) c l (omega arith) t there.1
          (Links-unskip (tall_at nodes i) (forward_at nodes i) x (c ∷ []) l skipped links))
    | inl reached ↦
        let e : forward_at nodes i c ≡ some (some x) = links.0 t ∙ rw reached refl in
        elim (Bool-cases (less_at less nodes x)) [
          | inl go ↦
              let w = walk-Walked rounds x l (omega arith) reached there.1 links.1 in
              record {
                m = x ∷ w.m;
                r = w.r;
                parts = ap (◌∷◌ x) w.parts;
                found = walk_goes rounds c x e go ∙ w.found;
                is_tall = w.is_tall;
                blocked = w.blocked;
                passed = ((λ _. go), w.passed);
                ends = elim w.ends [ inl none_more ↦ inr (rw none_more go) | inr last ↦ inr last ];
              }
          | inr stop ↦ record {
            m = [];
            r = x ∷ l;
            parts = refl;
            found =
                walk_stops rounds c (some x) e
                  (λ y p. let q : x ≡ y = cc p in rw (sym q) (there.0, stop));
            is_tall = t;
            blocked = λ y p.
                let q : x ≡ y = cc (p, first_tall_reached (tall_at nodes i) x l reached) in
                rw (sym q) stop;
            passed = tt;
            ends = inl refl;
          }
        ]
  ]
