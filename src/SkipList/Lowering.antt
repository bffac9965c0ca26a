-- ===== src/SkipList/Lowering.antt =====
-- The levels of a skip list after a removal (internal/storage/zset.go).
use tealis.Base.{
  ℕ, zero, suc, ◌≤◌, ◌<◌, List, [], ◌∷◌, ◌++◌, Option, none, some, Bool, true, false, ◌≡◌, refl,
  inl, inr, Bool-cases, Option-cases, ok, arith,
}
use tealis.SkipList.{Nodes, forward_at, header, max_level}
use tealis.SkipList.Chains.{All, first_tall, last_tall, Links, Links-unskip}
use tealis.SkipList.Walks.{tall_at}
use tealis.SkipList.Removing.{lower}

module _ (tall : ℕ → Bool) where
  first_tall-none : (l : List ℕ) → first_tall tall l ≡ none → All (λ c. tall c ≡ false) l
  unfolding first_tall
  first_tall-none [] h = tt
  first_tall-none (x ∷ l) h = elim (Bool-cases (tall x)) [
    | inl t ↦ absurd (ground (arith, h, t))
    | inr t ↦ (t, first_tall-none l (ground (arith, h, t)))
  ]

  -- The node behind which a place is points to the first node behind it that reaches the level.
  pub Links-last_tall :
      (next : ℕ → Option (Option ℕ)) (c : ℕ) (m r : List ℕ)
      → tall c ≡ true
      → Links tall next (c ∷ m ++ r)
      → next (last_tall tall c m) ≡ some (first_tall tall r)
  unfolding last_tall
  Links-last_tall next c [] r t h = h.0 t
  Links-last_tall next c (x ∷ m) r t h = elim (Bool-cases (tall x)) [
    | inl reached ↦ rw reached (Links-last_tall next x m r reached h.1)
    | inr low ↦
        rw low (Links-last_tall next c m r t (Links-unskip tall next x (c ∷ []) (m ++ r) low h))
  ]

-- The level that is left is not above a level that no node reaches, and no node reaches it.
pub lower_lem :
    (nodes : Nodes) (l : List ℕ) (level : ℕ)
    → ((j : ℕ) → Links (tall_at nodes j) (forward_at nodes j) (header ∷ l))
    → ((j : ℕ) → j < max_level → tall_at nodes j header ≡ true)
    → 0 < level
    → level ≤ max_level
    → All (λ c. tall_at nodes level c ≡ false) l
    → (level' : ℕ) × ((lower nodes level ≡ ok level')
        × ((0 < level') × ((level' ≤ level) × All (λ c. tall_at nodes level' c ≡ false) l)))
unfolding lower
lower_lem nodes l zero links top pos high low = elim pos [ ]
lower_lem nodes l (suc zero) links top pos high low = (1, (refl, (omega arith, (omega arith, low))))
lower_lem nodes l (suc (suc i)) links top pos high low =
    let next = (links (suc i)).0 (top (suc i) (omega (arith, high))) in
    elim (Option-cases (first_tall (tall_at nodes (suc i)) l)) [
      | inl empty ↦
          let (level', (done, (p, (le, low')))) =
            lower_lem nodes l (suc i) links top (omega arith) (omega (arith, high))
              (first_tall-none (tall_at nodes (suc i)) l empty) in
          (level', (rw (next, empty, lower) done, (p, (omega (arith, le), low'))))
      | inr (c, there) ↦
          (suc (suc i), (rw (next, there, lower) refl, (omega arith, (omega arith, low))))
    ]

pub first_tall_low :
    (tall : ℕ → Bool) (c : ℕ) (r : List ℕ)
    → tall c ≡ false
    → first_tall tall (c ∷ r) ≡ first_tall tall r
unfolding first_tall
first_tall_low tall c r t = rw t refl
