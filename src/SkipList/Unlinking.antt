-- ===== src/SkipList/Unlinking.antt =====
-- The loop of `ZRem` that unlinks a node (internal/storage/zset.go).
use tealis.Base.{
  ℕ, zero, suc, ◌+◌, ◌≤◌, ◌<◌, List, [], ◌∷◌, Option, none, some, Bool, true, false, ◌&&◌,
  if◌then◌else◌, ◌≡◌, ◌≢◌, refl, sym, ◌∙◌, ap, ◌⊎◌, inl, inr, Bool-cases, Option-cases, Outcome, ok,
  panic, is_some, ◌==◌, length, get_elem?, arith,
}
use mathlib.Core.Path.{subst}
use tealis.SkipList.{Nodes, forward_at, set_forward}
use tealis.SkipList.Walks.{tall_at}
use tealis.SkipList.Searches.{tall_at_below}
use tealis.SkipList.Memory.{forward_at-set_forward, length-of_get}
use tealis.SkipList.Linking.{
  SameNodes, SameNodes-trans, set_forward-SameNodes, at_zero, from_zero, shifted, unshifted,
}
use tealis.SkipList.Removing.{is_pointer, unlink}

-- At level `j` the node `t` is passed over from `u`.
pub record UnlinkedAt (t u j : ℕ) (nodes nodes' : Nodes) : Type 0 where
  pub at : forward_at nodes' j u ≡ forward_at nodes j t
  pub others : (x : ℕ) → u ≢ x → forward_at nodes' j x ≡ forward_at nodes j x

pub record Unlinked (t i : ℕ) (update : List ℕ) (nodes : Nodes) (result : Outcome Nodes)
    : Type 0 where
  pub nodes' : Nodes
  pub done : result ≡ ok nodes'
  pub same : SameNodes nodes nodes'
  pub unlinked :
      (k u : ℕ)
      → get_elem? update k ≡ some u
      → tall_at nodes (i + k) t ≡ true
      → UnlinkedAt t u (i + k) nodes nodes'
  pub kept :
      (j x : ℕ)
      → (tall_at nodes j t ≡ false) ⊎ ((j < i) ⊎ (i + length update ≤ j))
      → forward_at nodes' j x ≡ forward_at nodes j x

-- At level `j` the node `u` points to `t` exactly if `t` reaches the level.
pub record PointsTo (t u j : ℕ) (nodes : Nodes) : Type 0 where
  pub has : tall_at nodes j u ≡ true
  pub there : tall_at nodes j t ≡ true → forward_at nodes j u ≡ some (some t)
  pub past : tall_at nodes j t ≡ false → forward_at nodes j u ≢ some (some t)
  pub apart : t ≢ u

abbrev pub Unlinkable : ℕ → ℕ → List ℕ → Nodes → Type 0
Unlinkable t i update nodes = (k u : ℕ) → get_elem? update k ≡ some u → PointsTo t u (i + k) nodes

nothing-Unlinked :
    (t i : ℕ) (update : List ℕ) (nodes : Nodes)
    → ((k : ℕ) → k < length update → tall_at nodes (i + k) t ≡ false)
    → Unlinked t i update nodes (ok nodes)
nothing-Unlinked t i update nodes low = record {
  nodes' = nodes;
  done = refl;
  same = record { same_tall = λ j x. refl; same_entry = λ x. refl; same_length = refl };
  unlinked = λ k u e h. absurd (cc (h, low k (length-of_get update k u e)));
  kept = λ j x h. refl;
}

module _ (t i u : ℕ) (nodes : Nodes) (q : Option ℕ) (ut : tall_at nodes i u ≡ true)
    (e : forward_at nodes i t ≡ some q) where
  passed : Nodes
  passed = set_forward u i q nodes

  passed-SameNodes : SameNodes nodes passed
  unfolding passed
  passed-SameNodes = set_forward-SameNodes nodes u i q ut

  forward_at-passed :
      (j x : ℕ)
      → forward_at passed j x ≡ (if u == x && i == j then some q else forward_at nodes j x)
  unfolding passed
  forward_at-passed j x = forward_at-set_forward nodes u i q ut j x

  passed-UnlinkedAt : UnlinkedAt t u i nodes passed
  passed-UnlinkedAt = record {
    at = ground (arith, forward_at-passed i u, e);
    others = λ x a. ground (arith, forward_at-passed i x, a);
  }

Unlinked-cons :
    (t i u : ℕ) (update : List ℕ) (nodes nodes₁ : Nodes) (result : Outcome Nodes)
    → SameNodes nodes nodes₁
    → UnlinkedAt t u i nodes nodes₁
    → ((j x : ℕ) → i ≢ j → forward_at nodes₁ j x ≡ forward_at nodes j x)
    → tall_at nodes i t ≡ true
    → Unlinked t (i + 1) update nodes₁ result
    → Unlinked t i (u ∷ update) nodes result
Unlinked-cons t i u update nodes nodes₁ result same here others high rest = record {
  nodes' = rest.nodes';
  done = rest.done;
  same = SameNodes-trans same rest.same;
  unlinked = at;
  kept = λ j x h. kept j x h (Bool-cases (i == j));
}
  where
    first : (x : ℕ) → forward_at rest.nodes' i x ≡ forward_at nodes₁ i x
    first x = rest.kept i x (inr (inl (omega arith)))

    at :
        (k v : ℕ)
        → get_elem? (u ∷ update) k ≡ some v
        → tall_at nodes (i + k) t ≡ true
        → UnlinkedAt t v (i + k) nodes rest.nodes'
    at zero v e h =
        let same_u : u ≡ v = cc e in
        from_zero (λ j. UnlinkedAt t v j nodes rest.nodes') i
          (subst (λ w. UnlinkedAt t w i nodes rest.nodes') same_u
            (record { at = first u ∙ here.at; others = λ x a. first x ∙ here.others x a }))
    at (suc k) v e h =
        let h' : tall_at nodes₁ (i + 1 + k) t ≡ true =
          same.same_tall (i + 1 + k) t ∙ shifted (λ j. tall_at nodes j t ≡ true) i k h in
        let l = rest.unlinked k v e h' in
        let later = λ (x : ℕ). others (i + 1 + k) x (λ p. omega (arith, p)) in
        unshifted (λ j. UnlinkedAt t v j nodes rest.nodes') i k
          (record { at = l.at ∙ later t; others = λ x a. l.others x a ∙ later x })

    kept :
        (j x : ℕ)
        → (tall_at nodes j t ≡ false) ⊎ ((j < i) ⊎ (i + suc (length update) ≤ j))
        → ((i == j) ≡ true) ⊎ ((i == j) ≡ false)
        → forward_at rest.nodes' j x ≡ forward_at nodes j x
    kept j x (inl low) (inl now) = let e : i ≡ j = ground arith in absurd (cc (low, high, e))
    kept j x (inl low) (inr apart) =
        let e : i ≢ j = ground arith in
        rest.kept j x (inl (same.same_tall j t ∙ low)) ∙ others j x e
    kept j x (inr (inl h)) d =
        rest.kept j x (inr (inl (omega (arith, h)))) ∙ others j x (λ p. omega (arith, p, h))
    kept j x (inr (inr h)) d =
        rest.kept j x (inr (inr (omega (arith, h)))) ∙ others j x (λ p. omega (arith, p, h))

unlink_high :
    (t i u : ℕ) (update : List ℕ) (nodes : Nodes) (q : Option ℕ)
    → forward_at nodes i u ≡ some (some t)
    → forward_at nodes i t ≡ some q
    → unlink t i (u ∷ update) nodes ≡ unlink t (i + 1) update (set_forward u i q nodes)
unfolding unlink
unlink_high t i u update nodes q e f = ground (arith, e, f)

unlink_low :
    (t i u : ℕ) (update : List ℕ) (nodes : Nodes)
    → tall_at nodes i u ≡ true
    → forward_at nodes i u ≢ some (some t)
    → unlink t i (u ∷ update) nodes ≡ ok nodes
unfolding unlink
unlink_low t i u update nodes h ne = at (forward_at nodes i u) h ne
  where
    at :
        (o : Option (Option ℕ))
        → is_some o ≡ true
        → o ≢ some (some t)
        → (elim o as (λ _. Outcome Nodes) [
          | none ↦ panic
          | some p ↦ elim (is_pointer t p) [
            | false ↦ ok nodes
            | true ↦ elim (forward_at nodes i t) [
              | none ↦ panic
              | some q ↦ unlink t (i + 1) update (set_forward u i q nodes)
            ]
          ]
        ])
          ≡ ok nodes
    at none a b = absurd (cc a)
    at (some none) a b = refl
    at (some (some v)) a b = elim (Bool-cases (v == t)) [
      | inl same ↦ let e : v ≡ t = ground arith in absurd (b (ap (λ (w : ℕ). some (some w)) e))
      | inr other ↦ rw other refl
    ]

other_level :
    (i k : ℕ) (b : Bool) (p q : Option (Option ℕ)) → (if b && i == i + 1 + k then p else q) ≡ q
other_level i k b p q = ground arith

-- The node is unlinked from the levels that it reaches, and nothing else changes.
pub unlink-Unlinked :
    (t i : ℕ) (update : List ℕ) (nodes : Nodes)
    → Unlinkable t i update nodes
    → Unlinked t i update nodes (unlink t i update nodes)
unfolding unlink passed
unlink-Unlinked t i [] nodes h = nothing-Unlinked t i [] nodes (λ k l. elim l [ ])
unlink-Unlinked t i (u ∷ update) nodes h =
    let p = at_zero (λ j. PointsTo t u j nodes) i (h 0 u refl) in
    elim (Bool-cases (tall_at nodes i t)) [
      | inl high ↦ elim (Option-cases (forward_at nodes i t)) [
        | inl gone ↦ absurd (ground (arith, gone, high))
        | inr (q, e) ↦
            let same = passed-SameNodes t i u nodes q p.has e in
            rw (unlink_high t i u update nodes q (p.there high) e) (
              Unlinked-cons t i u update nodes (passed t i u nodes q p.has e) _ same
                (passed-UnlinkedAt t i u nodes q p.has e)
                (λ j x a. ground (arith, forward_at-passed t i u nodes q p.has e j x, a)) high
                (unlink-Unlinked t (i + 1) update (passed t i u nodes q p.has e) (λ k v f.
                  later (passed t i u nodes q p.has e) q k v
                    (shifted (λ j. PointsTo t v j nodes) i k (h (suc k) v f)) same
                    (forward_at-passed t i u nodes q p.has e (i + 1 + k)))))
      ]
      | inr low ↦ rw (unlink_low t i u update nodes p.has (p.past low)) (
          nothing-Unlinked t i (u ∷ update) nodes
            (λ k l. below k (Bool-cases (tall_at nodes (i + k) t)) low))
    ]
  where
    below :
        (k : ℕ)
        → (tall_at nodes (i + k) t ≡ true) ⊎ (tall_at nodes (i + k) t ≡ false)
        → tall_at nodes i t ≡ false
        → tall_at nodes (i + k) t ≡ false
    below k (inl high) low = absurd (cc (tall_at_below nodes (i + k) i t (omega arith) high, low))
    below k (inr l) low = l

    later :
        (nodes₁ : Nodes) (q : Option ℕ) (k v : ℕ)
        → PointsTo t v (i + 1 + k) nodes
        → SameNodes nodes nodes₁
        → ((x : ℕ)
            → forward_at nodes₁ (i + 1 + k) x
              ≡ (if u == x && i == i + 1 + k then some q else forward_at nodes (i + 1 + k) x))
        → PointsTo t v (i + 1 + k) nodes₁
    later nodes₁ q k v p same at =
        let kept : (x : ℕ) → forward_at nodes₁ (i + 1 + k) x ≡ forward_at nodes (i + 1 + k) x =
          λ x. at x ∙ other_level i k (u == x) (some q) (forward_at nodes (i + 1 + k) x) in
        record {
          has = same.same_tall (i + 1 + k) v ∙ p.has;
          there = λ h. kept v ∙ p.there (sym (same.same_tall (i + 1 + k) t) ∙ h);
          past = λ h e. p.past (sym (same.same_tall (i + 1 + k) t) ∙ h) (sym (kept v) ∙ e);
          apart = p.apart;
        }
