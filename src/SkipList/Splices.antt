-- ===== src/SkipList/Splices.antt =====
-- A node that is put into a chain of a skip list or taken out of it (internal/storage/zset.go), for one level.
use tealis.Base.{
  ℕ, List, [], ◌∷◌, ◌++◌, Option, some, Bool, true, ◌≡◌, ◌≢◌, refl, sym, ◌∙◌, ap, inl, inr,
  Bool-cases,
}
use tealis.SkipList.Chains.{
  All, All-append, All-imp, Distinct, first_tall, last_tall, last_tall-All, Links, Links-frame,
}

abbrev Next : Type 0
Next = ℕ → Option (Option ℕ)

module _ (tall : ℕ → Bool) (next next' : Next) where
  -- The pointers differ at most at `u` and `n`.
  abbrev SameBut : ℕ → ℕ → Type 0
  SameBut u n = (x : ℕ) → u ≢ x → n ≢ x → next' x ≡ next x

  frame_behind :
      (n : ℕ) (c : ℕ) (r : List ℕ)
      → SameBut c n
      → All (λ y. c ≢ y) r
      → All (λ y. n ≢ y) r
      → Links tall next r
      → Links tall next' r
  frame_behind n c r same apart fresh h = Links-frame tall next next' r (both r apart fresh) h
    where
      both : (l : List ℕ) → All (λ y. c ≢ y) l → All (λ y. n ≢ y) l → All (λ x. next' x ≡ next x) l
      both [] a b = tt
      both (x ∷ l) a b = (same x a.0 b.0, both l a.1 b.1)

  -- The new node `n` behind the last node of `c ∷ front` that reaches the level.
  pub Links-insert :
      (n : ℕ) (r : List ℕ)
      → tall n ≡ true
      → (c : ℕ) (front : List ℕ) → tall c ≡ true
      → Distinct (c ∷ front ++ r)
      → All (λ y. n ≢ y) (c ∷ front ++ r)
      → Links tall next (c ∷ front ++ r)
      → next' (last_tall tall c front) ≡ some (some n)
      → next' n ≡ next (last_tall tall c front)
      → SameBut (last_tall tall c front) n
      → Links tall next' (c ∷ front ++ n ∷ r)
  unfolding last_tall first_tall
  Links-insert n r nt c [] ct apart fresh links at new same = (
    λ t. rw (at, nt) refl,
    (λ t. new ∙ links.0 ct, frame_behind n c r same apart.0 fresh.1 links.1),
  )
  Links-insert n r nt c (x ∷ front) ct apart fresh links at new same = elim (Bool-cases (tall x)) [
    | inl t ↦
        let e : last_tall tall c (x ∷ front) ≡ last_tall tall x front = rw (last_tall, t) refl in
        let behind =
          last_tall-All tall (λ y. y ≢ c) x front (λ p. apart.0.0 (sym p))
            (All-imp (λ y. c ≢ y) (λ y. y ≢ c) (λ y h p. h (sym p)) front
              (All-append (λ y. c ≢ y) front r apart.0.1).0) in
        (
          λ _. same c (λ p. behind (sym e ∙ p)) fresh.0 ∙ links.0 ct ∙ rw t refl,
          Links-insert n r nt x front t apart.1 fresh.1 links.1 (ap next' (sym e) ∙ at)
              (new ∙ ap next e) (λ y a b. same y (λ p. a (sym e ∙ p)) b),
        )
    | inr t ↦
        let e : last_tall tall c (x ∷ front) ≡ last_tall tall c front = rw (last_tall, t) refl in
        let (first, rest) =
          Links-insert n r nt c front ct (apart.0.1, apart.1.1) (fresh.0, fresh.1.1)
            ((λ p. links.0 p ∙ rw t refl), links.1.1) (ap next' (sym e) ∙ at) (new ∙ ap next e)
            (λ y a b. same y (λ p. a (sym e ∙ p)) b) in
        (λ p. first p ∙ rw t refl, ((λ p. absurd (cc (p, t))), rest))
  ]

  -- The node `n` taken out from behind the last node of `c ∷ front` that reaches the level.
  pub Links-remove :
      (n : ℕ) (r : List ℕ)
      → tall n ≡ true
      → (c : ℕ) (front : List ℕ) → tall c ≡ true
      → Distinct (c ∷ front ++ n ∷ r)
      → Links tall next (c ∷ front ++ n ∷ r)
      → next' (last_tall tall c front) ≡ next n
      → SameBut (last_tall tall c front) (last_tall tall c front)
      → Links tall next' (c ∷ front ++ r)
  unfolding last_tall first_tall
  Links-remove n r nt c [] ct apart links at same =
      ((λ t. at ∙ links.1.0 nt), frame_behind c c r same apart.0.1 apart.0.1 links.1.1)
  Links-remove n r nt c (x ∷ front) ct apart links at same = elim (Bool-cases (tall x)) [
    | inl t ↦
        let e : last_tall tall c (x ∷ front) ≡ last_tall tall x front = rw (last_tall, t) refl in
        let apart' = All-append (λ y. c ≢ y) front (n ∷ r) apart.0.1 in
        let behind =
          last_tall-All tall (λ y. y ≢ c) x front (λ p. apart.0.0 (sym p))
            (All-imp (λ y. c ≢ y) (λ y. y ≢ c) (λ y h p. h (sym p)) front apart'.0) in
        let c-same = same c (λ p. behind (sym e ∙ p)) (λ p. behind (sym e ∙ p)) in
        (
          λ _. c-same ∙ links.0 ct ∙ rw t refl,
          Links-remove n r nt x front t apart.1 links.1 (ap next' (sym e) ∙ at)
              (λ y a b. same y (λ p. a (sym e ∙ p)) (λ p. b (sym e ∙ p))),
        )
    | inr t ↦
        let e : last_tall tall c (x ∷ front) ≡ last_tall tall c front = rw (last_tall, t) refl in
        let (first, rest) =
          Links-remove n r nt c front ct (apart.0.1, apart.1.1)
            ((λ p. links.0 p ∙ rw t refl), links.1.1) (ap next' (sym e) ∙ at)
            (λ y a b. same y (λ p. a (sym e ∙ p)) (λ p. b (sym e ∙ p))) in
        (λ p. first p ∙ rw t refl, ((λ p. absurd (cc (p, t))), rest))
  ]
