-- ===== src/SkipList/Chains.antt =====
-- The chains of a skip list (internal/storage/zset.go), for one level: `tall` says which nodes reach it, and
-- `next` is their pointer at the level.
use tealis.Base.{
  ℕ, List, [], ◌∷◌, ◌++◌, Option, none, some, Bool, true, false, if◌then◌else◌, ◌≡◌, ◌≢◌, refl, sym,
  ◌∙◌, ap, inl, inr, Bool-cases,
}

abbrev pub All : (ℕ → Type 0) → List ℕ → Type 0
All P [] = Unit
All P (x ∷ l) = P x × All P l

pub All-append : (P : ℕ → Type 0) (xs ys : List ℕ) → All P (xs ++ ys) → All P xs × All P ys
All-append P [] ys h = (tt, h)
All-append P (x ∷ xs) ys h = let (front, back) = All-append P xs ys h.1 in ((h.0, front), back)

pub append-All : (P : ℕ → Type 0) (xs ys : List ℕ) → All P xs → All P ys → All P (xs ++ ys)
append-All P [] ys h g = g
append-All P (x ∷ xs) ys h g = (h.0, append-All P xs ys h.1 g)

pub All-imp : (P Q : ℕ → Type 0) → ((x : ℕ) → P x → Q x) → (l : List ℕ) → All P l → All Q l
All-imp P Q f [] h = tt
All-imp P Q f (x ∷ l) h = (f x h.0, All-imp P Q f l h.1)

-- No address stands twice.
abbrev pub Distinct : List ℕ → Type 0
Distinct [] = Unit
Distinct (x ∷ l) = All (λ y. x ≢ y) l × Distinct l

-- The last of a node and those after it.
unfoldable pub last_of : ℕ → List ℕ → ℕ
last_of c [] = c
last_of c (x ∷ m) = last_of x m

pub last_of-All : (P : ℕ → Type 0) (c : ℕ) (m : List ℕ) → P c → All P m → P (last_of c m)
unfolding last_of
last_of-All P c [] h g = h
last_of-All P c (x ∷ m) h g = last_of-All P x m g.0 g.1

pub last_of-append : (c : ℕ) (m k : List ℕ) → last_of c (m ++ k) ≡ last_of (last_of c m) k
unfolding last_of
last_of-append c [] k = refl
last_of-append c (x ∷ m) k = last_of-append x m k

module _ (tall : ℕ → Bool) where
  -- The first node that reaches the level.
  unfoldable pub first_tall : List ℕ → Option ℕ
  first_tall [] = none
  first_tall (x ∷ l) = if tall x then some x else first_tall l

  -- The last one, of `c` and the nodes after it, if `c` does.
  unfoldable pub last_tall : ℕ → List ℕ → ℕ
  last_tall c [] = c
  last_tall c (x ∷ l) = last_tall (if tall x then x else c) l

  -- Each node that reaches the level points to the next one that does.
  abbrev pub Links : (ℕ → Option (Option ℕ)) → List ℕ → Type 0
  Links next [] = Unit
  Links next (c ∷ l) = (tall c ≡ true → next c ≡ some (first_tall l)) × Links next l

  pub first_tall_reached : (x : ℕ) (l : List ℕ) → tall x ≡ true → first_tall (x ∷ l) ≡ some x
  unfolding first_tall
  first_tall_reached x l h = rw h refl

  pub first_tall-skip :
      (n : ℕ) (xs r : List ℕ) → tall n ≡ false → first_tall (xs ++ n ∷ r) ≡ first_tall (xs ++ r)
  unfolding first_tall
  first_tall-skip n [] r h = rw h refl
  first_tall-skip n (x ∷ xs) r h = rw (first_tall-skip n xs r h) refl

  pub last_tall-All : (P : ℕ → Type 0) (c : ℕ) (m : List ℕ) → P c → All P m → P (last_tall c m)
  unfolding last_tall
  last_tall-All P c [] h g = h
  last_tall-All P c (x ∷ m) h g = elim (Bool-cases (tall x)) [
    | inl t ↦ rw t (last_tall-All P x m g.0 g.1)
    | inr t ↦ rw t (last_tall-All P c m h g.1)
  ]

  pub last_tall-append : (c : ℕ) (m k : List ℕ) → last_tall c (m ++ k) ≡ last_tall (last_tall c m) k
  unfolding last_tall
  last_tall-append c [] k = refl
  last_tall-append c (x ∷ m) k = last_tall-append (if tall x then x else c) m k

  pub last_tall-last_of :
      (c : ℕ) (m : List ℕ) → tall (last_of c m) ≡ true → last_tall c m ≡ last_of c m
  unfolding last_tall last_of
  last_tall-last_of c [] h = refl
  last_tall-last_of c (x ∷ []) h = rw h refl
  last_tall-last_of c (x ∷ y ∷ m) h = last_tall-last_of (if tall x then x else c) (y ∷ m) h

  -- Where no node reaches the level.
  pub last_tall_none : (c : ℕ) (m : List ℕ) → All (λ x. tall x ≡ false) m → last_tall c m ≡ c
  unfolding last_tall
  last_tall_none c [] h = refl
  last_tall_none c (x ∷ m) h = rw h.0 (last_tall_none c m h.1)

  pub Links-frame :
      (next next' : ℕ → Option (Option ℕ)) (l : List ℕ)
      → All (λ x. next' x ≡ next x) l
      → Links next l
      → Links next' l
  Links-frame next next' [] h g = tt
  Links-frame next next' (x ∷ l) h g = (λ t. h.0 ∙ g.0 t, Links-frame next next' l h.1 g.1)

  pub Links-last_of :
      (next : ℕ → Option (Option ℕ)) (c : ℕ) (m r : List ℕ)
      → Links next (c ∷ m ++ r)
      → Links next (last_of c m ∷ r)
  unfolding last_of
  Links-last_of next c [] r h = h
  Links-last_of next c (x ∷ m) r h = Links-last_of next x m r h.1

  -- A node that does not reach the level changes nothing.
  pub Links-skip :
      (next : ℕ → Option (Option ℕ)) (n : ℕ) (xs r : List ℕ)
      → tall n ≡ false
      → Links next (xs ++ r)
      → Links next (xs ++ n ∷ r)
  Links-skip next n [] r h g = (λ t. absurd (cc (t, h)), g)
  Links-skip next n (x ∷ xs) r h g =
      (λ t. g.0 t ∙ ap some (sym (first_tall-skip n xs r h)), Links-skip next n xs r h g.1)

  pub Links-unskip :
      (next : ℕ → Option (Option ℕ)) (n : ℕ) (xs r : List ℕ)
      → tall n ≡ false
      → Links next (xs ++ n ∷ r)
      → Links next (xs ++ r)
  Links-unskip next n [] r h g = g.1
  Links-unskip next n (x ∷ xs) r h g =
      (λ t. g.0 t ∙ ap some (first_tall-skip n xs r h), Links-unskip next n xs r h g.1)

-- Two readings of the same nodes.
module _ (tall tall' : ℕ → Bool) where
  pub first_tall-cong :
      (l : List ℕ) → All (λ x. tall' x ≡ tall x) l → first_tall tall' l ≡ first_tall tall l
  unfolding first_tall
  first_tall-cong [] h = refl
  first_tall-cong (x ∷ l) h = rw (h.0, first_tall-cong l h.1) refl

  pub last_tall-cong :
      (c : ℕ) (m : List ℕ)
      → All (λ x. tall' x ≡ tall x) m
      → last_tall tall' c m ≡ last_tall tall c m
  unfolding last_tall
  last_tall-cong c [] h = refl
  last_tall-cong c (x ∷ m) h = rw h.0 (last_tall-cong (if tall x then x else c) m h.1)

  pub Links-cong :
      (next next' : ℕ → Option (Option ℕ)) (l : List ℕ)
      → All (λ x. tall' x ≡ tall x) l
      → All (λ x. next' x ≡ next x) l
      → Links tall next l
      → Links tall' next' l
  Links-cong next next' [] h g k = tt
  Links-cong next next' (x ∷ l) h g k = (
    λ t. g.0 ∙ k.0 (sym h.0 ∙ t) ∙ ap some (sym (first_tall-cong l h.1)),
    Links-cong next next' l h.1 g.1 k.1,
  )

module _ (tall : ℕ → Bool) where
  pub last_tall-tall : (c : ℕ) (m : List ℕ) → tall c ≡ true → tall (last_tall tall c m) ≡ true
  unfolding last_tall
  last_tall-tall c [] h = h
  last_tall-tall c (x ∷ m) h = elim (Bool-cases (tall x)) [
    | inl t ↦ rw t (last_tall-tall x m t)
    | inr t ↦ rw t (last_tall-tall c m h)
  ]

pub Distinct-middle :
    (m r : List ℕ) (c : ℕ) → Distinct (m ++ c ∷ r) → All (λ y. c ≢ y) m × All (λ y. c ≢ y) r
Distinct-middle [] r c h = (tt, h.0)
Distinct-middle (x ∷ m) r c h =
    let (front, back) = Distinct-middle m r c h.1 in
    let apart = (All-append (λ y. x ≢ y) m (c ∷ r) h.0).1.0 in (((λ e. apart (sym e)), front), back)
