-- ===== src/SkipList/Entries.antt =====
-- What a sorted set stands for (internal/storage/zset.go): its members with their scores, by score and then by
-- member.
use tealis.Base.{
  ℕ, List, [], ◌∷◌, ◌++◌, Bool, true, false, ◌&&◌, ◌||◌, if◌then◌else◌, ◌≡◌, refl, ap, ◌⊎◌, inl,
  inr, Bool-cases, arith,
}
use tealis.Base.Text.{Text, text_eq, text_lt, text_eq_iff}
use tealis.Floats.{Arithmetic}
use tealis.SkipList.Memory.{Entry}

pub text_lt_trans : (s t u : Text) → text_lt s t ≡ true → text_lt t u ≡ true → text_lt s u ≡ true
unfolding text_lt
text_lt_trans s t [] h g = g
text_lt_trans s [] (e ∷ u) h g = absurd (cc h)
text_lt_trans [] (d ∷ t) (e ∷ u) h g = refl
text_lt_trans (c ∷ s) (d ∷ t) (e ∷ u) h g = ground (arith, text_lt_trans s t u)

pub text_lt_total : (s t : Text) → text_lt s t ≡ false → text_eq t s ≡ false → text_lt t s ≡ true
unfolding text_lt text_eq
text_lt_total [] [] h g = absurd (cc g)
text_lt_total [] (d ∷ t) h g = absurd (cc h)
text_lt_total (c ∷ s) [] h g = refl
text_lt_total (c ∷ s) (d ∷ t) h g = ground (arith, text_lt_total s t)

module _ (arithmetic : Arithmetic) where
  -- NaN is what is not equal to itself.
  abbrev pub IsNumber : ℕ → Type 0
  IsNumber x = arithmetic.equal x x ≡ true

  -- The order of the float64 values that are numbers.
  pub record IsFloatOrder : Type 0 where
    pub equal_sym : (x y : ℕ) → arithmetic.equal x y ≡ true → arithmetic.equal y x ≡ true
    pub equal_trans :
        (x y z : ℕ)
        → arithmetic.equal x y ≡ true
        → arithmetic.equal y z ≡ true
        → arithmetic.equal x z ≡ true
    pub below_trans :
        (x y z : ℕ)
        → arithmetic.below x y ≡ true
        → arithmetic.below y z ≡ true
        → arithmetic.below x z ≡ true
    pub below_equal :
        (x y z : ℕ)
        → arithmetic.below x y ≡ true
        → arithmetic.equal y z ≡ true
        → arithmetic.below x z ≡ true
    pub equal_below :
        (x y z : ℕ)
        → arithmetic.equal x y ≡ true
        → arithmetic.below y z ≡ true
        → arithmetic.below x z ≡ true
    pub total :
        (x y : ℕ)
        → IsNumber x
        → IsNumber y
        → (arithmetic.below x y ≡ true)
          ⊎ ((arithmetic.equal x y ≡ true) ⊎ (arithmetic.below y x ≡ true))

  -- By score, then by member.
  unfoldable pub before : Entry → Entry → Bool
  before e f = arithmetic.below e.1 f.1 || (arithmetic.equal e.1 f.1 && text_lt e.0 f.0)

  abbrev pub AllBehind : Entry → List Entry → Type 0
  AllBehind e [] = Unit
  AllBehind e (f ∷ es) = (before e f ≡ true) × AllBehind e es

  abbrev pub Sorted : List Entry → Type 0
  Sorted [] = Unit
  Sorted (e ∷ es) = AllBehind e es × Sorted es

  abbrev pub Numbers : List Entry → Type 0
  Numbers [] = Unit
  Numbers (e ∷ es) = IsNumber e.1 × Numbers es

  -- A member put in its place. If the first entry that is not before it is of the same member, that entry
  -- is replaced; another entry of the member stays.
  unfoldable pub place : Entry → List Entry → List Entry
  place e [] = e ∷ []
  place e (f ∷ es) =
      if before f e then f ∷ place e es else if text_eq f.0 e.0 then e ∷ es else e ∷ f ∷ es

  module _ (order : IsFloatOrder) where
    pub before_trans : (e f g : Entry) → before e f ≡ true → before f g ≡ true → before e g ≡ true
    unfolding before
    before_trans e f g h k = ground (
      arith,
      text_lt_trans e.0 f.0 g.0,
      order.below_trans e.1 f.1 g.1,
      order.below_equal e.1 f.1 g.1,
      order.equal_below e.1 f.1 g.1,
      order.equal_trans e.1 f.1 g.1,
    )

    before_total :
        (e f : Entry)
        → IsNumber e.1
        → IsNumber f.1
        → before f e ≡ false
        → text_eq f.0 e.0 ≡ false
        → before e f ≡ true
    unfolding before
    before_total e f a b h k = ground (
      arith,
      order.total e.1 f.1 a b,
      text_lt_total f.0 e.0,
      text_eq_iff e.0 f.0,
      text_eq_iff f.0 e.0,
      order.equal_sym e.1 f.1,
    )

    -- What was behind an entry is behind one of the same member that is not before it.
    before_same :
        (e f g : Entry)
        → IsNumber e.1
        → IsNumber f.1
        → before f e ≡ false
        → text_eq f.0 e.0 ≡ true
        → before f g ≡ true
        → before e g ≡ true
    unfolding before
    before_same e f g a b h k l = ground (
      arith,
      order.total e.1 f.1 a b,
      text_eq_iff f.0 e.0,
      order.below_trans e.1 f.1 g.1,
      order.below_equal e.1 f.1 g.1,
      order.equal_below e.1 f.1 g.1,
      order.equal_trans e.1 f.1 g.1,
    )

    AllBehind-trans :
        (e f : Entry) (es : List Entry) → before e f ≡ true → AllBehind f es → AllBehind e es
    AllBehind-trans e f [] h g = tt
    AllBehind-trans e f (k ∷ es) h g = (before_trans e f k h g.0, AllBehind-trans e f es h g.1)

    AllBehind-same :
        (e f : Entry) (es : List Entry)
        → IsNumber e.1
        → IsNumber f.1
        → before f e ≡ false
        → text_eq f.0 e.0 ≡ true
        → AllBehind f es
        → AllBehind e es
    AllBehind-same e f [] a b h k g = tt
    AllBehind-same e f (x ∷ es) a b h k g =
        (before_same e f x a b h k g.0, AllBehind-same e f es a b h k g.1)

    AllBehind-place :
        (g e : Entry) (es : List Entry)
        → before g e ≡ true
        → AllBehind g es
        → AllBehind g (place e es)
    unfolding place
    AllBehind-place g e [] h k = (h, tt)
    AllBehind-place g e (f ∷ es) h k = ground (arith, AllBehind-place g e es h)

    -- A member that is put in its place leaves the entries in order.
    pub place-Sorted :
        (e : Entry) (es : List Entry)
        → IsNumber e.1
        → Numbers es
        → Sorted es
        → Sorted (place e es) × Numbers (place e es)
    unfolding place
    place-Sorted e [] a n s = ((tt, tt), (a, tt))
    place-Sorted e (f ∷ es) a n s = elim (Bool-cases (before f e)) [
      | inl front ↦
          let (sorted, numbers) = place-Sorted e es a n.1 s.1 in
          rw front ((AllBehind-place f e es front s.0, sorted), (n.0, numbers))
      | inr here ↦ rw here (elim (Bool-cases (text_eq f.0 e.0)) [
        | inl same ↦ rw same ((AllBehind-same e f es a n.0 here same s.0, s.1), (a, n.1))
        | inr other ↦
            let first = before_total e f a n.0 here other in
            rw other (((first, AllBehind-trans e f es first s.0), s), (a, n))
      ])
    ]

  abbrev pub AllFront : Entry → List Entry → Type 0
  AllFront e [] = Unit
  AllFront e (f ∷ es) = (before f e ≡ true) × AllFront e es

  pub place-append :
      (e : Entry) (es fs : List Entry) → AllFront e es → place e (es ++ fs) ≡ es ++ place e fs
  unfolding place
  place-append e [] fs h = refl
  place-append e (f ∷ es) fs h = rw h.0 (ap (λ (l : List Entry). f ∷ l) (place-append e es fs h.1))

  pub Sorted-append : (es fs : List Entry) → Sorted (es ++ fs) → Sorted es
  Sorted-append [] fs s = tt
  Sorted-append (e ∷ es) fs s = (front e es s.0, Sorted-append es fs s.1)
    where
      front : (e : Entry) (es : List Entry) → AllBehind e (es ++ fs) → AllBehind e es
      front e [] h = tt
      front e (f ∷ es) h = (h.0, front e es h.1)

  Sorted-split :
      (g e : Entry) (es fs : List Entry) → AllBehind g (es ++ e ∷ fs) → AllBehind g (es ++ fs)
  Sorted-split g e [] fs h = h.1
  Sorted-split g e (f ∷ es) fs h = (h.0, Sorted-split g e es fs h.1)

  -- An entry that is taken out.
  pub Sorted-without :
      (e : Entry) (es fs : List Entry)
      → Sorted (es ++ e ∷ fs)
      → Numbers (es ++ e ∷ fs)
      → Sorted (es ++ fs) × Numbers (es ++ fs)
  Sorted-without e [] fs s n = (s.1, n.1)
  Sorted-without e (f ∷ es) fs s n =
      let (sorted, numbers) = Sorted-without e es fs s.1 n.1 in
      ((Sorted-split f e es fs s.0, sorted), (n.0, numbers))
