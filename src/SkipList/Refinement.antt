-- ===== src/SkipList/Refinement.antt =====
-- `ZAdd` of a sorted set (internal/storage/zset.go) puts a member in its place.
use tealis.Base.{
  ℕ, zero, suc, ◌+◌, ◌≤◌, ◌<◌, List, [], ◌∷◌, ◌++◌, none, some, Bool, true, false, ◌≡◌, refl, sym,
  ◌∙◌, ap, ◌⊎◌, inl, inr, Bool-cases, ok, ◌>>=◌, get_elem?, length, arith,
}
use mathlib.Core.Path.{subst}
use tealis.Base.Text.{Text, text_eq, text_eq→eq}
use tealis.Floats.{Arithmetic}
use tealis.Value.{SkipListNode, SortedSet}
use tealis.SkipList.{Nodes, header, max_level, random_level, random_level_from, match_at}
use tealis.SkipList.Adding.{precedes, add_at, add}
use tealis.SkipList.Chains.{All-append, last_of, first_tall, first_tall_reached, Distinct-middle}
use tealis.SkipList.Walks.{tall_at, less_at}
use tealis.SkipList.Memory.{Entry, entry_at}
use tealis.SkipList.Entries.{
  IsNumber, IsFloatOrder, before, Sorted, place, place-Sorted, place-append, AllFront,
  Sorted-append, before_trans,
}
use tealis.SkipList.Meaning.{
  Holds, Laid, Represents, Place, search-Place, match_at_end, match_at_node,
}
use tealis.SkipList.Rescoring.{rescored, rescored-Laid, rescored-Holds}
use tealis.SkipList.Inserting.{inserted, inserted-Laid, inserted-Holds, insert_node-inserted}

random_level_from_bounds :
    (float32 : ℕ → Bool × ℕ) (rounds level source : ℕ)
    → (level ≤ (random_level_from float32 rounds level source).0)
      × ((random_level_from float32 rounds level source).0 ≤ level + rounds)
unfolding random_level_from
random_level_from_bounds float32 zero level source = omega arith
random_level_from_bounds float32 (suc rounds) level source =
    ground (arith, random_level_from_bounds float32 rounds (level + 1) (float32 source).1)

-- A level that is drawn is one of the 16.
pub random_level_bounds :
    (float32 : ℕ → Bool × ℕ) (source : ℕ)
    → (0 < (random_level float32 source).0) × ((random_level float32 source).0 ≤ max_level)
unfolding random_level
random_level_bounds float32 source = omega (arith, random_level_from_bounds float32 15 1 source)

module _ (arithmetic : Arithmetic) where
  less_at-before :
      (key : Text) (score : ℕ) (nodes : Nodes) (c : ℕ) (e : Entry)
      → entry_at nodes c ≡ some e
      → less_at (precedes arithmetic score key) nodes c ≡ before arithmetic e (key, score)
  unfolding less_at entry_at precedes before
  less_at-before key score nodes c e h = ground (arith, h)

  -- The entries in front of an entry that is in front are so too.
  front_all :
      (order : IsFloatOrder arithmetic) (key : Text) (score : ℕ) (nodes : Nodes) (c : ℕ)
      (m : List ℕ) (es : List Entry)
      → Holds nodes m es
      → Sorted arithmetic es
      → (m ≡ []) ⊎ (less_at (precedes arithmetic score key) nodes (last_of c m) ≡ true)
      → AllFront arithmetic (key, score) es
  unfolding last_of
  front_all order key score nodes c [] [] h s ends = tt
  front_all order key score nodes c [] (e ∷ es) h s ends = absurd h
  front_all order key score nodes c (d ∷ m) [] h s ends = absurd h
  front_all order key score nodes c (d ∷ m) (e ∷ es) h s (inl none_there) = absurd (cc none_there)
  front_all order key score nodes c (d ∷ []) (e ∷ []) h s (inr last) =
      (sym (less_at-before key score nodes d e h.0) ∙ last, tt)
  front_all order key score nodes c (d ∷ []) (e ∷ f ∷ es) h s (inr last) = absurd h.1
  front_all order key score nodes c (d ∷ k ∷ m) (e ∷ []) h s (inr last) = absurd h.1
  front_all order key score nodes c (d ∷ k ∷ m) (e ∷ f ∷ es) h s (inr last) =
      let rest = front_all order key score nodes d (k ∷ m) (f ∷ es) h.1 s.1 (inr last) in
      (before_trans arithmetic order e f (key, score) s.0.0 rest.0, rest)

  -- What ZAdd leaves.
  abbrev pub Added : (ℕ → Bool × ℕ) → Text → ℕ → SortedSet → List Entry → Type 0
  Added float32 key score x es =
      (x' : SortedSet) × ((add arithmetic float32 key score x ≡ ok x')
        × ((l : List ℕ) × (Laid x' l × Holds x'.nodes l (place arithmetic (key, score) es))))

  module _ (float32 : ℕ → Bool × ℕ) (key : Text) (score : ℕ) (x : SortedSet) (es : List Entry)
      (p : Place (precedes arithmetic score key) x es) where
    -- The member was not found.
    Added-new :
        match_at key x.nodes (last_of header p.m) ≡ ok none
        → place arithmetic (key, score) es ≡ p.em ++ (key, score) ∷ p.er
        → Added float32 key score x es
    unfolding add add_at
    Added-new missed placed =
        let level = random_level float32 x.rand_src in
        let (low, high) = random_level_bounds float32 x.rand_src in
        let laid' =
          inserted-Laid x p.m p.r p.laid key score level.0 low high p.update p.count p.updates
            level.1 in
        let holds =
          inserted-Holds x p.m p.r p.laid key score level.0 low high p.update p.count p.updates
            level.1 p.em p.er p.front p.back in
        (
          inserted x p.m p.r p.laid key score level.0 low high p.update p.count p.updates level.1,
          (
            rw (p.found, missed, ◌>>=◌)
                (insert_node-inserted x p.m p.r p.laid key score level.0 low high p.update p.count
                  p.updates arithmetic level.1),
            (p.m ++ length x.nodes ∷ p.r, (laid', rw placed holds)),
          ),
        )

    -- The member of the first node behind the place is replaced.
    Added-old :
        (c : ℕ) (r : List ℕ) (e : Entry) (er : List Entry) (n : SkipListNode)
        → p.r ≡ c ∷ r
        → p.er ≡ e ∷ er
        → Laid x (p.m ++ c ∷ r)
        → Holds x.nodes r er
        → get_elem? x.nodes c ≡ some n
        → n.key ≡ key
        → match_at key x.nodes (last_of header p.m) ≡ ok (some (c, n))
        → place arithmetic (key, score) es ≡ p.em ++ (key, score) ∷ er
        → Added float32 key score x es
    unfolding add add_at
    Added-old c r e er n hr her laid holds there named hit placed =
        let (am, ar) = Distinct-middle p.m r c laid.distinct.1 in
        (
          rescored x c score n there,
          (
            rw (p.found, hit, ◌>>=◌) (unfold rescored in refl),
            (
              p.m ++ c ∷ r,
              (
                rescored-Laid x c score n there (p.m ++ c ∷ r) laid,
                rw (placed, sym named)
                    (rescored-Holds x c score n there p.m r p.em er am ar p.front holds),
              ),
            ),
          ),
        )

    module _ (order : IsFloatOrder arithmetic) (sorted : Sorted arithmetic es) where
      front : AllFront arithmetic (key, score) p.em
      front =
          front_all order key score x.nodes header p.m p.em p.front
            (Sorted-append arithmetic p.em p.er (subst (λ l. Sorted arithmetic l) p.entries sorted))
            p.ends

      placed_at :
          (er fs : List Entry)
          → p.er ≡ er
          → place arithmetic (key, score) er ≡ (key, score) ∷ fs
          → place arithmetic (key, score) es ≡ p.em ++ (key, score) ∷ fs
      placed_at er fs her h =
          rw (p.entries, place-append arithmetic (key, score) p.em p.er front, her, h) refl

      Added-at :
          (r : List ℕ) (er : List Entry)
          → p.r ≡ r
          → p.er ≡ er
          → Holds x.nodes r er
          → Added float32 key score x es
      unfolding place first_tall
      Added-at [] [] hr her holds =
          Added-new (match_at_end key x p.m (subst (λ l. Laid x (p.m ++ l)) hr p.laid))
            (placed_at [] p.er her (rw her refl))
      Added-at [] (e ∷ er) hr her holds = absurd holds
      Added-at (c ∷ r) [] hr her holds = absurd holds
      Added-at (c ∷ r) (e ∷ er) hr her holds =
          let laid : Laid x (p.m ++ c ∷ r) = subst (λ l. Laid x (p.m ++ l)) hr p.laid in
          let (n, (there, (same, found))) = match_at_node key x p.m r c e laid holds.0 in
          let reached =
            (All-append (λ d. tall_at x.nodes 0 d ≡ true) p.m (c ∷ r) laid.grounded).1.0 in
          let blocked : less_at (precedes arithmetic score key) x.nodes c ≡ false = p.blocked c (
            ap (first_tall (tall_at x.nodes 0)) hr
            ∙ first_tall_reached (tall_at x.nodes 0) c r reached) in
          let behind : before arithmetic e (key, score) ≡ false =
            sym (less_at-before key score x.nodes c e holds.0) ∙ blocked in
          elim (Bool-cases (text_eq e.0 key)) [
            | inl hit ↦
                Added-old c r e er n hr her laid holds.1 there
                  (ap (λ (f : Entry). f.0) same ∙ text_eq→eq e.0 key hit) (found ∙ rw hit refl)
                  (placed_at (e ∷ er) er her (rw (behind, hit) refl))
            | inr other ↦
                Added-new (found ∙ rw other refl)
                  (placed_at (e ∷ er) p.er her (rw (behind, other, her) refl))
          ]

  -- On a skip list that holds the entries in order, adding a member whose score is a number ends, and gives a skip list that holds them with the member put in its place.
  pub add-place :
      (order : IsFloatOrder arithmetic) (float32 : ℕ → Bool × ℕ) (key : Text) (score : ℕ)
      (x : SortedSet) (es : List Entry)
      → IsNumber arithmetic score
      → Represents arithmetic x es
      → (x' : SortedSet) × ((add arithmetic float32 key score x ≡ ok x')
          × Represents arithmetic x' (place arithmetic (key, score) es))
  add-place order float32 key score x es number h =
      let p = search-Place (precedes arithmetic score key) x h.addresses es h.laid h.holds in
      let (x', (done, (l, (laid, holds)))) =
        Added-at float32 key score x es p order h.sorted p.r p.er refl refl p.back in
      let (sorted, numbers) =
        place-Sorted arithmetic order (key, score) es number h.numbers h.sorted in
      (
        x',
        (
          done,
          record { addresses = l; laid = laid; holds = holds; sorted = sorted; numbers = numbers },
        ),
      )
