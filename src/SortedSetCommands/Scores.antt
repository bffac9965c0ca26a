-- ===== src/SortedSetCommands/Scores.antt =====
-- The sorted set of a key (internal/storage/zset.go) by its members and their scores.
use tealis.Base.{
  ℕ, List, [], ◌∷◌, ◌++◌, Option, none, some, Bool, true, false, if◌then◌else◌, ◌≡◌, refl, sym, ◌∙◌,
  ap, ◌⊎◌, inl, inr, ok, is_some, ltb, get_elem?-replicate, arith,
}
use mathlib.Core.Path.{subst}
use tealis.Base.Int.{ℤ}
use tealis.Base.Text.{Text}
use tealis.Base.Dict.{erase, lookup, insert, lookup-insert_self, erase-insert}
use tealis.Floats.{Arithmetic}
use tealis.Value.{SortedSet, sorted_set, as_sorted_set}
use tealis.Tealis.{Tealis}
use tealis.SkipList.{new_sorted_set, new_skip_list_node, forward_at, header, max_level}
use tealis.SkipList.Adding.{add}
use tealis.SkipList.Removing.{remove}
use tealis.SkipList.Chains.{first_tall}
use tealis.SkipList.Memory.{Entry}
use tealis.SkipList.Entries.{IsNumber, IsFloatOrder, place}
use tealis.SkipList.Meaning.{Laid, Represents}
use tealis.SkipList.Refinement.{add-place}
use tealis.SkipList.Removals.{remove-Removal}
use tealis.SkipList.Finding.{AllSmaller, NoneSmaller, remove-found}
use tealis.SkipList.Lists.{listed, listed_nothing, range-listed}
use tealis.SkipList.ByScore.{between, range_by_score-between}
use tealis.SortedSetCommands.{
  zadd, store_set, zrange, zrange_by_score, zrem, store_removed, reading,
}

-- The header alone.
new_forward :
    (source i : ℕ)
    → forward_at (new_sorted_set source).nodes i header
      ≡ (if ltb i max_level then some none else none)
unfolding forward_at new_sorted_set new_skip_list_node
new_forward source i = let nothing : Option ℕ = none in get_elem?-replicate max_level i nothing

new-Laid : (source : ℕ) → Laid (new_sorted_set source) []
unfolding new_sorted_set first_tall
new-Laid source = record {
  links = λ i. ((λ t. linked i t), tt);
  distinct = (tt, tt);
  grounded = tt;
  low = tt;
  header_tall = λ i h. ap is_some (new_forward source i) ∙ ground (arith, h);
  level_pos = omega arith;
  level_max = omega arith;
  counted = refl;
  room = omega arith;
}
  where
    linked :
        (i : ℕ)
        → is_some (forward_at (new_sorted_set source).nodes i header) ≡ true
        → forward_at (new_sorted_set source).nodes i header ≡ some none
    linked i t = ground (arith, new_forward source i, t)

-- The key holds a sorted set of these entries, or there are none and no key.
pub data Scores (arithmetic : Arithmetic) (key : Text) (s : Tealis) : List Entry → Type 0 where
  absent : lookup key s.store ≡ none → Scores arithmetic key s []
  present :
      {es : List Entry} (x : SortedSet)
      → lookup key s.store ≡ some (sorted_set x)
      → Represents arithmetic x es
      → Scores arithmetic key s es

-- The other keys and the other parts of the state are as they were.
abbrev pub SameElsewhere : Text → Tealis → Tealis → Type 0
SameElsewhere key s s' =
    (s' ≡ record s { store = s'.store }) × (erase key s'.store ≡ erase key s.store)

module _ (arithmetic : Arithmetic) (float32 : ℕ → Bool × ℕ) (source : ℕ) (key : Text) where
  stored :
      (x x' : SortedSet) (member : Text) (score : ℕ) (es : List Entry) (s : Tealis)
      → add arithmetic float32 member score x ≡ ok x'
      → Represents arithmetic x' es
      → (s' : Tealis) × ((store_set arithmetic key (add arithmetic float32 member score x) s
            ≡ (ok 1, s'))
          × (Scores arithmetic key s' es × SameElsewhere key s s'))
  unfolding store_set
  stored x x' member score es s done h = (
    record s { store = insert key (sorted_set x') s.store },
    (
      rw done refl,
      (
        present x' (lookup-insert_self key (sorted_set x') s.store) h,
        (refl, erase-insert key (sorted_set x') s.store),
      ),
    ),
  )

  -- `ZAdd` of a member whose score is a number ends and answers 1: the set of the key then holds the entries that it held, in the order of the scores, with the member put in its place; a key that was absent is made, and nothing else of the state changes. This is for all levels that are drawn.
  pub zadd-place :
      (order : IsFloatOrder arithmetic) (member : Text) (score : ℕ) (es : List Entry) (s : Tealis)
      → IsNumber arithmetic score
      → Scores arithmetic key s es
      → (s' : Tealis) × ((zadd arithmetic float32 source key score member s ≡ (ok 1, s'))
          × (Scores arithmetic key s' (place arithmetic (member, score) es)
              × SameElsewhere key s s'))
  unfolding zadd as_sorted_set
  zadd-place order member score es s number (absent missing) =
      let new : Represents arithmetic (new_sorted_set source) [] = record {
        addresses = [];
        laid = new-Laid source;
        holds = tt;
        sorted = tt;
        numbers = tt;
      } in
      let (x', (done, h)) =
        add-place arithmetic order float32 member score (new_sorted_set source) [] number new in
      rw (missing, zadd)
        (stored (new_sorted_set source) x' member score (place arithmetic (member, score) []) s done
          h)
  zadd-place order member score es s number (present x there held) =
      let (x', (done, h)) = add-place arithmetic order float32 member score x es number held in
      rw (there, zadd) (stored x x' member score (place arithmetic (member, score) es) s done h)

module _ (arithmetic : Arithmetic) (key : Text) where
  -- `ZRange` lists the members at the places from `start` to `end`, both counted in: nothing where a bound is negative or the key is absent.
  pub zrange-listed :
      (start end : ℤ) (es : List Entry) (s : Tealis)
      → Scores arithmetic key s es
      → zrange key start end s ≡ ok (listed start end es)
  unfolding zrange reading as_sorted_set
  zrange-listed start end es s (absent missing) =
      rw (missing, zrange, reading) (ap ok (sym (listed_nothing start end)))
  zrange-listed start end es s (present x there held) =
      rw (there, zrange, reading) (range-listed arithmetic start end x es held)

  -- `ZRangeByScore` lists, in the order of the scores, exactly the members whose score is not below `min` and is at most `max`.
  pub zrange_by_score-between :
      (order : IsFloatOrder arithmetic) (min max : ℕ) (es : List Entry) (s : Tealis)
      → Scores arithmetic key s es
      → zrange_by_score arithmetic key min max s ≡ ok (between arithmetic min max es)
  unfolding zrange_by_score reading as_sorted_set between
  zrange_by_score-between order min max es s (absent missing) =
      rw (missing, zrange_by_score, reading) refl
  zrange_by_score-between order min max es s (present x there held) =
      rw (there, zrange_by_score, reading)
        (range_by_score-between arithmetic order min max x es held)

  -- What `ZRem` leaves at the key.
  abbrev Removed : Text → Tealis → List Entry → Type 0
  Removed member s es =
      (s' : Tealis) × ((zrem key member s ≡ (ok true, s'))
        × (Scores arithmetic key s' es × SameElsewhere key s s'))

  taken :
      (x x' : SortedSet) (member : Text) (es : List Entry) (s : Tealis)
      → lookup key s.store ≡ some (sorted_set x)
      → remove member x ≡ ok (true, x')
      → Represents arithmetic x' es
      → Removed member s es
  unfolding zrem as_sorted_set store_removed
  taken x x' member es s there done h = (
    record s { store = insert key (sorted_set x') s.store },
    (
      rw (there, zrem, done, store_removed) refl,
      (
        present x' (lookup-insert_self key (sorted_set x') s.store) h,
        (refl, erase-insert key (sorted_set x') s.store),
      ),
    ),
  )

  -- `ZRem` ends. It answers false and the key holds what it held, or it answers true and has taken exactly one entry out, which is of the member, while the others stay in their order; nothing else of the state changes either way.
  pub zrem_removes :
      (member : Text) (es : List Entry) (s : Tealis)
      → Scores arithmetic key s es
      → ((s' : Tealis) × ((zrem key member s ≡ (ok false, s'))
            × (Scores arithmetic key s' es × SameElsewhere key s s')))
        ⊎ ((em : List Entry) × ((er : List Entry) × ((score : ℕ) × ((es
                    ≡ em ++ (member, score) ∷ er)
                  × Removed member s (em ++ er)))))
  unfolding zrem as_sorted_set store_removed
  zrem_removes member es s (absent missing) =
      inl (s, (rw (missing, zrem) refl, (absent missing, (refl, refl))))
  zrem_removes member es s (present x there held) =
      elim (remove-Removal arithmetic member x es held) [
        | inl kept ↦ inl (
          record s { store = insert key (sorted_set x) s.store },
          (
            rw (there, zrem, kept, store_removed) refl,
            (
              present x (lookup-insert_self key (sorted_set x) s.store) held,
              (refl, erase-insert key (sorted_set x) s.store),
            ),
          ),
        )
        | inr (em, (er, (score, (x', (parts, (done, h)))))) ↦
            inr (em, (er, (score, (parts, taken x x' member (em ++ er) s there done h))))
      ]

  -- `ZRem` finds and removes a member where those in front of it are smaller and those behind it are not, as where the scores grow with the members; the others stay in their order, and so does everything else.
  pub zrem_found :
      (member : Text) (score : ℕ) (em er : List Entry) (s : Tealis)
      → AllSmaller member em
      → NoneSmaller member ((member, score) ∷ er)
      → Scores arithmetic key s (em ++ (member, score) ∷ er)
      → Removed member s (em ++ er)
  zrem_found member score em er s small big scores = found (em ++ (member, score) ∷ er) refl scores
    where
      found :
          (es : List Entry)
          → es ≡ em ++ (member, score) ∷ er
          → Scores arithmetic key s es
          → Removed member s (em ++ er)
      found es e (absent missing) = absurd (nonempty em e)
        where
          nonempty : (l : List Entry) → [] ≡ l ++ (member, score) ∷ er → ⊥
          nonempty [] h = cc h
          nonempty (f ∷ l) h = cc h
      found es e (present x there held) =
          let (x', (done, h)) =
            remove-found arithmetic member score x em er
              (subst (λ l. Represents arithmetic x l) e held) small big in
          taken x x' member (em ++ er) s there done h
