-- ===== src/SkipList/Rescoring.antt =====
-- The score of a node of a skip list that is changed (internal/storage/zset.go).
use tealis.Base.{
  ℕ, List, [], ◌∷◌, ◌++◌, Option, some, true, false, ◌≡◌, ◌≢◌, refl, sym, ◌∙◌, fun_ext, is_some,
  length, length-set, set, get_elem?, arith,
}
use mathlib.Core.Path.{subst}
use tealis.Value.{SkipListNode, SortedSet}
use tealis.SkipList.{forward_at, header}
use tealis.SkipList.Chains.{All, Links}
use tealis.SkipList.Memory.{Entry, entry_at, forward_at-set, entry_at-set}
use tealis.SkipList.Meaning.{Holds, Holds-frame, append-Holds, Laid}

-- What is laid out depends on the pointers only.
pub Laid-frame :
    (x x' : SortedSet) (l : List ℕ)
    → ((j c : ℕ) → forward_at x'.nodes j c ≡ forward_at x.nodes j c)
    → x'.level ≡ x.level
    → x'.length ≡ x.length
    → length x'.nodes ≡ length x.nodes
    → Laid x l
    → Laid x' l
Laid-frame x x' l same level_same length_same room_same laid = record {
  links =
      subst
        (λ (f : ℕ → ℕ → Option (Option ℕ)).
          (i : ℕ) → Links (λ c. is_some (f i c)) (f i) (header ∷ l))
        F laid.links;
  distinct = laid.distinct;
  grounded =
      subst (λ (f : ℕ → ℕ → Option (Option ℕ)). All (λ c. is_some (f 0 c) ≡ true) l) F
        laid.grounded;
  low = rw level_same (
      subst (λ (f : ℕ → ℕ → Option (Option ℕ)). All (λ c. is_some (f x.level c) ≡ false) l) F
        laid.low);
  header_tall = λ i h. rw same (laid.header_tall i h);
  level_pos = rw level_same laid.level_pos;
  level_max = rw level_same laid.level_max;
  counted = length_same ∙ laid.counted;
  room = rw room_same laid.room;
}
  where
    F : forward_at x.nodes ≡ forward_at x'.nodes
    F = fun_ext (λ j. fun_ext (λ c. sym (same j c)))

module _ (x : SortedSet) (c score : ℕ) (n : SkipListNode)
    (there : get_elem? x.nodes c ≡ some n) where
  unfoldable pub rescored : SortedSet
  rescored = record x { nodes = set x.nodes c (record n { score = score }) }

  forward_at-rescored : (j y : ℕ) → forward_at rescored.nodes j y ≡ forward_at x.nodes j y
  unfolding rescored
  forward_at-rescored j y =
      forward_at-set x.nodes c n (record n { score = score }) there j y
      ∙ (unfold forward_at in ground (arith, there))

  pub rescored-Laid : (l : List ℕ) → Laid x l → Laid rescored l
  unfolding rescored
  rescored-Laid l laid =
      Laid-frame x rescored l forward_at-rescored refl refl (length-set x.nodes c _) laid

  entry_at-rescored : (y : ℕ) → c ≢ y → entry_at rescored.nodes y ≡ entry_at x.nodes y
  unfolding rescored
  entry_at-rescored y ne =
      entry_at-set x.nodes c n (record n { score = score }) there y ∙ ground (arith, ne)

  others :
      (l : List ℕ)
      → All (λ y. c ≢ y) l
      → All (λ y. entry_at rescored.nodes y ≡ entry_at x.nodes y) l
  others [] h = tt
  others (y ∷ l) h = (entry_at-rescored y h.0, others l h.1)

  pub rescored-Holds :
      (m r : List ℕ) (em er : List Entry)
      → All (λ y. c ≢ y) m
      → All (λ y. c ≢ y) r
      → Holds x.nodes m em
      → Holds x.nodes r er
      → Holds rescored.nodes (m ++ c ∷ r) (em ++ (n.key, score) ∷ er)
  unfolding rescored
  rescored-Holds m r em er am ar hm hr =
      append-Holds rescored.nodes m (c ∷ r) em ((n.key, score) ∷ er)
        (Holds-frame x.nodes rescored.nodes m em (others m am) hm)
        (
          entry_at-set x.nodes c n (record n { score = score }) there c ∙ ground arith,
          Holds-frame x.nodes rescored.nodes r er (others r ar) hr,
        )
