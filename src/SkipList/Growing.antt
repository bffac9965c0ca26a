-- ===== src/SkipList/Growing.antt =====
-- The new node of `ZAdd` before it is linked (internal/storage/zset.go), and the nodes behind which it will stand.
use tealis.Base.{
  ℕ, zero, suc, ◌-◌, ◌≤◌, ◌<◌, List, [], ◌∷◌, ◌++◌, Option, none, some, true, false, if◌then◌else◌,
  ◌≡◌, ◌≢◌, ◌∙◌, ◌⊎◌, inl, inr, ltb→lt, ltb→le, Bool-cases, Option-cases, ltb, length,
  length-append, length-take, length-replicate, replicate, take, get_elem?, get_elem?-append,
  get_elem?-take_of_lt, get_elem?-replicate, ◌==◌, arith,
}
use tealis.Base.Text.{Text}
use tealis.Value.{SkipListNode, SortedSet}
use tealis.SkipList.{Nodes, forward_at, header, new_skip_list_node}
use tealis.SkipList.Chains.{All, All-append, All-imp, last_tall, last_tall_none}
use tealis.SkipList.Walks.{tall_at}
use tealis.SkipList.Searches.{tall_at_below}
use tealis.SkipList.Memory.{entry_at, length-of_get}
use tealis.SkipList.Meaning.{Laid, node_there}

get_elem?-snoc :
    {A : Type 0} (l : List A) (a : A) (y : ℕ)
    → get_elem? (l ++ a ∷ []) y ≡ (if length l == y then some a else get_elem? l y)
get_elem?-snoc [] a zero = ground arith
get_elem?-snoc [] a (suc y) = ground arith
get_elem?-snoc (x ∷ l) a zero = ground arith
get_elem?-snoc (x ∷ l) a (suc y) = ground (arith, get_elem?-snoc l a y)

pub below_length : (nodes : Nodes) (i c : ℕ) → tall_at nodes i c ≡ true → c < length nodes
below_length nodes i c h = elim (Option-cases (get_elem? nodes c)) [
  | inl gone ↦ absurd (ground (arith, gone, node_there nodes i c h))
  | inr (n, e) ↦ length-of_get nodes c n e
]

-- The place at the end of the array is that of the new node.
module _ (nodes : Nodes) (n : SkipListNode) where
  pub forward_at-grown :
      (j y : ℕ)
      → forward_at (nodes ++ n ∷ []) j y
        ≡ (if length nodes == y then get_elem? n.forward j else forward_at nodes j y)
  unfolding forward_at
  forward_at-grown j y = ground (arith, get_elem?-snoc nodes n y)

  pub entry_at-grown :
      (y : ℕ)
      → entry_at (nodes ++ n ∷ []) y
        ≡ (if length nodes == y then some (n.key, n.score) else entry_at nodes y)
  unfolding entry_at
  entry_at-grown y = ground (arith, get_elem?-snoc nodes n y)

module _ (x : SortedSet) (key : Text) (score height : ℕ) where
  abbrev pub grown : Nodes
  grown = x.nodes ++ new_skip_list_node key score height ∷ []

  pub grown_old : (j y : ℕ) → length x.nodes ≢ y → forward_at grown j y ≡ forward_at x.nodes j y
  grown_old j y h = forward_at-grown x.nodes _ j y ∙ ground (arith, h)

  pub grown_new :
      (j : ℕ) → forward_at grown j (length x.nodes) ≡ (if ltb j height then some none else none)
  unfolding new_skip_list_node
  grown_new j =
      let nothing : Option ℕ = none in
      forward_at-grown x.nodes (new_skip_list_node key score height) j (length x.nodes)
      ∙ ground (arith, get_elem?-replicate height j nothing)

  pub grown_entry_new : entry_at grown (length x.nodes) ≡ some (key, score)
  unfolding new_skip_list_node
  grown_entry_new =
      entry_at-grown x.nodes (new_skip_list_node key score height) (length x.nodes) ∙ ground arith

  pub grown_entry_old : (y : ℕ) → length x.nodes ≢ y → entry_at grown y ≡ entry_at x.nodes y
  grown_entry_old y h = entry_at-grown x.nodes _ y ∙ ground (arith, h)

-- The nodes of `update` for the levels of a node of this height: the header above those of the set.
abbrev pub padded : ℕ → ℕ → List ℕ → List ℕ
padded height level update = take height (update ++ replicate (height - level) header)

module _ (x : SortedSet) (m r : List ℕ) (laid : Laid x (m ++ r)) (height : ℕ) (update : List ℕ)
    (count : length update ≡ x.level)
    (updates : (j : ℕ)
      → j < x.level
      → get_elem? update j ≡ some (last_tall (tall_at x.nodes j) header m)) where
  pub fresh : All (λ y. length x.nodes ≢ y) (header ∷ m ++ r)
  fresh = (
    (λ e. omega (arith, e, below_length x.nodes 0 header (laid.header_tall 0 (omega arith)))),
    All-imp (λ y. tall_at x.nodes 0 y ≡ true) (λ y. length x.nodes ≢ y)
        (λ y t e. omega (arith, e, below_length x.nodes 0 y t)) (m ++ r) laid.grounded,
  )

  -- Above the level of the set there is the header only.
  header_last : (k : ℕ) → x.level ≤ k → last_tall (tall_at x.nodes k) header m ≡ header
  header_last k h = last_tall_none (tall_at x.nodes k) header m (
      All-imp (λ c. tall_at x.nodes x.level c ≡ false) (λ c. tall_at x.nodes k c ≡ false)
        (λ c low. not_tall c low (Bool-cases (tall_at x.nodes k c))) m
        (All-append (λ c. tall_at x.nodes x.level c ≡ false) m r laid.low).0)
    where
      not_tall :
          (c : ℕ)
          → tall_at x.nodes x.level c ≡ false
          → (tall_at x.nodes k c ≡ true) ⊎ (tall_at x.nodes k c ≡ false)
          → tall_at x.nodes k c ≡ false
      not_tall c low (inl t) = absurd (cc (tall_at_below x.nodes k x.level c h t, low))
      not_tall c low (inr t) = t

  pub get_elem?-padded :
      (k : ℕ)
      → k < height
      → get_elem? (padded height x.level update) k ≡ some (last_tall (tall_at x.nodes k) header m)
  get_elem?-padded k h =
      get_elem?-take_of_lt height k (update ++ replicate (height - x.level) header) h
      ∙ get_elem?-append k update (replicate (height - x.level) header)
      ∙ rw (count, get_elem?-replicate (height - x.level) (k - x.level) header)
          (at (Bool-cases (ltb k x.level)))
    where
      at :
          (ltb k x.level ≡ true) ⊎ (ltb k x.level ≡ false)
          → (if ltb k x.level
              then get_elem? update k
              else if ltb (k - x.level) (height - x.level)
              then some header
              else none)
            ≡ some (last_tall (tall_at x.nodes k) header m)
      at (inl low) = rw low (updates k (ltb→lt k x.level low))
      at (inr high) = rw (high, header_last k (ltb→le k x.level high)) (ground (arith, h, high))

  pub length-padded : length (padded height x.level update) ≡ height
  length-padded = omega (
    arith,
    length-take height (update ++ replicate (height - x.level) header),
    length-append update (replicate (height - x.level) header),
    length-replicate (height - x.level) header,
    count,
  )
