-- ===== src/SkipList/Inserting.antt =====
-- `ZAdd` of a new member (internal/storage/zset.go): the list with the new node.
use tealis.Base.{
  ℕ, ◌+◌, ◌≤◌, ◌<◌, List, [], ◌∷◌, ◌++◌, Option, some, Bool, true, false, if◌then◌else◌, ◌≡◌, ◌≢◌,
  refl, sym, ◌∙◌, ap, fun_ext, inl, inr, ltb→lt, ltb→le, lt→ltb, Bool-cases, ok, is_some, ltb,
  length, length-append, get_elem?, arith,
}
use mathlib.Core.Path.{subst}
use tealis.Base.Text.{Text}
use tealis.Value.{SortedSet}
use tealis.SkipList.{Nodes, forward_at, header, max_level, new_skip_list_node}
use tealis.SkipList.Chains.{
  All, All-append, append-All, All-imp, Distinct, last_tall, last_tall-All, last_tall-cong,
  last_tall-tall, Links, Links-cong, Links-skip,
}
use tealis.SkipList.Splices.{Links-insert}
use tealis.SkipList.Walks.{tall_at}
use tealis.SkipList.Memory.{Entry, entry_at, length-of_get}
use tealis.SkipList.Linking.{Linkable, Linked, LinkedAt, link-Linked}
use tealis.SkipList.Adding.{link, insert_node}
use tealis.SkipList.Searches.{tall_at_below}
use tealis.Floats.{Arithmetic}
use tealis.SkipList.Growing.{
  grown, grown_old, grown_new, grown_entry_new, grown_entry_old, fresh, padded, get_elem?-padded,
  length-padded,
}
use tealis.SkipList.Meaning.{Holds, Holds-frame, append-Holds, Laid}

module _ (x : SortedSet) (m r : List ℕ) (laid : Laid x (m ++ r)) (key : Text) (score height : ℕ)
    (some_height : 0 < height) (max_height : height ≤ max_level) (update : List ℕ)
    (count : length update ≡ x.level)
    (updates : (j : ℕ)
      → j < x.level
      → get_elem? update j ≡ some (last_tall (tall_at x.nodes j) header m)) where
  abbrev n : ℕ
  n = length x.nodes

  abbrev nodes₁ : Nodes
  nodes₁ = grown x key score height

  abbrev us : List ℕ
  us = padded height x.level update

  old : All (λ y. n ≢ y) (header ∷ m ++ r)
  old = fresh x m r laid height update count updates

  tall_old : (j y : ℕ) → n ≢ y → tall_at nodes₁ j y ≡ tall_at x.nodes j y
  tall_old j y h = ap is_some (grown_old x key score height j y h)

  new_tall : (j : ℕ) → tall_at nodes₁ j n ≡ ltb j height
  new_tall j = ap is_some (grown_new x key score height j) ∙ ground arith

  -- The node behind which the new one stands at a level.
  last_old :
      (j : ℕ) → last_tall (tall_at nodes₁ j) header m ≡ last_tall (tall_at x.nodes j) header m
  last_old j = last_tall-cong (tall_at x.nodes j) (tall_at nodes₁ j) header m (
      All-imp (λ y. n ≢ y) (λ y. tall_at nodes₁ j y ≡ tall_at x.nodes j y) (λ y h. tall_old j y h) m
        (All-append (λ y. n ≢ y) m r old.1).0)

  last_new : (j : ℕ) → n ≢ last_tall (tall_at nodes₁ j) header m
  last_new j =
      last_tall-All (tall_at nodes₁ j) (λ y. n ≢ y) header m old.0
        (All-append (λ y. n ≢ y) m r old.1).0

  us_at : (k : ℕ) → k < height → get_elem? us k ≡ some (last_tall (tall_at nodes₁ k) header m)
  us_at k h =
      get_elem?-padded x m r laid height update count updates k h ∙ ap some (sym (last_old k))

  last_reaches :
      (j : ℕ) → j < height → tall_at nodes₁ j (last_tall (tall_at nodes₁ j) header m) ≡ true
  last_reaches j h =
      last_tall-tall (tall_at nodes₁ j) header m
        (tall_old j header old.0 ∙ laid.header_tall j (omega (arith, h, max_height)))

  linkable : Linkable n 0 us nodes₁
  linkable k u e =
      let k-lt : k < height =
        omega
          (arith, length-of_get us k u e, length-padded x m r laid height update count updates) in
      let same : last_tall (tall_at nodes₁ k) header m ≡ u = cc (e, us_at k k-lt) in
      let level : 0 + k ≡ k = omega arith in
      rw (level, sym same) (last_reaches k k-lt, (new_tall k ∙ lt→ltb k height k-lt, last_new k))

  linked : Linked n 0 us nodes₁ (link n 0 us nodes₁)
  linked = link-Linked n 0 us nodes₁ linkable

  linked_at :
      (k : ℕ)
      → k < height
      → LinkedAt n (last_tall (tall_at nodes₁ k) header m) k nodes₁ linked.nodes'
  linked_at k h =
      let level : 0 + k ≡ k = omega arith in
      subst (λ j. LinkedAt n (last_tall (tall_at nodes₁ k) header m) j nodes₁ linked.nodes') level
        (linked.linked k (last_tall (tall_at nodes₁ k) header m) (us_at k h))

  -- The whole list with the new node.
  abbrev with_new : List ℕ
  with_new = header ∷ m ++ n ∷ r

  -- A level that the new node reaches.
  Links-reached :
      (j : ℕ)
      → j < height
      → Links (tall_at nodes₁ j) (forward_at nodes₁ j) (header ∷ m ++ r)
      → Links (tall_at nodes₁ j) (forward_at linked.nodes' j) with_new
  Links-reached j h links =
      let here = linked_at j h in
      Links-insert (tall_at nodes₁ j) (forward_at nodes₁ j) (forward_at linked.nodes' j) n r
        (new_tall j ∙ lt→ltb j height h) header m
        (tall_old j header old.0 ∙ laid.header_tall j (omega (arith, h, max_height))) laid.distinct
        old links here.at here.new here.others

  -- One that it does not.
  Links-above :
      (j : ℕ)
      → height ≤ j
      → Links (tall_at nodes₁ j) (forward_at nodes₁ j) (header ∷ m ++ r)
      → Links (tall_at nodes₁ j) (forward_at linked.nodes' j) with_new
  Links-above j h links =
      let level : 0 + length us ≤ j =
        omega (arith, h, length-padded x m r laid height update count updates) in
      let same : forward_at linked.nodes' j ≡ forward_at nodes₁ j =
        fun_ext (λ y. linked.outside j y (inr level)) in
      subst (λ (f : ℕ → Option (Option ℕ)). Links (tall_at nodes₁ j) f with_new) (sym same)
        (Links-skip (tall_at nodes₁ j) (forward_at nodes₁ j) n (header ∷ m) r
          (new_tall j ∙ ground (arith, h)) links)

  Links-grown : (j : ℕ) → Links (tall_at nodes₁ j) (forward_at nodes₁ j) (header ∷ m ++ r)
  Links-grown j =
      Links-cong (tall_at x.nodes j) (tall_at nodes₁ j) (forward_at x.nodes j) (forward_at nodes₁ j)
        (header ∷ m ++ r)
        (All-imp (λ y. n ≢ y) (λ y. tall_at nodes₁ j y ≡ tall_at x.nodes j y)
          (λ y h. tall_old j y h) (header ∷ m ++ r) old)
        (All-imp (λ y. n ≢ y) (λ y. forward_at nodes₁ j y ≡ forward_at x.nodes j y)
          (λ y h. grown_old x key score height j y h) (header ∷ m ++ r) old)
        (laid.links j)

  Links-new : (j : ℕ) → Links (tall_at linked.nodes' j) (forward_at linked.nodes' j) with_new
  Links-new j =
      let same : tall_at nodes₁ j ≡ tall_at linked.nodes' j =
        fun_ext (λ y. sym (linked.same.same_tall j y)) in
      subst (λ (t : ℕ → Bool). Links t (forward_at linked.nodes' j) with_new) same
        (elim (Bool-cases (ltb j height)) [
          | inl h ↦ Links-reached j (ltb→lt j height h) (Links-grown j)
          | inr h ↦ Links-above j (ltb→le j height h) (Links-grown j)
        ])

  -- What holds of the old nodes and of the new one holds of all.
  all_new : (P : ℕ → Type 0) → P n → All P (m ++ r) → All P (m ++ n ∷ r)
  all_new P p h = let (front, back) = All-append P m r h in append-All P m (n ∷ r) front (p, back)

  Distinct-new :
      (l k : List ℕ) → All (λ y. n ≢ y) (l ++ k) → Distinct (l ++ k) → Distinct (l ++ n ∷ k)
  Distinct-new [] k h d = (h, d)
  Distinct-new (c ∷ l) k h d =
      let (front, back) = All-append (λ y. c ≢ y) l k d.0 in
      (append-All (λ y. c ≢ y) l (n ∷ k) front ((λ e. h.0 (sym e)), back), Distinct-new l k h.1 d.1)

  tall_new : (j y : ℕ) → tall_at linked.nodes' j y ≡ tall_at nodes₁ j y
  tall_new j y = linked.same.same_tall j y

  new_level : ℕ
  new_level = if ltb x.level height then height else x.level

  new_level_bounds : (x.level ≤ new_level) × (height ≤ new_level) × (new_level ≤ max_level)
  unfolding new_level
  new_level_bounds = ground (arith, laid.level_max, max_height)

  tall_kept : (j y : ℕ) → n ≢ y → tall_at linked.nodes' j y ≡ tall_at x.nodes j y
  tall_kept j y h = tall_new j y ∙ tall_old j y h

  tall_of_new : (j : ℕ) → tall_at linked.nodes' j n ≡ ltb j height
  tall_of_new j = tall_new j n ∙ new_tall j

  low_kept :
      (y : ℕ)
      → n ≢ y
      → tall_at x.nodes x.level y ≡ false
      → tall_at linked.nodes' new_level y ≡ false
  low_kept y h low = elim (Bool-cases (tall_at x.nodes new_level y)) [
    | inl t ↦ absurd (cc (tall_at_below x.nodes new_level x.level y new_level_bounds.0 t, low))
    | inr t ↦ tall_kept new_level y h ∙ t
  ]

  both : (P Q : ℕ → Type 0) (l : List ℕ) → All P l → All Q l → All (λ y. P y × Q y) l
  both P Q [] a b = tt
  both P Q (y ∷ l) a b = ((a.0, b.0), both P Q l a.1 b.1)

  pub inserted : ℕ → SortedSet
  unfolding linked new_level
  inserted source = record {
    nodes = linked.nodes';
    level = new_level;
    length = x.length + 1;
    rand_src = source;
  }

  pub inserted-Laid : (source : ℕ) → Laid (inserted source) (m ++ n ∷ r)
  unfolding inserted
  inserted-Laid source = record {
    links = Links-new;
    distinct = Distinct-new (header ∷ m) r old laid.distinct;
    grounded =
        all_new (λ c. tall_at linked.nodes' 0 c ≡ true)
          (tall_of_new 0 ∙ lt→ltb 0 height some_height)
          (All-imp (λ y. (n ≢ y) × (tall_at x.nodes 0 y ≡ true))
            (λ c. tall_at linked.nodes' 0 c ≡ true) (λ y h. tall_kept 0 y h.0 ∙ h.1) (m ++ r)
            (both (λ y. n ≢ y) (λ y. tall_at x.nodes 0 y ≡ true) (m ++ r) old.1 laid.grounded));
    low =
        all_new (λ c. tall_at linked.nodes' new_level c ≡ false)
          (tall_of_new new_level ∙ ground (arith, new_level_bounds))
          (All-imp (λ y. (n ≢ y) × (tall_at x.nodes x.level y ≡ false))
            (λ c. tall_at linked.nodes' new_level c ≡ false) (λ y h. low_kept y h.0 h.1) (m ++ r)
            (both (λ y. n ≢ y) (λ y. tall_at x.nodes x.level y ≡ false) (m ++ r) old.1 laid.low));
    header_tall = λ i h. tall_kept i header old.0 ∙ laid.header_tall i h;
    level_pos = omega (arith, new_level_bounds, laid.level_pos);
    level_max = new_level_bounds.2;
    counted = omega (arith, laid.counted, length-append m r, length-append m (n ∷ r));
    room = omega (
      arith,
      laid.room,
      linked.same.same_length,
      length-append m r,
      length-append m (n ∷ r),
      length-append x.nodes (new_skip_list_node key score height ∷ []),
    );
  }

  entry_kept : (y : ℕ) → n ≢ y → entry_at linked.nodes' y ≡ entry_at x.nodes y
  entry_kept y h = linked.same.same_entry y ∙ grown_entry_old x key score height y h

  pub inserted-Holds :
      (source : ℕ) (em er : List Entry)
      → Holds x.nodes m em
      → Holds x.nodes r er
      → Holds (inserted source).nodes (m ++ n ∷ r) (em ++ (key, score) ∷ er)
  unfolding inserted
  inserted-Holds source em er hm hr =
      let (om, or) = All-append (λ y. n ≢ y) m r old.1 in
      let kept =
        All-imp (λ y. n ≢ y) (λ y. entry_at linked.nodes' y ≡ entry_at x.nodes y) entry_kept in
      append-Holds linked.nodes' m (n ∷ r) em ((key, score) ∷ er)
        (Holds-frame x.nodes linked.nodes' m em (kept m om) hm)
        (
          linked.same.same_entry n ∙ grown_entry_new x key score height,
          Holds-frame x.nodes linked.nodes' r er (kept r or) hr,
        )

  -- `insert_node` makes this set.
  pub insert_node-inserted :
      (arithmetic : Arithmetic) (source : ℕ)
      → insert_node arithmetic key score update (height, source) x ≡ ok (inserted source)
  unfolding insert_node inserted
  insert_node-inserted arithmetic source = rw linked.done refl
