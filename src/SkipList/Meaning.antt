-- ===== src/SkipList/Meaning.antt =====
-- Which members with which scores a skip list holds (internal/storage/zset.go), and where a search for a place
-- in it ends.
use tealis.Base.{
  ℕ, suc, ◌≤◌, ◌<◌, List, [], ◌∷◌, ◌++◌, none, some, Bool, true, false, ◌≡◌, refl, sym, ◌∙◌, ap,
  ◌⊎◌, inl, inr, Option-cases, if◌then◌else◌, ok, is_some, length, get_elem?, arith,
}
use mathlib.Core.Path.{subst}
use tealis.Base.Text.{Text, text_eq}
use tealis.Floats.{Arithmetic}
use tealis.Value.{SkipListNode, SortedSet}
use tealis.SkipList.{Nodes, forward_at, header, max_level, search, match_at}
use tealis.SkipList.Chains.{
  All, All-append, All-imp, Distinct, last_of, last_of-All, first_tall, first_tall_reached,
  last_tall, Links, Links-last_of,
}
use tealis.SkipList.Walks.{tall_at, less_at, Blocked}
use tealis.SkipList.Searches.{search-Searched}
use tealis.SkipList.Memory.{Entry, entry_of, entry_at}
use tealis.SkipList.Entries.{Sorted, Numbers}

-- The nodes at the addresses have these entries.
abbrev pub Holds : Nodes → List ℕ → List Entry → Type 0
Holds nodes [] [] = Unit
Holds nodes [] (e ∷ es) = ⊥
Holds nodes (c ∷ l) [] = ⊥
Holds nodes (c ∷ l) (e ∷ es) = (entry_at nodes c ≡ some e) × Holds nodes l es

pub Holds-append :
    (nodes : Nodes) (m r : List ℕ) (es : List Entry)
    → Holds nodes (m ++ r) es
    → (em : List Entry) × ((er : List Entry) × ((es ≡ em ++ er)
          × (Holds nodes m em × Holds nodes r er)))
Holds-append nodes [] r es h = ([], (es, (refl, (tt, h))))
Holds-append nodes (c ∷ m) r [] h = absurd h
Holds-append nodes (c ∷ m) r (e ∷ es) h =
    let (em, (er, (parts, (front, back)))) = Holds-append nodes m r es h.1 in
    (e ∷ em, (er, (ap (λ (l : List Entry). e ∷ l) parts, ((h.0, front), back))))

pub append-Holds :
    (nodes : Nodes) (m r : List ℕ) (em er : List Entry)
    → Holds nodes m em
    → Holds nodes r er
    → Holds nodes (m ++ r) (em ++ er)
append-Holds nodes [] r [] er h g = g
append-Holds nodes [] r (e ∷ em) er h g = absurd h
append-Holds nodes (c ∷ m) r [] er h g = absurd h
append-Holds nodes (c ∷ m) r (e ∷ em) er h g = (h.0, append-Holds nodes m r em er h.1 g)

pub Holds-frame :
    (nodes nodes' : Nodes) (l : List ℕ) (es : List Entry)
    → All (λ c. entry_at nodes' c ≡ entry_at nodes c) l
    → Holds nodes l es
    → Holds nodes' l es
Holds-frame nodes nodes' [] [] h g = tt
Holds-frame nodes nodes' [] (e ∷ es) h g = g
Holds-frame nodes nodes' (c ∷ l) [] h g = g
Holds-frame nodes nodes' (c ∷ l) (e ∷ es) h g = (h.0 ∙ g.0, Holds-frame nodes nodes' l es h.1 g.1)

pub length-Holds :
    (nodes : Nodes) (l : List ℕ) (es : List Entry) → Holds nodes l es → length l ≡ length es
length-Holds nodes [] [] h = refl
length-Holds nodes [] (e ∷ es) h = absurd h
length-Holds nodes (c ∷ l) [] h = absurd h
length-Holds nodes (c ∷ l) (e ∷ es) h = ap suc (length-Holds nodes l es h.1)

-- The nodes at `l`, behind the header, are the list of the set.
pub record Laid (x : SortedSet) (l : List ℕ) : Type 0 where
  -- level by level, each node points to the next that reaches the level
  pub links : (i : ℕ) → Links (tall_at x.nodes i) (forward_at x.nodes i) (header ∷ l)
  pub distinct : Distinct (header ∷ l)
  pub grounded : All (λ c. tall_at x.nodes 0 c ≡ true) l
  pub low : All (λ c. tall_at x.nodes x.level c ≡ false) l
  pub header_tall : (i : ℕ) → i < max_level → tall_at x.nodes i header ≡ true
  pub level_pos : 0 < x.level
  pub level_max : x.level ≤ max_level
  pub counted : x.length ≡ length l
  pub room : length l < length x.nodes

-- The set holds these members with these scores, in this order, which is that of the scores.
pub record Represents (arithmetic : Arithmetic) (x : SortedSet) (es : List Entry) : Type 0 where
  pub addresses : List ℕ
  pub laid : Laid x addresses
  pub holds : Holds x.nodes addresses es
  pub sorted : Sorted arithmetic es
  pub numbers : Numbers arithmetic es

pub node_there :
    (nodes : Nodes) (i c : ℕ) → tall_at nodes i c ≡ true → is_some (get_elem? nodes c) ≡ true
unfolding forward_at
node_there nodes i c h = elim (Option-cases (get_elem? nodes c)) [
  | inl e ↦ absurd (ground (arith, e, h))
  | inr (n, e) ↦ rw e refl
]

-- Where a search ends, by the addresses and by the entries.
pub record Place (less : SkipListNode → Bool) (x : SortedSet) (es : List Entry) : Type 0 where
  pub m : List ℕ
  pub r : List ℕ
  pub em : List Entry
  pub er : List Entry
  pub update : List ℕ
  pub laid : Laid x (m ++ r)
  pub entries : es ≡ em ++ er
  pub front : Holds x.nodes m em
  pub back : Holds x.nodes r er
  pub found : search less x.nodes x.level header ≡ ok (update, last_of header m)
  pub count : length update ≡ x.level
  pub updates :
      (j : ℕ) → j < x.level → get_elem? update j ≡ some (last_tall (tall_at x.nodes j) header m)
  pub blocked : Blocked less x.nodes 0 r
  pub ends : (m ≡ []) ⊎ (less_at less x.nodes (last_of header m) ≡ true)

pub search-Place :
    (less : SkipListNode → Bool) (x : SortedSet) (l : List ℕ) (es : List Entry)
    → Laid x l
    → Holds x.nodes l es
    → Place less x es
search-Place less x l es laid holds =
    let s =
      search-Searched less x.nodes x.level header l
        (All-imp (λ c. tall_at x.nodes 0 c ≡ true) (λ c. is_some (get_elem? x.nodes c) ≡ true)
          (node_there x.nodes 0) l laid.grounded)
        (omega (arith, laid.room)) (λ j h. laid.header_tall j (omega (arith, h, laid.level_max)))
        (λ j h. laid.links j) in
    let (em, (er, (parts, (front, back)))) =
      Holds-append x.nodes s.m s.r es (subst (λ k. Holds x.nodes k es) s.parts holds) in
    record {
      m = s.m;
      r = s.r;
      em = em;
      er = er;
      update = s.update;
      laid = subst (λ k. Laid x k) s.parts laid;
      entries = parts;
      front = front;
      back = back;
      found = s.found;
      count = s.count;
      updates = s.updates;
      blocked = s.blocked laid.level_pos;
      ends = s.ends;
    }

pub next_behind :
    (x : SortedSet) (m r : List ℕ)
    → Laid x (m ++ r)
    → forward_at x.nodes 0 (last_of header m) ≡ some (first_tall (tall_at x.nodes 0) r)
next_behind x m r laid =
    let grounded = (All-append (λ c. tall_at x.nodes 0 c ≡ true) m r laid.grounded).0 in
    (Links-last_of (tall_at x.nodes 0) (forward_at x.nodes 0) header m r (laid.links 0)).0 (
      last_of-All (λ c. tall_at x.nodes 0 c ≡ true) header m (laid.header_tall 0 (omega arith))
        grounded)

-- What `match_at` finds there: nothing, at the end, or the first node behind the place.
pub match_at_end :
    (key : Text) (x : SortedSet) (m : List ℕ)
    → Laid x (m ++ [])
    → match_at key x.nodes (last_of header m) ≡ ok none
unfolding match_at first_tall
match_at_end key x m laid =
    let next : forward_at x.nodes 0 (last_of header m) ≡ some none = next_behind x m [] laid in
    rw (next, match_at) refl

pub match_at_node :
    (key : Text) (x : SortedSet) (m r : List ℕ) (c : ℕ) (e : Entry)
    → Laid x (m ++ c ∷ r)
    → entry_at x.nodes c ≡ some e
    → (n : SkipListNode) × ((get_elem? x.nodes c ≡ some n)
        × ((entry_of n ≡ e)
            × (match_at key x.nodes (last_of header m)
                ≡ ok (if text_eq e.0 key then some (c, n) else none))))
unfolding match_at entry_at
match_at_node key x m r c e laid h = elim (Option-cases (get_elem? x.nodes c)) [
  | inl gone ↦ absurd (ground (arith, gone, h))
  | inr (n, e') ↦
      let grounded = (All-append (λ c. tall_at x.nodes 0 c ≡ true) m (c ∷ r) laid.grounded).1.0 in
      let same : entry_of n ≡ e = ground (arith, e', h) in
      let next : forward_at x.nodes 0 (last_of header m) ≡ some (some c) =
        next_behind x m (c ∷ r) laid
        ∙ ap some (first_tall_reached (tall_at x.nodes 0) c r grounded) in
      (n, (e', (same, rw (sym same, next, e', match_at) refl)))
]
