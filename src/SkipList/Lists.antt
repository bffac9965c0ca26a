-- ===== src/SkipList/Lists.antt =====
-- What `ZRange` and `ZRangeByScore` list of a sorted set (internal/storage/zset.go).
use tealis.Base.{
  ℕ, zero, suc, ◌+◌, ◌-◌, ◌≤◌, List, [], ◌∷◌, Option, none, some, Bool, true, false, ◌||◌, not,
  if◌then◌else◌, ◌≡◌, refl, ◌∙◌, ap, inl, inr, Bool-cases, Option-cases, ltb, ltb→le, ok, ◌>>=◌,
  get_elem?, length, take, drop, arith,
}
use tealis.Base.Int.{ℤ, pos, negsuc}
use tealis.Base.Text.{Text}
use tealis.Floats.{Arithmetic}
use tealis.Value.{SkipListNode, SortedSet}
use tealis.SkipList.{Nodes, forward_at, header}
use tealis.SkipList.Listing.{first, skip, keys_from, range_of, range}
use tealis.SkipList.Chains.{All, first_tall, first_tall_reached, Links}
use tealis.SkipList.Walks.{tall_at}
use tealis.SkipList.Memory.{Entry, entry_of, entry_at}
use tealis.SkipList.Meaning.{Holds, Laid, Represents, length-Holds}

-- The members of entries.
abbrev pub members_of : List Entry → List Text
members_of [] = []
members_of (e ∷ es) = e.0 ∷ members_of es

abbrev pub first_of : List ℕ → Option ℕ
first_of [] = none
first_of (c ∷ l) = some c

-- The bottom chain, node by node.
abbrev pub Bottom : Nodes → List ℕ → Type 0
Bottom nodes [] = Unit
Bottom nodes (c ∷ l) = (forward_at nodes 0 c ≡ some (first_of l)) × Bottom nodes l

Bottom-Links :
    (nodes : Nodes) (l : List ℕ)
    → All (λ c. tall_at nodes 0 c ≡ true) l
    → Links (tall_at nodes 0) (forward_at nodes 0) l
    → Bottom nodes l
unfolding first_tall
Bottom-Links nodes [] h links = tt
Bottom-Links nodes (c ∷ []) h links = (links.0 h.0, tt)
Bottom-Links nodes (c ∷ d ∷ l) h links = (
  links.0 h.0 ∙ ap some (first_tall_reached (tall_at nodes 0) d l h.1.0),
  Bottom-Links nodes (d ∷ l) h.1 links.1,
)

pub node_of_entry :
    (nodes : Nodes) (c : ℕ) (e : Entry)
    → entry_at nodes c ≡ some e
    → (n : SkipListNode) × ((get_elem? nodes c ≡ some n) × (entry_of n ≡ e))
unfolding entry_at
node_of_entry nodes c e h = elim (Option-cases (get_elem? nodes c)) [
  | inl gone ↦ absurd (ground (arith, gone, h))
  | inr (n, there) ↦ (n, (there, ground (arith, there, h)))
]

skip-drop :
    (nodes : Nodes) (count : ℕ) (l : List ℕ)
    → Bottom nodes l
    → skip nodes count (first_of l) ≡ ok (first_of (drop count l))
unfolding skip
skip-drop nodes zero [] h = refl
skip-drop nodes (suc count) [] h = refl
skip-drop nodes zero (c ∷ l) h = refl
skip-drop nodes (suc count) (c ∷ l) h = rw (h.0, skip) (skip-drop nodes count l h.1)

keys_from-take :
    (nodes : Nodes) (count : ℕ) (l : List ℕ) (es : List Entry)
    → Bottom nodes l
    → Holds nodes l es
    → keys_from nodes count (first_of l) ≡ ok (members_of (take count es))
unfolding keys_from
keys_from-take nodes zero l es b h = refl
keys_from-take nodes (suc count) [] [] b h = refl
keys_from-take nodes (suc count) [] (e ∷ es) b h = absurd h
keys_from-take nodes (suc count) (c ∷ l) [] b h = absurd h
keys_from-take nodes (suc count) (c ∷ l) (e ∷ es) b h =
    let (n, (there, same)) = node_of_entry nodes c e h.0 in
    rw (there, b.0, keys_from, keys_from-take nodes count l es b.1 h.1)
      (ap (λ (f : Entry). ok (f.0 ∷ members_of (take count es))) same)

Bottom-drop :
    (nodes : Nodes) (count : ℕ) (l : List ℕ) → Bottom nodes l → Bottom nodes (drop count l)
Bottom-drop nodes zero l h = h
Bottom-drop nodes (suc count) [] h = tt
Bottom-drop nodes (suc count) (c ∷ l) h = Bottom-drop nodes count l h.1

Holds-drop :
    (nodes : Nodes) (count : ℕ) (l : List ℕ) (es : List Entry)
    → Holds nodes l es
    → Holds nodes (drop count l) (drop count es)
Holds-drop nodes zero l es h = h
Holds-drop nodes (suc count) [] [] h = tt
Holds-drop nodes (suc count) [] (e ∷ es) h = absurd h
Holds-drop nodes (suc count) (c ∷ l) [] h = absurd h
Holds-drop nodes (suc count) (c ∷ l) (e ∷ es) h = Holds-drop nodes count l es h.1

-- The header points to the first node.
pub header-first :
    (x : SortedSet) (l : List ℕ)
    → Laid x l
    → (forward_at x.nodes 0 header ≡ some (first_of l)) × Bottom x.nodes l
unfolding first_tall
header-first x [] laid = ((laid.links 0).0 (laid.header_tall 0 (omega arith)), tt)
header-first x (c ∷ l) laid = (
  (laid.links 0).0 (laid.header_tall 0 (omega arith))
      ∙ ap some (first_tall_reached (tall_at x.nodes 0) c l laid.grounded.0),
  Bottom-Links x.nodes (c ∷ l) laid.grounded (laid.links 0).1,
)

-- The places from `start` to `end`, both counted in.
abbrev pub listed : ℤ → ℤ → List Entry → List Text
listed (pos start) (pos end) es =
    if ltb end start then [] else members_of (take (end - start + 1) (drop start es))
listed (pos start) (negsuc end) es = []
listed (negsuc start) end es = []

drop_all :
    (es : List Entry) (start k : ℕ) → length es ≤ start → members_of (take k (drop start es)) ≡ []
drop_all [] zero zero h = refl
drop_all [] zero (suc k) h = refl
drop_all [] (suc start) zero h = refl
drop_all [] (suc start) (suc k) h = refl
drop_all (e ∷ es) zero k h = absurd (omega arith)
drop_all (e ∷ es) (suc start) k h = drop_all es start k (omega arith)

-- The two loops of `ZRange`.
range_loops :
    (x : SortedSet) (l : List ℕ) (es : List Entry) (start count : ℕ)
    → Bottom x.nodes l
    → Holds x.nodes l es
    → (skip x.nodes start (first_of l) >>= λ c. keys_from x.nodes count c)
      ≡ ok (members_of (take count (drop start es)))
range_loops x l es start count b h = rw (skip-drop x.nodes start l b) (
    keys_from-take x.nodes count (drop start l) (drop start es) (Bottom-drop x.nodes start l b)
      (Holds-drop x.nodes start l es h))

range_of-listed :
    (start end : ℕ) (x : SortedSet) (l : List ℕ) (es : List Entry)
    → Laid x l
    → Holds x.nodes l es
    → range_of start end x ≡ ok (listed (pos start) (pos end) es)
unfolding range_of
range_of-listed start end x l es laid h = elim (Bool-cases (ltb end start)) [
  | inl empty ↦ at (not (ltb start x.length)) empty
  | inr some_there ↦ elim (Bool-cases (ltb start x.length)) [
    | inl inside ↦
        let (next, bottom) = header-first x l laid in
        rw (inside, some_there, next, first) (range_loops x l es start (end - start + 1) bottom h)
    | inr outside ↦
        let all : length es ≤ start =
          omega (arith, length-Holds x.nodes l es h, laid.counted, ltb→le start x.length outside) in
        rw (outside, some_there, drop_all es start (end - start + 1) all) refl
  ]
]
  where
    at :
        (b : Bool)
        → ltb end start ≡ true
        → (if b || ltb end start
            then ok []
            else first x.nodes
                λ p. skip x.nodes start p >>= λ c. keys_from x.nodes (end - start + 1) c)
          ≡ ok (listed (pos start) (pos end) es)
    at true e = rw e refl
    at false e = rw e refl

-- `ZRange` lists the members at the places from `start` to `end`, and nothing where a bound is negative.
pub range-listed :
    (arithmetic : Arithmetic) (start end : ℤ) (x : SortedSet) (es : List Entry)
    → Represents arithmetic x es
    → range start end x ≡ ok (listed start end es)
unfolding range
range-listed arithmetic (pos start) (pos end) x es h =
    range_of-listed start end x h.addresses es h.laid h.holds
range-listed arithmetic (pos start) (negsuc end) x es h = refl
range-listed arithmetic (negsuc start) end x es h = refl

pub listed_nothing : (start end : ℤ) → listed start end [] ≡ []
listed_nothing (pos start) (pos end) = elim (Bool-cases (ltb end start)) [
  | inl e ↦ rw e refl
  | inr e ↦ rw (e, drop_all [] start (end - start + 1) (omega arith)) refl
]
listed_nothing (pos start) (negsuc end) = refl
listed_nothing (negsuc start) end = refl
