-- ===== src/SkipList.antt =====
-- The skip list of internal/storage/zset.go: its nodes, the levels, and the search that its methods share. The
-- nodes of a set point only to one another; a pointer is an index among those that the set has made. `float32`
-- draws from the source of random numbers, and says whether the number is below 0.5.
pub mod Chains
pub mod Splices
pub mod Walks
pub mod Searches
pub mod Memory
pub mod Linking
pub mod Entries
pub mod Meaning
pub mod Rescoring
pub mod Growing
pub mod Inserting
pub mod Refinement
pub mod Unlinking
pub mod Lowering
pub mod Deleting
pub mod Removals
pub mod Lists
pub mod ByScore
pub mod Finding
pub mod Adding
pub mod Removing
pub mod Listing
use tealis.Base.{
  ℕ, zero, suc, ◌+◌, ◌-◌, List, [], ◌∷◌, ◌++◌, Option, none, some, Bool, true, false, ◌&&◌, ◌||◌,
  not, ◌==◌, is_some, Outcome, ok, panic, deadlock, ◌>>=◌, if◌then◌else◌, ltb, length, get_elem?,
  set, replicate, take,
}
use tealis.Base.Int.{ℤ, pos, negsuc, ltb_ℤ}
use tealis.Base.Text.{Text, text_eq, text_lt}
use tealis.Base.Dict.{lookup}
use tealis.Floats.{Arithmetic}
use tealis.Value.{Value, SkipListNode, SortedSet, sorted_set, as_sorted_set}

abbrev pub max_level : ℕ
max_level = 16

abbrev pub Nodes : Type 0
Nodes = List SkipListNode

-- `newSkipListNode`
unfoldable pub new_skip_list_node : Text → ℕ → ℕ → SkipListNode
new_skip_list_node key score level = record {
  key = key;
  score = score;
  forward = replicate level none;
}

-- The header of a set.
abbrev pub header : ℕ
header = 0

-- `NewSortedSet`, from a source of random numbers
unfoldable pub new_sorted_set : ℕ → SortedSet
new_sorted_set source = record {
  nodes = new_skip_list_node [] 0 max_level ∷ [];
  level = 1;
  length = 0;
  rand_src = source;
}

-- The loop of `randomLevel`, with the rounds that are left before `maxLevel`; a number is drawn then too.
unfoldable pub random_level_from : (ℕ → Bool × ℕ) → ℕ → ℕ → ℕ → ℕ × ℕ
random_level_from float32 zero level source = (level, (float32 source).1)
random_level_from float32 (suc rounds) level source =
    let more = random_level_from float32 rounds (level + 1) (float32 source).1 in
    if (float32 source).0 then more else (level, (float32 source).1)

-- `randomLevel`: the level, and the source that is left.
unfoldable pub random_level : (ℕ → Bool × ℕ) → ℕ → ℕ × ℕ
random_level float32 source = random_level_from float32 (max_level - 1) 1 source

-- `nodes[c].forward[i]`, unless it is out of range
unfoldable pub forward_at : Nodes → ℕ → ℕ → Option (Option ℕ)
forward_at nodes i c = elim (get_elem? nodes c) [ none ↦ none | some n ↦ get_elem? n.forward i ]

-- `nodes[c].forward[i] = p`
unfoldable pub set_forward : ℕ → ℕ → Option ℕ → Nodes → Nodes
set_forward c i p nodes = elim (get_elem? nodes c) [
  | none ↦ nodes
  | some n ↦ set nodes c (record n { forward = set n.forward i p })
]

-- `for current.forward[i] != nil && ... { current = current.forward[i] }`: a walk along level `i`. One of more
-- rounds than there are nodes goes in a circle, and never ends.
unfoldable pub walk : (SkipListNode → Bool) → Nodes → ℕ → ℕ → ℕ → Outcome ℕ
walk less nodes i zero current = deadlock
walk less nodes i (suc rounds) current = elim (forward_at nodes i current) [
  | none ↦ panic
  | some none ↦ ok current
  | some (some next) ↦ elim (get_elem? nodes next) [
    | none ↦ panic
    | some n ↦ elim (less n) [ true ↦ walk less nodes i rounds next | false ↦ ok current ]
  ]
]

abbrev pub rounds_of : Nodes → ℕ
rounds_of nodes = suc (length nodes)

-- The loop over the levels below `i`, downwards: `update` up to there, and `current` at its end.
unfoldable pub search : (SkipListNode → Bool) → Nodes → ℕ → ℕ → Outcome (List ℕ × ℕ)
search less nodes zero current = ok ([], current)
search less nodes (suc i) current = walk less nodes i (rounds_of nodes) current >>= λ found.
    search less nodes i found >>= λ (update, last). ok (update ++ found ∷ [], last)

-- `current.forward[0] != nil && current.forward[0].key == key`: that node.
unfoldable pub match_at : Text → Nodes → ℕ → Outcome (Option (ℕ × SkipListNode))
match_at key nodes current = elim (forward_at nodes 0 current) [
  | none ↦ panic
  | some none ↦ ok none
  | some (some next) ↦ elim (get_elem? nodes next) [
    | none ↦ panic
    | some n ↦ ok (if text_eq n.key key then some (next, n) else none)
  ]
]
