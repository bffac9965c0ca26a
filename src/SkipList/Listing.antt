-- ===== src/SkipList/Listing.antt =====
-- `ZRange`, `ZRank` and `ZRangeByScore` of a sorted set (internal/storage/zset.go).
use tealis.Base.{
  ℕ, zero, suc, ◌+◌, ◌-◌, List, [], ◌∷◌, Option, none, some, Bool, true, false, ◌||◌, not, is_some,
  Outcome, ok, panic, deadlock, ◌>>=◌, if◌then◌else◌, ltb, get_elem?,
}
use tealis.Base.Int.{ℤ, pos, negsuc}
use tealis.Base.Text.{Text, text_lt}
use tealis.Floats.{Arithmetic}
use tealis.Value.{SkipListNode, SortedSet}
use tealis.SkipList.{Nodes, header, forward_at, rounds_of, match_at}

-- The first loop of `ZRange`, from the node `current`: `count` nodes on.
unfoldable pub skip : Nodes → ℕ → Option ℕ → Outcome (Option ℕ)
skip nodes count none = ok none
skip nodes zero (some c) = ok (some c)
skip nodes (suc count) (some c) = elim (forward_at nodes 0 c) [
  | none ↦ panic
  | some next ↦ skip nodes count next
]

abbrev pub key_before : SkipListNode → List Text → Outcome (List Text)
key_before n keys = ok (n.key ∷ keys)

-- The second loop of `ZRange`: the keys of `count` nodes.
unfoldable pub keys_from : Nodes → ℕ → Option ℕ → Outcome (List Text)
keys_from nodes zero current = ok []
keys_from nodes (suc count) none = ok []
keys_from nodes (suc count) (some c) = elim (get_elem? nodes c) [
  | none ↦ panic
  | some n ↦ elim (forward_at nodes 0 c) [
    | none ↦ panic
    | some next ↦ keys_from nodes count next >>= key_before n
  ]
]

-- `s.header.forward[0]`
abbrev pub first : Nodes → (Option ℕ → Outcome (List Text)) → Outcome (List Text)
first nodes rest = elim (forward_at nodes 0 header) [ none ↦ panic | some p ↦ rest p ]

-- `ZRange` of a set. The bounds are not negative, and the first is a place of the set.
unfoldable pub range_of : ℕ → ℕ → SortedSet → Outcome (List Text)
range_of start end x =
    if not (ltb start x.length) || ltb end start
    then ok []
    else first x.nodes λ p. skip x.nodes start p >>= λ c. keys_from x.nodes (end - start + 1) c

unfoldable pub range : ℤ → ℤ → SortedSet → Outcome (List Text)
range (pos start) (pos end) x = range_of start end x
range (pos start) (negsuc end) x = ok []
range (negsuc start) end x = ok []

-- The inner loop of `ZRank`, which counts its rounds.
unfoldable pub rank_walk : Text → Nodes → ℕ → ℕ → ℕ → ℕ → Outcome (ℕ × ℕ)
rank_walk key nodes i zero rank current = deadlock
rank_walk key nodes i (suc rounds) rank current = elim (forward_at nodes i current) [
  | none ↦ panic
  | some none ↦ ok (rank, current)
  | some (some next) ↦ elim (get_elem? nodes next) [
    | none ↦ panic
    | some n ↦ elim (text_lt n.key key) [
      | true ↦ rank_walk key nodes i rounds (rank + 1) next
      | false ↦ ok (rank, current)
    ]
  ]
]

-- The outer loop of `ZRank`, over the levels below `i`.
unfoldable pub rank_search : Text → Nodes → ℕ → ℕ → ℕ → Outcome (ℕ × ℕ)
rank_search key nodes zero rank current = ok (rank, current)
rank_search key nodes (suc i) rank current =
    rank_walk key nodes i (rounds_of nodes) rank current >>= λ (found, last).
    rank_search key nodes i found last

-- `ZRank` of a set: -1 if the key is not where the search ends.
unfoldable pub rank : Text → SortedSet → Outcome ℤ
rank key x = rank_search key x.nodes x.level 0 header >>= λ (found, last).
    match_at key x.nodes last >>= λ hit. ok (if is_some hit then pos found else negsuc 0)

module _ (arithmetic : Arithmetic) where
  -- `<=`
  abbrev pub at_most : ℕ → ℕ → Bool
  at_most a b = arithmetic.below a b || arithmetic.equal a b

  -- The first loop of `ZRangeByScore`.
  unfoldable pub skip_below : ℕ → Nodes → ℕ → Option ℕ → Outcome (Option ℕ)
  skip_below min nodes zero current = deadlock
  skip_below min nodes (suc rounds) none = ok none
  skip_below min nodes (suc rounds) (some c) = elim (get_elem? nodes c) [
    | none ↦ panic
    | some n ↦ elim (arithmetic.below n.score min) [
      | false ↦ ok (some c)
      | true ↦ elim (forward_at nodes 0 c) [
        | none ↦ panic
        | some next ↦ skip_below min nodes rounds next
      ]
    ]
  ]

  -- The second loop of `ZRangeByScore`.
  unfoldable pub keys_up_to : ℕ → Nodes → ℕ → Option ℕ → Outcome (List Text)
  keys_up_to max nodes zero current = deadlock
  keys_up_to max nodes (suc rounds) none = ok []
  keys_up_to max nodes (suc rounds) (some c) = elim (get_elem? nodes c) [
    | none ↦ panic
    | some n ↦ elim (at_most n.score max) [
      | false ↦ ok []
      | true ↦ elim (forward_at nodes 0 c) [
        | none ↦ panic
        | some next ↦ keys_up_to max nodes rounds next >>= key_before n
      ]
    ]
  ]

  -- `ZRangeByScore` of a set
  unfoldable pub range_by_score : ℕ → ℕ → SortedSet → Outcome (List Text)
  range_by_score min max x = first x.nodes λ p.
      skip_below min x.nodes (rounds_of x.nodes) p >>= λ c.
      keys_up_to max x.nodes (rounds_of x.nodes) c
