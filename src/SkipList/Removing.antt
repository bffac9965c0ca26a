-- ===== src/SkipList/Removing.antt =====
-- `ZRem` of a sorted set (internal/storage/zset.go).
use tealis.Base.{
  ℕ, zero, suc, ◌+◌, ◌-◌, List, [], ◌∷◌, Option, none, some, Bool, true, false, ◌==◌, Outcome, ok,
  panic, ◌>>=◌,
}
use tealis.Base.Text.{Text, text_lt}
use tealis.Value.{SkipListNode, SortedSet}
use tealis.SkipList.{Nodes, header, forward_at, set_forward, search, match_at}

-- The order of `ZRem`: by key.
unfoldable pub key_below : Text → SkipListNode → Bool
key_below key n = text_lt n.key key

-- `p == target`
abbrev pub is_pointer : ℕ → Option ℕ → Bool
is_pointer target none = false
is_pointer target (some p) = p == target

-- `for i := 0; i < s.level; i++` of `ZRem`, from level `i`
unfoldable pub unlink : ℕ → ℕ → List ℕ → Nodes → Outcome Nodes
unlink target i [] nodes = ok nodes
unlink target i (u ∷ update) nodes = elim (forward_at nodes i u) [
  | none ↦ panic
  | some p ↦ elim (is_pointer target p) [
    | false ↦ ok nodes
    | true ↦ elim (forward_at nodes i target) [
      | none ↦ panic
      | some q ↦ unlink target (i + 1) update (set_forward u i q nodes)
    ]
  ]
]

-- `for s.level > 1 && s.header.forward[s.level-1] == nil { s.level-- }`
unfoldable pub lower : Nodes → ℕ → Outcome ℕ
lower nodes zero = ok zero
lower nodes (suc zero) = ok (suc zero)
lower nodes (suc (suc i)) = elim (forward_at nodes (suc i) header) [
  | none ↦ panic
  | some none ↦ lower nodes (suc i)
  | some (some p) ↦ ok (suc (suc i))
]

unfoldable pub remove_at :
    SortedSet → List ℕ → Option (ℕ × SkipListNode) → Outcome (Bool × SortedSet)
remove_at x update none = ok (false, x)
remove_at x update (some (target, n)) = unlink target 0 update x.nodes >>= λ nodes.
    lower nodes x.level >>= λ level.
    ok (true, record x { nodes = nodes; level = level; length = x.length - 1 })

-- `ZRem` of a set. A node that was found is one that `length` counts.
unfoldable pub remove : Text → SortedSet → Outcome (Bool × SortedSet)
remove key x = search (key_below key) x.nodes x.level header >>= λ (update, current).
    match_at key x.nodes current >>= λ found. remove_at x update found
