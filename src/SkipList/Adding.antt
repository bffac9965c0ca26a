-- ===== src/SkipList/Adding.antt =====
-- `ZAdd` of a sorted set (internal/storage/zset.go).
use tealis.Base.{
  ℕ, ◌+◌, ◌-◌, List, [], ◌∷◌, ◌++◌, Option, none, some, Bool, ◌&&◌, ◌||◌, Outcome, ok, panic, ◌>>=◌,
  if◌then◌else◌, ltb, length, set, replicate, take,
}
use tealis.Base.Text.{Text, text_lt}
use tealis.Floats.{Arithmetic}
use tealis.Value.{SkipListNode, SortedSet}
use tealis.SkipList.{
  Nodes, new_skip_list_node, header, random_level, forward_at, set_forward, search, match_at,
}

-- `for i := 0; i < newLevel; i++`, from level `i`: the new node `n` is put behind those of `update`.
unfoldable pub link : ℕ → ℕ → List ℕ → Nodes → Outcome Nodes
link n i [] nodes = ok nodes
link n i (u ∷ update) nodes = elim (forward_at nodes i u) [
  | none ↦ panic
  | some p ↦ link n (i + 1) update (set_forward u i (some n) (set_forward n i p nodes))
]

module _ (arithmetic : Arithmetic) where
  -- The order of ZAdd: by score, then by key.
  unfoldable pub precedes : ℕ → Text → SkipListNode → Bool
  precedes score key n =
      arithmetic.below n.score score || (arithmetic.equal n.score score && text_lt n.key key)

  -- The insertion, for a level that was drawn.
  unfoldable pub insert_node : Text → ℕ → List ℕ → ℕ × ℕ → SortedSet → Outcome SortedSet
  insert_node key score update (new_level, source) x =
      link (length x.nodes) 0 (take new_level (update ++ replicate (new_level - x.level) header))
        (x.nodes ++ new_skip_list_node key score new_level ∷ [])
      >>= λ nodes. ok (record {
        nodes = nodes;
        level = if ltb x.level new_level then new_level else x.level;
        length = x.length + 1;
        rand_src = source;
      })

  unfoldable pub add_at :
      (ℕ → Bool × ℕ) → Text → ℕ → SortedSet → List ℕ → Option (ℕ × SkipListNode) → Outcome SortedSet
  add_at float32 key score x update (some (p, n)) =
      ok (record x { nodes = set x.nodes p (record n { score = score }) })
  add_at float32 key score x update none =
      insert_node key score update (random_level float32 x.rand_src) x

  -- `ZAdd` of a set
  unfoldable pub add : (ℕ → Bool × ℕ) → Text → ℕ → SortedSet → Outcome SortedSet
  add float32 key score x =
      search (precedes score key) x.nodes x.level header >>= λ (update, current).
      match_at key x.nodes current >>= λ found. add_at float32 key score x update found
