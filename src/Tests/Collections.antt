-- ===== src/Tests/Collections.antt =====
-- Examples for lists, sets and hashes (internal/storage/list.go, set.go and hset.go).
use tealis.Base.{
  ℕ, List, [], ◌∷◌, ◌++◌, Option, none, some, Bool, true, false, ◌&&◌, ◌||◌, not, Outcome, ok,
  panic, ◌≡◌, refl, sym, ap, arith, if◌then◌else◌, length, get_elem?, ◌+◌,
}
use tealis.Base.Int.{ℤ, pos, negsuc, pos_part}
use tealis.Base.Text.{Text, text_eq}
use tealis.Base.Dict.{lookup, IsDict}
use tealis.Ranges.{window}
use tealis.Value.{GoMap, made, str, as_hash, as_list, as_set}
use tealis.ListCommands.{lrange}
use tealis.ListCommands.Deque.{
  deque, push_right, push_left, pop_left, pop_right, count, popped, OnlyKey,
}
use tealis.ListCommands.Refinement.{concrete_run, run_refines}
use tealis.ListCommands.Ranges.{lrange-window}
use tealis.SetCommands.{sadd, srem, smembers, sismember, sunion, sinter, sdiff}
use tealis.SetCommands.Members.{contains, sadd-members}
use tealis.SetCommands.Algebra.{sinter-contains}
use tealis.HashCommands.{hget, hmset}
use tealis.HashCommands.Fields.{hmset-hget}
use tealis.Tests.Data.{k, j, a, b, hello, two_items, two_sets, one_field}

run_refines_example :
    let ops = push_right (k ∷ []) ∷ pop_left ∷ push_left (j ∷ []) ∷ pop_right ∷ [] in
    ((concrete_run ops k two_items).0
      ≡ ok (count 3 ∷ popped (some a) ∷ count 3 ∷ popped (some k) ∷ []))
    × (deque k (concrete_run ops k two_items).1 ≡ some (j ∷ b ∷ []))
    × OnlyKey k two_items (concrete_run ops k two_items).1
unfolding deque lookup text_eq as_list
run_refines_example =
    run_refines (push_right (k ∷ []) ∷ pop_left ∷ push_left (j ∷ []) ∷ pop_right ∷ []) k
      (a ∷ b ∷ []) two_items refl

lrange-window_example :
    (r : List Text) × (lrange k (negsuc 0) (pos 9) two_items ≡ ok r)
    × ((i : ℕ) → get_elem? r i ≡ window (a ∷ b ∷ []) 1 (pos 9) i)
unfolding lookup text_eq tealis.Base.Int.◌+ℤ◌
lrange-window_example = lrange-window k (a ∷ b ∷ []) (negsuc 0) (pos 9) two_items refl

sadd-members_example :
    (2 ≡ length (smembers k (sadd k (b ∷ a ∷ []) two_sets).1))
    × ((m : Text)
        → sismember k m (sadd k (b ∷ a ∷ []) two_sets).1
          ≡ (contains (b ∷ a ∷ []) m || sismember k m two_sets))
unfolding sadd as_set lookup text_eq tealis.SetCommands.add_all tealis.Base.Dict.insert
sadd-members_example = sadd-members k (b ∷ a ∷ []) 2 two_sets refl

sinter-contains_example : contains (sinter (k ∷ j ∷ []) two_sets) b ≡ false
unfolding sismember lookup text_eq as_set
sinter-contains_example = sinter-contains b k (j ∷ []) two_sets

hmset-hget_example : hget k a (hmset k ((b, str b) ∷ []) one_field).1 ≡ some (str hello)
unfolding lookup hmset text_eq as_hash hget
hmset-hget_example = hmset-hget k a ((b, str b) ∷ []) one_field (refl, tt) refl

-- The map that an assertion gives, for a key with a hash.
abbrev found : Option GoMap → GoMap
found none = made []
found (some m) = m
