-- ===== src/SetCommands.antt =====
-- internal/storage/set.go. A `map[string]struct{}` is a dictionary of units; a loop over one visits
-- its keys in the order of the list. Each method holds `Mu` to its end.
pub mod Members
pub mod Algebra
use tealis.Base.{
  ℕ, ◌+◌, List, [], ◌∷◌, ◌++◌, map, Option, none, some, Bool, true, false, Outcome, ok, panic,
  if◌then◌else◌, length, is_some,
}
use tealis.Base.Text.{Text}
use tealis.Base.Dict.{Dict, lookup, insert, erase}
use tealis.Value.{Value, as_set, and_then}
use tealis.Value
use tealis.Tealis.{Tealis, Action, put}

abbrev pub Set : Type 0
Set = Dict (Unit {0})

-- `_, exists := set[member]`
abbrev pub has : Text → Set → Bool
has m d = is_some (lookup m d)

-- `for _, member := range members { set[member] = struct{}{} }`
unfoldable pub add_all : List Text → Set → Set
add_all [] d = d
add_all (m ∷ ms) d = add_all ms (insert m tt d)

-- `delete(set, member)` for each of a list
unfoldable pub delete_all : List Text → Set → Set
delete_all [] d = d
delete_all (m ∷ ms) d = delete_all ms (erase m d)

-- The keys, as a loop over the map collects them.
abbrev pub members_of : Set → List Text
members_of [] = []
members_of ((m, _) ∷ d) = m ∷ members_of d

-- `set, exists := r.Store[key].(map[string]struct{})`
abbrev pub set_at : Text → Tealis → Option Set
set_at key s = and_then (lookup key s.store) as_set

abbrev pub members_at : Option Set → List Text
members_at none = []
members_at (some d) = members_of d

abbrev pub has_at : Text → Option Set → Bool
has_at m none = false
has_at m (some d) = has m d

set_or_new : Option Value → Value
set_or_new none = Value.set []
set_or_new (some v) = v

-- `SADD`: the size of the set with the new members.
unfoldable pub sadd : Text → List Text → Action ℕ
unfolding set_or_new
sadd key members s = elim (as_set (set_or_new (lookup key s.store))) [
  | none ↦ (panic, s)
  | some d ↦ (ok (length (add_all members d)), put key (Value.set (add_all members d)) s)
]

-- The loop of `SREM`, with its count.
unfoldable pub remove_counting : List Text → ℕ → Set → ℕ × Set
remove_counting [] count d = (count, d)
remove_counting (m ∷ ms) count d =
    remove_counting ms (if has m d then count + 1 else count) (if has m d then erase m d else d)

-- `SREM`: how many of the members were there.
unfoldable pub srem : Text → List Text → Tealis → ℕ × Tealis
srem key members s = elim (set_at key s) [
  | none ↦ (0, s)
  | some d ↦ let (count, d') = remove_counting members 0 d in (count, put key (Value.set d') s)
]

unfoldable pub sismember : Text → Text → Tealis → Bool
sismember key member s = has_at member (set_at key s)

unfoldable pub smembers : Text → Tealis → List Text
smembers key s = members_at (set_at key s)

-- The first loop of `SUNION`: a key without a set is passed over.
union_from : List Text → Set → Tealis → Set
union_from [] union s = union
union_from (key ∷ keys) union s = union_from keys (add_all (members_at (set_at key s)) union) s

unfoldable pub sunion : List Text → Tealis → List Text
unfolding union_from
sunion keys s = members_of (union_from keys [] s)

-- `for member := range intersection { if !exists in set { delete } }`
keep_common : List Text → Set → Set → Set
keep_common [] other d = d
keep_common (m ∷ ms) other d = keep_common ms other (if has m other then d else erase m d)

inter_from : List Text → Set → Tealis → List Text
unfolding keep_common
inter_from [] d s = members_of d
inter_from (key ∷ keys) d s = elim (set_at key s) [
  | none ↦ []
  | some other ↦ inter_from keys (keep_common (members_of d) other d) s
]

unfoldable pub sinter : List Text → Tealis → List Text
unfolding inter_from
sinter [] s = []
sinter (key ∷ keys) s = elim (set_at key s) [
  | none ↦ []
  | some d ↦ inter_from keys (add_all (members_of d) []) s
]

-- A key without a set is passed over.
diff_from : List Text → Set → Tealis → Set
diff_from [] d s = d
diff_from (key ∷ keys) d s = diff_from keys (delete_all (members_at (set_at key s)) d) s

unfoldable pub sdiff : List Text → Tealis → List Text
unfolding diff_from
sdiff [] s = []
sdiff (key ∷ keys) s = elim (set_at key s) [
  | none ↦ []
  | some d ↦ members_of (diff_from keys (add_all (members_of d) []) s)
]
