-- ===== src/SetCommands/Algebra.antt =====
-- SUNION, SINTER and SDIFF (internal/storage/set.go) by membership.
use tealis.Base.{
  List, [], ◌∷◌, Bool, true, false, ◌&&◌, ◌||◌, not, ◌≡◌, refl, arith, if◌then◌else◌, inl, inr,
  Option-cases,
}
use tealis.Base.Text.{Text, text_eq_iff}
use tealis.Base.Dict.{lookup, erase, lookup-erase}
use tealis.Tealis.{Tealis}
use tealis.SetCommands.{
  Set, has, add_all, delete_all, members_of, set_at, members_at, sismember, union_from, sunion,
  keep_common, inter_from, sinter, diff_from, sdiff,
}
use tealis.SetCommands.Members.{
  contains, has-members_of, has-add_all, has-delete_all, contains-members_at,
}

-- Some, or each, of the sets at the keys has the member.
abbrev pub in_some : List Text → Text → Tealis → Bool
in_some [] m s = false
in_some (key ∷ keys) m s = sismember key m s || in_some keys m s

abbrev pub in_each : List Text → Text → Tealis → Bool
in_each [] m s = true
in_each (key ∷ keys) m s = sismember key m s && in_each keys m s

has-union_from :
    (m : Text) (keys : List Text) (union : Set) (s : Tealis)
    → has m (union_from keys union s) ≡ (in_some keys m s || has m union)
unfolding union_from sismember
has-union_from m [] union s = refl
has-union_from m (key ∷ keys) union s = ground (
  arith,
  has-union_from m keys (add_all (members_at (set_at key s)) union) s,
  has-add_all m (members_at (set_at key s)) union,
  contains-members_at m (set_at key s),
)

-- `SUNION` lists what is in one of the sets. A key without a set adds nothing.
pub sunion-contains :
    (m : Text) (keys : List Text) (s : Tealis) → contains (sunion keys s) m ≡ in_some keys m s
unfolding sunion lookup
sunion-contains m keys s =
    ground (arith, has-members_of m (union_from keys [] s), has-union_from m keys [] s)

has-keep_common :
    (m : Text) (ms : List Text) (other d : Set)
    → has m (keep_common ms other d) ≡ ((not (contains ms m) || has m other) && has m d)
unfolding keep_common
has-keep_common m [] other d = refl
has-keep_common m (x ∷ ms) other d = ground (
  arith,
  has-keep_common m ms other (if has x other then d else erase x d),
  lookup-erase m x d,
  text_eq_iff x m,
)

contains-inter_from :
    (m : Text) (keys : List Text) (d : Set) (s : Tealis)
    → contains (inter_from keys d s) m ≡ (has m d && in_each keys m s)
unfolding inter_from sismember
contains-inter_from m [] d s = ground (arith, has-members_of m d)
contains-inter_from m (key ∷ keys) d s = elim (Option-cases (set_at key s)) [
  | inl missing ↦ ground arith
  | inr (other, e) ↦ ground (
    arith,
    contains-inter_from m keys (keep_common (members_of d) other d) s,
    has-keep_common m (members_of d) other d,
    has-members_of m d,
  )
]

-- `SINTER` of one key or more lists what is in each of the sets; a key without a set empties it.
pub sinter-contains :
    (m key : Text) (keys : List Text) (s : Tealis)
    → contains (sinter (key ∷ keys) s) m ≡ in_each (key ∷ keys) m s
unfolding sinter sismember lookup
sinter-contains m key keys s = elim (Option-cases (set_at key s)) [
  | inl missing ↦ ground arith
  | inr (d, e) ↦ ground (
    arith,
    contains-inter_from m keys (add_all (members_of d) []) s,
    has-add_all m (members_of d) [],
    has-members_of m d,
  )
]

has-diff_from :
    (m : Text) (keys : List Text) (d : Set) (s : Tealis)
    → has m (diff_from keys d s) ≡ (not (in_some keys m s) && has m d)
unfolding diff_from sismember
has-diff_from m [] d s = refl
has-diff_from m (key ∷ keys) d s = ground (
  arith,
  has-diff_from m keys (delete_all (members_at (set_at key s)) d) s,
  has-delete_all m (members_at (set_at key s)) d,
  contains-members_at m (set_at key s),
)

-- `SDIFF` lists what is in the first set and in none of the others.
sdiff-contains :
    (m key : Text) (keys : List Text) (s : Tealis)
    → contains (sdiff (key ∷ keys) s) m ≡ (sismember key m s && not (in_some keys m s))
unfolding sdiff sismember lookup
sdiff-contains m key keys s = elim (Option-cases (set_at key s)) [
  | inl missing ↦ ground arith
  | inr (d, e) ↦ ground (
    arith,
    has-members_of m (diff_from keys (add_all (members_of d) []) s),
    has-diff_from m keys (add_all (members_of d) []) s,
    has-add_all m (members_of d) [],
    has-members_of m d,
  )
]
