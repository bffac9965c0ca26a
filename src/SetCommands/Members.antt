-- ===== src/SetCommands/Members.antt =====
-- SADD, SREM, SISMEMBER and SMEMBERS (internal/storage/set.go) by membership and size.
use tealis.Base.{
  ℕ, ◌+◌, List, [], ◌∷◌, Option, none, some, Bool, true, false, ◌&&◌, ◌||◌, not, ok, panic, ◌↔◌,
  Option-cases, ◌≡◌, refl, sym, ap, ◌∙◌, arith, if◌then◌else◌, length, is_some, inl, inr,
}
use tealis.Base.Text.{Text, text_eq, text_eq_iff}
use tealis.Base.Dict.{
  lookup, insert, erase, lookup-insert, lookup-erase, IsDict, insert-IsDict, erase-IsDict,
  length-erase, lookup-insert_self,
}
use tealis.Value.{Value, as_set}
use tealis.Tealis.{Tealis, put}
use tealis.SetCommands.{
  Set, has, add_all, delete_all, members_of, set_or_new, set_at, members_at, has_at, sadd,
  remove_counting, srem, sismember, smembers,
}

-- Whether a text is in a list.
abbrev pub contains : List Text → Text → Bool
contains [] m = false
contains (x ∷ xs) m = text_eq x m || contains xs m

pub has-members_of : (m : Text) (d : Set) → contains (members_of d) m ≡ has m d
unfolding lookup
has-members_of m [] = refl
has-members_of m ((k, u) ∷ d) = ground (arith, has-members_of m d)

pub has-add_all :
    (m : Text) (ms : List Text) (d : Set) → has m (add_all ms d) ≡ (contains ms m || has m d)
unfolding add_all
has-add_all m [] d = refl
has-add_all m (x ∷ ms) d = ground (arith, has-add_all m ms (insert x tt d), lookup-insert m x tt d)

pub has-delete_all :
    (m : Text) (ms : List Text) (d : Set)
    → has m (delete_all ms d) ≡ (not (contains ms m) && has m d)
unfolding delete_all
has-delete_all m [] d = refl
has-delete_all m (x ∷ ms) d = ground (arith, has-delete_all m ms (erase x d), lookup-erase m x d)

pub add_all-IsDict : (ms : List Text) (d : Set) → IsDict d → IsDict (add_all ms d)
unfolding add_all
add_all-IsDict [] d h = h
add_all-IsDict (m ∷ ms) d h = add_all-IsDict ms (insert m tt d) (insert-IsDict m tt d h)

length-members_of : (d : Set) → length (members_of d) ≡ length d
length-members_of [] = refl
length-members_of (e ∷ d) = omega (arith, length-members_of d)

pub contains-members_at : (m : Text) (o : Option Set) → contains (members_at o) m ≡ has_at m o
contains-members_at m none = refl
contains-members_at m (some d) = has-members_of m d

-- `SMEMBERS` lists the texts that `SISMEMBER` accepts.
pub smembers-contains :
    (key m : Text) (s : Tealis) → contains (smembers key s) m ≡ sismember key m s
unfolding smembers sismember
smembers-contains key m s = contains-members_at m (set_at key s)

module _ (key : Text) (ms : List Text) (s : Tealis) where
  -- A key with no value or a set: what `SADD` returns and stores.
  sadd-set :
      (d : Set)
      → as_set (set_or_new (lookup key s.store)) ≡ some d
      → sadd key ms s ≡ (ok (length (add_all ms d)), put key (Value.set (add_all ms d)) s)
  unfolding sadd
  sadd-set d h = ground arith

  -- `SADD` panics, and changes nothing, exactly on a key with a value of another type.
  pub sadd_panic :
      ((sadd key ms s).0 ≡ panic → (sadd key ms s).1 ≡ s)
      × (((sadd key ms s).0 ≡ panic)
          ↔ (is_some (lookup key s.store) ≡ true × (set_at key s ≡ none)))
  unfolding sadd as_set
  sadd_panic = ground arith

set_at-put : (key : Text) (d : Set) (s : Tealis) → set_at key (put key (Value.set d) s) ≡ some d
unfolding as_set
set_at-put key d s = rw lookup-insert_self

smembers-put :
    (key : Text) (d : Set) (s : Tealis) → smembers key (put key (Value.set d) s) ≡ members_of d
unfolding smembers
smembers-put key d s = rw set_at-put

sismember-put :
    (key m : Text) (d : Set) (s : Tealis) → sismember key m (put key (Value.set d) s) ≡ has m d
unfolding sismember
sismember-put key m d s = rw set_at-put

sismember-before :
    (key m : Text) (d : Set) (s : Tealis)
    → as_set (set_or_new (lookup key s.store)) ≡ some d
    → sismember key m s ≡ has m d
unfolding sismember as_set set_or_new lookup
sismember-before key m d s h = ground arith

-- `SADD` where it does not panic: the members are the old and the new ones, and the reply is how many
-- members the set has then.
pub sadd-members :
    (key : Text) (ms : List Text) (n : ℕ) (s : Tealis)
    → (sadd key ms s).0 ≡ ok n
    → (n ≡ length (smembers key (sadd key ms s).1))
      × ((m : Text) → sismember key m (sadd key ms s).1 ≡ (contains ms m || sismember key m s))
sadd-members key ms n s h = elim (Option-cases (as_set (set_or_new (lookup key s.store)))) [
  | inl other ↦ let no : ⊥ = unfold sadd in ground arith in absurd no
  | inr (d, e) ↦
      let stored = sadd-set key ms s d e in
      let same : length (add_all ms d) ≡ n = ground (arith, stored) in
      rw (stored, smembers-put, ← same)
        (
          sym (length-members_of (add_all ms d)),
          λ m.
              sismember-put key m (add_all ms d) s
              ∙ has-add_all m ms d
              ∙ ap (λ (b : Bool). contains ms m || b) (sym (sismember-before key m d s e)),
        )
]

has-remove_counting :
    (m : Text) (ms : List Text) (count : ℕ) (d : Set)
    → has m (remove_counting ms count d).1 ≡ (not (contains ms m) && has m d)
unfolding remove_counting
has-remove_counting m [] count d = refl
has-remove_counting m (x ∷ ms) count d = ground (
  arith,
  has-remove_counting m ms (if has x d then count + 1 else count)
      (if has x d then erase x d else d),
  lookup-erase m x d,
  text_eq_iff x m,
)

length-remove_counting :
    (ms : List Text) (count : ℕ) (d : Set)
    → IsDict d
    → length (remove_counting ms count d).1 + (remove_counting ms count d).0 ≡ length d + count
unfolding remove_counting
length-remove_counting [] count d h = refl
length-remove_counting (x ∷ ms) count d h = ground (
  arith,
  length-remove_counting ms (if has x d then count + 1 else count)
      (if has x d then erase x d else d),
  length-erase x d h,
  erase-IsDict x d h,
)

module _ (key : Text) (ms : List Text) (d : Set) (s : Tealis) (e : set_at key s ≡ some d) where
  srem-set :
      srem key ms s ≡ ((remove_counting ms 0 d).0, put key (Value.set (remove_counting ms 0 d).1) s)
  unfolding srem
  srem-set = ground arith

  smembers-set : smembers key s ≡ members_of d
  unfolding smembers
  smembers-set = rw e

  sismember-set : (m : Text) → sismember key m s ≡ has m d
  unfolding sismember
  sismember-set m = rw e

  -- `SREM` on a set: its other members stay, and the reply is by how many the set has shrunk.
  srem-members :
      IsDict d
      → (length (smembers key (srem key ms s).1) + (srem key ms s).0 ≡ length (smembers key s))
        × ((m : Text)
            → sismember key m (srem key ms s).1 ≡ (not (contains ms m) && sismember key m s))
  srem-members h =
      rw (srem-set, smembers-put)
        (
          rw smembers-set (
              omega (
                arith,
                length-members_of d,
                length-members_of (remove_counting ms 0 d).1,
                length-remove_counting ms 0 d h,
              )),
          λ m.
              sismember-put key m (remove_counting ms 0 d).1 s
              ∙ has-remove_counting m ms 0 d
              ∙ ap (λ (b : Bool). not (contains ms m) && b) (sym (sismember-set m)),
        )
