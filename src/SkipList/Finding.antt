-- ===== src/SkipList/Finding.antt =====
-- When `ZRem` of a sorted set (internal/storage/zset.go) finds a member: its search is by member, in a list that is
-- in the order of the scores.
use tealis.Base.{
  ℕ, List, [], ◌∷◌, ◌++◌, some, true, false, ◌≡◌, refl, sym, ◌∙◌, ◌⊎◌, inl, inr, ok, ◌>>=◌, arith,
}
use mathlib.Core.Path.{subst}
use tealis.Base.Text.{Text, text_lt, text_eq_refl}
use tealis.Floats.{Arithmetic}
use tealis.Value.{SortedSet}
use tealis.SkipList.{Nodes, header}
use tealis.SkipList.Removing.{key_below, remove}
use tealis.SkipList.Chains.{All, All-append, last_of, first_tall, first_tall_reached}
use tealis.SkipList.Walks.{tall_at, less_at}
use tealis.SkipList.Memory.{Entry, entry_at}
use tealis.SkipList.Entries.{Sorted-without}
use tealis.SkipList.Meaning.{
  Holds, Laid, Represents, Place, search-Place, match_at_node, append-Holds,
}
use tealis.SkipList.Deleting.{removed_at}

-- The members of all entries are smaller than `key`, or none is.
abbrev pub AllSmaller : Text → List Entry → Type 0
AllSmaller key [] = Unit
AllSmaller key (e ∷ es) = (text_lt e.0 key ≡ true) × AllSmaller key es

abbrev pub NoneSmaller : Text → List Entry → Type 0
NoneSmaller key [] = Unit
NoneSmaller key (e ∷ es) = (text_lt e.0 key ≡ false) × NoneSmaller key es

-- The last entry, if there is one, is smaller; the first, if there is one, is not.
abbrev LastSmaller : Text → List Entry → Type 0
LastSmaller key [] = Unit
LastSmaller key (e ∷ []) = text_lt e.0 key ≡ true
LastSmaller key (e ∷ f ∷ es) = LastSmaller key (f ∷ es)

abbrev FirstNot : Text → List Entry → Type 0
FirstNot key [] = Unit
FirstNot key (e ∷ es) = text_lt e.0 key ≡ false

last_not :
    (key : Text) (e : Entry) (es fs gs : List Entry)
    → e ∷ es ++ fs ≡ gs
    → NoneSmaller key gs
    → LastSmaller key (e ∷ es)
    → ⊥
last_not key e es fs [] eq big last = cc eq
last_not key e [] fs (g ∷ gs) eq big last = let same : e ≡ g = cc eq in cc (last, big.0, same)
last_not key e (f ∷ es) fs (g ∷ gs) eq big last = last_not key f es fs gs (cc eq) big.1 last

-- There is one place between the smaller entries and the others.
same_place :
    (key : Text) (em er es fs : List Entry)
    → em ++ er ≡ es ++ fs
    → AllSmaller key em
    → NoneSmaller key er
    → LastSmaller key es
    → FirstNot key fs
    → (es ≡ em) × (fs ≡ er)
same_place key [] er [] fs eq small big last first = (refl, sym eq)
same_place key [] er (e ∷ es) fs eq small big last first =
    absurd (last_not key e es fs er (sym eq) big last)
same_place key (e ∷ em) er [] [] eq small big last first = absurd (cc eq)
same_place key (e ∷ em) er [] (f ∷ fs) eq small big last first =
    let same : e ≡ f = cc eq in absurd (cc (small.0, first, same))
same_place key (e ∷ em) er (f ∷ []) fs eq small big last first =
    let (none_left, rest) = same_place key em er [] fs (cc eq) small.1 big tt first in
    (cc (eq, none_left), rest)
same_place key (e ∷ em) er (f ∷ g ∷ es) fs eq small big last first =
    let (left, rest) = same_place key em er (g ∷ es) fs (cc eq) small.1 big last first in
    (cc (eq, left), rest)

less_at-key :
    (key : Text) (nodes : Nodes) (c : ℕ) (e : Entry)
    → entry_at nodes c ≡ some e
    → less_at (key_below key) nodes c ≡ text_lt e.0 key
unfolding less_at entry_at key_below
less_at-key key nodes c e h = ground (arith, h)

ends_smaller :
    (key : Text) (nodes : Nodes) (c : ℕ) (m : List ℕ) (es : List Entry)
    → Holds nodes m es
    → (m ≡ []) ⊎ (less_at (key_below key) nodes (last_of c m) ≡ true)
    → LastSmaller key es
unfolding last_of
ends_smaller key nodes c [] [] h ends = tt
ends_smaller key nodes c [] (e ∷ es) h ends = absurd h
ends_smaller key nodes c (d ∷ m) [] h ends = absurd h
ends_smaller key nodes c (d ∷ m) (e ∷ es) h (inl none_there) = absurd (cc none_there)
ends_smaller key nodes c (d ∷ []) (e ∷ []) h (inr last) = sym (less_at-key key nodes d e h.0) ∙ last
ends_smaller key nodes c (d ∷ []) (e ∷ f ∷ es) h (inr last) = absurd h.1
ends_smaller key nodes c (d ∷ k ∷ m) (e ∷ []) h (inr last) = absurd h.1
ends_smaller key nodes c (d ∷ k ∷ m) (e ∷ f ∷ es) h (inr last) =
    ends_smaller key nodes d (k ∷ m) (f ∷ es) h.1 (inr last)

first_not :
    (key : Text) (x : SortedSet) (r : List ℕ) (es : List Entry)
    → Holds x.nodes r es
    → All (λ c. tall_at x.nodes 0 c ≡ true) r
    → ((c : ℕ)
        → first_tall (tall_at x.nodes 0) r ≡ some c
        → less_at (key_below key) x.nodes c ≡ false)
    → FirstNot key es
first_not key x [] [] h t blocked = tt
first_not key x [] (e ∷ es) h t blocked = absurd h
first_not key x (c ∷ r) [] h t blocked = absurd h
first_not key x (c ∷ r) (e ∷ es) h t blocked =
    sym (less_at-key key x.nodes c e h.0)
    ∙ blocked c (first_tall_reached (tall_at x.nodes 0) c r t.0)

module _ (arithmetic : Arithmetic) (key : Text) (score : ℕ) (x : SortedSet) (em er : List Entry)
    (r : Represents arithmetic x (em ++ (key, score) ∷ er)) where
  abbrev Taken : Type 0
  Taken = (x' : SortedSet) × ((remove key x ≡ ok (true, x')) × Represents arithmetic x' (em ++ er))

  taken_at :
      (p : Place (key_below key) x (em ++ (key, score) ∷ er))
      → (l : List ℕ) → p.r ≡ l
      → Holds x.nodes l ((key, score) ∷ er)
      → Holds x.nodes p.m em
      → Taken
  unfolding remove
  taken_at p [] hr holds front = absurd holds
  taken_at p (c ∷ l) hr holds front =
      let laid : Laid x (p.m ++ c ∷ l) = subst (λ k. Laid x (p.m ++ k)) hr p.laid in
      let (n, (there, (same, found))) = match_at_node key x p.m l c (key, score) laid holds.0 in
      let (x', (done, (laid', kept))) = removed_at x p.m l c laid p.update p.count p.updates n in
      let (sorted, numbers) = Sorted-without arithmetic (key, score) em er r.sorted r.numbers in
      (
        x',
        (
          rw (p.found, found, text_eq_refl key, ◌>>=◌) done,
          record {
            addresses = p.m ++ l;
            laid = laid';
            holds = kept (p.m ++ l) (em ++ er) (append-Holds x.nodes p.m l em er front holds.1);
            sorted = sorted;
            numbers = numbers;
          },
        ),
      )

  -- A member is removed where those in front of it are smaller and those behind it are not, as in a set whose scores grow with its members.
  pub remove-found : AllSmaller key em → NoneSmaller key ((key, score) ∷ er) → Taken
  remove-found small big =
      let p = search-Place (key_below key) x r.addresses (em ++ (key, score) ∷ er) r.laid r.holds in
      let (left, right) =
        same_place key em ((key, score) ∷ er) p.em p.er p.entries small big
          (ends_smaller key x.nodes header p.m p.em p.front p.ends)
          (first_not key x p.r p.er p.back
            (All-append (λ c. tall_at x.nodes 0 c ≡ true) p.m p.r p.laid.grounded).1 p.blocked) in
      taken_at p p.r refl (subst (λ es. Holds x.nodes p.r es) right p.back)
        (subst (λ es. Holds x.nodes p.m es) left p.front)
