-- ===== src/SkipList/Removals.antt =====
-- What `ZRem` of a sorted set (internal/storage/zset.go) leaves.
use tealis.Base.{
  ℕ, List, [], ◌∷◌, ◌++◌, none, true, false, ◌≡◌, refl, ◌∙◌, ap, ◌⊎◌, inl, inr, Bool-cases, ok,
  ◌>>=◌,
}
use mathlib.Core.Path.{subst}
use tealis.Base.Text.{Text, text_eq, text_eq→eq}
use tealis.Floats.{Arithmetic}
use tealis.Value.{SortedSet}
use tealis.SkipList.{header, match_at}
use tealis.SkipList.Removing.{key_below, remove_at, remove}
use tealis.SkipList.Chains.{last_of}
use tealis.SkipList.Memory.{Entry}
use tealis.SkipList.Entries.{Sorted, Numbers, Sorted-without}
use tealis.SkipList.Meaning.{
  Holds, append-Holds, Laid, Represents, Place, search-Place, match_at_end, match_at_node,
}
use tealis.SkipList.Deleting.{removed_at}

-- What `ZRem` leaves: the set as it was, or without one entry of the member.
abbrev pub Removal : Arithmetic → Text → SortedSet → List Entry → Type 0
Removal arithmetic key x es =
    (remove key x ≡ ok (false, x))
    ⊎ ((em : List Entry) × ((er : List Entry) × ((score : ℕ) × ((x' : SortedSet) × ((es
                  ≡ em ++ (key, score) ∷ er)
                × ((remove key x ≡ ok (true, x')) × Represents arithmetic x' (em ++ er)))))))

module _ (arithmetic : Arithmetic) (key : Text) (x : SortedSet) (es : List Entry)
    (p : Place (key_below key) x es) (sorted : Sorted arithmetic es)
    (numbers : Numbers arithmetic es) where
  Removal-none : match_at key x.nodes (last_of header p.m) ≡ ok none → Removal arithmetic key x es
  unfolding remove remove_at
  Removal-none missed = inl (rw (p.found, missed, ◌>>=◌) refl)

  Removal-at :
      (r : List ℕ) (er : List Entry)
      → p.r ≡ r
      → p.er ≡ er
      → Holds x.nodes r er
      → Removal arithmetic key x es
  unfolding remove
  Removal-at [] er hr her holds =
      Removal-none (match_at_end key x p.m (subst (λ l. Laid x (p.m ++ l)) hr p.laid))
  Removal-at (c ∷ r) [] hr her holds = absurd holds
  Removal-at (c ∷ r) (e ∷ er) hr her holds =
      let laid : Laid x (p.m ++ c ∷ r) = subst (λ l. Laid x (p.m ++ l)) hr p.laid in
      let (n, (there, (same, found))) = match_at_node key x p.m r c e laid holds.0 in
      elim (Bool-cases (text_eq e.0 key)) [
        | inr other ↦ Removal-none (found ∙ rw other refl)
        | inl hit ↦
            let (x', (done, (laid', kept))) =
              removed_at x p.m r c laid p.update p.count p.updates n in
            let named : e.0 ≡ key = text_eq→eq e.0 key hit in
            let parts : es ≡ p.em ++ (key, e.1) ∷ er =
              p.entries ∙ ap (λ l. p.em ++ l) (her ∙ ap (λ k. (k, e.1) ∷ er) named) in
            let (sorted', numbers') =
              Sorted-without arithmetic (key, e.1) p.em er
                (subst (λ l. Sorted arithmetic l) parts sorted)
                (subst (λ l. Numbers arithmetic l) parts numbers) in
            inr (
              p.em,
              (
                er,
                (
                  e.1,
                  (
                    x',
                    (
                      parts,
                      (
                        rw (p.found, found, hit, ◌>>=◌) done,
                        record {
                          addresses = p.m ++ r;
                          laid = laid';
                          holds =
                              kept (p.m ++ r) (p.em ++ er)
                                (append-Holds x.nodes p.m r p.em er p.front holds.1);
                          sorted = sorted';
                          numbers = numbers';
                        },
                      ),
                    ),
                  ),
                ),
              ),
            )
      ]

-- On a skip list that holds entries, removing a member ends. It says false and changes nothing, or it says true and takes exactly one entry, which is of that member, out of every level; what is left is a skip list of the others, in their order.
pub remove-Removal :
    (arithmetic : Arithmetic) (key : Text) (x : SortedSet) (es : List Entry)
    → Represents arithmetic x es
    → Removal arithmetic key x es
remove-Removal arithmetic key x es h =
    let p = search-Place (key_below key) x h.addresses es h.laid h.holds in
    Removal-at arithmetic key x es p h.sorted h.numbers p.r p.er refl refl p.back
