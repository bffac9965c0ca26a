-- ===== src/JsonCommands/Paths.antt =====
-- The paths of internal/storage/json.go: what `JSONGet` reads of what `JSONSet` stores, and one path after
-- another.
use tealis.Base.{
  List, [], ◌∷◌, ◌++◌, Option, Bool, true, false, if◌then◌else◌, ◌⊎◌, inl, inr, ◌≡◌, ◌≢◌, refl, sym,
  ap, ◌∙◌, ◌==◌, arith, Bool-cases, Option-cases, append-nil, ℕ,
}
use tealis.Base.Int.{ℤ}
use tealis.Base.Text.{Text, codes, text_eq}
use tealis.Base.Dict.{lookup, lookup-insert_self, lookup-insert_ne}
use tealis.Value.{GoMap, nil_map, made}
use tealis.Strings.{split, begin_part}
use tealis.Tealis.{Tealis}
use tealis.JsonCommands.{
  Node, map_node, node_at, value_of, without_dot, descend, get_parts, get_at_path, get_in, json_get,
  json_set, Found,
}

node_at-value_of : (m : GoMap) → node_at (value_of m) ≡ map_node m
unfolding node_at value_of
node_at-value_of nil_map = refl
node_at-value_of (made d) = refl

-- Whatever path `JSONSet` is given, it stores the whole value: `JSONGet` of the key then reads the decoded value at ".", and at another path what that path leads to in it; of another key it reads what it did.
pub json_get-json_set :
    (scan_index : Text → Option ℤ) (unmarshal : Text → GoMap) (key j path value p : Text)
    (s : Tealis)
    → key ≢ j
    → (json_get scan_index key p (json_set unmarshal key path value s).1 ≡ (
        if text_eq p (codes ".")
        then inr (map_node (unmarshal value))
        else get_at_path scan_index (map_node (unmarshal value)) p))
      × (json_get scan_index j p (json_set unmarshal key path value s).1
          ≡ json_get scan_index j p s)
unfolding json_get json_set get_in
json_get-json_set scan_index unmarshal key j path value p s ne = (
  rw (lookup-insert_self, node_at-value_of) refl,
  rw (lookup-insert_ne j key (value_of (unmarshal value)) s.store ne) refl,
)

-- A text that is split has a first part.
pub split-cons :
    (sep : ℕ) (p : Text) → (first : Text) × ((rest : List Text) × (split sep p ≡ first ∷ rest))
unfolding split
split-cons sep [] = ([], ([], refl))
split-cons sep (c ∷ p) =
    let (first, (rest, e)) = split-cons sep p in
    elim (Bool-cases (c == sep)) [
      | inl h ↦ ([], (split sep p, rw h refl))
      | inr h ↦ (c ∷ first, (rest, rw (h, e) refl))
    ]

begin_part-append :
    (b : Bool) (c : ℕ) (first : Text) (rest ys : List Text)
    → begin_part b c (first ∷ rest ++ ys) ≡ begin_part b c (first ∷ rest) ++ ys
begin_part-append true c first rest ys = refl
begin_part-append false c first rest ys = refl

split-append : (sep : ℕ) (p q : Text) → split sep (p ++ sep ∷ q) ≡ split sep p ++ split sep q
unfolding split
split-append sep [] q = ground arith
split-append sep (c ∷ p) q =
    let (first, (rest, e)) = split-cons sep p in
    rw (split-append sep p q, e) (begin_part-append (c == sep) c first rest (split sep q))

Found-cases : (x : Found) → ((e : Text) × (x ≡ inl e)) ⊎ ((n : Node) × (x ≡ inr n))
Found-cases (inl e) = inl (e, refl)
Found-cases (inr n) = inr (n, refl)

module _ (scan_index : Text → Option ℤ) where
  -- Only an error names the path.
  descend_path :
      (path path' part : Text) (n m : Node)
      → descend scan_index path part n ≡ inr m
      → descend scan_index path' part n ≡ inr m
  unfolding descend
  descend_path path path' part n m h = ground arith

  get_parts-append :
      (path path' : Text) (xs ys : List Text) (n m : Node)
      → get_parts scan_index path xs n ≡ inr m
      → get_parts scan_index path' (xs ++ ys) n ≡ get_parts scan_index path' ys m
  unfolding get_parts
  get_parts-append path path' [] ys n m h = ground arith
  get_parts-append path path' (part ∷ xs) ys n m h =
      elim (Found-cases (descend scan_index path part n)) [
        | inl (e, wrong) ↦ absurd (ground (arith, h, wrong))
        | inr (next, right) ↦
            rw (get_parts, descend_path path path' part n next right)
              (get_parts-append path path' xs ys next m (ground (arith, h, right)))
      ]

  whole_path :
      (path path' : Text) (xs : List Text) (n m : Node)
      → get_parts scan_index path xs n ≡ inr m
      → get_parts scan_index path' xs n ≡ inr m
  unfolding get_parts
  whole_path path path' xs n m h =
      ap (λ (ys : List Text). get_parts scan_index path' ys n) (sym (append-nil xs))
      ∙ get_parts-append path path' xs [] n m h

without_dot-append :
    (c : ℕ) (p q : Text) → without_dot (c ∷ p ++ b'.' ∷ q) ≡ without_dot (c ∷ p) ++ b'.' ∷ q
unfolding without_dot
without_dot-append c p q = elim (Bool-cases (c == b'.')) [ inl h ↦ rw h refl | inr h ↦ rw h refl ]

long_path : (c : ℕ) (p q : Text) → text_eq (c ∷ p ++ b'.' ∷ q) (codes ".") ≡ false
unfolding text_eq
long_path c [] q = ground arith
long_path c (d ∷ p) q = ground arith

get_at_path-append :
    (scan_index : Text → Option ℤ) (n : Node) (c : ℕ) (p q : Text) (m k : Node)
    → get_at_path scan_index n (c ∷ p) ≡ inr m
    → get_at_path scan_index m (b'.' ∷ q) ≡ inr k
    → get_at_path scan_index n (c ∷ p ++ b'.' ∷ q) ≡ inr k
unfolding get_at_path without_dot
get_at_path-append scan_index n c p q m k h g =
    let first = without_dot (c ∷ p) in
    let whole = first ++ b'.' ∷ q in
    rw (without_dot-append, split-append b'.' first q)
      (get_parts-append scan_index first whole (split b'.' first) (split b'.' q) n m h
        ∙ whole_path scan_index q whole (split b'.' q) m k g)

-- Paths compose: where `JSONGet` finds something at a path that is neither empty nor ".", and a second path leads from it to something else, then that is what `JSONGet` finds at the two paths with a dot between them.
pub json_get-append :
    (scan_index : Text → Option ℤ) (key : Text) (c : ℕ) (p q : Text) (m k : Node) (s : Tealis)
    → text_eq (c ∷ p) (codes ".") ≡ false
    → json_get scan_index key (c ∷ p) s ≡ inr m
    → get_at_path scan_index m (b'.' ∷ q) ≡ inr k
    → json_get scan_index key (c ∷ p ++ b'.' ∷ q) s ≡ inr k
unfolding json_get get_in
json_get-append scan_index key c p q m k s proper h g = elim (Option-cases (lookup key s.store)) [
  | inl missing ↦ absurd (ground (arith, h, missing))
  | inr (v, there) ↦
      let first : get_at_path scan_index (node_at v) (c ∷ p) ≡ inr m =
        ground (arith, h, there, proper) in
      rw (there, long_path) (get_at_path-append scan_index (node_at v) c p q m k first g)
]
