-- ===== src/SkipList/Memory.antt =====
-- What writes to the nodes of a skip list change (internal/storage/zset.go).
use tealis.Base.{
  ℕ, zero, suc, ◌<◌, List, [], ◌∷◌, Option, none, some, true, ◌&&◌, if◌then◌else◌, ◌≡◌, ◌≢◌, refl,
  sym, inl, inr, Bool-cases, Option-cases, is_some, ◌==◌, length, length-set, set, get_elem?,
  get_elem?-set_self, get_elem?-set_ne, arith,
}
use tealis.Base.Text.{Text}
use tealis.Value.{SkipListNode}
use tealis.SkipList.{Nodes, forward_at, set_forward}
use tealis.SkipList.Walks.{tall_at}

-- A member with its score.
abbrev pub Entry : Type 0
Entry = Text × ℕ

abbrev pub entry_of : SkipListNode → Entry
entry_of n = (n.key, n.score)

unfoldable pub entry_at : Nodes → ℕ → Option Entry
entry_at nodes c = elim (get_elem? nodes c) [ none ↦ none | some n ↦ some (entry_of n) ]

pub length-of_get :
    {A : Type 0} (l : List A) (i : ℕ) (a : A) → get_elem? l i ≡ some a → i < length l
length-of_get [] i a h = absurd (cc h)
length-of_get (x ∷ l) zero a h = omega arith
length-of_get (x ∷ l) (suc i) a h = omega (arith, length-of_get l i a h)

-- A write to a node, by what it makes of that node.
get_elem?-set :
    {A : Type 0} (l : List A) (c x : ℕ) (a b : A)
    → get_elem? l c ≡ some a
    → get_elem? (set l c b) x ≡ (if c == x then some b else get_elem? l x)
get_elem?-set l c x a b h = elim (Bool-cases (c == x)) [
  | inl same ↦
      let e : c ≡ x = ground arith in
      rw (sym e, get_elem?-set_self l c b (length-of_get l c a h)) (ground arith)
  | inr apart ↦ let ne : c ≢ x = ground arith in rw (get_elem?-set_ne l c x b ne, apart) refl
]

node_of_tall :
    (nodes : Nodes) (i c : ℕ)
    → tall_at nodes i c ≡ true
    → (n : SkipListNode) × ((get_elem? nodes c ≡ some n) × (is_some (get_elem? n.forward i) ≡ true))
unfolding forward_at
node_of_tall nodes i c h = elim (Option-cases (get_elem? nodes c)) [
  | inl e ↦ absurd (ground (arith, e, h))
  | inr (n, e) ↦ (n, (e, ground (arith, e, h)))
]

set_forward-some :
    (nodes : Nodes) (c i : ℕ) (p : Option ℕ) (n : SkipListNode)
    → get_elem? nodes c ≡ some n
    → set_forward c i p nodes ≡ set nodes c (record n { forward = set n.forward i p })
unfolding set_forward
set_forward-some nodes c i p n e = rw (e, set_forward) refl

-- A node that is replaced by another.
module _ (nodes : Nodes) (c : ℕ) (n n' : SkipListNode) (e : get_elem? nodes c ≡ some n) where
  pub forward_at-set :
      (j x : ℕ)
      → forward_at (set nodes c n') j x
        ≡ (if c == x then get_elem? n'.forward j else forward_at nodes j x)
  unfolding forward_at
  forward_at-set j x = ground (arith, get_elem?-set nodes c x n n' e)

  pub entry_at-set :
      (x : ℕ)
      → entry_at (set nodes c n') x ≡ (if c == x then some (entry_of n') else entry_at nodes x)
  unfolding entry_at
  entry_at-set x = ground (arith, get_elem?-set nodes c x n n' e)

module _ (nodes : Nodes) (c i : ℕ) (p : Option ℕ) (h : tall_at nodes i c ≡ true) where
  pub forward_at-set_forward :
      (j x : ℕ)
      → forward_at (set_forward c i p nodes) j x
        ≡ (if c == x && i == j then some p else forward_at nodes j x)
  unfolding forward_at set_forward
  forward_at-set_forward j x =
      let (n, (e, t)) = node_of_tall nodes i c h in
      let (q, e') = some_of (get_elem? n.forward i) t in
      rw
        (
          set_forward-some nodes c i p n e,
          forward_at-set nodes c n (record n { forward = set n.forward i p }) e j x,
        )
        (ground (arith, e, get_elem?-set n.forward i j q p e'))
    where
      some_of : (o : Option (Option ℕ)) → is_some o ≡ true → (q : Option ℕ) × (o ≡ some q)
      some_of none t = absurd (cc t)
      some_of (some q) t = (q, refl)

  pub tall_at-set_forward : (j x : ℕ) → tall_at (set_forward c i p nodes) j x ≡ tall_at nodes j x
  tall_at-set_forward j x = rw forward_at-set_forward (ground (arith, h))

  pub entry_at-set_forward : (x : ℕ) → entry_at (set_forward c i p nodes) x ≡ entry_at nodes x
  unfolding entry_at set_forward
  entry_at-set_forward x =
      let (n, (e, t)) = node_of_tall nodes i c h in
      rw
        (
          set_forward-some nodes c i p n e,
          entry_at-set nodes c n (record n { forward = set n.forward i p }) e x,
        )
        (ground (arith, e))

pub length-set_forward :
    (nodes : Nodes) (c i : ℕ) (p : Option ℕ) → length (set_forward c i p nodes) ≡ length nodes
unfolding set_forward
length-set_forward nodes c i p = elim (Option-cases (get_elem? nodes c)) [
  | inl e ↦ rw (e, set_forward) refl
  | inr (n, e) ↦ rw (set_forward-some nodes c i p n e) (length-set nodes c _)
]
