-- ===== src/SkipList/Linking.antt =====
-- The loop of `ZAdd` that links a new node (internal/storage/zset.go).
use tealis.Base.{
  ℕ, zero, suc, ◌+◌, ◌≤◌, ◌<◌, List, [], ◌∷◌, Option, some, true, if◌then◌else◌, ◌≡◌, ◌≢◌, refl,
  ◌∙◌, inl, inr, Option-cases, Outcome, ok, ◌==◌, length, get_elem?, arith, ◌⊎◌,
}
use mathlib.Core.Path.{subst}
use tealis.SkipList.{Nodes, forward_at, set_forward}
use tealis.SkipList.Walks.{tall_at}
use tealis.SkipList.Memory.{
  entry_at, forward_at-set_forward, tall_at-set_forward, entry_at-set_forward, length-set_forward,
}
use tealis.SkipList.Adding.{link}

-- The same nodes, but for their pointers.
pub record SameNodes (nodes nodes' : Nodes) : Type 0 where
  pub same_tall : (j x : ℕ) → tall_at nodes' j x ≡ tall_at nodes j x
  pub same_entry : (x : ℕ) → entry_at nodes' x ≡ entry_at nodes x
  pub same_length : length nodes' ≡ length nodes

pub SameNodes-trans : {a b c : Nodes} → SameNodes a b → SameNodes b c → SameNodes a c
SameNodes-trans s t = record {
  same_tall = λ j x. t.same_tall j x ∙ s.same_tall j x;
  same_entry = λ x. t.same_entry x ∙ s.same_entry x;
  same_length = t.same_length ∙ s.same_length;
}

pub set_forward-SameNodes :
    (nodes : Nodes) (c i : ℕ) (p : Option ℕ)
    → tall_at nodes i c ≡ true
    → SameNodes nodes (set_forward c i p nodes)
set_forward-SameNodes nodes c i p h = record {
  same_tall = tall_at-set_forward nodes c i p h;
  same_entry = entry_at-set_forward nodes c i p h;
  same_length = length-set_forward nodes c i p;
}

-- At level `j` the node `n` stands behind `u`, and has its pointer.
pub record LinkedAt (n u j : ℕ) (nodes nodes' : Nodes) : Type 0 where
  pub at : forward_at nodes' j u ≡ some (some n)
  pub new : forward_at nodes' j n ≡ forward_at nodes j u
  pub others : (x : ℕ) → u ≢ x → n ≢ x → forward_at nodes' j x ≡ forward_at nodes j x

pub record Linked (n i : ℕ) (update : List ℕ) (nodes : Nodes) (result : Outcome Nodes)
    : Type 0 where
  pub nodes' : Nodes
  pub done : result ≡ ok nodes'
  pub same : SameNodes nodes nodes'
  pub linked : (k u : ℕ) → get_elem? update k ≡ some u → LinkedAt n u (i + k) nodes nodes'
  pub outside :
      (j x : ℕ) → (j < i) ⊎ (i + length update ≤ j) → forward_at nodes' j x ≡ forward_at nodes j x

-- Where the levels of `update` and the new node have a pointer.
abbrev pub Linkable : ℕ → ℕ → List ℕ → Nodes → Type 0
Linkable n i update nodes =
    (k u : ℕ)
    → get_elem? update k ≡ some u
    → (tall_at nodes (i + k) u ≡ true) × ((tall_at nodes (i + k) n ≡ true) × (n ≢ u))

module _ (n i u : ℕ) (nodes : Nodes) (p : Option ℕ) (e : forward_at nodes i u ≡ some p)
    (h : tall_at nodes i n ≡ true) (ne : n ≢ u) where
  after : Nodes
  after = set_forward u i (some n) (set_forward n i p nodes)

  reached : tall_at (set_forward n i p nodes) i u ≡ true
  reached = tall_at-set_forward nodes n i p h i u ∙ rw e refl

  after-SameNodes : SameNodes nodes after
  unfolding after
  after-SameNodes =
      SameNodes-trans (set_forward-SameNodes nodes n i p h)
        (set_forward-SameNodes (set_forward n i p nodes) u i (some n) reached)

  forward_at-after :
      (j x : ℕ)
      → forward_at after j x ≡ (
          if i == j
          then (if u == x then some (some n) else if n == x then some p else forward_at nodes j x)
          else forward_at nodes j x)
  unfolding after
  forward_at-after j x =
      forward_at-set_forward (set_forward n i p nodes) u i (some n) reached j x
      ∙ ground (arith, forward_at-set_forward nodes n i p h j x)

  after-LinkedAt : LinkedAt n u i nodes after
  after-LinkedAt = record {
    at = ground (arith, forward_at-after i u);
    new = ground (arith, forward_at-after i n, e, ne);
    others = λ x a b. ground (arith, forward_at-after i x, a, b);
  }

-- The numbers of the levels in `update`.
pub at_zero : (P : ℕ → Type 0) (i : ℕ) → P (i + 0) → P i
at_zero P i h = let e : i + 0 ≡ i = omega arith in subst P e h

pub from_zero : (P : ℕ → Type 0) (i : ℕ) → P i → P (i + 0)
from_zero P i h = let e : i ≡ i + 0 = omega arith in subst P e h

pub shifted : (P : ℕ → Type 0) (i k : ℕ) → P (i + suc k) → P (i + 1 + k)
shifted P i k h = let e : i + suc k ≡ i + 1 + k = omega arith in subst P e h

pub unshifted : (P : ℕ → Type 0) (i k : ℕ) → P (i + 1 + k) → P (i + suc k)
unshifted P i k h = let e : i + 1 + k ≡ i + suc k = omega arith in subst P e h

Linked-cons :
    (n i u : ℕ) (update : List ℕ) (nodes nodes₁ : Nodes) (result : Outcome Nodes)
    → SameNodes nodes nodes₁
    → LinkedAt n u i nodes nodes₁
    → ((j x : ℕ) → i ≢ j → forward_at nodes₁ j x ≡ forward_at nodes j x)
    → Linked n (i + 1) update nodes₁ result
    → Linked n i (u ∷ update) nodes result
Linked-cons n i u update nodes nodes₁ result same here others rest = record {
  nodes' = rest.nodes';
  done = rest.done;
  same = SameNodes-trans same rest.same;
  linked = at;
  outside = λ j x h.
      rest.outside j x (elim h [ inl a ↦ inl (omega (arith, a)) | inr b ↦ inr (omega (arith, b)) ])
      ∙ others j x
          (elim h [ inl a ↦ (λ e. omega (arith, a, e)) | inr b ↦ (λ e. omega (arith, b, e)) ]);
}
  where
    first : (x : ℕ) → forward_at rest.nodes' i x ≡ forward_at nodes₁ i x
    first x = rest.outside i x (inl (omega arith))

    later : (k x : ℕ) → forward_at nodes₁ (i + 1 + k) x ≡ forward_at nodes (i + 1 + k) x
    later k x = others (i + 1 + k) x (λ e. omega (arith, e))

    at : (k v : ℕ) → get_elem? (u ∷ update) k ≡ some v → LinkedAt n v (i + k) nodes rest.nodes'
    at zero v e =
        let same_u : u ≡ v = cc e in
        from_zero (λ j. LinkedAt n v j nodes rest.nodes') i
          (subst (λ w. LinkedAt n w i nodes rest.nodes') same_u
            (record {
              at = first u ∙ here.at;
              new = first n ∙ here.new;
              others = λ x a b. first x ∙ here.others x a b;
            }))
    at (suc k) v e =
        let l = rest.linked k v e in
        unshifted (λ j. LinkedAt n v j nodes rest.nodes') i k
          (record {
            at = l.at;
            new = l.new ∙ later k v;
            others = λ x a b. l.others x a b ∙ later k x;
          })

pub link-Linked :
    (n i : ℕ) (update : List ℕ) (nodes : Nodes)
    → Linkable n i update nodes
    → Linked n i update nodes (link n i update nodes)
unfolding link after
link-Linked n i [] nodes h = record {
  nodes' = nodes;
  done = refl;
  same = record { same_tall = λ j x. refl; same_entry = λ x. refl; same_length = refl };
  linked = λ k u e. absurd (cc e);
  outside = λ j x e. refl;
}
link-Linked n i (u ∷ update) nodes h =
    let (ut, (nt, ne)) =
      at_zero (λ j. (tall_at nodes j u ≡ true) × ((tall_at nodes j n ≡ true) × (n ≢ u))) i
        (h 0 u refl) in
    elim (Option-cases (forward_at nodes i u)) [
      | inl e ↦ absurd (ground (arith, e, ut))
      | inr (p, e) ↦
          let same = after-SameNodes n i u nodes p e nt ne in
          rw (e, link)
            (Linked-cons n i u update nodes (after n i u nodes p e nt ne) _ same
              (after-LinkedAt n i u nodes p e nt ne)
              (λ j x a. ground (arith, forward_at-after n i u nodes p e nt ne j x, a))
              (link-Linked n (i + 1) update (after n i u nodes p e nt ne) (λ k v f.
                let (vt, (nt', ne')) =
                  shifted (λ j. (tall_at nodes j v ≡ true) × ((tall_at nodes j n ≡ true) × (n ≢ v)))
                    i k (h (suc k) v f) in
                (same.same_tall (i + 1 + k) v ∙ vt, (same.same_tall (i + 1 + k) n ∙ nt', ne')))))
    ]
