-- ===== src/Base/Dict.antt =====
-- Go maps with string keys: an association list that holds each key once. The order in which a
-- `range` loop visits the entries is unspecified in Go; here it is the order of the list.
use tealis.Base.Tests.{if◌then◌else◌, is_some}
use tealis.Base.Text.{Text, text_eq, text_eq_iff}
use tealis.Base.Lists.{length}
use Prim.Native.Nat.{◌+◌}
use mathlib.Core.Path.{◌≡◌, refl}
use mathlib.Core.Logic.{◌≢◌}
use mathlib.Core.Option.{Option, none, some}
use mathlib.Core.List.{List, [], ◌∷◌}
use native.Mathlib.Omega.{arith}

abbrev pub Dict {ℓ} : Type ℓ → Type ℓ
Dict V = List (Text × V)

module _ {ℓ} {V : Type ℓ} where
  -- `d[k]`
  unfoldable pub lookup : Text → Dict V → Option V
  lookup k [] = none
  lookup k ((j, v) ∷ d) = if text_eq j k then some v else lookup k d

  -- `d[k] = v`
  unfoldable pub insert : Text → V → Dict V → Dict V
  insert k v [] = (k, v) ∷ []
  insert k v ((j, w) ∷ d) = if text_eq j k then (j, v) ∷ d else (j, w) ∷ insert k v d

  -- `delete(d, k)`
  unfoldable pub erase : Text → Dict V → Dict V
  erase k [] = []
  erase k ((j, v) ∷ d) = let rest = erase k d in if text_eq j k then rest else (j, v) ∷ rest

  pub lookup-insert :
      (j k : Text) (v : V) (d : Dict V)
      → lookup j (insert k v d) ≡ (if text_eq k j then some v else lookup j d)
  unfolding lookup insert
  lookup-insert j k v [] = refl
  lookup-insert j k v ((i, w) ∷ d) =
      ground (arith, text_eq_iff i k, text_eq_iff k j, text_eq_iff i j, lookup-insert j k v d)

  pub lookup-erase :
      (j k : Text) (d : Dict V) → lookup j (erase k d) ≡ (if text_eq k j then none else lookup j d)
  unfolding lookup erase
  lookup-erase j k [] = ground arith
  lookup-erase j k ((i, w) ∷ d) =
      ground (arith, text_eq_iff i k, text_eq_iff k j, text_eq_iff i j, lookup-erase j k d)

  -- Each key stands once.
  abbrev pub IsDict : Dict V → Type ℓ
  IsDict [] = Unit
  IsDict ((k, v) ∷ d) = (lookup k d ≡ none) × IsDict d

  pub insert-IsDict : (k : Text) (v : V) (d : Dict V) → IsDict d → IsDict (insert k v d)
  unfolding insert lookup
  insert-IsDict k v [] h = (refl, tt)
  insert-IsDict k v ((i, w) ∷ d) h =
      ground (arith, lookup-insert i k v d, insert-IsDict k v d, text_eq_iff i k, text_eq_iff k i)

  pub erase-IsDict : (k : Text) (d : Dict V) → IsDict d → IsDict (erase k d)
  unfolding erase lookup
  erase-IsDict k [] h = tt
  erase-IsDict k ((i, w) ∷ d) h = ground (arith, lookup-erase i k d, erase-IsDict k d)

  -- `len(d)` after a write and after a deletion.
  pub length-insert :
      (k : Text) (v : V) (d : Dict V)
      → length (insert k v d) ≡ (if is_some (lookup k d) then length d else length d + 1)
  unfolding insert lookup
  length-insert k v [] = ground arith
  length-insert k v ((i, w) ∷ d) = ground (arith, length-insert k v d)

  pub erase_absent : (k : Text) (d : Dict V) → lookup k d ≡ none → erase k d ≡ d
  unfolding erase lookup
  erase_absent k [] h = refl
  erase_absent k ((i, w) ∷ d) h = ground (arith, erase_absent k d)

  pub length-erase :
      (k : Text) (d : Dict V)
      → IsDict d
      → length (erase k d) + (if is_some (lookup k d) then 1 else 0) ≡ length d
  unfolding erase lookup
  length-erase k [] h = omega arith
  length-erase k ((i, w) ∷ d) h =
      ground (arith, length-erase k d, erase_absent k d, text_eq_iff i k)

module _ {ℓ} {V : Type ℓ} where
  -- Of two writes at one key the second counts.
  pub insert-insert : (k : Text) (v w : V) (d : Dict V) → insert k v (insert k w d) ≡ insert k v d
  unfolding insert
  insert-insert k v w [] = ground (arith, text_eq_iff k k)
  insert-insert k v w ((i, u) ∷ d) = ground (arith, insert-insert k v w d)

module _ {ℓ} {V : Type ℓ} where
  -- A deletion forgets what was written.
  pub erase-insert : (k : Text) (v : V) (d : Dict V) → erase k (insert k v d) ≡ erase k d
  unfolding insert erase
  erase-insert k v [] = ground (arith, text_eq_iff k k)
  erase-insert k v ((i, u) ∷ d) = ground (arith, erase-insert k v d)

module _ {ℓ} {V : Type ℓ} where
  -- Writing what is there changes nothing.
  pub insert_same : (k : Text) (v : V) (d : Dict V) → lookup k d ≡ some v → insert k v d ≡ d
  unfolding insert lookup
  insert_same k v [] h = cc
  insert_same k v ((i, u) ∷ d) h = ground (arith, insert_same k v d)

-- With one key and other keys told apart.
module _ {ℓ} {V : Type ℓ} where
  pub lookup-insert_self : (k : Text) (v : V) (d : Dict V) → lookup k (insert k v d) ≡ some v
  lookup-insert_self k v d = rw lookup-insert (ground (arith, text_eq_iff k k))

  pub lookup-insert_ne :
      (j k : Text) (v : V) (d : Dict V) → k ≢ j → lookup j (insert k v d) ≡ lookup j d
  lookup-insert_ne j k v d h = rw lookup-insert (ground (arith, text_eq_iff k j))

  pub lookup-erase_self : (k : Text) (d : Dict V) → lookup k (erase k d) ≡ none
  lookup-erase_self k d = rw lookup-erase (ground (arith, text_eq_iff k k))

  pub lookup-erase_ne : (j k : Text) (d : Dict V) → k ≢ j → lookup j (erase k d) ≡ lookup j d
  lookup-erase_ne j k d h = rw lookup-erase (ground (arith, text_eq_iff k j))

pub ruleset dict_laws = (lookup-insert, lookup-erase)
