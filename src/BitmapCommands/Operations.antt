-- ===== src/BitmapCommands/Operations.antt =====
-- The bits that `BITOP` of internal/storage/bitmap.go makes of its keys.
use Prim.Native.Nat.{differ, min, max, bit_and, bit_or, bit_xor}
use tealis.Base.{ℕ, zero, suc, ◌≡◌, refl, sym, ap, List, [], ◌∷◌, some, length, get_elem?, arith}
use tealis.Base.Bits.{digit, digit-bit_and, digit-bit_or, digit-bit_xor}
use tealis.Base.Text.{Text, codes, text_eq}
use tealis.BitmapCommands.{bit_of, combined, combine_all}
use tealis.BitmapCommands.Cells.{shifted_bit_lem}

pub data LogicOp : Type 0 where
  and_op : LogicOp
  or_op : LogicOp
  xor_op : LogicOp

abbrev pub op_name : LogicOp → Text
op_name and_op = codes "AND"
op_name or_op = codes "OR"
op_name xor_op = codes "XOR"

-- On single bits.
abbrev pub on_bits : LogicOp → ℕ → ℕ → ℕ
on_bits and_op = min
on_bits or_op = max
on_bits xor_op = differ

on_bytes : LogicOp → ℕ → ℕ → ℕ
on_bytes and_op = bit_and
on_bytes or_op = bit_or
on_bytes xor_op = bit_xor

digit-on_bytes :
    (o : LogicOp) (k a b : ℕ) → digit k (on_bytes o a b) ≡ on_bits o (digit k a) (digit k b)
unfolding on_bytes
digit-on_bytes and_op k a b = digit-bit_and k a b
digit-on_bytes or_op k a b = digit-bit_or k a b
digit-on_bytes xor_op k a b = digit-bit_xor k a b

combined-on_bytes : (o : LogicOp) (i a b : ℕ) → combined (op_name o) i a b ≡ some (on_bytes o a b)
unfolding on_bytes combined text_eq
combined-on_bytes and_op i a b = refl
combined-on_bytes or_op i a b = refl
combined-on_bytes xor_op i a b = refl

on_bits-zero : (o : LogicOp) → on_bits o 0 0 ≡ 0
on_bits-zero and_op = refl
on_bits-zero or_op = refl
on_bits-zero xor_op = refl

-- The bytes of a round.
unfoldable pub Combined : LogicOp → ℕ → List ℕ → List ℕ → List ℕ → Type 0
Combined o i xs ys zs =
    (combine_all (op_name o) i xs ys ≡ some zs)
    × (length zs ≡ length xs)
    × ((k j : ℕ)
        → bit_of k (get_elem? zs j)
          ≡ on_bits o (bit_of k (get_elem? xs j)) (bit_of k (get_elem? ys j)))

same_bits :
    (o : LogicOp) (x y : ℕ) (xs ys zs : List ℕ) (k : ℕ)
    → ((j : ℕ)
        → bit_of k (get_elem? zs j)
          ≡ on_bits o (bit_of k (get_elem? xs j)) (bit_of k (get_elem? ys j)))
    → (j : ℕ)
    → bit_of k (get_elem? (on_bytes o x y ∷ zs) j)
      ≡ on_bits o (bit_of k (get_elem? (x ∷ xs) j)) (bit_of k (get_elem? (y ∷ ys) j))
same_bits o x y xs ys zs k h zero =
    rw (shifted_bit_lem k (on_bytes o x y), shifted_bit_lem k x, shifted_bit_lem k y)
      (digit-on_bytes o k x y)
same_bits o x y xs ys zs k h (suc j) = h j

cons-Combined :
    (o : LogicOp) (i x y : ℕ) (xs ys zs : List ℕ)
    → Combined o i xs ys zs
    → Combined o i (x ∷ xs) (y ∷ ys) (on_bytes o x y ∷ zs)
unfolding Combined combine_all
cons-Combined o i x y xs ys zs (e, len, same) = (
  rw (combine_all, combined-on_bytes, e) refl,
  ap suc len,
  λ k. same_bits o x y xs ys zs k (same k),
)

pub combine_all-Combined :
    (o : LogicOp) (i : ℕ) (xs ys : List ℕ)
    → length xs ≡ length ys
    → (zs : List ℕ) × Combined o i xs ys zs
unfolding Combined combine_all
combine_all-Combined o i [] [] h = ([], (refl, refl, λ k j. sym (on_bits-zero o)))
combine_all-Combined o i [] (y ∷ ys) h = absurd (omega arith)
combine_all-Combined o i (x ∷ xs) [] h = absurd (omega arith)
combine_all-Combined o i (x ∷ xs) (y ∷ ys) h =
    let (zs, c) = combine_all-Combined o i xs ys (omega arith) in
    (on_bytes o x y ∷ zs, cons-Combined o i x y xs ys zs c)
