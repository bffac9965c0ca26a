-- ===== src/Tests/Bytes.antt =====
-- Examples for bitmaps and bit fields (internal/storage/bitmap.go and bitfield.go).
use tealis.Base.{
  ℕ, ◌+◌, ◌≡◌, ◌≢◌, refl, [], ◌∷◌, ◌++◌, List, Option, none, some, Bool, true, false, ok, inl, inr,
  arith, if◌then◌else◌, Bool-cases,
}
use tealis.Base.Int.{pos, negsuc}
use tealis.Base.Text.{Text, codes}
use tealis.Base.Dict.{lookup}
use tealis.Value.{Slice, bytes}
use tealis.Tealis.{Tealis}
use tealis.BitmapCommands.{setbit, getbit, bitop}
use tealis.BitmapCommands.ReadBack.{getbit-setbit}
use tealis.BitmapCommands.Operations.{and_op}
use tealis.BitmapCommands.Bitop.{bitop-getbit}
use tealis.BitfieldCommands.{set_bitfield, get_bitfield}
use tealis.BitfieldCommands.Values.{i8}
use tealis.BitfieldCommands.ReadBack.{get_bitfield-set_bitfield}
use tealis.Tests.Data.{k, j, started, library}

abbrev first_bytes : Slice
first_bytes = record { array = 0; len = 2 }

abbrev second_bytes : Slice
second_bytes = record { array = 1; len = 1 }

-- Two bitmaps.
abbrev bitmaps : Tealis
bitmaps = record started {
  store = (k, bytes first_bytes) ∷ (j, bytes second_bytes) ∷ [];
  arrays = (5 ∷ 1 ∷ []) ∷ (6 ∷ []) ∷ [];
}

getbit-setbit_example :
    ((setbit k (pos 9) (pos 1) bitmaps).0 ≡ ok 0)
    × (getbit k (pos 9) (setbit k (pos 9) (pos 1) bitmaps).1 ≡ 1)
unfolding lookup tealis.Base.Text.text_eq tealis.Value.as_bytes getbit
    tealis.BitmapCommands.shifted_bit
getbit-setbit_example = getbit-setbit k 9 9 (pos 1) bitmaps (omega arith, omega arith)

bitop-getbit_example :
    ((bitop (codes "AND") k (k ∷ j ∷ []) bitmaps).0 ≡ ok tt)
    × (getbit k (pos 2) (bitop (codes "AND") k (k ∷ j ∷ []) bitmaps).1 ≡ 1)
unfolding lookup tealis.Base.Text.text_eq tealis.Value.as_bytes getbit
    tealis.BitmapCommands.shifted_bit
bitop-getbit_example =
    bitop-getbit and_op k k (j ∷ []) first_bytes bitmaps 2 refl (omega arith, omega arith)
      ((second_bytes, (refl, (omega arith, omega arith), λ e. absurd (omega (arith, e)))), tt)

get_bitfield-set_bitfield_example :
    ((set_bitfield library.spare k (codes "i8") (pos 3) (negsuc 99) started).0 ≡ ok none)
    × (get_bitfield k
          (codes "i8")
          (pos 3)
          (set_bitfield library.spare k (codes "i8") (pos 3) (negsuc 99) started).1
        ≡ ok (inr (negsuc 99)))
unfolding lookup
get_bitfield-set_bitfield_example =
    get_bitfield-set_bitfield library.spare i8 k 3 (negsuc 99) started (omega arith, omega arith)
      (inl refl) (omega arith)
