-- ===== src/BitmapCommands.antt =====
-- internal/storage/bitmap.go. Each method holds `Mu` to its end.
pub mod Cells
pub mod ReadBack
pub mod Operations
pub mod Rounds
pub mod Bitop
use Prim.Native.Nat.{bit_and, bit_or, bit_xor}
use tealis.Base.{
  ℕ, zero, suc, ◌+◌, ◌-◌, ◌/◌, ◌%◌, ◌^◌, List, [], ◌∷◌, ◌++◌, Option, none, some, Outcome, ok,
  panic, deadlock, if◌then◌else◌, ltb, ◌==◌, length, take, get_elem?, set, replicate, leb,
}
use mathlib.Core.Option
use tealis.Base.Int.{ℤ, pos, negsuc}
use tealis.Base.Text.{Text, codes, text_eq}
use tealis.Base.Dict.{lookup}
use tealis.Value.{Slice, bytes}
use tealis.Slices.{slice_at, content, content_of, padded, alloc, store_byte, store_all}
use tealis.Tealis.{Tealis, Action, put}

-- `data |= mask` or `data &^= mask`, for `mask := byte(1 << bit)`
unfoldable pub with_bit : ℤ → ℕ → ℕ → ℕ
with_bit (pos (suc zero)) bit byte = bit_or byte (2 ^ bit)
with_bit _ bit byte = bit_xor byte (bit_and byte (2 ^ bit))

-- `(data & mask) >> bit`
unfoldable pub masked_bit : ℕ → ℕ → ℕ
masked_bit bit byte = bit_and byte (2 ^ bit) / 2 ^ bit

-- `(data >> bit) & 1`
unfoldable pub shifted_bit : ℕ → ℕ → ℕ
shifted_bit bit byte = bit_and (byte / 2 ^ bit) 1

-- `if len(data) <= byteIndex { ... }`
unfoldable pub widened : ℕ → Option Slice → Tealis → Slice × Tealis
widened i none s = alloc (padded [] (i + 1)) s
widened i (some b) s =
    if leb (length (content b s.arrays)) i
    then alloc (padded (content b s.arrays) (i + 1)) s
    else (b, s)

-- The rest of `SETBIT`, once the slice is wide enough.
unfoldable pub change_bit : Text → ℕ → ℕ → ℤ → Slice × Tealis → Outcome ℕ × Tealis
change_bit key i bit value (b, s) = elim (get_elem? (content b s.arrays) i) [
  | none ↦ (panic, s)
  | some byte ↦
      (ok (masked_bit bit byte), put key (bytes b) (store_byte b i (with_bit value bit byte) s))
]

-- `SETBIT`: the bit that was there.
unfoldable pub setbit : Text → ℤ → ℤ → Action ℕ
unfolding widened change_bit
setbit key (negsuc n) value s = (ok 0, s)
setbit key (pos offset) value s =
    change_bit key (offset / 8) (offset % 8) value (widened (offset / 8) (slice_at key s) s)

abbrev pub bit_of : ℕ → Option ℕ → ℕ
bit_of bit none = 0
bit_of bit (some byte) = shifted_bit bit byte

-- `GETBIT`
unfoldable pub getbit : Text → ℤ → Tealis → ℕ
getbit key (negsuc n) s = 0
getbit key (pos offset) s =
    bit_of (offset % 8) (get_elem? (content_of (slice_at key s) s.arrays) (offset / 8))

-- `bits.OnesCount8`
unfoldable pub ones : ℕ → ℕ → ℕ
ones zero byte = 0
ones (suc bit) byte = shifted_bit bit byte + ones bit byte

-- The loop of `BITCOUNT`.
count_ones : List ℕ → ℕ
count_ones [] = 0
count_ones (byte ∷ rest) = ones 8 byte + count_ones rest

unfoldable pub bitcount : Text → Tealis → ℕ
unfolding count_ones
bitcount key s = count_ones (content_of (slice_at key s) s.arrays)

-- One byte of the `switch op`, at the key with number `i`; `none` is a panic.
unfoldable pub combined : Text → ℕ → ℕ → ℕ → Option ℕ
combined op i r d =
    if text_eq op (codes "AND")
    then some (bit_and r d)
    else if text_eq op (codes "OR")
    then some (bit_or r d)
    else if text_eq op (codes "XOR")
    then some (bit_xor r d)
    else if text_eq op (codes "NOT")
    then (if i == 0 then some (255 - d) else none)
    else none

-- `for j := range result`
unfoldable pub combine_all : Text → ℕ → List ℕ → List ℕ → Option (List ℕ)
combine_all op i [] other = some []
combine_all op i (r ∷ result) [] = none
combine_all op i (r ∷ result) (d ∷ other) = elim (combined op i r d) [
  | none ↦ none
  | some c ↦ Option.map (◌∷◌ c) (combine_all op i result other)
]

-- `if len(result) < len(data) { ... }`
unfoldable pub widened_to : ℕ → Slice × Tealis → Slice × Tealis
widened_to n (result, s) =
    if ltb (length (content result s.arrays)) n
    then alloc (padded (content result s.arrays) n) s
    else (result, s)

unfoldable pub write_result : Option (List ℕ) → Slice × Tealis → Outcome Slice × Tealis
write_result none (result, s) = (panic, s)
write_result (some cells) (result, s) = (ok result, store_all result cells s)

-- The operation with the bytes of one key.
unfoldable pub combine_with : Text → ℕ → List ℕ → Slice × Tealis → Outcome Slice × Tealis
combine_with op i other (result, s) =
    write_result
      (combine_all op i (content result s.arrays) (padded other (length (content result s.arrays))))
      (result, s)

unfoldable pub combine_key : Text → ℕ → Option Slice → Slice × Tealis → Outcome Slice × Tealis
combine_key op i none (result, s) = (panic, s)
combine_key op i (some d) (result, s) =
    combine_with op i (content d s.arrays) (widened_to (length (content d s.arrays)) (result, s))

-- The next round, unless this one panicked.
unfoldable pub next_round :
    (Slice × Tealis → Outcome Slice × Tealis) → Outcome Slice × Tealis → Outcome Slice × Tealis
next_round f (ok result, s) = f (result, s)
next_round f (o, s) = (o, s)

-- `for i, key := range keys`
unfoldable pub combine_keys : Text → ℕ → List Text → Slice × Tealis → Outcome Slice × Tealis
combine_keys op i [] (result, s) = (ok result, s)
combine_keys op i (key ∷ keys) (result, s) =
    next_round (combine_keys op (i + 1) keys) (combine_key op i (slice_at key s) (result, s))

-- `r.Store[destKey] = result`
unfoldable pub store_result : Text → Outcome Slice × Tealis → Outcome (Unit {0}) × Tealis
store_result dest (ok result, s) = (ok tt, put dest (bytes result) s)
store_result dest (panic, s) = (panic, s)
store_result dest (deadlock, s) = (deadlock, s)

-- The rest of `BITOP`, from the slice of the first key.
unfoldable pub bitop_from : Text → Text → List Text → Option Slice → Action (Unit {0})
bitop_from op dest keys none s = (panic, s)
bitop_from op dest keys (some result) s = store_result dest (combine_keys op 0 keys (result, s))

-- `BITOP`
unfoldable pub bitop : Text → Text → List Text → Action (Unit {0})
bitop op dest [] s = (panic, s)
bitop op dest (first ∷ keys) s = bitop_from op dest (first ∷ keys) (slice_at first s) s
