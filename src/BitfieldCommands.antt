-- ===== src/BitfieldCommands.antt =====
-- internal/storage/bitfield.go. Each method holds `Mu` to its end. Sums of an int wrap around; memory is taken to
-- suffice for the slices that are made.
pub mod Places
pub mod Reading
pub mod Values
pub mod ReadBack
use Prim.Native.Nat.{bit_and, bit_or}
use tealis.Base.{
  ℕ, zero, suc, ◌+◌, ◌-◌, ◌*◌, ◌/◌, ◌%◌, ◌^◌, List, [], ◌∷◌, ◌++◌, Option, none, some, Outcome, ok,
  panic, deadlock, if◌then◌else◌, length, take, drop, get_elem?, set, replicate, leb, ltb, ◌==◌,
  ◌⊎◌, inl, inr, Bool, ◌&&◌, ◌||◌, not, is_some,
}
use tealis.Base.Int.{ℤ, pos, negsuc, ◌+ℤ◌, ◌-ℤ◌, ltb_ℤ, wrap64}
use tealis.Base.Text.{Text, codes, text_eq}
use tealis.Base.Dict.{lookup}
use tealis.Value.{Value, Slice, bytes, as_bytes, and_then}
use tealis.Slices.{or_empty, content, alloc, store_all}
use tealis.Strconv.{itoa}
use tealis.Tealis.{Tealis, Action, put}

-- An error, or a result.
abbrev pub Result : Type 0 → Type 0
Result A = Text ⊎ A

-- `getBitfieldSize`
unfoldable pub bitfield_size : Text → ℕ
bitfield_size bit_type =
    if text_eq bit_type (codes "i8") then 8 else if text_eq bit_type (codes "u16") then 16 else 0

-- `getMaxValueForBitType`
unfoldable pub max_value : Text → ℤ
max_value bit_type =
    if text_eq bit_type (codes "i8")
    then pos 127
    else if text_eq bit_type (codes "u8")
    then pos 255
    else if text_eq bit_type (codes "i16")
    then pos 32767
    else if text_eq bit_type (codes "u16")
    then pos 65535
    else pos 0

-- `getMinValueForBitType`
unfoldable pub min_value : Text → ℤ
min_value bit_type =
    if text_eq bit_type (codes "i8")
    then negsuc 127
    else if text_eq bit_type (codes "i16")
    then negsuc 32767
    else pos 0

-- `byteIndex` and `7 - bitIndex` for `offset + i`: Go's `/` and `%` cut towards 0, so that -7 to -1 name
-- byte 0 with a shift that leaves nothing of a byte, and what is below a byte that cannot be indexed.
pub data Place : Type 0 where
  bit_place : ℕ → ℕ → Place
  past_byte : Place
  outside : Place

unfoldable pub place_of : ℤ → Place
place_of (pos n) = bit_place (n / 8) (7 - n % 8)
place_of (negsuc n) = if ltb n 7 then past_byte else outside

-- `(value >> shift) & 1`, with the sign filled in
unfoldable pub int_bit : ℤ → ℕ → ℕ
int_bit (pos n) shift = n / 2 ^ shift % 2
int_bit (negsuc n) shift = 1 - n / 2 ^ shift % 2

-- `bitfield[byteIndex] |= 1 << k`, or `&= ^(1 << k)`
unfoldable pub put_bit : ℕ → ℕ → ℕ → ℕ
put_bit bit shift byte =
    if bit == 1 then bit_or byte (2 ^ shift) else bit_and byte (255 - 2 ^ shift)

-- `bitfield[byteIndex]` must be there; `none` is a panic.
unfoldable pub write_place : Place → ℕ → List ℕ → Option (List ℕ)
write_place (bit_place i shift) bit cells = elim (get_elem? cells i) [
  | none ↦ none
  | some byte ↦ some (set cells i (put_bit bit shift byte))
]
write_place past_byte bit [] = none
write_place past_byte bit (c ∷ cells) = some (c ∷ cells)
write_place outside bit cells = none

-- The loop of `setBitfieldValue`, by the bits that are left and the place of the next.
unfoldable pub write_bits : ℕ → ℤ → ℤ → List ℕ → Option (List ℕ)
write_bits zero place value cells = some cells
write_bits (suc left) place value cells =
    elim (write_place (place_of place) (int_bit value left) cells) [
      | none ↦ none
      | some cells ↦ write_bits left (wrap64 (place +ℤ pos 1)) value cells
    ]

-- `(offset + size + 7) / 8`, where a negative one is no more than any length, as 0 is.
unfoldable pub required_bytes : ℤ → ℕ → ℕ
required_bytes offset size = elim (wrap64 (wrap64 (offset +ℤ pos size) +ℤ pos 7)) [
  | pos n ↦ n / 8
  | negsuc n ↦ 0
]

-- How much longer than asked for `append` makes a new array, by the old capacity and the new length.
abbrev pub Spare : Type 0
Spare = ℕ → ℕ → ℕ

-- `append(bitfield, make([]byte, n)...)`: in place where the array is long enough.
unfoldable pub append_zeros : Spare → ℕ → Slice × Tealis → Slice × Tealis
append_zeros spare n (b, s) =
    let cells = or_empty (get_elem? s.arrays b.array) in
    let wide : Slice = record { array = b.array; len = b.len + n } in
    if leb (b.len + n) (length cells)
    then (wide, store_all wide (take b.len cells ++ replicate n 0) s)
    else (
      record { array = length s.arrays; len = b.len + n },
      (alloc (content b s.arrays ++ replicate (n + spare (length cells) (b.len + n)) 0) s).1,
    )

-- `if len(bitfield) < requiredBytes { ... }`
unfoldable pub grown : Spare → ℕ → Slice × Tealis → Slice × Tealis
grown spare n (b, s) = if ltb b.len n then append_zeros spare (n - b.len) (b, s) else (b, s)

unfoldable pub write_field :
    Text → Option (List ℕ) → Slice × Tealis → Outcome (Option Text) × Tealis
write_field key none (b, s) = (panic, s)
write_field key (some cells) (b, s) = (ok none, put key (bytes b) (store_all b cells s))

-- The writes of `setBitfieldValue`. (A panic comes before the first of them.)
unfoldable pub write_value : ℤ → ℤ → ℕ → Text → Slice × Tealis → Outcome (Option Text) × Tealis
write_value offset value size key (b, s) =
    write_field key (write_bits size offset value (content b s.arrays)) (b, s)

-- `setBitfieldValue`; the printing is left out.
unfoldable pub set_bitfield_value : Spare → Slice → ℤ → ℤ → ℕ → Text → Action (Option Text)
set_bitfield_value spare bitfield offset value size key s =
    write_value offset value size key (grown spare (required_bytes offset size) (bitfield, s))

-- `if _, exists := r.Store[key]; !exists { r.Store[key] = make([]byte, 0) }`
unfoldable pub with_bitfield : Text → Tealis → Tealis
with_bitfield key s = elim (lookup key s.store) [
  | none ↦ (let (b, t) = alloc [] s in put key (bytes b) t)
  | some v ↦ s
]

-- The `switch bitType` of `SetBitfield`.
unfoldable pub set_typed : Spare → Text → Text → ℤ → ℤ → Option Slice → Action (Option Text)
set_typed spare key bit_type offset value none s = (panic, s)
set_typed spare key bit_type offset value (some bitfield) s =
    if text_eq bit_type (codes "i8")
    then (if ltb_ℤ value (negsuc 127) || ltb_ℤ (pos 127) value
        then (ok (some (codes "value out of range for i8")), s)
        else set_bitfield_value spare bitfield offset value 8 key s)
    else if text_eq bit_type (codes "u16")
    then (if ltb_ℤ value (pos 0) || ltb_ℤ (pos 65535) value
        then (ok (some (codes "value out of range for u16")), s)
        else set_bitfield_value spare bitfield offset value 16 key s)
    else (ok (some (codes "unsupported bitfield type")), s)

-- `SetBitfield`: the error, if there is one.
unfoldable pub set_bitfield : Spare → Text → Text → ℤ → ℤ → Action (Option Text)
set_bitfield spare key bit_type offset value s =
    let t = with_bitfield key s in
    set_typed spare key bit_type offset value (and_then (lookup key t.store) as_bytes) t

-- `(bitfield[byteIndex] >> (7 - bitIndex)) & 1`, where `inl` is an index out of bounds that is noticed, or
-- that panics.
unfoldable pub read_place : Place → List ℕ → Outcome (Option ℕ)
read_place (bit_place i shift) cells = elim (get_elem? cells i) [
  | none ↦ ok none
  | some byte ↦ ok (some (bit_and (byte / 2 ^ shift) 1))
]
read_place past_byte [] = ok none
read_place past_byte (c ∷ cells) = ok (some 0)
read_place outside cells = panic

-- The loop of `getBitfieldValue`.
unfoldable pub read_bits : ℕ → ℤ → ℕ → List ℕ → Outcome (Result ℕ)
read_bits zero place value cells = ok (inr value)
read_bits (suc left) place value cells = elim (read_place (place_of place) cells) [
  | ok none ↦ ok (inl (codes "offset out of range"))
  | ok (some bit) ↦ read_bits left (wrap64 (place +ℤ pos 1)) (bit_or value (bit * 2 ^ left)) cells
  | panic ↦ panic
  | deadlock ↦ deadlock
]

-- `if size == 8 && value&(1<<(size-1)) != 0 { value -= 1 << size }`; the value is never negative before.
unfoldable pub signed : ℕ → ℕ → ℤ
signed size value =
    if size == 8 && not (bit_and value (2 ^ (size - 1)) == 0)
    then pos value -ℤ pos (2 ^ size)
    else pos value

unfoldable pub signed_result : ℕ → Outcome (Result ℕ) → Outcome (Result ℤ)
signed_result size (ok (inl e)) = ok (inl e)
signed_result size (ok (inr value)) = ok (inr (signed size value))
signed_result size panic = panic
signed_result size deadlock = deadlock

-- `getBitfieldValue`
unfoldable pub get_bitfield_value : List ℕ → ℤ → ℕ → Outcome (Result ℤ)
get_bitfield_value cells offset size =
    if size == 0 || ltb 64 size
    then ok (inl (codes "invalid bitfield size"))
    else signed_result size (read_bits size offset 0 cells)

-- `bitfield := r.Store[key].([]byte)` behind the test that the key is there.
unfoldable pub get_typed : Text → ℤ → Option Value → Tealis → Outcome (Result ℤ)
get_typed bit_type offset none s = ok (inl (codes "key not found"))
get_typed bit_type offset (some v) s = elim (as_bytes v) [
  | none ↦ panic
  | some b ↦
      if text_eq bit_type (codes "i8")
      then get_bitfield_value (content b s.arrays) offset 8
      else if text_eq bit_type (codes "u16")
      then get_bitfield_value (content b s.arrays) offset 16
      else ok (inl (codes "unsupported bitfield type"))
]

-- `GetBitfield`
unfoldable pub get_bitfield : Text → Text → ℤ → Tealis → Outcome (Result ℤ)
get_bitfield key bit_type offset s = get_typed bit_type offset (lookup key s.store) s

unfoldable pub overflow : Text → ℤ → Text
overflow bit_type value =
    codes "overflow: value "
    ++ itoa value
    ++ codes " exceeds the range for "
    ++ bit_type
    ++ codes " bitfield"

-- What `IncrByBitfield` answers after the write of the new value.
unfoldable pub written : ℤ → Outcome (Option Text) × Tealis → Outcome (Result ℤ) × Tealis
written value (ok none, s) = (ok (inr value), s)
written value (ok (some e), s) = (ok (inl e), s)
written value (panic, s) = (panic, s)
written value (deadlock, s) = (deadlock, s)

unfoldable pub increment_from : Spare → Text → Text → ℤ → Slice → ℤ → Action (Result ℤ)
increment_from spare key bit_type offset bitfield value s =
    if ltb_ℤ (max_value bit_type) value || ltb_ℤ value (min_value bit_type)
    then (ok (inl (overflow bit_type value)), s)
    else written value
        (set_bitfield_value spare bitfield offset value (bitfield_size bit_type) key s)

unfoldable pub increment_read :
    Spare → Text → Text → ℤ → ℤ → Slice → Outcome (Result ℤ) → Action (Result ℤ)
increment_read spare key bit_type offset increment bitfield (ok (inl e)) s = (ok (inl e), s)
increment_read spare key bit_type offset increment bitfield (ok (inr value)) s =
    increment_from spare key bit_type offset bitfield (wrap64 (value +ℤ increment)) s
increment_read spare key bit_type offset increment bitfield panic s = (panic, s)
increment_read spare key bit_type offset increment bitfield deadlock s = (deadlock, s)

-- `IncrByBitfield`
unfoldable pub incr_by_bitfield : Spare → Text → Text → ℤ → ℤ → Action (Result ℤ)
incr_by_bitfield spare key bit_type offset increment s = elim (lookup key s.store) [
  | none ↦ (ok (inl (codes "key not found")), s)
  | some v ↦ elim (as_bytes v) [
    | none ↦ (panic, s)
    | some b ↦
        increment_read spare key bit_type offset increment b
          (get_bitfield_value (content b s.arrays) offset (bitfield_size bit_type)) s
  ]
]
