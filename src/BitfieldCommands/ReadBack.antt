-- ===== src/BitfieldCommands/ReadBack.antt =====
-- What `SetBitfield` of internal/storage/bitfield.go writes is what `GetBitfield` reads.
use tealis.Base.{
  ℕ, ◌+◌, ◌-◌, ◌*◌, ◌^◌, ◌≤◌, ◌<◌, ◌≡◌, refl, ap, [], ◌++◌, none, some, ok, length, take, get_elem?,
  replicate, ltb, leb, ltb→le, ◌⊎◌, inl, inr, Bool-cases, arith, length-append, length-replicate,
  length-take,
}
use tealis.Base.Int.{ℤ, pos, ◌+ℤ◌, wrap64}
use tealis.Base.Text.{Text, text_eq}
use tealis.Base.Dict.{lookup, lookup-insert_self}
use tealis.Value.{Slice, bytes, as_bytes}
use tealis.Tealis.{Tealis}
use tealis.Slices.{or_empty, content, alloc}
use tealis.Slices.Contents.{Sound, length-content, content-store_all, store_all-Sound, alloc-Sound}
use tealis.BitfieldCommands.{
  read_bits, required_bytes, Spare, append_zeros, grown, write_field, write_value,
  set_bitfield_value, with_bitfield, set_typed, set_bitfield, signed_result, get_bitfield_value,
  get_typed, get_bitfield,
}
use tealis.BitfieldCommands.Values.{
  read-write, BitType, i8, u16, type_name, InRange, size_of, Digits, signed-Digits,
}

append_zeros-Sound :
    (spare : Spare) (n : ℕ) (b : Slice) (s : Tealis)
    → Sound b s.arrays
    → Sound (append_zeros spare n (b, s)).0 (append_zeros spare n (b, s)).1.arrays
      × ((append_zeros spare n (b, s)).0.len ≡ b.len + n)
unfolding append_zeros
append_zeros-Sound spare n b s h =
    let cells = or_empty (get_elem? s.arrays b.array) in
    let wide : Slice = record { array = b.array; len = b.len + n } in
    let zeros = replicate {A = ℕ} n 0 in
    let more = n + spare (length cells) (b.len + n) in
    elim (Bool-cases (leb (b.len + n) (length cells))) [
      | inl l ↦
          let room : b.len + n ≤ length cells = ground (arith, l) in
          let size : length (take b.len cells ++ zeros) ≡ b.len + n = omega (
            arith,
            length-append (take b.len cells) zeros,
            length-take b.len cells,
            length-replicate {A = ℕ} n 0,
            room,
          ) in
          rw l (store_all-Sound wide s (h.0, room) (take b.len cells ++ zeros) size, refl)
      | inr l ↦
          let there = alloc-Sound (content b s.arrays ++ replicate {A = ℕ} more 0) s in
          let size = length-append (content b s.arrays) (replicate {A = ℕ} more 0) in
          rw l (
            (
              there.0,
              omega (
                arith,
                there.1,
                size,
                length-replicate {A = ℕ} more 0,
                length-content b s.arrays h,
              ),
            ),
            refl,
          )
    ]

-- `bitfield` after its growth.
grown-Sound :
    (spare : Spare) (n : ℕ) (b : Slice) (s : Tealis)
    → Sound b s.arrays
    → Sound (grown spare n (b, s)).0 (grown spare n (b, s)).1.arrays
      × (n ≤ (grown spare n (b, s)).0.len)
unfolding grown
grown-Sound spare n b s h = elim (Bool-cases (ltb b.len n)) [
  | inl l ↦
      let (sound, len) = append_zeros-Sound spare (n - b.len) b s h in
      rw l (sound, omega (arith, len))
  | inr l ↦ rw l (h, ltb→le b.len n l)
]

-- The key has no value, or a slice of an array that is there.
abbrev pub FieldAt : Text → Tealis → Type 0
FieldAt key s =
    (lookup key s.store ≡ none)
    ⊎ ((b : Slice) × ((lookup key s.store ≡ some (bytes b)) × Sound b s.arrays))

with_bitfield-FieldAt :
    (key : Text) (s : Tealis)
    → FieldAt key s
    → (b : Slice) × ((lookup key (with_bitfield key s).store ≡ some (bytes b))
        × Sound b (with_bitfield key s).arrays)
unfolding with_bitfield
with_bitfield-FieldAt key s (inl e) = (
  (alloc [] s).0,
  (rw (with_bitfield, e, lookup-insert_self) refl, rw (with_bitfield, e) (alloc-Sound [] s)),
)
with_bitfield-FieldAt key s (inr (b, (e, h))) =
    (b, (rw (with_bitfield, e) e, rw (with_bitfield, e) h))

-- The types are told apart, and a value in range is let through.
get_typed-type :
    (t : BitType) (q : ℕ) (b : Slice) (s : Tealis)
    → get_typed (type_name t) (pos q) (some (bytes b)) s
      ≡ signed_result (size_of t) (read_bits (size_of t) (pos q) 0 (content b s.arrays))
unfolding get_typed text_eq get_bitfield_value as_bytes
get_typed-type i8 q b s = refl
get_typed-type u16 q b s = refl

set_typed-type :
    (spare : Spare) (key : Text) (t : BitType) (z value : ℤ) (b : Slice) (s : Tealis)
    → InRange t value
    → set_typed spare key (type_name t) z value (some b) s
      ≡ set_bitfield_value spare b z value (size_of t) key s
unfolding set_typed text_eq
set_typed-type spare key i8 z value b s range = ground (arith, range)
set_typed-type spare key u16 z value b s range = ground (arith, range)

required_bytes-room :
    (q size len : ℕ)
    → q + size + 7 < 2 ^ 63
    → required_bytes (pos q) size ≤ len
    → q + size ≤ 8 * len
unfolding required_bytes ◌+ℤ◌ wrap64
required_bytes-room q size len small h = ground arith

-- The write at a slice that is wide enough, and the read after it.
write_value-read :
    (t : BitType) (key : Text) (q : ℕ) (value : ℤ) (b : Slice) (s : Tealis)
    → InRange t value
    → Sound b s.arrays
    → required_bytes (pos q) (size_of t) ≤ b.len
    → q + size_of t + 7 < 2 ^ 63
    → ((write_value (pos q) value (size_of t) key (b, s)).0 ≡ ok none)
      × (get_bitfield key (type_name t) (pos q) (write_value (pos q) value (size_of t) key (b, s)).1
          ≡ ok (inr value))
unfolding write_value write_field get_bitfield signed_result Digits
write_value-read t key q value b s range sound wide small =
    let size = length-content b s.arrays sound in
    let room =
      required_bytes-room q (size_of t) (length (content b s.arrays)) small
        (omega (arith, size, wide)) in
    let (new, (v, (e, len, e', d))) =
      read-write (size_of t) q value (content b s.arrays) room (omega arith) in
    rw
      (
        write_value,
        e,
        lookup-insert_self,
        get_typed-type,
        content-store_all b s sound new (omega (arith, len, size)),
        e',
      )
      (refl, ap (λ z. ok (inr z)) (signed-Digits t value v range d))

-- For a key without a value, or with a slice of an array that is there, an offset of at least 0 whose sum with the size and 7 is an int, and a value in the range of the type i8 or u16: `SetBitfield` returns no error, and `GetBitfield` of the type at the offset then returns the value, its sign included, whatever more than it was asked for `append` allocates.
pub get_bitfield-set_bitfield :
    (spare : Spare) (t : BitType) (key : Text) (offset : ℕ) (value : ℤ) (s : Tealis)
    → InRange t value
    → FieldAt key s
    → offset + size_of t + 7 < 2 ^ 63
    → ((set_bitfield spare key (type_name t) (pos offset) value s).0 ≡ ok none)
      × (get_bitfield key
            (type_name t)
            (pos offset)
            (set_bitfield spare key (type_name t) (pos offset) value s).1
          ≡ ok (inr value))
unfolding set_bitfield set_bitfield_value as_bytes
get_bitfield-set_bitfield spare t key offset value s range h small =
    let (b, (e, sound)) = with_bitfield-FieldAt key s h in
    let u = with_bitfield key s in
    let (sound', wide) = grown-Sound spare (required_bytes (pos offset) (size_of t)) b u sound in
    let g = grown spare (required_bytes (pos offset) (size_of t)) (b, u) in
    rw (e, set_typed-type spare key t (pos offset) value b u range)
      (write_value-read t key offset value g.0 g.1 range sound' wide small)
