-- ===== src/Handler/KeptBytes.antt =====
-- What the cases for bitmaps, bit fields, documents, HyperLogLogs and time series leave alone
-- (internal/storage/handler.go).
use tealis.Base.{
  ℕ, ◌+◌, List, [], ◌∷◌, Option, none, some, Outcome, ok, panic, deadlock, ◌≡◌, refl, ◌∙◌, arith,
}
use tealis.Base.Int.{ℤ}
use tealis.Base.Text.{Text}
use tealis.Floats.{Arithmetic}
use tealis.Value.{Slice}
use tealis.Tealis.{Tealis}
use tealis.Slices.{slice_at}
use tealis.BitmapCommands.{
  setbit, widened, change_bit, widened_to, write_result, combine_with, combine_key, next_round,
  combine_keys, store_result, bitop_from, bitop,
}
use tealis.BitfieldCommands.{
  Spare, append_zeros, grown, write_field, write_value, set_bitfield_value, with_bitfield,
  set_typed, set_bitfield, written, increment_from, increment_read, incr_by_bitfield,
}
use tealis.JsonCommands.{json_set, json_del, json_arr_append}
use tealis.HyperLogLogCommands.{store_hll, pfadd_at, pfadd, store_merged, pfmerge}
use tealis.TimeSeriesCommands.{ts_create, ts_add}
use tealis.Handler.Outside.{Library}
use tealis.Handler.Bits.{
  setbit_command, getbit_command, bitcount_command, bitop_command, bitfield_command,
}
use tealis.Handler.Documents.{
  json_set_command, json_get_command, json_del_command, json_arr_append_command,
}
use tealis.Handler.Estimates.{add_values, pfadd_command, pfmerge_command, pfcount_command}
use tealis.Handler.Series.{ts_create_command, ts_add_command, ts_range_command, ts_get_command}
use tealis.Handler.Kept.{session, Keeps}

pub setbit_command-Keeps : (parts : List Text) → Keeps (setbit_command parts)
unfolding setbit_command setbit widened change_bit
setbit_command-Keeps parts s = ground arith

pub getbit_command-Keeps : (parts : List Text) → Keeps (getbit_command parts)
unfolding getbit_command
getbit_command-Keeps parts s = ground arith

pub bitcount_command-Keeps : (parts : List Text) → Keeps (bitcount_command parts)
unfolding bitcount_command
bitcount_command-Keeps parts s = ground arith

combine_key-session :
    (op : Text) (i : ℕ) (old : Option Slice) (b : Slice) (s : Tealis)
    → session (combine_key op i old (b, s)).1 ≡ session s
unfolding combine_key combine_with widened_to write_result
combine_key-session op i old b s = ground arith

next_round-session :
    (f : Slice × Tealis → Outcome Slice × Tealis)
    → ((b : Slice) (t : Tealis) → session (f (b, t)).1 ≡ session t)
    → (x : Outcome Slice × Tealis) → session (next_round f x).1 ≡ session x.1
unfolding next_round
next_round-session f h (ok b, t) = h b t
next_round-session f h (panic, t) = refl
next_round-session f h (deadlock, t) = refl

combine_keys-session :
    (op : Text) (i : ℕ) (keys : List Text) (b : Slice) (s : Tealis)
    → session (combine_keys op i keys (b, s)).1 ≡ session s
unfolding combine_keys
combine_keys-session op i [] b s = refl
combine_keys-session op i (key ∷ keys) b s =
    next_round-session (combine_keys op (i + 1) keys)
      (λ c t. combine_keys-session op (i + 1) keys c t) (combine_key op i (slice_at key s) (b, s))
    ∙ combine_key-session op i (slice_at key s) b s

store_result-session :
    (dest : Text) (x : Outcome Slice × Tealis) → session (store_result dest x).1 ≡ session x.1
unfolding store_result
store_result-session dest (ok b, t) = refl
store_result-session dest (panic, t) = refl
store_result-session dest (deadlock, t) = refl

bitop_from-session :
    (op dest : Text) (keys : List Text) (b : Option Slice) (s : Tealis)
    → session (bitop_from op dest keys b s).1 ≡ session s
unfolding bitop_from
bitop_from-session op dest keys none s = refl
bitop_from-session op dest keys (some b) s =
    store_result-session dest (combine_keys op 0 keys (b, s)) ∙ combine_keys-session op 0 keys b s

bitop-Keeps : (op dest : Text) (keys : List Text) → Keeps (bitop op dest keys)
unfolding bitop
bitop-Keeps op dest [] s = refl
bitop-Keeps op dest (key ∷ keys) s = bitop_from-session op dest (key ∷ keys) (slice_at key s) s

pub bitop_command-Keeps : (parts : List Text) → Keeps (bitop_command parts)
unfolding bitop_command
bitop_command-Keeps parts s = grind (arith, bitop-Keeps)

set_bitfield_value-Keeps :
    (spare : Spare) (b : Slice) (offset value : ℤ) (size : ℕ) (key : Text)
    → Keeps (set_bitfield_value spare b offset value size key)
unfolding set_bitfield_value grown append_zeros write_value write_field
set_bitfield_value-Keeps spare b offset value size key s = ground arith

set_bitfield-Keeps :
    (spare : Spare) (key bit_type : Text) (offset value : ℤ)
    → Keeps (set_bitfield spare key bit_type offset value)
unfolding set_bitfield with_bitfield set_typed
set_bitfield-Keeps spare key bit_type offset value s = grind (arith, set_bitfield_value-Keeps)

increment_from-Keeps :
    (spare : Spare) (key bit_type : Text) (offset : ℤ) (b : Slice) (value : ℤ)
    → Keeps (increment_from spare key bit_type offset b value)
unfolding increment_from written
increment_from-Keeps spare key bit_type offset b value s = grind (arith, set_bitfield_value-Keeps)

incr_by_bitfield-Keeps :
    (spare : Spare) (key bit_type : Text) (offset increment : ℤ)
    → Keeps (incr_by_bitfield spare key bit_type offset increment)
unfolding incr_by_bitfield increment_read
incr_by_bitfield-Keeps spare key bit_type offset increment s = grind (arith, increment_from-Keeps)

pub bitfield_command-Keeps :
    (spare : Spare) (parts : List Text) → Keeps (bitfield_command spare parts)
unfolding bitfield_command
bitfield_command-Keeps spare parts s = grind (arith, set_bitfield-Keeps, incr_by_bitfield-Keeps)

pub json_set_command-Keeps :
    (lib : Library) (parts : List Text) → Keeps (json_set_command lib parts)
unfolding json_set_command json_set
json_set_command-Keeps lib parts s = ground arith

pub json_get_command-Keeps :
    (lib : Library) (parts : List Text) → Keeps (json_get_command lib parts)
unfolding json_get_command
json_get_command-Keeps lib parts s = ground arith

pub json_del_command-Keeps :
    (lib : Library) (parts : List Text) → Keeps (json_del_command lib parts)
unfolding json_del_command json_del
json_del_command-Keeps lib parts s = ground arith

pub json_arr_append_command-Keeps :
    (lib : Library) (parts : List Text) → Keeps (json_arr_append_command lib parts)
unfolding json_arr_append_command json_arr_append
json_arr_append_command-Keeps lib parts s = ground arith

pfadd-Keeps : (arithmetic : Arithmetic) (key value : Text) → Keeps (pfadd arithmetic key value)
unfolding pfadd pfadd_at store_hll
pfadd-Keeps arithmetic key value s = ground arith

add_values-Keeps :
    (arithmetic : Arithmetic) (key : Text) (values : List Text) (added : ℕ)
    → Keeps (add_values arithmetic key values added)
unfolding add_values
add_values-Keeps arithmetic key [] added s = refl
add_values-Keeps arithmetic key (value ∷ values) added s =
    grind (arith, pfadd-Keeps, add_values-Keeps arithmetic key values)

pub pfadd_command-Keeps :
    (arithmetic : Arithmetic) (parts : List Text) → Keeps (pfadd_command arithmetic parts)
unfolding pfadd_command
pfadd_command-Keeps arithmetic parts s = grind (arith, add_values-Keeps)

pub pfmerge_command-Keeps :
    (arithmetic : Arithmetic) (parts : List Text) → Keeps (pfmerge_command arithmetic parts)
unfolding pfmerge_command pfmerge store_merged
pfmerge_command-Keeps arithmetic parts s = ground arith

pub pfcount_command-Keeps :
    (arithmetic : Arithmetic) (parts : List Text) → Keeps (pfcount_command arithmetic parts)
unfolding pfcount_command
pfcount_command-Keeps arithmetic parts s = ground arith

pub ts_create_command-Keeps : (parts : List Text) → Keeps (ts_create_command parts)
unfolding ts_create_command ts_create
ts_create_command-Keeps parts s = ground arith

pub ts_add_command-Keeps : (lib : Library) (parts : List Text) → Keeps (ts_add_command lib parts)
unfolding ts_add_command ts_add
ts_add_command-Keeps lib parts s = ground arith

pub ts_range_command-Keeps :
    (lib : Library) (parts : List Text) → Keeps (ts_range_command lib parts)
unfolding ts_range_command
ts_range_command-Keeps lib parts s = ground arith

pub ts_get_command-Keeps : (lib : Library) (parts : List Text) → Keeps (ts_get_command lib parts)
unfolding ts_get_command
ts_get_command-Keeps lib parts s = ground arith
