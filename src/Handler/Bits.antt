-- ===== src/Handler/Bits.antt =====
-- The cases of ProcessCommand (internal/storage/handler.go) for bitmaps and bit fields.
use tealis.Base.{
  ℕ, zero, suc, List, [], ◌∷◌, ◌++◌, Option, none, some, Bool, ◌&&◌, ◌||◌, not, ◌==◌, if◌then◌else◌,
  inl, inr, Outcome, ok, panic, deadlock, length,
}
use tealis.Base.Int.{ℤ, pos}
use tealis.Base.Text.{Text, text_eq, codes}
use tealis.Strconv.{itoa, atoi, atoi_value}
use tealis.Strings.{to_upper}
use tealis.Slices.{slice_at}
use tealis.Tealis.{Tealis, Action}
use tealis.BitmapCommands.{setbit, getbit, bitcount, bitop}
use tealis.BitfieldCommands.{Spare, Result, set_bitfield, get_bitfield, incr_by_bitfield}
use tealis.Handler.Replies.{colon, reply, say}

-- `value != 0 && value != 1`
bit_value : Option ℤ → Option ℤ
bit_value (some (pos zero)) = some (pos 0)
bit_value (some (pos (suc zero))) = some (pos 1)
bit_value _ = none

setbit_checked : Text → Option ℤ → Option ℤ → Action Text
setbit_checked key none value s = say (codes "-ERR offset is not an integer") s
setbit_checked key (some offset) none s =
    say (codes "-ERR bit value is not an integer or out of range") s
setbit_checked key (some offset) (some value) s =
    reply (λ n. colon (pos n)) (setbit key offset value s)

unfoldable pub setbit_command : List Text → Action Text
unfolding setbit_checked bit_value
setbit_command (_ ∷ key ∷ offset ∷ value ∷ []) s =
    setbit_checked key (atoi offset) (bit_value (atoi value)) s
setbit_command _ s = say (codes "-ERR wrong number of arguments for 'SETBIT' command") s

getbit_checked : Text → Option ℤ → Action Text
getbit_checked key none s = say (codes "-ERR offset is not an integer") s
getbit_checked key (some offset) s = say (colon (pos (getbit key offset s))) s

unfoldable pub getbit_command : List Text → Action Text
unfolding getbit_checked
getbit_command (_ ∷ key ∷ offset ∷ []) s = getbit_checked key (atoi offset) s
getbit_command _ s = say (codes "-ERR wrong number of arguments for 'GETBIT' command") s

unfoldable pub bitcount_command : List Text → Action Text
bitcount_command (_ ∷ key ∷ []) s = say (colon (pos (bitcount key s))) s
bitcount_command _ s = say (codes "-ERR wrong number of arguments for 'BITCOUNT' command") s

unfoldable pub known_op : Text → Bool
known_op op =
    text_eq op (codes "AND")
    || text_eq op (codes "OR")
    || text_eq op (codes "XOR")
    || text_eq op (codes "NOT")

-- `len(result)` of the destination, where a value that is no slice counts as the empty one
length_at : Text → Tealis → ℕ
length_at key s = elim (slice_at key s) [ none ↦ 0 | some b ↦ b.len ]

length_reply : Text → Outcome (Unit {0}) × Tealis → Outcome Text × Tealis
length_reply key (ok _, s) = (ok (colon (pos (length_at key s))), s)
length_reply key (panic, s) = (panic, s)
length_reply key (deadlock, s) = (deadlock, s)

bitop_checked : Text → Text → List Text → Action Text
bitop_checked op dest keys s =
    if not (known_op op)
    then say (codes "-ERR unknown operation") s
    else if text_eq op (codes "NOT") && not (length keys == 1)
    then say (codes "-ERR NOT operation takes only one key") s
    else length_reply dest (bitop op dest keys s)

unfoldable pub bitop_command : List Text → Action Text
unfolding bitop_checked length_reply length_at
bitop_command (_ ∷ op ∷ dest ∷ key ∷ keys) s = bitop_checked (to_upper op) dest (key ∷ keys) s
bitop_command _ s = say (codes "-ERR wrong number of arguments for 'BITOP' command") s

error_reply : Text → Text
error_reply e = codes "ERROR: " ++ e

set_reply : Option Text → Text
set_reply none = codes "OK"
set_reply (some e) = error_reply e

int_reply : Text → Result ℤ → Text
int_reply prefix (inl e) = error_reply e
int_reply prefix (inr n) = prefix ++ itoa n

-- The `switch bfCommand`.
bitfield_action : Spare → Text → Text → Text → ℤ → ℤ → Action Text
unfolding error_reply set_reply int_reply
bitfield_action spare action key bit_type offset value s =
    if text_eq action (codes "SET")
    then reply set_reply (set_bitfield spare key bit_type offset value s)
    else if text_eq action (codes "INCRBY")
    then reply (int_reply (codes ":OK  ")) (incr_by_bitfield spare key bit_type offset value s)
    else if text_eq action (codes "GET")
    then reply (int_reply []) (get_bitfield key bit_type offset s, s)
    else say (codes "ERROR: Unsupported BITFIELD action '" ++ action ++ codes "'") s

-- Five arguments are read before anything else, also for GET, which needs four.
unfoldable pub bitfield_command : Spare → List Text → Action Text
unfolding bitfield_action
bitfield_command spare (_ ∷ key ∷ action ∷ bit_type ∷ offset ∷ value ∷ _) s =
    bitfield_action spare (to_upper action) key bit_type (atoi_value offset) (atoi_value value) s
bitfield_command spare _ s = (panic, s)
