-- ===== src/Handler/Strings.antt =====
-- The cases of ProcessCommand (internal/storage/handler.go) for strings, TTL and PERSIST. The parts of a
-- command are its name and its arguments.
use tealis.Base.{
  ℕ, suc, ◌++◌, panic, ◌-◌, ◌*◌, List, [], ◌∷◌, Option, none, some, ok, if◌then◌else◌,
}
use tealis.Base.Int.{ℤ, pos, negsuc, ◌-ℤ◌, wrap64}
use tealis.Base.Text.{Text, text_eq, codes}
use tealis.Strconv.{itoa, atoi}
use tealis.Strings.{to_upper}
use tealis.Tealis.{Action}
use tealis.Tealis.Expiry.{second, ex, ttl, persist}
use tealis.Handler.Outside.{Library}
use tealis.StringCommands.{
  keys, set, get, del, exists, append, str_len, incr_by, get_range, set_range,
}
use tealis.Handler.Replies.{format_array, colon, bulk, one_or_zero, reply, say, told}

-- `time.Duration(ttlSecs) * time.Second`
abbrev pub seconds : ℤ → ℤ
seconds (pos n) = wrap64 (pos (n * second))
seconds (negsuc n) = wrap64 (negsuc (suc n * second - 1))

set_for : Text → Text → ℤ → Option ℤ → Action Text
set_for key value now none s = (ok (codes "-ERR Invalid TTL"), s)
set_for key value now (some n) s = (ok (codes "+OK"), set key value (seconds n) now s)

-- The end of the case "SET": `EX` counts only where it makes five parts.
set_options : Text → Text → ℤ → List Text → Action Text
unfolding set_for
set_options key value now (option ∷ secs ∷ []) s =
    if text_eq (to_upper option) (codes "EX")
    then set_for key value now (atoi secs) s
    else set_for key value now (some (pos 0)) s
set_options key value now _ s = set_for key value now (some (pos 0)) s

unfoldable pub set_command : ℤ → List Text → Action Text
unfolding set_options
set_command now (_ ∷ key ∷ value ∷ options) = set_options key value now options
set_command now _ = say (codes "-ERR SET requires key and value")

get_reply : Option Text → Text
get_reply none = codes "$-1"
get_reply (some value) = bulk value

unfoldable pub get_command : ℤ → List Text → Action Text
unfolding get_reply
get_command now (_ ∷ key ∷ _) s = reply get_reply (get key now s)
get_command now _ s = say (codes "-ERR GET requires a key") s

unfoldable pub del_command : List Text → Action Text
del_command (_ ∷ key ∷ _) s = told one_or_zero (del key s)
del_command _ s = say (codes "-ERR DEL requires a key") s

unfoldable pub exists_command : List Text → Action Text
exists_command (_ ∷ key ∷ _) s = say (one_or_zero (exists key s)) s
exists_command _ s = say (codes "-ERR EXISTS requires a key") s

unfoldable pub ttl_command : Library → ℤ → List Text → Action Text
ttl_command lib now (_ ∷ key ∷ _) s = say (itoa (ttl lib.arithmetic key now s)) s
ttl_command lib now _ s = say (codes "-ERR TTL requires a key") s

unfoldable pub persist_command : List Text → Action Text
persist_command (_ ∷ key ∷ _) s = told (λ n. itoa (pos n)) (persist key s)
persist_command _ s = say (codes "-ERR PERSIST requires a key") s

unfoldable pub append_command : List Text → Action Text
append_command (_ ∷ key ∷ value ∷ _) s = reply (λ n. colon (pos n)) (append key value s)
append_command _ s = say (codes "-ERR APPEND requires key and value") s

unfoldable pub strlen_command : List Text → Action Text
strlen_command (_ ∷ key ∷ _) s = reply (λ n. colon (pos n)) (str_len key s, s)
strlen_command _ s = say (codes "-ERR STRLEN requires a key") s

incr_reply : Option ℤ → Text
incr_reply none = codes "-ERR value is not an integer"
incr_reply (some n) = colon n

-- The cases "INCR" and "DECR", with their increment and their complaint.
unfoldable pub step_command : ℤ → Text → List Text → Action Text
unfolding incr_reply
step_command increment complaint (_ ∷ key ∷ _) s = reply incr_reply (incr_by key increment s)
step_command increment complaint _ s = say complaint s

by_amount : Text → Option ℤ → Text → Action Text
unfolding incr_reply
by_amount key none complaint s = say complaint s
by_amount key (some n) complaint s = reply incr_reply (incr_by key n s)

abbrev negated : Option ℤ → Option ℤ
negated none = none
negated (some n) = some (wrap64 (pos 0 -ℤ n))

unfoldable pub incrby_command : List Text → Action Text
unfolding by_amount
incrby_command (_ ∷ key ∷ amount ∷ _) =
    by_amount key (atoi amount) (codes "-ERR Increment must be an integer")
incrby_command _ = say (codes "-ERR INCRBY requires a key and increment value")

unfoldable pub decrby_command : List Text → Action Text
unfolding by_amount
decrby_command (_ ∷ key ∷ amount ∷ _) =
    by_amount key (negated (atoi amount)) (codes "-ERR Decrement must be an integer")
decrby_command _ = say (codes "-ERR DECRBY requires a key and decrement value")

range_between : Text → Option ℤ → Option ℤ → Action Text
range_between key (some start) (some end) s = reply bulk (get_range key start end s, s)
range_between key _ _ s = say (codes "-ERR Start and end must be integers") s

unfoldable pub getrange_command : List Text → Action Text
unfolding range_between
getrange_command (_ ∷ key ∷ start ∷ end ∷ _) = range_between key (atoi start) (atoi end)
getrange_command _ = say (codes "-ERR GETRANGE requires key, start, and end")

set_at_offset : Text → Option ℤ → Text → Action Text
set_at_offset key none value s = say (codes "-ERR Offset must be an integer") s
set_at_offset key (some offset) value s = reply (λ n. colon (pos n)) (set_range key offset value s)

unfoldable pub setrange_command : List Text → Action Text
unfolding set_at_offset
setrange_command (_ ∷ key ∷ offset ∷ value ∷ _) = set_at_offset key (atoi offset) value
setrange_command _ = say (codes "-ERR SETRANGE requires key, offset, and value")

unfoldable pub quit_command : List Text → Action Text
quit_command _ s = say (codes "+OK") s

-- The end of the case "EX". The duration is in nanoseconds.
ex_checked : Library → ℤ → Text → Text → Option ℕ → Action Text
ex_checked lib now key secs none s = say (codes "ERR: invalid duration: " ++ lib.float_error secs) s
ex_checked lib now key secs (some duration) s =
    let nanoseconds = lib.arithmetic.mul duration (lib.arithmetic.of_int (pos second)) in
    (ok (codes "OK"), ex key (lib.arithmetic.to_int64 nanoseconds) now s)

-- The length is compared with 2, and `parts[2]` is read.
unfoldable pub ex_command : Library → ℤ → List Text → Action Text
unfolding ex_checked
ex_command lib now (_ ∷ key ∷ secs ∷ _) s = ex_checked lib now key secs (lib.parse_float secs) s
ex_command lib now (_ ∷ key ∷ []) s = (panic, s)
ex_command lib now _ s = say (codes "ERR: EX command requires a key and a duration") s

keys_reply : List Text → Text
keys_reply [] = codes "(empty list or set)"
keys_reply (key ∷ found) = format_array (key ∷ found)

unfoldable pub keys_command : Library → List Text → Action Text
unfolding keys_reply
keys_command lib (_ ∷ glob ∷ _) s = say (keys_reply (keys lib.path_match glob s)) s
keys_command lib _ s = say (codes "-ERR KEYS requires a pattern") s
