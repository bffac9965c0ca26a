-- ===== src/Handler/Hashes.antt =====
-- The cases of ProcessCommand (internal/storage/handler.go) for hashes. `shown` is what fmt.Sprintf
-- makes of a value with `%v`.
use tealis.Base.{◌*◌, List, [], ◌∷◌, ◌++◌, Option, none, some, length}
use tealis.Base.Int.{pos}
use tealis.Base.Text.{Text, codes}
use tealis.Base.Dict.{Dict, insert}
use tealis.Strconv.{itoa}
use tealis.Value.{Json, str}
use tealis.Tealis.{Action}
use tealis.HashCommands.{hset, hget, hmset, hgetall, hdel, hexists}
use tealis.Transactions.{crlf}
use tealis.Handler.Replies.{colon, bulk, one_or_zero, reply, say, told}

unfoldable pub hset_command : List Text → Action Text
hset_command (_ ∷ key ∷ field ∷ value ∷ _) s =
    reply (λ n. colon (pos n)) (hset key field (str value) s)
hset_command _ s = say (codes "-ERR HSET requires key, field, and value") s

field_reply : (Json → Text) → Option Json → Text
field_reply shown none = codes "$-1"
field_reply shown (some value) = bulk (shown value)

unfoldable pub hget_command : (Json → Text) → List Text → Action Text
unfolding field_reply
hget_command shown (_ ∷ key ∷ field ∷ _) s = say (field_reply shown (hget key field s)) s
hget_command shown _ s = say (codes "-ERR HGET requires key and field") s

-- The pairs of `HMSET` in a new map, or `none` for an odd number of parts.
pairs : List Text → Dict Json → Option (Dict Json)
pairs [] d = some d
pairs (f ∷ []) d = none
pairs (f ∷ v ∷ rest) d = pairs rest (insert f (str v) d)

set_pairs : Text → Option (Dict Json) → Action Text
set_pairs key none s = say (codes "-ERR HMSET requires key and field-value pairs") s
set_pairs key (some fields) s = reply (λ _. codes "+OK") (hmset key fields s)

unfoldable pub hmset_command : List Text → Action Text
unfolding pairs set_pairs
hmset_command (_ ∷ key ∷ f ∷ v ∷ rest) = set_pairs key (pairs (f ∷ v ∷ rest) [])
hmset_command _ = say (codes "-ERR HMSET requires key and field-value pairs")

-- The loop of `formatHashResponse`.
format_fields : (Json → Text) → Dict Json → Text
format_fields shown [] = []
format_fields shown ((field, value) ∷ fields) =
    bulk field ++ (crlf ++ (bulk (shown value) ++ (crlf ++ format_fields shown fields)))

-- `formatHashResponse`
unfoldable pub format_hash : (Json → Text) → Dict Json → Text
unfolding format_fields
format_hash shown fields =
    b'*' ∷ itoa (pos (length fields * 2)) ++ (crlf ++ format_fields shown fields)

hash_reply : (Json → Text) → Option (Dict Json) → Text
hash_reply shown none = codes "$-1"
hash_reply shown (some fields) = format_hash shown fields

unfoldable pub hgetall_command : (Json → Text) → List Text → Action Text
unfolding hash_reply
hgetall_command shown (_ ∷ key ∷ _) s = say (hash_reply shown (hgetall key s)) s
hgetall_command shown _ s = say (codes "-ERR HGETALL requires a key") s

unfoldable pub hdel_command : List Text → Action Text
hdel_command (_ ∷ key ∷ field ∷ _) s = told (λ n. colon (pos n)) (hdel key field s)
hdel_command _ s = say (codes "-ERR HDEL requires key and field") s

unfoldable pub hexists_command : List Text → Action Text
hexists_command (_ ∷ key ∷ field ∷ _) s = say (one_or_zero (hexists key field s)) s
hexists_command _ s = say (codes "-ERR HEXISTS requires key and field") s
