-- ===== src/Handler/Scores.antt =====
-- The cases of ProcessCommand (internal/storage/handler.go) for sorted sets.
use tealis.Base.{ℕ, List, [], ◌∷◌, Option, none, some}
use tealis.Base.Int.{ℤ, pos, negsuc}
use tealis.Base.Text.{Text, codes}
use tealis.Strconv.{atoi}
use tealis.Tealis.{Action}
use tealis.SortedSetCommands.{zadd, zrange, zrank, zrem, zrange_by_score}
use tealis.Handler.Outside.{Library}
use tealis.Handler.Replies.{colon, one_or_zero, format_array, reply, say}

zadd_checked : Library → ℤ → Text → Option ℕ → Text → Action Text
zadd_checked lib now key none member s = say (codes "-ERR Score must be a float") s
zadd_checked lib now key (some score) member s =
    reply (λ n. colon (pos n))
      (zadd lib.arithmetic lib.float32 (lib.new_source now) key score member s)

unfoldable pub zadd_command : Library → ℤ → List Text → Action Text
unfolding zadd_checked
zadd_command lib now (_ ∷ key ∷ score ∷ member ∷ _) s =
    zadd_checked lib now key (lib.parse_float score) member s
zadd_command lib now _ s = say (codes "-ERR ZADD requires key, score, and member") s

-- A list of members.
unfoldable pub members_reply : List Text → Text
members_reply [] = codes "(empty list or set)"
members_reply (member ∷ members) = format_array (member ∷ members)

zrange_checked : Text → Option ℤ → Option ℤ → Action Text
zrange_checked key (some start) (some stop) s = reply members_reply (zrange key start stop s, s)
zrange_checked key _ _ s = say (codes "-ERR Start and stop must be integers") s

unfoldable pub zrange_command : List Text → Action Text
unfolding zrange_checked
zrange_command (_ ∷ key ∷ start ∷ stop ∷ _) s = zrange_checked key (atoi start) (atoi stop) s
zrange_command _ s = say (codes "-ERR ZRANGE requires key, start, and stop") s

rank_reply : ℤ → Text
rank_reply (pos n) = colon (pos n)
rank_reply (negsuc n) = codes "(nil)"

unfoldable pub zrank_command : List Text → Action Text
unfolding rank_reply
zrank_command (_ ∷ key ∷ member ∷ _) s = reply rank_reply (zrank key member s, s)
zrank_command _ s = say (codes "-ERR ZRANK requires key and member") s

unfoldable pub zrem_command : List Text → Action Text
zrem_command (_ ∷ key ∷ member ∷ _) s = reply one_or_zero (zrem key member s)
zrem_command _ s = say (codes "-ERR ZREM requires key and member") s

by_score_checked : Library → Text → Option ℕ → Option ℕ → Action Text
by_score_checked lib key (some min) (some max) s =
    reply members_reply (zrange_by_score lib.arithmetic key min max s, s)
by_score_checked lib key _ _ s = say (codes "-ERR Min and max must be floats") s

unfoldable pub zrangebyscore_command : Library → List Text → Action Text
unfolding by_score_checked
zrangebyscore_command lib (_ ∷ key ∷ min ∷ max ∷ _) s =
    by_score_checked lib key (lib.parse_float min) (lib.parse_float max) s
zrangebyscore_command lib _ s = say (codes "-ERR ZRANGEBYSCORE requires key, min, and max") s
