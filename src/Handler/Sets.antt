-- ===== src/Handler/Sets.antt =====
-- The cases of ProcessCommand (internal/storage/handler.go) for sets.
use tealis.Base.{List, [], ◌∷◌}
use tealis.Base.Int.{pos}
use tealis.Base.Text.{Text, codes}
use tealis.Tealis.{Action}
use tealis.SetCommands.{sadd, srem, sismember, smembers}
use tealis.Handler.Replies.{colon, one_or_zero, format_array, reply, say, told}

unfoldable pub sadd_command : List Text → Action Text
sadd_command (_ ∷ key ∷ m ∷ ms) s = reply (λ n. colon (pos n)) (sadd key (m ∷ ms) s)
sadd_command _ s = say (codes "-ERR SADD requires a key and one or more members") s

members_reply : List Text → Text
members_reply [] = codes "(empty list or set)"
members_reply (m ∷ ms) = format_array (m ∷ ms)

unfoldable pub smembers_command : List Text → Action Text
unfolding members_reply
smembers_command (_ ∷ key ∷ _) s = say (members_reply (smembers key s)) s
smembers_command _ s = say (codes "-ERR SMEMBERS requires a key") s

unfoldable pub srem_command : List Text → Action Text
srem_command (_ ∷ key ∷ m ∷ ms) s = told (λ n. colon (pos n)) (srem key (m ∷ ms) s)
srem_command _ s = say (codes "-ERR SREM requires a key and one or more members") s

unfoldable pub sismember_command : List Text → Action Text
sismember_command (_ ∷ key ∷ member ∷ _) s = say (one_or_zero (sismember key member s)) s
sismember_command _ s = say (codes "-ERR SISMEMBER requires a key and a member") s
