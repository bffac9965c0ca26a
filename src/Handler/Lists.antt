-- ===== src/Handler/Lists.antt =====
-- The cases of ProcessCommand (internal/storage/handler.go) for lists.
use tealis.Base.{ℕ, List, ◌∷◌, Option, none, some}
use tealis.Base.Int.{ℤ, pos}
use tealis.Base.Text.{Text, codes}
use tealis.Strconv.{atoi}
use tealis.Tealis.{Action}
use tealis.ListCommands.{rpush, lpush, lpop, rpop, lrange, llen}
use tealis.Handler.Replies.{colon, bulk, format_array, reply, say, told}

-- The cases "LPUSH" and "RPUSH", with their method and their complaint.
unfoldable pub push_command : (Text → List Text → Action ℕ) → Text → List Text → Action Text
push_command method complaint (_ ∷ key ∷ x ∷ xs) s =
    reply (λ n. colon (pos n)) (method key (x ∷ xs) s)
push_command method complaint _ s = say complaint s

unfoldable pub lpush_command : List Text → Action Text
unfolding push_command
lpush_command = push_command lpush (codes "-ERR LPUSH requires a key and one or more elements")

unfoldable pub rpush_command : List Text → Action Text
unfolding push_command
rpush_command = push_command rpush (codes "-ERR RPUSH requires a key and one or more elements")

popped : Option Text → Text
popped none = codes "$-1"
popped (some element) = bulk element

unfoldable pub lpop_command : List Text → Action Text
unfolding popped
lpop_command (_ ∷ key ∷ _) s = told popped (lpop key s)
lpop_command _ s = say (codes "-ERR LPOP requires a key") s

unfoldable pub rpop_command : List Text → Action Text
unfolding popped
rpop_command (_ ∷ key ∷ _) s = told popped (rpop key s)
rpop_command _ s = say (codes "-ERR RPOP requires a key") s

unfoldable pub llen_command : List Text → Action Text
llen_command (_ ∷ key ∷ _) s = reply (λ n. colon (pos n)) (llen key s, s)
llen_command _ s = say (codes "-ERR LLEN requires a key") s

elements_between : Text → Option ℤ → Option ℤ → Action Text
elements_between key (some start) (some end) s = reply format_array (lrange key start end s, s)
elements_between key _ _ s = say (codes "-ERR Start and end must be integers") s

unfoldable pub lrange_command : List Text → Action Text
unfolding elements_between
lrange_command (_ ∷ key ∷ start ∷ end ∷ _) = elements_between key (atoi start) (atoi end)
lrange_command _ = say (codes "-ERR LRANGE requires a key, start, and end")
