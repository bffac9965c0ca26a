-- ===== src/Handler/Replies.antt =====
-- The replies of ProcessCommand (internal/storage/handler.go): how results become text.
use tealis.Base.{List, [], ◌∷◌, ◌++◌, Bool, Outcome, ok, panic, deadlock, if◌then◌else◌, length}
use tealis.Base.Int.{ℤ, pos}
use tealis.Base.Text.{Text, codes}
use tealis.Strconv.{itoa}
use tealis.Tealis.{Tealis, Action}
use tealis.Transactions.{crlf}

-- `":" + strconv.Itoa(n)`
abbrev pub colon : ℤ → Text
colon n = b':' ∷ itoa n

-- `"$" + strconv.Itoa(len(value)) + "\r\n" + value`
abbrev pub bulk : Text → Text
bulk value = b'$' ∷ itoa (pos (length value)) ++ (crlf ++ value)

abbrev pub one_or_zero : Bool → Text
one_or_zero b = if b then codes ":1" else codes ":0"

-- The loop of `formatArrayResponse`.
format_items : List Text → Text
format_items [] = []
format_items (item ∷ items) = bulk item ++ (crlf ++ format_items items)

-- `formatArrayResponse`
unfoldable pub format_array : List Text → Text
unfolding format_items
format_array items = b'*' ∷ itoa (pos (length items)) ++ (crlf ++ format_items items)

-- A result as a reply, a panic as a panic.
abbrev pub reply : {A : Type 0} → (A → Text) → Outcome A × Tealis → Outcome Text × Tealis
reply f (ok a, s) = (ok (f a), s)
reply f (panic, s) = (panic, s)
reply f (deadlock, s) = (deadlock, s)

-- A fixed reply that changes nothing.
abbrev pub say : Text → Action Text
say t s = (ok t, s)

-- A reply to a command that cannot fail.
abbrev pub told : {A : Type 0} → (A → Text) → A × Tealis → Outcome Text × Tealis
told f (a, s) = (ok (f a), s)
