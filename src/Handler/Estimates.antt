-- ===== src/Handler/Estimates.antt =====
-- The cases of ProcessCommand (internal/storage/handler.go) for HyperLogLogs.
use tealis.Base.{ℕ, ◌+◌, List, [], ◌∷◌, Option, none, some, inl, inr, Outcome, ok, panic, deadlock}
use tealis.Base.Int.{ℤ, pos, ◌+ℤ◌, wrap64}
use tealis.Base.Text.{Text, codes}
use tealis.Strconv.{itoa}
use tealis.Tealis.{Tealis, Action}
use tealis.Floats.{Arithmetic}
use tealis.HyperLogLogCommands.{pfadd, pfmerge, pfcount}
use tealis.Handler.Replies.{reply, say}

-- The rest of the loop of the case "PFADD" after one value.
next_value : (ℕ → Action Text) → ℕ → Outcome (Option Text) × Tealis → Outcome Text × Tealis
next_value rest added (ok none, s) = rest (added + 1) s
next_value rest added (ok (some e), s) = (ok e, s)
next_value rest added (panic, s) = (panic, s)
next_value rest added (deadlock, s) = (deadlock, s)

unfoldable pub add_values : Arithmetic → Text → List Text → ℕ → Action Text
unfolding next_value
add_values arithmetic key [] added s = say (itoa (pos added)) s
add_values arithmetic key (value ∷ values) added s =
    next_value (add_values arithmetic key values) added (pfadd arithmetic key value s)

-- A missing part is an index out of range.
unfoldable pub pfadd_command : Arithmetic → List Text → Action Text
pfadd_command arithmetic (_ ∷ key ∷ values) s = add_values arithmetic key values 0 s
pfadd_command arithmetic _ s = (panic, s)

merged_reply : Option Text → Text
merged_reply none = codes "OK"
merged_reply (some e) = e

unfoldable pub pfmerge_command : Arithmetic → List Text → Action Text
unfolding merged_reply
pfmerge_command arithmetic (_ ∷ dest ∷ sources) s =
    reply merged_reply (pfmerge arithmetic dest sources s)
pfmerge_command arithmetic _ s = (panic, s)

-- The loop of the case "PFCOUNT".
count_keys : Arithmetic → List Text → ℤ → Tealis → Outcome Text
count_keys arithmetic [] total s = ok (itoa total)
count_keys arithmetic (key ∷ keys) total s = elim (pfcount arithmetic key s) [
  | ok (inl e) ↦ ok e
  | ok (inr n) ↦ count_keys arithmetic keys (wrap64 (total +ℤ n)) s
  | panic ↦ panic
  | deadlock ↦ deadlock
]

unfoldable pub pfcount_command : Arithmetic → List Text → Action Text
unfolding count_keys
pfcount_command arithmetic (_ ∷ keys) s = (count_keys arithmetic keys (pos 0) s, s)
pfcount_command arithmetic [] s = (panic, s)
