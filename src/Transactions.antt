-- ===== src/Transactions.antt =====
-- MULTI, EXEC, DISCARD, the queue of a transaction and the append-only file
-- (internal/storage/tealis.go), and how ProcessCommand (internal/storage/handler.go) dispatches to
-- them. The other commands of the switch are the argument `commands`; Handler.antt gives them.
pub mod Queueing
pub mod Execution
pub mod Endings
pub mod Nesting
use tealis.Base.{
  ℕ, zero, suc, List, [], ◌∷◌, ◌++◌, Option, none, some, Bool, true, false, ◌&&◌, ◌||◌, not,
  Outcome, ok, panic, deadlock, if◌then◌else◌, is_some,
}
use tealis.Base.Text.{Text, text_eq, codes}
use tealis.Base.Dict.{lookup, insert, erase}
use tealis.Strings.{join, fields, to_upper}
use tealis.Tealis.{Tealis, Action}

abbrev pub crlf : Text
crlf = 13 ∷ 10 ∷ []

-- `MULTI`
unfoldable pub multi : Text → Tealis → Tealis
multi client s = record s { transactions = insert client [] s.transactions; multi = true }

-- `DISCARD`
unfoldable pub discard : Text → Tealis → Tealis
discard client s = record s { transactions = erase client s.transactions; multi = false }

-- `APPENDTO`
unfoldable pub append_to : Text → Text → Tealis → Text × Tealis
append_to client command s = elim (lookup client s.transactions) [
  | none ↦ (codes "- appendto ERR No transaction started" ++ crlf, s)
  | some queue ↦ (
    codes "+QUEUED" ++ crlf,
    record s { transactions = insert client (queue ++ command ∷ []) s.transactions },
  )
]

-- `AppendToAOF`, with a file that can be written.
unfoldable pub append_to_aof : Text → Tealis → Tealis
append_to_aof command s =
    if s.enable_aof
    then elim s.aof_file [
      | none ↦ s
      | some lines ↦ record s { aof_file = some (lines ++ command ∷ []) }
    ]
    else s

-- A command that is processed, or `none` where the fuel for nested EXECs has run out.
abbrev pub Run : Type 0
Run = List Text → Text → Tealis → Option (Outcome Text × Tealis)

-- `response = append(response, responseStr)`
abbrev pub prepend :
    Text → Option (Outcome (List Text) × Tealis) → Option (Outcome (List Text) × Tealis)
prepend response none = none
prepend response (some (ok responses, s)) = some (ok (response ∷ responses), s)
prepend response (some (panic, s)) = some (panic, s)
prepend response (some (deadlock, s)) = some (deadlock, s)

-- One round of the loop of `EXEC`: the rest runs unless the command does not return.
abbrev pub then_rest :
    Option (Outcome Text × Tealis)
    → (Tealis → Option (Outcome (List Text) × Tealis))
    → Option (Outcome (List Text) × Tealis)
then_rest none rest = none
then_rest (some (ok response, s)) rest = prepend response (rest s)
then_rest (some (panic, s)) rest = some (panic, s)
then_rest (some (deadlock, s)) rest = some (deadlock, s)

-- The loop of `EXEC`: the responses of the queued commands.
unfoldable pub run_queue : Run → List Text → Text → Tealis → Option (Outcome (List Text) × Tealis)
run_queue process [] client s = some (ok [], s)
run_queue process (cmd ∷ cmds) client s =
    then_rest (process (fields cmd) client s) (λ s'. run_queue process cmds client s')

-- The response to `EXEC`: those of the commands, joined.
abbrev pub joined : Option (Outcome (List Text) × Tealis) → Option (Outcome Text × Tealis)
joined none = none
joined (some (ok responses, s)) = some (ok (join crlf responses ++ crlf), s)
joined (some (panic, s)) = some (panic, s)
joined (some (deadlock, s)) = some (deadlock, s)

-- The state in which the queue runs.
abbrev pub taken : Text → Tealis → Tealis
taken client s = record s { transactions = erase client s.transactions; multi = false }

-- `EXEC`
unfoldable pub exec : Run → Text → Tealis → Option (Outcome Text × Tealis)
unfolding run_queue
exec process client s = elim (lookup client s.transactions) [
  | none ↦ some (ok (codes "-ERR No transaction started" ++ crlf), s)
  | some queue ↦ joined (run_queue process queue client (taken client s))
]

-- What ends or drops a transaction is never queued.
abbrev pub ends : Text → Bool
ends command = text_eq command (codes "EXEC") || text_eq command (codes "DISCARD")

abbrev pub line_of : List Text → Text
line_of = join (b' ' ∷ [])

-- A command of the switch: its name in upper case, all its parts, and the client.
abbrev pub Commands : Type 0
Commands = Text → List Text → Text → Action Text

-- The switch of `ProcessCommand`.
abbrev pub switch :
    Commands → Run → Text → List Text → Text → Tealis → Option (Outcome Text × Tealis)
switch commands process command parts client s =
    if text_eq command (codes "MULTI")
    then some (
      ok (if (multi client s).multi then codes "+OK MULTI" ++ crlf else codes "-NOT MULTI"),
      multi client s,
    )
    else if text_eq command (codes "EXEC")
    then exec process client s
    else if text_eq command (codes "DISCARD")
    then some (ok (codes "+OK" ++ crlf), discard client s)
    else some (commands command parts client s)

-- A queued command's response.
abbrev pub queued : Text × Tealis → Option (Outcome Text × Tealis)
queued (response, s) = some (ok response, s)

-- `ProcessCommand`, with what processes the commands of a transaction.
unfoldable pub process_with : Commands → Run → Run
process_with commands process [] client s = some (ok (codes "-ERR Empty command"), s)
process_with commands process (p ∷ ps) client s =
    if s.multi && not (ends (to_upper p))
    then queued (append_to client (line_of (p ∷ ps)) s)
    else switch commands process (to_upper p) (p ∷ ps) client (append_to_aof (line_of (p ∷ ps)) s)

-- `ProcessCommand`. `EXEC` may be queued in disguise and run inside an `EXEC`; the fuel bounds how deep, and `none`
-- says that it was not enough. A run that never returns has the outcome `deadlock`.
unfoldable pub process : Commands → ℕ → Run
unfolding process_with
process commands zero parts client s = none
process commands (suc fuel) parts client s =
    process_with commands (process commands fuel) parts client s
