-- ===== src/Transactions/Endings.antt =====
-- How a run of ProcessCommand (internal/storage/handler.go) comes to its outcome.
use tealis.Base.{List, Outcome, ok, panic, deadlock, ◌≡◌}
use tealis.Base.Text.{Text}
use tealis.Tealis.{Tealis}
use tealis.Transactions.{multi, discard, append_to, append_to_aof, taken, Commands}

module _ (commands : Commands) (client : Text) where
  -- The states that a client's commands lead to from `s`: by a line of the append-only file or of the queue, by
  -- MULTI, by DISCARD, by the start of EXEC, and by a case of the switch that returns.
  pub data Reached (s : Tealis) : Tealis → Type 0 where
    at_start : Reached s s
    line_written : {t : Tealis} (line : Text) → Reached s t → Reached s (append_to_aof line t)
    line_queued : {t : Tealis} (line : Text) → Reached s t → Reached s (append_to client line t).1
    opened : {t : Tealis} → Reached s t → Reached s (multi client t)
    dropped : {t : Tealis} → Reached s t → Reached s (discard client t)
    started : {t : Tealis} → Reached s t → Reached s (taken client t)
    returned :
        {t u : Tealis} (command : Text) (parts : List Text) (response : Text)
        → Reached s t
        → commands command parts client t ≡ (ok response, u)
        → Reached s u

  pub Reached-trans : {s t u : Tealis} → Reached s t → Reached t u → Reached s u
  Reached-trans h at_start = h
  Reached-trans h (line_written line g) = line_written line (Reached-trans h g)
  Reached-trans h (line_queued line g) = line_queued line (Reached-trans h g)
  Reached-trans h (opened g) = opened (Reached-trans h g)
  Reached-trans h (dropped g) = dropped (Reached-trans h g)
  Reached-trans h (started g) = started (Reached-trans h g)
  Reached-trans h (returned command parts response g e) =
      returned command parts response (Reached-trans h g) e

  -- In a state that is reached, a case of the switch has this outcome, and leaves `u`.
  abbrev pub Caused : Outcome Text → Tealis → Tealis → Type 0
  Caused o s u =
      (command : Text) × ((parts : List Text) × ((t : Tealis) × (Reached s t
            × (commands command parts client t ≡ (o, u)))))

  -- A run from `s` to `u` returns, or else a case of the switch panics, or never returns.
  abbrev pub Ending : {A : Type 0} → Outcome A → Tealis → Tealis → Type 0
  Ending (ok response) s u = Reached s u
  Ending panic s u = Caused panic s u
  Ending deadlock s u = Caused deadlock s u

  Caused-after : (o : Outcome Text) (s t u : Tealis) → Reached s t → Caused o t u → Caused o s u
  Caused-after o s t u h (command, (parts, (v, (g, e)))) =
      (command, (parts, (v, (Reached-trans h g, e))))

  pub Ending-after :
      {A : Type 0} (o : Outcome A) (s t u : Tealis) → Reached s t → Ending o t u → Ending o s u
  Ending-after (ok response) s t u h g = Reached-trans h g
  Ending-after panic s t u h g = Caused-after panic s t u h g
  Ending-after deadlock s t u h g = Caused-after deadlock s t u h g

  -- One case of the switch.
  pub Ending-case :
      (command : Text) (parts : List Text) (o : Outcome Text) (s u : Tealis)
      → commands command parts client s ≡ (o, u)
      → Ending o s u
  Ending-case command parts (ok response) s u e = returned command parts response at_start e
  Ending-case command parts panic s u e = (command, (parts, (s, (at_start, e))))
  Ending-case command parts deadlock s u e = (command, (parts, (s, (at_start, e))))
