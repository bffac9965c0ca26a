-- ===== src/Transactions/Nesting.antt =====
-- How deep an EXEC runs inside an EXEC (internal/storage/tealis.go under ProcessCommand of
-- internal/storage/handler.go).
use tealis.Base.{
  ℕ, zero, suc, ◌+◌, ◌≤◌, ◌<◌, List, [], ◌∷◌, ◌++◌, Option, none, some, ◌&&◌, not, Outcome, ok,
  panic, deadlock, ◌≡◌, refl, ap, arith, length, length-append, inl, inr, Bool-cases, Option-cases,
}
use tealis.Base.Text.{Text, text_eq, codes}
use tealis.Base.Dict.{Dict, lookup, insert, lookup-insert_self, lookup-erase_self}
use tealis.Strings.{fields, to_upper}
use tealis.Tealis.{Tealis}
use tealis.Transactions.{
  multi, discard, append_to, append_to_aof, Run, prepend, then_rest, run_queue, joined, taken, exec,
  ends, line_of, Commands, switch, queued, process,
}
use mathlib.Core.Path.{subst}
use tealis.Transactions.Endings.{
  Reached, at_start, line_written, line_queued, opened, dropped, started, Ending, Ending-after,
  Ending-case,
}
use tealis.Transactions.Queueing.{transactions-append_to_aof, append_to-absent, append_to-open}
use tealis.Transactions.Execution.{exec-absent, exec-open}

-- How many commands the client has queued.
abbrev size : Option (List Text) → ℕ
size none = 0
size (some queue) = length queue

abbrev pub queue_length : Text → Tealis → ℕ
queue_length client s = size (lookup client s.transactions)

module _ (commands : Commands) (client : Text) where
  -- A run from `s` that came to an outcome, and left at most `n` commands queued.
  record Ends {A : Type 0} (s : Tealis) (n : ℕ) (r : Option (Outcome A × Tealis)) : Type 0 where
    outcome : Outcome A
    state : Tealis
    ended : r ≡ some (outcome, state)
    bounded : queue_length client state ≤ n
    ending : Ending commands client outcome s state

  Ends-after :
      {A : Type 0} {r : Option (Outcome A × Tealis)} (s t : Tealis) (n m : ℕ)
      → n ≤ m
      → Reached commands client s t
      → Ends t n r
      → Ends s m r
  Ends-after s t n m h g e = record {
    outcome = e.outcome;
    state = e.state;
    ended = e.ended;
    bounded = omega (arith, e.bounded);
    ending = Ending-after commands client e.outcome s t e.state g e.ending;
  }

  Ends-some :
      {A : Type 0} (o : Outcome A) (s t : Tealis) (n : ℕ)
      → queue_length client t ≤ n
      → Ending commands client o s t
      → Ends s n (some (o, t))
  Ends-some o s t n h g = record { outcome = o; state = t; ended = refl; bounded = h; ending = g }

  Ends-prepend :
      (response : Text) (o : Outcome (List Text)) (s t : Tealis) (n : ℕ)
      → queue_length client t ≤ n
      → Ending commands client o s t
      → Ends s n (prepend response (some (o, t)))
  Ends-prepend response (ok rs) s t n h g = Ends-some (ok (response ∷ rs)) s t n h g
  Ends-prepend response panic s t n h g = Ends-some panic s t n h g
  Ends-prepend response deadlock s t n h g = Ends-some deadlock s t n h g

  Ends-joined :
      (o : Outcome (List Text)) (s t : Tealis) (n : ℕ)
      → queue_length client t ≤ n
      → Ending commands client o s t
      → Ends s n (joined (some (o, t)))
  Ends-joined (ok rs) s t n h g = Ends-some _ s t n h g
  Ends-joined panic s t n h g = Ends-some panic s t n h g
  Ends-joined deadlock s t n h g = Ends-some deadlock s t n h g

  Ends-then_rest :
      (o : Outcome Text) (s t : Tealis) (rest : Tealis → Option (Outcome (List Text) × Tealis))
      (n : ℕ)
      → queue_length client t ≤ n
      → Ending commands client o s t
      → Ends t n (rest t)
      → Ends s n (then_rest (some (o, t)) rest)
  Ends-then_rest (ok response) s t rest n h g e = rw e.ended (
      Ends-prepend response e.outcome s e.state n e.bounded
        (Ending-after commands client e.outcome s t e.state g e.ending))
  Ends-then_rest panic s t rest n h g e = Ends-some panic s t n h g
  Ends-then_rest deadlock s t rest n h g e = Ends-some deadlock s t n h g

  -- The loop of EXEC, where each command ends and queues at most one.
  run_queue-Ends :
      (P : Run) (fuel : ℕ)
      → ((parts : List Text) (s : Tealis)
          → queue_length client s < fuel
          → Ends s (queue_length client s + 1) (P parts client s))
      → (cmds : List Text) (s : Tealis) → queue_length client s + length cmds ≤ fuel
      → Ends s (queue_length client s + length cmds) (run_queue P cmds client s)
  unfolding run_queue
  run_queue-Ends P fuel step [] s h = Ends-some (ok []) s s _ (omega arith) at_start
  run_queue-Ends P fuel step (cmd ∷ cmds) s h =
      let first = step (fields cmd) s (omega arith) in
      let n : ℕ = queue_length client s + length (cmd ∷ cmds) in
      let rest = run_queue-Ends P fuel step cmds first.state (omega (arith, first.bounded)) in
      rw first.ended (
        Ends-then_rest first.outcome s first.state (λ s'. run_queue P cmds client s') n
          (omega (arith, first.bounded)) first.ending
          (Ends-after first.state first.state (queue_length client first.state + length cmds) n
            (omega (arith, first.bounded)) at_start rest))

  queue_length-taken : (s : Tealis) → queue_length client (taken client s) ≡ 0
  queue_length-taken s = ap size (lookup-erase_self client s.transactions)

  exec-Ends :
      (P : Run) (fuel : ℕ) (s : Tealis)
      → ((parts : List Text) (s : Tealis)
          → queue_length client s < fuel
          → Ends s (queue_length client s + 1) (P parts client s))
      → queue_length client s ≤ fuel
      → Ends s (queue_length client s) (exec P client s)
  exec-Ends P fuel s step h = elim (Option-cases (lookup client s.transactions)) [
    | inl missing ↦
        rw (exec-absent P client s missing)
          (Ends-some _ s s (queue_length client s) (omega arith) at_start)
    | inr (queue, e) ↦
        let whole : queue_length client s ≡ length queue = ap size e in
        let run =
          run_queue-Ends P fuel step queue (taken client s) (omega (arith, queue_length-taken s)) in
        rw (exec-open P client queue s e, run.ended)
          (Ends-joined run.outcome s run.state (queue_length client s)
            (omega (arith, run.bounded, queue_length-taken s))
            (Ending-after commands client run.outcome s (taken client s) run.state
              (started at_start) run.ending))
  ]

  queue_length-append_to_aof :
      (line : Text) (s : Tealis)
      → queue_length client (append_to_aof line s) ≡ queue_length client s
  queue_length-append_to_aof line s =
      ap (λ (ts : Dict (List Text)). size (lookup client ts)) (transactions-append_to_aof line s)

  append_to-Ends :
      (line : Text) (s : Tealis)
      → Ends s (queue_length client s + 1) (queued (append_to client line s))
  append_to-Ends line s = elim (Option-cases (lookup client s.transactions)) [
    | inl missing ↦
        rw (append_to-absent client line s missing) (Ends-some _ s s _ (omega arith) at_start)
    | inr (queue, e) ↦
        let whole : queue_length client s ≡ length queue = ap size e in
        rw (append_to-open client line queue s e) (
          Ends-some _ s
            (record s { transactions = insert client (queue ++ line ∷ []) s.transactions }) _
            (rw lookup-insert_self (omega (arith, length-append queue (line ∷ []))))
            (let e' = ap (λ (x : Text × Tealis). x.1) (append_to-open client line queue s e) in
              subst (Reached commands client s) e' (line_queued line at_start)))
  ]

module _ (commands : Commands)
    (keeps : (command : Text) (parts : List Text) (client : Text) (s : Tealis)
      → (commands command parts client s).1.transactions ≡ s.transactions)
    (client : Text) where
  switch-Ends :
      (fuel : ℕ) (command : Text) (parts : List Text) (s : Tealis)
      → ((parts : List Text) (s : Tealis)
          → queue_length client s < fuel
          → Ends commands client s
              (queue_length client s + 1)
              (process commands fuel parts client s))
      → queue_length client s ≤ fuel
      → Ends commands client s
          (queue_length client s + 1)
          (switch commands (process commands fuel) command parts client s)
  switch-Ends fuel command parts s step h = elim (Bool-cases (text_eq command (codes "MULTI"))) [
    | inl is_multi ↦ rw is_multi (
        Ends-some commands client _ s (multi client s) _
          (unfold multi in rw lookup-insert_self (omega arith)) (opened at_start))
    | inr not_multi ↦ elim (Bool-cases (text_eq command (codes "EXEC"))) [
      | inl is_exec ↦
          rw (not_multi, is_exec)
            (Ends-after commands client s s (queue_length client s) _ (omega arith) at_start
              (exec-Ends commands client (process commands fuel) fuel s step h))
      | inr not_exec ↦ elim (Bool-cases (text_eq command (codes "DISCARD"))) [
        | inl is_discard ↦
            rw (not_multi, not_exec, is_discard)
              (Ends-some commands client _ s (discard client s) _
                (unfold discard in rw lookup-erase_self (omega arith)) (dropped at_start))
        | inr other ↦
            rw (not_multi, not_exec, other)
              (Ends-some commands client (commands command parts client s).0 s
                (commands command parts client s).1 _
                (rw (keeps command parts client s) (omega arith))
                (Ending-case commands client command parts (commands command parts client s).0 s
                  (commands command parts client s).1 refl))
      ]
    ]
  ]

  process-Ends :
      (fuel : ℕ) (parts : List Text) (s : Tealis)
      → queue_length client s < fuel
      → Ends commands client s (queue_length client s + 1) (process commands fuel parts client s)
  unfolding process
  process-Ends zero parts s h = absurd (omega arith)
  process-Ends (suc fuel) [] s h = Ends-some commands client _ s s _ (omega arith) at_start
  process-Ends (suc fuel) (p ∷ ps) s h = elim (Bool-cases (s.multi && not (ends (to_upper p)))) [
    | inl waits ↦ rw waits (append_to-Ends commands client (line_of (p ∷ ps)) s)
    | inr runs ↦
        let s' : Tealis = append_to_aof (line_of (p ∷ ps)) s in
        let same = queue_length-append_to_aof commands client (line_of (p ∷ ps)) s in
        rw runs (
          Ends-after commands client s s' (queue_length client s' + 1) _ (omega arith)
            (line_written (line_of (p ∷ ps)) at_start)
            (switch-Ends fuel (to_upper p) (p ∷ ps) s' (process-Ends fuel) (omega arith)))
  ]

  -- The same, with the parts of the result told apart.
  pub process_outcome :
      (fuel : ℕ) (parts : List Text) (s : Tealis)
      → queue_length client s < fuel
      → (o : Outcome Text) × (s' : Tealis) × (process commands fuel parts client s ≡ some (o, s'))
        × (queue_length client s' ≤ queue_length client s + 1)
        × Ending commands client o s s'
  process_outcome fuel parts s h =
      let e = process-Ends fuel parts s h in (e.outcome, e.state, e.ended, e.bounded, e.ending)
