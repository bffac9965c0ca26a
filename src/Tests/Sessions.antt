-- ===== src/Tests/Sessions.antt =====
-- Examples for transactions and commands (internal/storage/tealis.go and handler.go).
use tealis.Base.{
  ℕ, List, [], ◌∷◌, ◌++◌, Option, none, some, Bool, true, false, Outcome, ok, ◌≡◌, refl, arith, ◌≤◌,
  ◌+◌, length, replicate, map,
}
use tealis.Base.Int.{pos}
use tealis.Base.Text.{Text, text_eq, codes}
use tealis.Base.Dict.{insert}
use tealis.Tealis.{Tealis}
use tealis.Transactions.{crlf, multi, append_to_aof, joined, process}
use tealis.Transactions.Queueing.{other_client_blocked}
use tealis.Transactions.Execution.{run_parts, transaction_runs}
use tealis.Transactions.Nesting.{queue_length}
use tealis.Transactions.Endings.{Ending}
use tealis.Handler.{commands, process_command}
use tealis.Handler.Replies.{bulk}
use tealis.Handler.Kept.{session}
use tealis.Handler.Whole.{commands-session, process_command_outcome}
use tealis.Handler.Sessions.{set-get}
use tealis.Tests.Data.{k, a, b, started, expiring, unknown, library}

transaction_runs_example :
    let sent = (codes "SET" ∷ k ∷ b ∷ []) ∷ (codes "GET" ∷ k ∷ []) ∷ [] in
    let P = process (commands library unknown (pos 5)) in
    let start : Tealis = append_to_aof (codes "MULTI") expiring in
    let ready : Tealis = record start {
      transactions = insert a (codes "SET k b" ∷ codes "GET k" ∷ []) [];
      multi = true;
    } in
    (P 2 (codes "MULTI" ∷ []) a expiring ≡ some (ok (codes "+OK MULTI" ++ crlf), multi a start))
    × (run_parts (P 2) sent a (multi a start)
        ≡ some (ok ((codes "+QUEUED" ++ crlf) ∷ (codes "+QUEUED" ++ crlf) ∷ []), ready))
    × (P 2 (codes "EXEC" ∷ []) a ready
        ≡ joined (run_parts (P 1) sent a (append_to_aof (codes "EXEC") start)))
unfolding tealis.Base.Dict.lookup tealis.Strings.join tealis.Strings.to_upper text_eq
    tealis.Strings.wide_space
transaction_runs_example =
    transaction_runs (commands library unknown (pos 5)) 1 a
      ((codes "SET" ∷ k ∷ b ∷ []) ∷ (codes "GET" ∷ k ∷ []) ∷ []) expiring refl refl
      (
        refl,
        ((refl, (refl, (refl, tt))), ((refl, tt), ((refl, tt), tt))),
        (refl, ((refl, (refl, (refl, tt))), ((refl, tt), tt)), tt),
      )

process_command_outcome_example :
    (o : Outcome Text) × (s' : Tealis) × (process_command library unknown
        (pos 5)
        1
        (codes "GET" ∷ k ∷ [])
        a
        expiring
      ≡ some (o, s'))
    × (queue_length a s' ≤ 1)
    × Ending (commands library unknown (pos 5)) a o expiring s'
unfolding tealis.Base.Dict.lookup
process_command_outcome_example =
    process_command_outcome library unknown (pos 5) (λ command parts client s. refl) 1
      (codes "GET" ∷ k ∷ []) a expiring (omega arith)

other_client_blocked_example :
    (s' : Tealis) × (process (commands library unknown (pos 5)) 1 (codes "MULTI" ∷ []) a started
      ≡ some (ok (codes "+OK MULTI" ++ crlf), s'))
    × (process (commands library unknown (pos 5)) 1 (codes "GET" ∷ k ∷ []) b s'
        ≡ some (ok (codes "- appendto ERR No transaction started" ++ crlf), s'))
unfolding tealis.Base.Dict.lookup text_eq tealis.Strings.to_upper
other_client_blocked_example =
    other_client_blocked (commands library unknown (pos 5)) 0 a b (codes "GET" ∷ k ∷ []) started
      refl (λ e. ground arith) refl refl

commands-session_example :
    session (commands library unknown (pos 5) (codes "SET") (codes "SET" ∷ k ∷ b ∷ []) a expiring).1
    ≡ session expiring
unfolding tealis.Base.Dict.lookup tealis.Handler.session_cases text_eq
commands-session_example =
    commands-session library unknown (pos 5) (λ command parts client s. refl) (codes "SET")
      (codes "SET" ∷ k ∷ b ∷ []) a refl expiring

set-get_example :
    (s' : Tealis) × (s'' : Tealis) × (process_command library unknown
        (pos 5)
        1
        (codes "SET" ∷ k ∷ b ∷ [])
        a
        expiring
      ≡ some (ok (codes "+OK"), s'))
    × (process_command library unknown (pos 20) 1 (codes "GET" ∷ k ∷ []) a s'
        ≡ some (ok (bulk b), s''))
set-get_example = set-get library unknown (pos 5) (pos 20) 0 k b a expiring refl
