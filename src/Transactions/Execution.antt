-- ===== src/Transactions/Execution.antt =====
-- A transaction from MULTI to EXEC ( internal/storage/tealis.go under ProcessCommand of internal/storage/handler.go).
use tealis.Base.{
  ℕ, suc, List, [], ◌∷◌, ◌++◌, map, append_assoc, append-nil, Option, none, some, Bool, true, false,
  ◌&&◌, Outcome, ok, ◌≡◌, refl, sym, ap, fun_ext, ◌∙◌, arith, length, replicate,
}
use tealis.Base.Text.{Text, text_eq, codes}
use tealis.Base.Dict.{
  Dict, lookup, insert, erase, lookup-insert_self, insert-insert, insert_same, erase_absent,
  erase-insert,
}
use tealis.Strings.{join, fields, to_upper}
use tealis.Strings.Fields.{Words, fields-join}
use tealis.Tealis.{Tealis}
use tealis.Transactions.{
  crlf, multi, append_to_aof, Run, then_rest, run_queue, joined, taken, exec, line_of, Commands,
  process,
}
use tealis.Transactions.Queueing.{
  IsQueued, append_to-open, transactions-append_to_aof, multi-append_to_aof, process-queued,
  process-multi,
}

-- Commands one after the other, as one client sends them, until one does not return.
abbrev pub run_parts :
    Run → List (List Text) → Text → Tealis → Option (Outcome (List Text) × Tealis)
run_parts process [] client s = some (ok [], s)
run_parts process (parts ∷ rest) client s =
    then_rest (process parts client s) (λ s'. run_parts process rest client s')

run_queue-run_parts :
    (process : Run) (queue : List Text) (client : Text) (s : Tealis)
    → run_queue process queue client s ≡ run_parts process (map fields queue) client s
unfolding run_queue
run_queue-run_parts process [] client s = refl
run_queue-run_parts process (cmd ∷ queue) client s =
    ap (then_rest (process (fields cmd) client s))
      (fun_ext λ s'. run_queue-run_parts process queue client s')

-- Every part is a word, so that the queue gives the command back.
abbrev pub AllQueued : List (List Text) → Type 0
AllQueued [] = Unit
AllQueued (parts ∷ rest) = IsQueued parts × Words parts × AllQueued rest

fields-lines : (pss : List (List Text)) → AllQueued pss → map fields (map line_of pss) ≡ pss
fields-lines [] h = refl
fields-lines (ps ∷ pss) h = cc (fields-join ps h.1, fields-lines pss h.2)

and-false : (b : Bool) → (b && false) ≡ false
and-false true = refl
and-false false = refl

-- The append-only file takes a line whatever the transactions are.
append_to_aof_session :
    (line : Text) (ts : Dict (List Text)) (b : Bool) (s : Tealis)
    → append_to_aof line (record s { transactions = ts; multi = b })
      ≡ record (append_to_aof line s) { transactions = ts; multi = b }
unfolding append_to_aof
append_to_aof_session line ts b s = ground arith

same_session :
    (ts : Dict (List Text)) (b : Bool) (s : Tealis)
    → ts ≡ s.transactions
    → b ≡ s.multi
    → record s { transactions = ts; multi = b } ≡ s
same_session ts b s e f = ground arith

-- Where the client had no transaction, taking its queue leaves the state from before.
session_restored :
    (line client : Text) (queue : List Text) (ts : Dict (List Text)) (s : Tealis)
    → lookup client ts ≡ none
    → s.transactions ≡ ts
    → s.multi ≡ false
    → taken client
        (append_to_aof line (record s { transactions = insert client queue ts; multi = true }))
      ≡ append_to_aof line s
session_restored line client queue ts s fresh e m =
    ap (taken client) (append_to_aof_session line (insert client queue ts) true s)
    ∙ same_session (erase client (insert client queue ts)) false (append_to_aof line s)
        (erase-insert client queue ts
          ∙ erase_absent client ts fresh
          ∙ sym e
          ∙ sym (transactions-append_to_aof line s))
        (sym m ∙ sym (multi-append_to_aof line s))

pub exec-absent :
    (P : Run) (client : Text) (s : Tealis)
    → lookup client s.transactions ≡ none
    → exec P client s ≡ some (ok (codes "-ERR No transaction started" ++ crlf), s)
unfolding exec
exec-absent P client s e = ground arith

pub exec-open :
    (P : Run) (client : Text) (queue : List Text) (s : Tealis)
    → lookup client s.transactions ≡ some queue
    → exec P client s ≡ joined (run_queue P queue client (taken client s))
unfolding exec
exec-open P client queue s e = ground arith

module _ (commands : Commands) (fuel : ℕ) where
  -- Queued commands only lengthen the queue of their client.
  run_parts-queued :
      (pss : List (List Text)) (client : Text) (queue : List Text) (s : Tealis)
      → s.multi ≡ true
      → lookup client s.transactions ≡ some queue
      → AllQueued pss
      → run_parts (process commands (suc fuel)) pss client s
        ≡ some (
          ok (replicate (length pss) (codes "+QUEUED" ++ crlf)),
          record s { transactions = insert client (queue ++ map line_of pss) s.transactions },
        )
  run_parts-queued [] client queue s m e h =
      rw (append-nil, insert_same client queue s.transactions e)
  run_parts-queued (ps ∷ pss) client queue s m e h =
      let s' : Tealis = record s {
        transactions = insert client (queue ++ line_of ps ∷ []) s.transactions;
      } in
      rw
        (
          process-queued commands fuel ps client s m h.0,
          append_to-open client (line_of ps) queue s e,
        )
        (rw
          (run_parts-queued pss client (queue ++ line_of ps ∷ []) s' m
            (lookup-insert_self client _ s.transactions) h.2)
          (rw (insert-insert, append_assoc)))

  process-exec :
      (client : Text) (queue : List Text) (s : Tealis)
      → lookup client s.transactions ≡ some queue
      → process commands (suc fuel) (codes "EXEC" ∷ []) client s
        ≡ joined (
            run_queue
              (process commands fuel)
              queue
              client
              (taken client (append_to_aof (codes "EXEC") s)))
  unfolding process text_eq to_upper join
  process-exec client queue s e =
      let e' = transactions-append_to_aof (codes "EXEC") s in
      rw (and-false s.multi)
        (exec-open (process commands fuel) client queue (append_to_aof (codes "EXEC") s) (rw e' e))

  -- A transaction from its start to its end. After MULTI every command is answered +QUEUED and changes
  -- nothing but the queue; EXEC then runs the commands in the order and with the parts in which they were
  -- sent, on the state from before MULTI (with both lines in the append-only file, if it is on). The
  -- parts are words: not empty, and with no white space.
  pub transaction_runs :
      (client : Text) (pss : List (List Text)) (s : Tealis)
      → s.multi ≡ false
      → lookup client s.transactions ≡ none
      → AllQueued pss
      → let started : Tealis = append_to_aof (codes "MULTI") s in
        let ready : Tealis = record started {
          transactions = insert client (map line_of pss) s.transactions;
          multi = true;
        } in
        let P = process commands (suc fuel) in
        (P (codes "MULTI" ∷ []) client s
          ≡ some (ok (codes "+OK MULTI" ++ crlf), multi client started))
        × (run_parts P pss client (multi client started)
            ≡ some (ok (replicate (length pss) (codes "+QUEUED" ++ crlf)), ready))
        × (P (codes "EXEC" ∷ []) client ready
            ≡ joined (
                run_parts
                  (process commands fuel)
                  pss
                  client
                  (append_to_aof (codes "EXEC") started)))
  transaction_runs client pss s m fresh h = (
    process-multi commands fuel client s m,
    run_parts-queued pss client [] (multi client (append_to_aof (codes "MULTI") s))
          (unfold multi in refl) (unfold multi in lookup-insert_self client [] _) h
        ∙ (unfold multi in rw (insert-insert, transactions-append_to_aof)),
    process-exec client (map line_of pss) _
          (lookup-insert_self client (map line_of pss) s.transactions)
        ∙ ap joined (
            run_queue-run_parts (process commands fuel) (map line_of pss) client _
            ∙ rw (fields-lines pss h) (
                ap (run_parts (process commands fuel) pss client) (
                  session_restored (codes "EXEC") client (map line_of pss) s.transactions
                    (append_to_aof (codes "MULTI") s) fresh
                    (transactions-append_to_aof (codes "MULTI") s)
                    (multi-append_to_aof (codes "MULTI") s ∙ m)))),
  )
