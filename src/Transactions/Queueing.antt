-- ===== src/Transactions/Queueing.antt =====
-- Commands that are sent while a transaction is open (MULTI and APPENDTO of internal/storage/tealis.go under ProcessCommand of internal/storage/handler.go).
use tealis.Base.{
  ℕ, suc, List, [], ◌∷◌, ◌++◌, none, some, true, false, ok, ◌≡◌, ◌≢◌, refl, ap, ◌∙◌, arith,
}
use tealis.Base.Text.{Text, text_eq, codes}
use tealis.Base.Dict.{lookup, insert, lookup-insert_ne}
use tealis.Strings.{join, to_upper}
use tealis.Tealis.{Tealis}
use tealis.Transactions.{
  crlf, multi, append_to, append_to_aof, ends, line_of, Commands, queued, process,
}

-- A command that a transaction takes up.
abbrev pub IsQueued : List Text → Type 0
IsQueued [] = ⊥
IsQueued (p ∷ ps) = ends (to_upper p) ≡ false

pub append_to-absent :
    (client line : Text) (s : Tealis)
    → lookup client s.transactions ≡ none
    → append_to client line s ≡ (codes "- appendto ERR No transaction started" ++ crlf, s)
unfolding append_to
append_to-absent client line s e = ground arith

pub append_to-open :
    (client line : Text) (queue : List Text) (s : Tealis)
    → lookup client s.transactions ≡ some queue
    → append_to client line s ≡ (
      codes "+QUEUED" ++ crlf,
      record s { transactions = insert client (queue ++ line ∷ []) s.transactions },
    )
unfolding append_to
append_to-open client line queue s e = ground arith

-- The file of commands is no part of a transaction.
pub transactions-append_to_aof :
    (line : Text) (s : Tealis) → (append_to_aof line s).transactions ≡ s.transactions
unfolding append_to_aof
transactions-append_to_aof line s = ground arith

pub multi-append_to_aof : (line : Text) (s : Tealis) → (append_to_aof line s).multi ≡ s.multi
unfolding append_to_aof
multi-append_to_aof line s = ground arith

module _ (commands : Commands) (fuel : ℕ) where
  pub process-queued :
      (parts : List Text) (client : Text) (s : Tealis)
      → s.multi ≡ true
      → IsQueued parts
      → process commands (suc fuel) parts client s ≡ queued (append_to client (line_of parts) s)
  unfolding process
  process-queued [] client s m h = elim h [ ]
  process-queued (p ∷ ps) client s m h = rw (m, h)

  -- The state in which MULTI leaves the server.
  pub process-multi :
      (client : Text) (s : Tealis)
      → s.multi ≡ false
      → process commands (suc fuel) (codes "MULTI" ∷ []) client s
        ≡ some (ok (codes "+OK MULTI" ++ crlf), multi client (append_to_aof (codes "MULTI") s))
  unfolding process multi text_eq to_upper join
  process-multi client s m = rw m

  blocked_queue :
      (a b : Text) (s : Tealis)
      → a ≢ b
      → lookup b s.transactions ≡ none
      → lookup b (multi a (append_to_aof (codes "MULTI") s)).transactions ≡ none
  unfolding multi
  blocked_queue a b s ne absent =
      rw transactions-append_to_aof (lookup-insert_ne b a [] s.transactions ne ∙ absent)

  -- `multi` is one flag for all clients. While it is set by the transaction of one client, every
  -- command of a client that has none, other than EXEC and DISCARD, is refused and changes nothing.
  pub other_client_blocked :
      (a b : Text) (parts : List Text) (s : Tealis)
      → s.multi ≡ false
      → a ≢ b
      → lookup b s.transactions ≡ none
      → IsQueued parts
      → (s' : Tealis) × (process commands (suc fuel) (codes "MULTI" ∷ []) a s
          ≡ some (ok (codes "+OK MULTI" ++ crlf), s'))
        × (process commands (suc fuel) parts b s'
            ≡ some (ok (codes "- appendto ERR No transaction started" ++ crlf), s'))
  other_client_blocked a b parts s m ne absent h =
      let s' : Tealis = multi a (append_to_aof (codes "MULTI") s) in
      (
        s',
        process-multi a s m,
        process-queued parts b s' (unfold multi in refl) h
            ∙ ap queued (append_to-absent b (line_of parts) s' (blocked_queue a b s ne absent)),
      )
