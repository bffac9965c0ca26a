-- ===== src/Tealis.antt =====
-- The server's state, `Tealis` of internal/storage/tealis.go, less the connections and the files.
-- Instants are nanoseconds, and durations too.
pub mod Expiry
use tealis.Base.{List, Option, Bool, Outcome}
use tealis.Base.Int.{ℤ}
use tealis.Base.Text.{Text}
use tealis.Base.Dict.{Dict, insert, erase}
use tealis.Base.{ℕ}
use tealis.Value.{Value}

pub record Tealis : Type 0 where
  pub store : Dict Value
  pub expiries : Dict ℤ
  -- client ID → queued commands
  pub transactions : Dict (List Text)
  -- channel → client ID → the messages in its buffered Go channel
  pub pubsub_subscribers : Dict (Dict (List Text))
  pub multi : Bool
  pub enable_aof : Bool
  -- the lines of the append-only file, if `AofFile` is not nil
  pub aof_file : Option (List Text)
  -- the arrays behind the `[]byte` values
  pub arrays : List (List ℕ)

-- A method: what it returns, or how it fails, and the state that it leaves.
abbrev pub Action : Type 0 → Type 0
Action A = Tealis → Outcome A × Tealis

-- `r.Store[key] = v`
abbrev pub put : Text → Value → Tealis → Tealis
put k v s = record s { store = insert k v s.store }

-- `delete(r.Store, key)` and `delete(r.Expiries, key)`
abbrev pub drop_key : Text → Tealis → Tealis
drop_key k s = record s { store = erase k s.store; expiries = erase k s.expiries }
