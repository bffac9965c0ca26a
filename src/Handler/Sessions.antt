-- ===== src/Handler/Sessions.antt =====
-- A command of the switch on its way through ProcessCommand (internal/storage/handler.go).
use tealis.Base.{ℕ, suc, List, [], ◌∷◌, some, false, ok, ◌≡◌, refl, ap, ◌∙◌, arith}
use tealis.Base.Int.{ℤ, pos, wrap64}
use tealis.Base.Text.{Text, codes, text_eq, text_eq_refl}
use tealis.Base.Dict.{lookup}
use tealis.Strings.{to_upper}
use tealis.Handler.Outside.{Library}
use tealis.Tealis.{Tealis, Action}
use tealis.Mutex.{rlock, lock}
use tealis.Transactions.{Commands, process, process_with, append_to_aof, line_of, ends}
use tealis.Transactions.Queueing.{multi-append_to_aof}
use tealis.StringCommands.{get, set}
use tealis.StringCommands.ReadWrite.{get-set, get_deadlock}
use tealis.Handler.Replies.{bulk}
use tealis.Handler.Strings.{get_command, set_command}
use tealis.Handler.{cases, commands, process_command}

module _ (lib : Library) (other : Commands) where
  -- Outside of a transaction, a command of the table runs after its line went to the append-only file.
  process-case :
      (now : ℤ) (fuel : ℕ) (p : Text) (ps : List Text) (run : List Text → Action Text)
      (client : Text) (s : Tealis)
      → s.multi ≡ false
      → text_eq (to_upper p) (codes "MULTI") ≡ false
      → ends (to_upper p) ≡ false
      → lookup (to_upper p) (cases lib other now) ≡ some run
      → process_command lib other now (suc fuel) (p ∷ ps) client s
        ≡ some (run (p ∷ ps) (append_to_aof (line_of (p ∷ ps)) s))
  unfolding process_command process process_with commands
  process-case now fuel p ps run client s m h e l = ground arith

get-append_to_aof :
    (key line : Text) (t : ℤ) (s : Tealis) → (get key t (append_to_aof line s)).0 ≡ (get key t s).0
unfolding get append_to_aof rlock lock
get-append_to_aof key line t s = ground arith

get_command-found :
    (p key value : Text) (t : ℤ) (s : Tealis)
    → (get key t s).0 ≡ ok (some value)
    → get_command t (p ∷ key ∷ []) s ≡ (ok (bulk value), s)
unfolding get_command
get_command-found p key value t s h =
    let same = (get_deadlock key t s).0 in
    let both : get key t s ≡ (ok (some value), s) = ground arith in rw both refl

get-set_self :
    (key value line : Text) (now t : ℤ) (s : Tealis)
    → (get key t (append_to_aof line (set key value (pos 0) now s))).0 ≡ ok (some value)
get-set_self key value line now t s =
    get-append_to_aof key line t (set key value (pos 0) now s)
    ∙ get-set key key value (pos 0) now t s
    ∙ rw text_eq_refl refl

module _ (lib : Library) (other : Commands) where
  -- Outside of a transaction, `SET key value` is answered +OK, and a `GET key` after it with the value, at
  -- any time, whatever the key held before and whether it had an expiry.
  pub set-get :
      (now t : ℤ) (fuel : ℕ) (key value client : Text) (s : Tealis)
      → s.multi ≡ false
      → (s' : Tealis) × (s'' : Tealis) × (process_command lib other now
            (suc fuel)
            (codes "SET" ∷ key ∷ value ∷ [])
            client
            s
          ≡ some (ok (codes "+OK"), s'))
        × (process_command lib other t (suc fuel) (codes "GET" ∷ key ∷ []) client s'
            ≡ some (ok (bulk value), s''))
  unfolding to_upper text_eq cases lookup wrap64
  set-get now t fuel key value client s m =
      let s1 : Tealis = append_to_aof (line_of (codes "SET" ∷ key ∷ value ∷ [])) s in
      let s2 : Tealis = set key value (pos 0) now s1 in
      let s3 : Tealis = append_to_aof (line_of (codes "GET" ∷ key ∷ [])) s2 in
      (
        s2,
        s3,
        process-case lib other now fuel (codes "SET") (key ∷ value ∷ []) (set_command now) client s
              m refl refl refl
            ∙ (unfold set_command in refl),
        process-case lib other t fuel (codes "GET") (key ∷ []) (get_command t) client s2
              (unfold set in multi-append_to_aof _ s ∙ m) refl refl refl
            ∙ ap some (
                get_command-found (codes "GET") key value t s3 (get-set_self key value _ now t s1)),
      )
