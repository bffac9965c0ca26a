-- ===== src/Handler/Whole.antt =====
-- The whole of ProcessCommand (internal/storage/handler.go) on the switch that is modelled.
use tealis.Base.{
  ℕ, ◌+◌, ◌≤◌, ◌<◌, List, [], ◌∷◌, none, some, Outcome, ◌≡◌, sym, ap, arith, inl, inr, Bool-cases,
  Option-cases,
}
use tealis.Base.Int.{ℤ, pos, negsuc}
use tealis.Base.Text.{Text, codes, text_eq}
use tealis.Base.Dict.{Dict, lookup}
use tealis.Handler.Outside.{Library}
use tealis.Tealis.{Tealis, Action}
use tealis.Transactions.{Commands}
use tealis.Transactions.Nesting.{process_outcome, queue_length}
use tealis.Transactions.Endings.{Ending}
use tealis.Handler.{cases, session_cases, commands, process_command}
use tealis.Handler.Kept.{
  xadd_command-Keeps, xread_command-Keeps, xrange_command-Keeps, xlen_command-Keeps,
  xgroup_command-Keeps, xreadgroup_command-Keeps, xack_command-Keeps, Session, Keeps,
  set_command-Keeps, get_command-Keeps, del_command-Keeps, exists_command-Keeps, ttl_command-Keeps,
  persist_command-Keeps, append_command-Keeps, strlen_command-Keeps, step_command-Keeps,
  incrby_command-Keeps, decrby_command-Keeps, getrange_command-Keeps, setrange_command-Keeps,
  lpush_command-Keeps, rpush_command-Keeps, lpop_command-Keeps, rpop_command-Keeps,
  llen_command-Keeps, lrange_command-Keeps, sadd_command-Keeps, smembers_command-Keeps,
  srem_command-Keeps, sismember_command-Keeps, hset_command-Keeps, hget_command-Keeps,
  hmset_command-Keeps, hgetall_command-Keeps, hdel_command-Keeps, hexists_command-Keeps,
}
use tealis.Handler.KeptBytes.{
  setbit_command-Keeps, getbit_command-Keeps, bitcount_command-Keeps, bitop_command-Keeps,
  bitfield_command-Keeps, json_set_command-Keeps, json_get_command-Keeps, json_del_command-Keeps,
  json_arr_append_command-Keeps, pfadd_command-Keeps, pfmerge_command-Keeps, pfcount_command-Keeps,
  ts_create_command-Keeps, ts_add_command-Keeps, ts_range_command-Keeps, ts_get_command-Keeps,
}
use tealis.Handler.KeptSets.{
  quit_command-Keeps, ex_command-Keeps, keys_command-Keeps, zadd_command-Keeps,
  zrange_command-Keeps, zrank_command-Keeps, zrem_command-Keeps, zrangebyscore_command-Keeps,
  geoadd_command-Keeps, geodist_command-Keeps, georadius_command-Keeps, vector_get_command-Keeps,
  vector_search_command-Keeps, KeepsQueues, subscribe_command-queues, unsubscribe_command-queues,
  publish_command-queues, vector_set_command-queues,
}

-- Each case of a table leaves the session alone.
abbrev AllKeep : Dict (List Text → Action Text) → Type 0
AllKeep [] = Unit
AllKeep ((_, run) ∷ d) = ((parts : List Text) → Keeps (run parts)) × AllKeep d

-- A pair, as an operator.
infixr 5 ◌also◌
abbrev ◌also◌ : {A : Type 0} → {B : Type 0} → A → B → A × B
a also b = (a, b)

lookup-AllKeep :
    (d : Dict (List Text → Action Text))
    → AllKeep d
    → (command : Text) (run : List Text → Action Text) → lookup command d ≡ some run
    → (parts : List Text) → Keeps (run parts)
unfolding lookup
lookup-AllKeep [] h command run e parts = absurd (ground arith)
lookup-AllKeep ((c, f) ∷ d) h command run e parts = elim (Bool-cases (text_eq c command)) [
  | inl here ↦ let same : f ≡ run = ground arith in rw (sym same) (h.0 parts)
  | inr there ↦ lookup-AllKeep d h.1 command run (ground arith) parts
]

abbrev AllKeepQueues : Dict (Text → List Text → Action Text) → Type 0
AllKeepQueues [] = Unit
AllKeepQueues ((_, run) ∷ d) =
    ((client : Text) (parts : List Text) → KeepsQueues (run client parts)) × AllKeepQueues d

lookup-AllKeepQueues :
    (d : Dict (Text → List Text → Action Text))
    → AllKeepQueues d
    → (command : Text) (run : Text → List Text → Action Text) → lookup command d ≡ some run
    → (client : Text) (parts : List Text) → KeepsQueues (run client parts)
unfolding lookup
lookup-AllKeepQueues [] h command run e client parts = absurd (ground arith)
lookup-AllKeepQueues ((c, f) ∷ d) h command run e client parts =
    elim (Bool-cases (text_eq c command)) [
      | inl here ↦ let same : f ≡ run = ground arith in rw (sym same) (h.0 client parts)
      | inr there ↦ lookup-AllKeepQueues d h.1 command run (ground arith) client parts
    ]

module _ (lib : Library) (other : Commands) (now : ℤ) where
  cases-AllKeep : AllKeep (cases lib other now)
  unfolding cases
  cases-AllKeep =
      (set_command-Keeps now)
      also (get_command-Keeps now)
      also del_command-Keeps
      also exists_command-Keeps
      also quit_command-Keeps
      also (ex_command-Keeps lib now)
      also (ttl_command-Keeps lib now)
      also persist_command-Keeps
      also append_command-Keeps
      also strlen_command-Keeps
      also (step_command-Keeps (pos 1) (codes "-ERR INCR requires a key"))
      also (step_command-Keeps (negsuc 0) (codes "-ERR DECR requires a key"))
      also incrby_command-Keeps
      also decrby_command-Keeps
      also getrange_command-Keeps
      also setrange_command-Keeps
      also (keys_command-Keeps lib)
      also lpush_command-Keeps
      also rpush_command-Keeps
      also lpop_command-Keeps
      also rpop_command-Keeps
      also llen_command-Keeps
      also lrange_command-Keeps
      also sadd_command-Keeps
      also smembers_command-Keeps
      also srem_command-Keeps
      also sismember_command-Keeps
      also hset_command-Keeps
      also (hget_command-Keeps lib.shown)
      also hmset_command-Keeps
      also (hgetall_command-Keeps lib.shown)
      also hdel_command-Keeps
      also hexists_command-Keeps
      also (xadd_command-Keeps now)
      also (xread_command-Keeps lib.shown_map)
      also (xrange_command-Keeps lib.shown_map)
      also xlen_command-Keeps
      also xgroup_command-Keeps
      also (xreadgroup_command-Keeps lib.shown_map)
      also xack_command-Keeps
      also setbit_command-Keeps
      also getbit_command-Keeps
      also bitcount_command-Keeps
      also bitop_command-Keeps
      also (bitfield_command-Keeps lib.spare)
      also (json_set_command-Keeps lib)
      also (json_get_command-Keeps lib)
      also (json_del_command-Keeps lib)
      also (json_arr_append_command-Keeps lib)
      also (pfadd_command-Keeps lib.arithmetic)
      also (pfmerge_command-Keeps lib.arithmetic)
      also (pfcount_command-Keeps lib.arithmetic)
      also ts_create_command-Keeps
      also (ts_add_command-Keeps lib)
      also (ts_range_command-Keeps lib)
      also (ts_get_command-Keeps lib)
      also (zadd_command-Keeps lib now)
      also zrange_command-Keeps
      also zrank_command-Keeps
      also zrem_command-Keeps
      also (zrangebyscore_command-Keeps lib)
      also (geoadd_command-Keeps lib)
      also (geodist_command-Keeps lib)
      also (georadius_command-Keeps lib)
      also (vector_get_command-Keeps lib)
      also (vector_search_command-Keeps lib)
      also tt

  session_cases-queues :
      (command : Text) (run : Text → List Text → Action Text)
      → lookup command (session_cases lib other now) ≡ some run
      → (client : Text) (parts : List Text) → KeepsQueues (run client parts)
  unfolding session_cases
  session_cases-queues = lookup-AllKeepQueues (session_cases lib other now) (
      subscribe_command-queues
      also subscribe_command-queues
      also unsubscribe_command-queues
      also publish_command-queues
      also publish_command-queues
      also (λ (client : Text). vector_set_command-queues lib)
      also tt)

  -- A command of the switch leaves the transactions, `multi`, the append-only file and the subscribers as
  -- they are, if it is none of those of channels nor VECTOR.SET, and the cases that are not modelled do so
  -- too.
  pub commands-session :
      ((command : Text) (parts : List Text) (client : Text) → Keeps (other command parts client))
      → (command : Text) (parts : List Text) (client : Text)
      → lookup command (session_cases lib other now) ≡ none
      → Keeps (commands lib other now command parts client)
  unfolding commands
  commands-session kept command parts client e s =
      elim (Option-cases (lookup command (cases lib other now))) [
        | inl missing ↦ rw (missing, e) (kept command parts client s)
        | inr (run, found) ↦
            rw found (lookup-AllKeep (cases lib other now) cases-AllKeep command run found parts s)
      ]

  commands-queues :
      ((command : Text) (parts : List Text) (client : Text) → Keeps (other command parts client))
      → (command : Text) (parts : List Text) (client : Text)
      → KeepsQueues (commands lib other now command parts client)
  unfolding commands
  commands-queues kept command parts client s =
      elim (Option-cases (lookup command (session_cases lib other now))) [
        | inl missing ↦
            ap (λ (t : Session). t.0) (commands-session kept command parts client missing s)
        | inr (run, found) ↦ elim (Option-cases (lookup command (cases lib other now))) [
          | inl missing ↦
              rw (missing, found) (session_cases-queues command run found client parts s)
          | inr (case, here) ↦ rw here (
              ap (λ (t : Session). t.0)
                (lookup-AllKeep (cases lib other now) cases-AllKeep command case here parts s))
        ]
      ]

  -- EXEC runs ProcessCommand again on the commands that are queued, but not for ever: with fuel for one EXEC more than the client has commands queued, ProcessCommand has an outcome, and at most one command more is queued than before. Either the outcome is a response, in a state that is reached by lines of the append-only file and the queue, by MULTI, DISCARD and the starts of EXEC, and by cases of the switch that return; or it is a panic, or that ProcessCommand never returns, and then a case of the switch, in a state that is reached so, has that outcome and leaves that state. This is so if the cases that are not modelled leave the session alone.
  pub process_command_outcome :
      ((command : Text) (parts : List Text) (client : Text) → Keeps (other command parts client))
      → (fuel : ℕ) (parts : List Text) (client : Text) (s : Tealis) → queue_length client s < fuel
      → (o : Outcome Text) × (s' : Tealis) × (process_command lib other now fuel parts client s
          ≡ some (o, s'))
        × (queue_length client s' ≤ queue_length client s + 1)
        × Ending (commands lib other now) client o s s'
  unfolding process_command
  process_command_outcome kept fuel parts client s h =
      process_outcome (commands lib other now) (commands-queues kept) client fuel parts s h
