-- ===== src/Handler/Kept.antt =====
-- What the cases of the switch leave alone (internal/storage/handler.go): the queues of transactions,
-- the flag `multi`, the append-only file and the subscribers.
use tealis.Base.{List, Option, Bool, ◌≡◌, arith}
use tealis.Base.Int.{ℤ}
use tealis.Base.Text.{Text}
use tealis.Base.Dict.{Dict}
use tealis.Value.{Json}
use tealis.Tealis.{Tealis, Action}
use tealis.Tealis.Expiry.{persist}
use tealis.StringCommands.{set, get, del, append, incr_by, set_range}
use tealis.ListCommands.{rpush, lpush, rpop, lpop}
use tealis.SetCommands.{sadd, srem}
use tealis.HashCommands.{hset, hdel, hmset}
use tealis.Handler.Outside.{Library}
use tealis.Handler.Strings.{
  set_command, get_command, del_command, exists_command, ttl_command, persist_command,
  append_command, strlen_command, step_command, incrby_command, decrby_command, getrange_command,
  setrange_command,
}
use tealis.Handler.Lists.{
  lpush_command, rpush_command, lpop_command, rpop_command, llen_command, lrange_command,
}
use tealis.Handler.Sets.{sadd_command, smembers_command, srem_command, sismember_command}
use tealis.Handler.Streams.{
  xadd_command, xread_command, xrange_command, xlen_command, xgroup_command, xreadgroup_command,
  xack_command,
}
use tealis.StreamCommands.{xadd, xgroup_create, xread_group, xack}
use tealis.Handler.Hashes.{
  hset_command, hget_command, hmset_command, hgetall_command, hdel_command, hexists_command,
}

-- The parts of the state that only MULTI, EXEC, DISCARD, SUBSCRIBE and the like change.
abbrev pub Session : Type 0
Session = Dict (List Text) × Bool × Bool × Option (List Text) × Dict (Dict (List Text))

abbrev pub session : Tealis → Session
session s = (s.transactions, s.multi, s.enable_aof, s.aof_file, s.pubsub_subscribers)

abbrev pub Keeps : {A : Type 0} → Action A → Type 0
Keeps f = (s : Tealis) → session (f s).1 ≡ session s

pub set_command-Keeps : (now : ℤ) (parts : List Text) → Keeps (set_command now parts)
unfolding set_command set
set_command-Keeps now parts s = ground arith

pub get_command-Keeps : (now : ℤ) (parts : List Text) → Keeps (get_command now parts)
unfolding get_command get
get_command-Keeps now parts s = ground arith

pub del_command-Keeps : (parts : List Text) → Keeps (del_command parts)
unfolding del_command del
del_command-Keeps parts s = ground arith

pub exists_command-Keeps : (parts : List Text) → Keeps (exists_command parts)
unfolding exists_command
exists_command-Keeps parts s = ground arith

pub ttl_command-Keeps :
    (lib : Library) (now : ℤ) (parts : List Text) → Keeps (ttl_command lib now parts)
unfolding ttl_command
ttl_command-Keeps lib now parts s = ground arith

pub persist_command-Keeps : (parts : List Text) → Keeps (persist_command parts)
unfolding persist_command persist
persist_command-Keeps parts s = ground arith

pub append_command-Keeps : (parts : List Text) → Keeps (append_command parts)
unfolding append_command append
append_command-Keeps parts s = ground arith

pub strlen_command-Keeps : (parts : List Text) → Keeps (strlen_command parts)
unfolding strlen_command
strlen_command-Keeps parts s = ground arith

pub step_command-Keeps :
    (n : ℤ) (complaint : Text) (parts : List Text) → Keeps (step_command n complaint parts)
unfolding step_command incr_by
step_command-Keeps n complaint parts s = ground arith

pub incrby_command-Keeps : (parts : List Text) → Keeps (incrby_command parts)
unfolding incrby_command incr_by
incrby_command-Keeps parts s = ground arith

pub decrby_command-Keeps : (parts : List Text) → Keeps (decrby_command parts)
unfolding decrby_command incr_by
decrby_command-Keeps parts s = ground arith

pub getrange_command-Keeps : (parts : List Text) → Keeps (getrange_command parts)
unfolding getrange_command
getrange_command-Keeps parts s = ground arith

pub setrange_command-Keeps : (parts : List Text) → Keeps (setrange_command parts)
unfolding setrange_command set_range
setrange_command-Keeps parts s = ground arith

pub lpush_command-Keeps : (parts : List Text) → Keeps (lpush_command parts)
unfolding lpush_command lpush
lpush_command-Keeps parts s = ground arith

pub rpush_command-Keeps : (parts : List Text) → Keeps (rpush_command parts)
unfolding rpush_command rpush
rpush_command-Keeps parts s = ground arith

pub lpop_command-Keeps : (parts : List Text) → Keeps (lpop_command parts)
unfolding lpop_command lpop
lpop_command-Keeps parts s = ground arith

pub rpop_command-Keeps : (parts : List Text) → Keeps (rpop_command parts)
unfolding rpop_command rpop
rpop_command-Keeps parts s = ground arith

pub llen_command-Keeps : (parts : List Text) → Keeps (llen_command parts)
unfolding llen_command
llen_command-Keeps parts s = ground arith

pub lrange_command-Keeps : (parts : List Text) → Keeps (lrange_command parts)
unfolding lrange_command
lrange_command-Keeps parts s = ground arith

pub sadd_command-Keeps : (parts : List Text) → Keeps (sadd_command parts)
unfolding sadd_command sadd
sadd_command-Keeps parts s = ground arith

pub smembers_command-Keeps : (parts : List Text) → Keeps (smembers_command parts)
unfolding smembers_command
smembers_command-Keeps parts s = ground arith

pub srem_command-Keeps : (parts : List Text) → Keeps (srem_command parts)
unfolding srem_command srem
srem_command-Keeps parts s = ground arith

pub sismember_command-Keeps : (parts : List Text) → Keeps (sismember_command parts)
unfolding sismember_command
sismember_command-Keeps parts s = ground arith

pub hset_command-Keeps : (parts : List Text) → Keeps (hset_command parts)
unfolding hset_command hset
hset_command-Keeps parts s = ground arith

pub hget_command-Keeps :
    (shown : Json → Text) (parts : List Text) → Keeps (hget_command shown parts)
unfolding hget_command
hget_command-Keeps shown parts s = ground arith

pub hmset_command-Keeps : (parts : List Text) → Keeps (hmset_command parts)
unfolding hmset_command hmset
hmset_command-Keeps parts s = ground arith

pub hgetall_command-Keeps :
    (shown : Json → Text) (parts : List Text) → Keeps (hgetall_command shown parts)
unfolding hgetall_command
hgetall_command-Keeps shown parts s = ground arith

pub hdel_command-Keeps : (parts : List Text) → Keeps (hdel_command parts)
unfolding hdel_command hdel
hdel_command-Keeps parts s = ground arith

pub hexists_command-Keeps : (parts : List Text) → Keeps (hexists_command parts)
unfolding hexists_command
hexists_command-Keeps parts s = ground arith

pub xadd_command-Keeps : (now : ℤ) (parts : List Text) → Keeps (xadd_command now parts)
unfolding xadd_command xadd
xadd_command-Keeps now parts s = ground arith

pub xread_command-Keeps :
    (shown_map : Dict Text → Text) (parts : List Text) → Keeps (xread_command shown_map parts)
unfolding xread_command
xread_command-Keeps shown_map parts s = ground arith

pub xrange_command-Keeps :
    (shown_map : Dict Text → Text) (parts : List Text) → Keeps (xrange_command shown_map parts)
unfolding xrange_command
xrange_command-Keeps shown_map parts s = ground arith

pub xlen_command-Keeps : (parts : List Text) → Keeps (xlen_command parts)
unfolding xlen_command
xlen_command-Keeps parts s = ground arith

pub xgroup_command-Keeps : (parts : List Text) → Keeps (xgroup_command parts)
unfolding xgroup_command xgroup_create
xgroup_command-Keeps parts s = ground arith

pub xreadgroup_command-Keeps :
    (shown_map : Dict Text → Text) (parts : List Text) → Keeps (xreadgroup_command shown_map parts)
unfolding xreadgroup_command xread_group
xreadgroup_command-Keeps shown_map parts s = ground arith

pub xack_command-Keeps : (parts : List Text) → Keeps (xack_command parts)
unfolding xack_command xack
xack_command-Keeps parts s = ground arith
