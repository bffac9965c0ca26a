-- ===== src/Handler.antt =====
-- ProcessCommand of internal/storage/handler.go: the switch over the commands that are modelled.
-- `lib` is what it takes from Go's libraries; `other` stands for the other cases.
pub mod Outside
pub mod Replies
pub mod Bits
pub mod Documents
pub mod Estimates
pub mod Series
pub mod Scores
pub mod Places
pub mod Vectors
pub mod Channels
pub mod Strings
pub mod Lists
pub mod Sets
pub mod Hashes
pub mod Streams
pub mod Kept
pub mod KeptBytes
pub mod KeptSets
pub mod Whole
pub mod Sessions
use tealis.Base.{ℕ, suc, List, [], ◌∷◌, Option, none, some}
use tealis.Base.Int.{ℤ, pos, negsuc}
use tealis.Base.Text.{Text, codes}
use tealis.Base.Dict.{Dict, lookup}
use tealis.Handler.Outside.{Library}
use tealis.Tealis.{Tealis, Action}
use tealis.Transactions.{Commands, Run, process}
use tealis.Handler.Strings.{
  set_command, get_command, del_command, exists_command, ttl_command, persist_command,
  append_command, strlen_command, step_command, incrby_command, decrby_command, getrange_command,
  setrange_command, quit_command, ex_command, keys_command,
}
use tealis.Handler.Lists.{
  lpush_command, rpush_command, lpop_command, rpop_command, llen_command, lrange_command,
}
use tealis.Handler.Sets.{sadd_command, smembers_command, srem_command, sismember_command}
use tealis.Handler.Streams.{
  xadd_command, xread_command, xrange_command, xlen_command, xgroup_command, xreadgroup_command,
  xack_command,
}
use tealis.Handler.Hashes.{
  hset_command, hget_command, hmset_command, hgetall_command, hdel_command, hexists_command,
}
use tealis.Handler.Bits.{
  setbit_command, getbit_command, bitcount_command, bitop_command, bitfield_command,
}
use tealis.Handler.Documents.{
  json_set_command, json_get_command, json_del_command, json_arr_append_command,
}
use tealis.Handler.Estimates.{pfadd_command, pfmerge_command, pfcount_command}
use tealis.Handler.Series.{ts_create_command, ts_add_command, ts_range_command, ts_get_command}
use tealis.Handler.Scores.{
  zadd_command, zrange_command, zrank_command, zrem_command, zrangebyscore_command,
}
use tealis.Handler.Places.{geoadd_command, geodist_command, georadius_command}
use tealis.Handler.Vectors.{vector_set_command, vector_get_command, vector_search_command}
use tealis.Handler.Channels.{subscribe_command, unsubscribe_command, publish_command}

module _ (lib : Library) (other : Commands) (now : ℤ) where
  -- The cases of the switch, which are distinct.
  unfoldable pub cases : Dict (List Text → Action Text)
  cases =
      (codes "SET", set_command now)
      ∷ (codes "GET", get_command now)
      ∷ (codes "DEL", del_command)
      ∷ (codes "EXISTS", exists_command)
      ∷ (codes "QUIT", quit_command)
      ∷ (codes "EX", ex_command lib now)
      ∷ (codes "TTL", ttl_command lib now)
      ∷ (codes "PERSIST", persist_command)
      ∷ (codes "APPEND", append_command)
      ∷ (codes "STRLEN", strlen_command)
      ∷ (codes "INCR", step_command (pos 1) (codes "-ERR INCR requires a key"))
      ∷ (codes "DECR", step_command (negsuc 0) (codes "-ERR DECR requires a key"))
      ∷ (codes "INCRBY", incrby_command)
      ∷ (codes "DECRBY", decrby_command)
      ∷ (codes "GETRANGE", getrange_command)
      ∷ (codes "SETRANGE", setrange_command)
      ∷ (codes "KEYS", keys_command lib)
      ∷ (codes "LPUSH", lpush_command)
      ∷ (codes "RPUSH", rpush_command)
      ∷ (codes "LPOP", lpop_command)
      ∷ (codes "RPOP", rpop_command)
      ∷ (codes "LLEN", llen_command)
      ∷ (codes "LRANGE", lrange_command)
      ∷ (codes "SADD", sadd_command)
      ∷ (codes "SMEMBERS", smembers_command)
      ∷ (codes "SREM", srem_command)
      ∷ (codes "SISMEMBER", sismember_command)
      ∷ (codes "HSET", hset_command)
      ∷ (codes "HGET", hget_command lib.shown)
      ∷ (codes "HMSET", hmset_command)
      ∷ (codes "HGETALL", hgetall_command lib.shown)
      ∷ (codes "HDEL", hdel_command)
      ∷ (codes "HEXISTS", hexists_command)
      ∷ (codes "XADD", xadd_command now)
      ∷ (codes "XREAD", xread_command lib.shown_map)
      ∷ (codes "XRANGE", xrange_command lib.shown_map)
      ∷ (codes "XLEN", xlen_command)
      ∷ (codes "XGROUP", xgroup_command)
      ∷ (codes "XREADGROUP", xreadgroup_command lib.shown_map)
      ∷ (codes "XACK", xack_command)
      ∷ (codes "SETBIT", setbit_command)
      ∷ (codes "GETBIT", getbit_command)
      ∷ (codes "BITCOUNT", bitcount_command)
      ∷ (codes "BITOP", bitop_command)
      ∷ (codes "BITFIELD", bitfield_command lib.spare)
      ∷ (codes "JSON.SET", json_set_command lib)
      ∷ (codes "JSON.GET", json_get_command lib)
      ∷ (codes "JSON.DEL", json_del_command lib)
      ∷ (codes "JSON.ARRAPPEND", json_arr_append_command lib)
      ∷ (codes "PFADD", pfadd_command lib.arithmetic)
      ∷ (codes "PFMERGE", pfmerge_command lib.arithmetic)
      ∷ (codes "PFCOUNT", pfcount_command lib.arithmetic)
      ∷ (codes "TS.CREATE", ts_create_command)
      ∷ (codes "TS.ADD", ts_add_command lib)
      ∷ (codes "TS.RANGE", ts_range_command lib)
      ∷ (codes "TS.GET", ts_get_command lib)
      ∷ (codes "ZADD", zadd_command lib now)
      ∷ (codes "ZRANGE", zrange_command)
      ∷ (codes "ZRANK", zrank_command)
      ∷ (codes "ZREM", zrem_command)
      ∷ (codes "ZRANGEBYSCORE", zrangebyscore_command lib)
      ∷ (codes "GEOADD", geoadd_command lib)
      ∷ (codes "GEODIST", geodist_command lib)
      ∷ (codes "GEORADIUS", georadius_command lib)
      ∷ (codes "VECTOR.GET", vector_get_command lib)
      ∷ (codes "VECTOR.SEARCH", vector_search_command lib)
      ∷ []

  -- The cases that change what the others leave alone: the subscribers, or the append-only file.
  unfoldable pub session_cases : Dict (Text → List Text → Action Text)
  session_cases =
      (codes "SUBSCRIBE", subscribe_command)
      ∷ (codes "SUB", subscribe_command)
      ∷ (codes "UNSUBSCRIBE", unsubscribe_command)
      ∷ (codes "PUBLISH", publish_command)
      ∷ (codes "PUB", publish_command)
      ∷ (codes "VECTOR.SET", λ client parts. vector_set_command lib parts)
      ∷ []

  session_case : Option (Text → List Text → Action Text) → Commands
  session_case none command parts client = other command parts client
  session_case (some run) command parts client = run client parts

  -- The case that is taken.
  taken_case : Option (List Text → Action Text) → Commands
  unfolding session_cases session_case
  taken_case none command parts client =
      session_case (lookup command session_cases) command parts client
  taken_case (some run) command parts client = run parts

  unfoldable pub commands : Commands
  unfolding cases taken_case
  commands command = taken_case (lookup command cases) command

  -- `ProcessCommand` at one instant.
  unfoldable pub process_command : ℕ → Run
  unfolding commands
  process_command = process commands
