-- ===== src/StreamCommands.antt =====
-- internal/storage/stream.go. A `*Stream` is held by one key, so a write through the pointer is a write
-- of that key's value. Each method holds `Mu` to its end, and the stream's own lock within it, which
-- nothing else takes.
pub mod Reading
pub mod Groups
use tealis.Base.{
  ℕ, ◌+◌, List, [], ◌∷◌, ◌++◌, Option, none, some, Bool, true, false, ◌&&◌, not, if◌then◌else◌,
  length, is_some,
}
use tealis.Base.Int.{ℤ, pos, ltb_ℤ, leb_ℤ}
use tealis.Base.Text.{Text, text_eq, text_lt, codes}
use tealis.Base.Dict.{Dict, lookup, insert, erase}
use tealis.Strconv.{itoa}
use tealis.Value
use tealis.Value.{Value, Stream, StreamEntry, ConsumerGroup, as_stream, and_then}
use tealis.Tealis.{Tealis, put}

-- `stream, ok := r.Store[key].(*Stream)`
abbrev pub stream_at : Text → Tealis → Option Stream
stream_at key s = and_then (lookup key s.store) as_stream

-- `if !ok { stream = &Stream{...} }`
abbrev pub stream_or_new : Option Stream → Stream
stream_or_new none = record { entries = []; consumer_groups = [] }
stream_or_new (some x) = x

-- `if id == "*"`: the time stands for it.
abbrev pub given_id : Text → ℤ → Text
given_id id now = if text_eq id (codes "*") then itoa now ++ codes "-0" else id

-- `XAdd`
unfoldable pub xadd : Text → Text → Dict Text → ℤ → Tealis → Text × Tealis
xadd key id fields now s =
    let x = stream_or_new (stream_at key s) in
    let entry : StreamEntry = record { id = given_id id now; fields = fields } in
    (
      given_id id now,
      put key
          (Value.stream
            (record { entries = x.entries ++ entry ∷ []; consumer_groups = x.consumer_groups }))
          s,
    )

-- `count > 0 && len(result) >= count`
abbrev pub full : ℤ → List StreamEntry → Bool
full count result = ltb_ℤ (pos 0) count && leb_ℤ count (pos (length result))

-- The loop of `XRead`, with the result so far.
unfoldable pub read_loop : List StreamEntry → Text → ℤ → List StreamEntry → List StreamEntry
read_loop [] start count result = result
read_loop (e ∷ es) start count result =
    let taken = result ++ e ∷ [] in
    let stop = read_loop es start count taken in
    let skip = read_loop es start count result in
    if text_lt start e.id then (if full count taken then taken else stop) else skip

abbrev pub entries_of : Option Stream → List StreamEntry
entries_of none = []
entries_of (some x) = x.entries

-- `XRead`
unfoldable pub xread : Text → Text → ℤ → Tealis → List StreamEntry
xread key start count s = read_loop (entries_of (stream_at key s)) start count []

-- The loop of `XRange`.
unfoldable pub range_loop : List StreamEntry → Text → Text → List StreamEntry
range_loop [] start end = []
range_loop (e ∷ es) start end =
    let rest = range_loop es start end in
    if not (text_lt e.id start) && not (text_lt end e.id) then e ∷ rest else rest

-- `XRange`
unfoldable pub xrange : Text → Text → Text → Tealis → List StreamEntry
xrange key start end s = range_loop (entries_of (stream_at key s)) start end

-- `XLen`
unfoldable pub xlen : Text → Tealis → ℕ
xlen key s = length (entries_of (stream_at key s))

-- `stream.ConsumerGroups[groupName] = group`
abbrev pub put_group : Text → Stream → Text → ConsumerGroup → Tealis → Tealis
put_group key x name group s =
    put key
      (Value.stream
        (record { entries = x.entries; consumer_groups = insert name group x.consumer_groups }))
      s

-- `XGroupCreate`
unfoldable pub xgroup_create : Text → Text → Tealis → Bool × Tealis
xgroup_create key name s = elim (stream_at key s) [
  | none ↦ (false, s)
  | some x ↦
      if is_some (lookup name x.consumer_groups)
      then (false, s)
      else (true, put_group key x name (record { consumers = []; pending = [] }) s)
]

-- What the loop of `XReadGroup` carries: the result, `group.Pending` and `consumer.Pending`.
pub record Handout : Type 0 where
  pub result : List StreamEntry
  pub pending : Dict StreamEntry
  pub consumer : List Text

abbrev pub hand_out : StreamEntry → Handout → Handout
hand_out e h = record {
  result = h.result ++ e ∷ [];
  pending = insert e.id e h.pending;
  consumer = h.consumer ++ e.id ∷ [];
}

-- The loop of `XReadGroup`.
unfoldable pub group_loop : List StreamEntry → Text → ℤ → Handout → Handout
group_loop [] start count h = h
group_loop (e ∷ es) start count h =
    let stop = group_loop es start count (hand_out e h) in
    let skip = group_loop es start count h in
    if text_lt start e.id
    then (if full count (hand_out e h).result then hand_out e h else stop)
    else skip

-- `consumer, exists := group.Consumers[consumerName]`
abbrev pub consumer_or_new : Option (List Text) → List Text
consumer_or_new none = []
consumer_or_new (some c) = c

-- The group after a read, and what was read.
abbrev pub group_read : List StreamEntry → Text → Text → ℤ → ConsumerGroup → Handout
group_read entries consumer start count group = group_loop entries start count (record {
  result = [];
  pending = group.pending;
  consumer = consumer_or_new (lookup consumer group.consumers);
})

-- `XReadGroup`
unfoldable pub xread_group : Text → Text → Text → Text → ℤ → Tealis → List StreamEntry × Tealis
xread_group key name consumer start count s = elim (stream_at key s) [
  | none ↦ ([], s)
  | some x ↦ elim (lookup name x.consumer_groups) [
    | none ↦ ([], s)
    | some group ↦
        let h = group_read x.entries consumer start count group in
        (
          h.result,
          put_group key x name
              (record {
                consumers = insert consumer h.consumer group.consumers;
                pending = h.pending;
              })
              s,
        )
  ]
]

-- The loop of `XAck`, with `ackCount`.
unfoldable pub ack_loop : List Text → ℕ → Dict StreamEntry → ℕ × Dict StreamEntry
ack_loop [] count pending = (count, pending)
ack_loop (id ∷ ids) count pending =
    ack_loop ids (if is_some (lookup id pending) then count + 1 else count)
      (if is_some (lookup id pending) then erase id pending else pending)

-- `XAck`
unfoldable pub xack : Text → Text → List Text → Tealis → ℕ × Tealis
xack key name ids s = elim (stream_at key s) [
  | none ↦ (0, s)
  | some x ↦ elim (lookup name x.consumer_groups) [
    | none ↦ (0, s)
    | some group ↦
        let (count, pending) = ack_loop ids 0 group.pending in
        (count, put_group key x name (record { consumers = group.consumers; pending = pending }) s)
  ]
]
