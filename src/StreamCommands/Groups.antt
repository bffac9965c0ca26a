-- ===== src/StreamCommands/Groups.antt =====
-- What XREADGROUP hands out and XACK takes back (internal/storage/stream.go).
use tealis.Base.{
  ℕ, ◌+◌, List, [], ◌∷◌, ◌++◌, append_assoc, append-nil, Option, none, some, Bool, false, ◌||◌,
  if◌then◌else◌, length, ◌≡◌, refl, sym, ap, arith, inl, inr, Bool-cases, is_some,
}
use tealis.Base.Int.{ℤ}
use tealis.Base.Text.{Text, text_eq, text_eq_iff, text_lt}
use tealis.Base.Dict.{
  Dict, IsDict, lookup, insert, erase, lookup-insert, lookup-insert_self, lookup-erase,
  length-erase, erase-IsDict,
}
use tealis.Value.{Value, Stream, StreamEntry, ConsumerGroup, as_stream}
use tealis.Tealis.{Tealis}
use tealis.StreamCommands.{
  stream_at, full, read_loop, Handout, hand_out, group_loop, ack_loop, put_group, xread,
  xread_group, xack, consumer_or_new, group_read,
}

-- The IDs of entries.
abbrev pub ids : List StreamEntry → List Text
ids [] = []
ids (e ∷ es) = e.id ∷ ids es

abbrev pub mentions : List Text → Text → Bool
mentions [] id = false
mentions (i ∷ is) id = text_eq i id || mentions is id

group_loop-result :
    (es : List StreamEntry) (start : Text) (count : ℤ) (h : Handout)
    → (group_loop es start count h).result ≡ read_loop es start count h.result
unfolding group_loop read_loop
group_loop-result [] start count h = refl
group_loop-result (e ∷ es) start count h =
    ground
      (arith, group_loop-result es start count h, group_loop-result es start count (hand_out e h))

-- What is kept of a hand-out h with regard to the group's state before it.
record Tracked (pending : Dict StreamEntry) (consumer : List Text) (h : Handout) : Type 0 where
  pub consumed : h.consumer ≡ consumer ++ ids h.result
  pub held :
      (id : Text)
      → is_some (lookup id h.pending) ≡ (mentions (ids h.result) id || is_some (lookup id pending))

ids-append : (es : List StreamEntry) (e : StreamEntry) → ids (es ++ e ∷ []) ≡ ids es ++ e.id ∷ []
ids-append [] e = refl
ids-append (d ∷ es) e = ap (◌∷◌ d.id) (ids-append es e)

mentions-append :
    (is js : List Text) (id : Text) → mentions (is ++ js) id ≡ (mentions is id || mentions js id)
mentions-append [] js id = refl
mentions-append (i ∷ is) js id = ground (arith, mentions-append is js id)

hand_out-Tracked :
    (pending : Dict StreamEntry) (consumer : List Text) (e : StreamEntry) (h : Handout)
    → Tracked pending consumer h
    → Tracked pending consumer (hand_out e h)
hand_out-Tracked pending consumer e h t = record {
  consumed = rw (t.consumed, ids-append, append_assoc) refl;
  held = λ id.
      rw (ids-append, mentions-append)
        (ground (arith, t.held id, lookup-insert id e.id e h.pending));
}

group_loop-Tracked :
    (es : List StreamEntry) (start : Text) (count : ℤ) (pending : Dict StreamEntry)
    (consumer : List Text) (h : Handout)
    → Tracked pending consumer h
    → Tracked pending consumer (group_loop es start count h)
unfolding group_loop
group_loop-Tracked [] start count pending consumer h t = t
group_loop-Tracked (e ∷ es) start count pending consumer h t =
    elim (Bool-cases (text_lt start e.id)) [
      | inr skip ↦ rw skip (group_loop-Tracked es start count pending consumer h t)
      | inl here ↦ elim (Bool-cases (full count (hand_out e h).result)) [
        | inl whole ↦ rw (here, whole) (hand_out-Tracked pending consumer e h t)
        | inr more ↦
            rw (here, more)
              (group_loop-Tracked es start count pending consumer (hand_out e h)
                (hand_out-Tracked pending consumer e h t))
      ]
    ]

-- The loop of `XAck`.
ack_loop-lookup :
    (is : List Text) (n : ℕ) (pending : Dict StreamEntry) (id : Text)
    → lookup id (ack_loop is n pending).1 ≡ (if mentions is id then none else lookup id pending)
unfolding ack_loop
ack_loop-lookup [] n pending id = refl
ack_loop-lookup (i ∷ is) n pending id = ground (
  arith,
  ack_loop-lookup is (if is_some (lookup i pending) then n + 1 else n)
      (if is_some (lookup i pending) then erase i pending else pending) id,
  lookup-erase id i pending,
  text_eq_iff i id,
)

ack_loop-count :
    (is : List Text) (n : ℕ) (pending : Dict StreamEntry)
    → IsDict pending
    → (ack_loop is n pending).0 + length (ack_loop is n pending).1 ≡ n + length pending
unfolding ack_loop
ack_loop-count [] n pending h = refl
ack_loop-count (i ∷ is) n pending h = ground (
  arith,
  ack_loop-count is (if is_some (lookup i pending) then n + 1 else n)
      (if is_some (lookup i pending) then erase i pending else pending),
  length-erase i pending h,
  erase-IsDict i pending h,
)

-- The entries that a group waits for.
abbrev pending_in : Option ConsumerGroup → Dict StreamEntry
pending_in none = []
pending_in (some g) = g.pending

abbrev group_in : Text → Option Stream → Option ConsumerGroup
group_in name none = none
group_in name (some x) = lookup name x.consumer_groups

abbrev pub group_at : Text → Text → Tealis → Option ConsumerGroup
group_at key name s = group_in name (stream_at key s)

abbrev pub pending_at : Text → Text → Tealis → Dict StreamEntry
pending_at key name s = pending_in (group_at key name s)

-- What a consumer of the group was given.
abbrev pub given_to : Text → Option ConsumerGroup → List Text
given_to consumer none = []
given_to consumer (some g) = consumer_or_new (lookup consumer g.consumers)

stream_at-put_group :
    (key name : Text) (x : Stream) (g : ConsumerGroup) (s : Tealis)
    → stream_at key (put_group key x name g s)
      ≡ some (record { entries = x.entries; consumer_groups = insert name g x.consumer_groups })
unfolding as_stream
stream_at-put_group key name x g s = ground (
  arith,
  lookup-insert key key
      (Value.stream
        (record { entries = x.entries; consumer_groups = insert name g x.consumer_groups }))
      s.store,
  text_eq_iff key key,
)

group_at-put_group :
    (key name : Text) (x : Stream) (g : ConsumerGroup) (s : Tealis)
    → group_at key name (put_group key x name g s) ≡ some g
group_at-put_group key name x g s =
    rw stream_at-put_group
      (ground (arith, lookup-insert name name g x.consumer_groups, text_eq_iff name name))

module _ (key name : Text) (x : Stream) (g : ConsumerGroup) (s : Tealis)
    (at : stream_at key s ≡ some x) (group : lookup name x.consumer_groups ≡ some g) where
  xread_group-found :
      (consumer start : Text) (count : ℤ)
      → let h = group_read x.entries consumer start count g in
        xread_group key name consumer start count s ≡ (
          h.result,
          put_group key x name
              (record { consumers = insert consumer h.consumer g.consumers; pending = h.pending })
              s,
        )
  unfolding xread_group
  xread_group-found consumer start count = ground arith

  xack-found :
      (is : List Text)
      → let (n, pending) = ack_loop is 0 g.pending in
        xack key name is s
        ≡ (n, put_group key x name (record { consumers = g.consumers; pending = pending }) s)
  unfolding xack
  xack-found is = ground arith

  -- XREADGROUP of a group that is there returns what XREAD returns. Then the group waits for the entries
  -- it waited for before and for those, and the consumer's list has their IDs added at its end.
  pub xread_group-pending :
      (consumer start : Text) (count : ℤ)
      → let r = xread_group key name consumer start count s in
        (r.0 ≡ xread key start count s)
        × ((id : Text)
            → is_some (lookup id (pending_at key name r.1))
              ≡ (mentions (ids r.0) id || is_some (lookup id (pending_at key name s))))
        × (given_to consumer (group_at key name r.1)
            ≡ given_to consumer (group_at key name s) ++ ids r.0)
  unfolding xread
  xread_group-pending consumer start count =
      let old = consumer_or_new (lookup consumer g.consumers) in
      let tracked =
        group_loop-Tracked x.entries start count g.pending old
          (record { result = []; pending = g.pending; consumer = old })
          (record { consumed = sym (append-nil old); held = λ id. refl }) in
      rw (xread_group-found consumer start count, group_at-put_group, at, group)
        (
          group_loop-result x.entries start count _,
          tracked.held,
          rw lookup-insert_self tracked.consumed,
        )

  -- XACK of a group that is there: the IDs given are pending no more, the others are as before, and the
  -- reply is by how many the group's pending entries have become fewer.
  pub xack-pending :
      IsDict g.pending
      → (is : List Text)
      → let r = xack key name is s in
        (r.0 + length (pending_at key name r.1) ≡ length (pending_at key name s))
        × ((id : Text)
            → lookup id (pending_at key name r.1)
              ≡ (if mentions is id then none else lookup id (pending_at key name s)))
  xack-pending h is =
      rw (xack-found is, group_at-put_group, at, group)
        (omega (arith, ack_loop-count is 0 g.pending h), λ id. ack_loop-lookup is 0 g.pending id)
