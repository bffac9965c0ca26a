-- ===== src/StreamCommands/Reading.antt =====
-- What XREAD and XRANGE return (internal/storage/stream.go).
use tealis.Base.{
  ℕ, zero, suc, ◌+◌, List, [], ◌∷◌, ◌++◌, append_assoc, append-nil, Option, none, some, true, false,
  ◌&&◌, not, if◌then◌else◌, length, length-append, take, ◌≡◌, refl, sym, arith,
}
use tealis.Base.Int.{ℤ, pos, negsuc, ltb_ℤ}
use tealis.Base.Text.{Text, text_eq, text_eq_iff, text_lt}
use tealis.Base.Dict.{Dict, lookup-insert}
use tealis.Value.{Value, Stream, StreamEntry, as_stream}
use tealis.Tealis.{Tealis, put}
use tealis.StreamCommands.{
  stream_at, stream_or_new, entries_of, given_id, full, read_loop, range_loop, xadd, xread, xrange,
  xlen,
}

-- The entries after `start`.
abbrev pub after : Text → List StreamEntry → List StreamEntry
after start [] = []
after start (e ∷ es) = if text_lt start e.id then e ∷ after start es else after start es

-- The first `count`, where `count` is positive; else all.
abbrev pub limited : ℤ → List StreamEntry → List StreamEntry
limited (pos zero) es = es
limited (pos (suc n)) es = take (suc n) es
limited (negsuc n) es = es

read_loop-unlimited :
    (es : List StreamEntry) (start : Text) (count : ℤ) (result : List StreamEntry)
    → ltb_ℤ (pos 0) count ≡ false
    → read_loop es start count result ≡ result ++ after start es
unfolding read_loop
read_loop-unlimited [] start count result h = sym (append-nil result)
read_loop-unlimited (e ∷ es) start count result h = ground (
  arith,
  read_loop-unlimited es start count result h,
  read_loop-unlimited es start count (result ++ e ∷ []) h,
  append_assoc result (e ∷ []) (after start es),
)

full-last :
    (e : StreamEntry) (count : ℕ) (result : List StreamEntry)
    → count ≡ length result + 1
    → full (pos count) (result ++ e ∷ []) ≡ true
full-last e count result h = ground (arith, length-append result (e ∷ []))

full-more :
    (e : StreamEntry) (n count : ℕ) (result : List StreamEntry)
    → count ≡ length result + suc (suc n)
    → full (pos count) (result ++ e ∷ []) ≡ false
full-more e n count result h = ground (arith, length-append result (e ∷ []))

read_loop-limited :
    (n : ℕ) (es : List StreamEntry) (start : Text) (count : ℕ) (result : List StreamEntry)
    → count ≡ length result + suc n
    → read_loop es start (pos count) result ≡ result ++ take (suc n) (after start es)
unfolding read_loop
read_loop-limited n [] start count result h = sym (append-nil result)
read_loop-limited zero (e ∷ es) start count result h =
    ground (arith, full-last e count result h, read_loop-limited zero es start count result h)
read_loop-limited (suc n) (e ∷ es) start count result h = ground (
  arith,
  full-more e n count result h,
  read_loop-limited (suc n) es start count result h,
  read_loop-limited n es start count (result ++ e ∷ [])
      (omega (arith, length-append result (e ∷ []))),
  append_assoc result (e ∷ []) (take (suc n) (after start es)),
)

-- `XREAD` returns the entries whose ID is after the start, as text, in their order: the first ones up to
-- the count, where it is positive, and all of them where it is not.
pub xread-after :
    (key start : Text) (count : ℤ) (s : Tealis)
    → xread key start count s ≡ limited count (after start (entries_of (stream_at key s)))
unfolding xread
xread-after key start (pos zero) s = read_loop-unlimited _ start (pos 0) [] refl
xread-after key start (pos (suc n)) s = read_loop-limited n _ start (suc n) [] (omega arith)
xread-after key start (negsuc n) s = read_loop-unlimited _ start (negsuc n) [] (ground arith)

range_loop-append :
    (es fs : List StreamEntry) (start end : Text)
    → range_loop (es ++ fs) start end ≡ range_loop es start end ++ range_loop fs start end
unfolding range_loop
range_loop-append [] fs start end = refl
range_loop-append (e ∷ es) fs start end = ground (arith, range_loop-append es fs start end)

stream_at-put :
    (key j : Text) (x : Stream) (s : Tealis)
    → stream_at j (put key (Value.stream x) s) ≡ (if text_eq key j then some x else stream_at j s)
unfolding as_stream
stream_at-put key j x s = ground (arith, lookup-insert j key (Value.stream x) s.store)

entries-or_new : (o : Option Stream) → (stream_or_new o).entries ≡ entries_of o
entries-or_new none = refl
entries-or_new (some x) = refl

entries-xadd :
    (key j id : Text) (fields : Dict Text) (now : ℤ) (s : Tealis)
    → entries_of (stream_at j (xadd key id fields now s).1) ≡ (
        if text_eq key j
        then entries_of (stream_at j s) ++ record { id = given_id id now; fields = fields } ∷ []
        else entries_of (stream_at j s))
unfolding xadd
entries-xadd key j id fields now s =
    rw stream_at-put (ground (arith, text_eq_iff key j, entries-or_new (stream_at key s)))

-- An entry that XADD adds, under its ID or one made of the time for `*`, comes last in each XRANGE of its
-- key whose bounds it is within, and XLEN of its key grows by one. Other ranges and keys are as before.
pub xadd-xrange :
    (key j id start end : Text) (fields : Dict Text) (now : ℤ) (s : Tealis)
    → (xrange j start end (xadd key id fields now s).1 ≡ (
        if text_eq key j
          && (not (text_lt (given_id id now) start) && not (text_lt end (given_id id now)))
        then xrange j start end s ++ record { id = given_id id now; fields = fields } ∷ []
        else xrange j start end s))
      × (xlen j (xadd key id fields now s).1 ≡ (if text_eq key j then xlen j s + 1 else xlen j s))
unfolding xrange xlen range_loop
xadd-xrange key j id start end fields now s =
    let entry : StreamEntry = record { id = given_id id now; fields = fields } in
    let old = entries_of (stream_at j s) in
    rw entries-xadd (
      ground (
        arith,
        range_loop-append old (entry ∷ []) start end,
        append-nil (range_loop old start end),
      ),
      ground (arith, length-append old (entry ∷ [])),
    )
