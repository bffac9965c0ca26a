-- ===== src/Lib.antt =====
-- Tealis, a key-value server in Go that speaks a Redis-like protocol.
--
-- A client sends a line; ProcessCommand (internal/storage/handler.go) takes its parts, queues them while a
-- transaction is open, else writes them to the append-only file and runs the case of its switch, which
-- calls a method of the one `Tealis` value (internal/storage/tealis.go). A method locks `Mu`, works on
-- `Store` and `Expiries`, and returns a result that the case turns into a reply.
--
-- The state is the record `Tealis` of Tealis.antt; a method is a function from a state to a result and a
-- state, where the result is a value, a panic or a deadlock (Base/Ends.antt). The methods are atomic,
-- since they hold `Mu` to their end. Text is a list of bytes, an int is an integer with its wrap-around
-- written out (Base/Int.antt), a Go map is an association list (Base/Dict.antt), an instant is a
-- number of nanoseconds that the caller gives as `now`.
--
-- The files and the code they model:
--   Base and below: lists, tests, integers, text, maps; no code of the program.
--   Strconv, Strings, Ranges, Mutex: what the program uses of Go's strconv, strings, slices and sync.
--   Value: the dynamic types of the stored values, and the type assertions on them.
--   Tealis: the state; Tealis/Expiry: EX, TTL, PERSIST, StartCleanup (internal/storage/tealis.go).
--   StringCommands: internal/storage/string.go.      ListCommands: internal/storage/list.go.
--   SetCommands: internal/storage/set.go.            HashCommands: internal/storage/hset.go.
--   StreamCommands: internal/storage/stream.go.      PubSub: internal/storage/pubsub.go.
--   BitmapCommands: internal/storage/bitmap.go, and BitfieldCommands: internal/storage/bitfield.go, over the
--     arrays that byte slices share (Slices). Base/Bits: the digits of numbers under Go's &, | and ^.
--   SkipList and below: the sorted set of internal/storage/zset.go, its nodes addressed by numbers; Adding,
--     Removing and Listing are its methods. SkipList/Meaning: what a set of nodes stands for, a list of members
--     with their scores. SortedSetCommands: the methods of the server for sorted sets, in the same file.
--   GeoCommands: internal/storage/geo.go.            VectorCommands: internal/storage/vector.go.
--   JsonCommands: internal/storage/json.go.          Floats: the arithmetic of float64, a parameter.
--   HyperLogLogCommands: internal/storage/hyperloglog.go.
--   TimeSeriesCommands: internal/storage/timeSeries.go.
--   Parser: ParseCommand (internal/protocol/parser.go).
--   Connection: what main.go does with the bytes of a client.
--   Transactions: MULTI, EXEC, DISCARD, APPENDTO, AppendToAOF (internal/storage/tealis.go), and
--     ProcessCommand up to its switch (internal/storage/handler.go).
--   Handler: the cases of the switch, and the switch over them. Handler/Kept, KeptBytes, KeptSets, Whole and
--     Sessions prove what holds of the whole. Handler/Outside: what it takes from Go's libraries.
--   Tests: concrete inputs.
--
-- EXEC runs ProcessCommand on the queued lines, and one of these may be an EXEC after white space was
-- trimmed. The fuel of `process` bounds this nesting; one more than the commands that the client has
-- queued is given, as the results say. A method that blocks for ever has the result `deadlock`, and a command
-- that calls it the outcome `deadlock`: it is told apart from a response, and is no end of the command.
--
-- Parser scans its input on fuel, its length, of which each match takes a byte or more (Parser/Matches).
--
-- A walk along a level of a skip list takes one round more than there are nodes at most; one that takes more
-- goes in a circle, and its result is `deadlock`. How many levels a
-- new node has is drawn by a parameter. The order of float64 is a parameter too, with its laws for numbers;
-- NaN is not taken to be equal to itself.
--
-- Not modelled: the listeners and the tables of connections (main.go), the delivery of messages, snapshots,
-- the rewriting and loading of the append-only file, which do I/O (writes to the append-only file are
-- taken to succeed). The cases of the switch that are not modelled (SAVE, RESTORE, BGSAVE and AOF) are a
-- parameter, as is what fmt prints for a value. Of text, ToLower and TrimSpace are modelled over ASCII,
-- and ToUpper as far as its results are compared with ASCII text. Memory is taken to suffice for the
-- slices that are made.
pub mod Base
pub mod Strconv
pub mod Strings
pub mod Ranges
pub mod Mutex
pub mod Value
pub mod Tealis
pub mod StringCommands
pub mod ListCommands
pub mod SetCommands
pub mod HashCommands
pub mod JsonCommands
pub mod TimeSeriesCommands
pub mod HyperLogLogCommands
pub mod Floats
pub mod StreamCommands
pub mod Parser
pub mod Connection
pub mod PubSub
pub mod Slices
pub mod SkipList
pub mod SortedSetCommands
pub mod GeoCommands
pub mod VectorCommands
pub mod BitmapCommands
pub mod BitfieldCommands
pub mod Transactions
pub mod Handler
pub mod Tests
