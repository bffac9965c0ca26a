-- ===== src/Tests/Data.antt =====
-- States and inputs for the examples, of the program under internal/storage.
use tealis.Strconv.{itoa, atoi}
use tealis.Floats.{Arithmetic}
use tealis.Handler.Outside.{Library}
use tealis.Base.{◌+◌, ◌-◌, ◌*◌, ◌/◌, ◌%◌, ◌^◌, ltb, ◌==◌, none, inr, [], ◌∷◌, some, true, false, ok}
use tealis.Base.Int.{pos, pos_part}
use tealis.Base.Text.{Text, codes}
use tealis.Value.{nil_map, Value, str, string, list, Stream, StreamEntry, ConsumerGroup}
use tealis.Tealis.{Tealis}
use tealis.Transactions.{Commands}

abbrev pub k : Text
k = codes "k"

abbrev pub j : Text
j = codes "j"

abbrev pub a : Text
a = codes "a"

abbrev pub b : Text
b = codes "b"

abbrev pub hello : Text
hello = codes "hello"

-- A server as it starts.
abbrev pub started : Tealis
started = record {
  store = [];
  expiries = [];
  transactions = [];
  pubsub_subscribers = [];
  multi = false;
  enable_aof = true;
  aof_file = some [];
  arrays = [];
}

-- One value under `k`.
abbrev pub holding : Value → Tealis
holding v = record started { store = (k, v) ∷ [] }

-- A string under `k` that expires at 10.
abbrev pub expiring : Tealis
expiring = record (holding (string hello)) { expiries = (k, pos 10) ∷ [] }

abbrev pub two_items : Tealis
two_items = holding (list (a ∷ b ∷ []))

-- A set of `a` under `k`, and one of `a` and `b` under `j`.
abbrev pub two_sets : Tealis
two_sets = record started {
  store = (k, Value.set ((a, tt) ∷ [])) ∷ (j, Value.set ((a, tt) ∷ (b, tt) ∷ [])) ∷ [];
}

-- A hash with the field `a`.
abbrev pub one_field : Tealis
one_field = holding (Value.hash ((a, str hello) ∷ []))

abbrev pub first_entry : StreamEntry
first_entry = record { id = codes "1-0"; fields = [] }

abbrev pub second_entry : StreamEntry
second_entry = record { id = codes "2-0"; fields = (a, b) ∷ [] }

-- A group that waits for the first entry.
abbrev pub group : ConsumerGroup
group = record { consumers = (a, codes "1-0" ∷ []) ∷ []; pending = (codes "1-0", first_entry) ∷ [] }

abbrev pub entries : Stream
entries = record { entries = first_entry ∷ second_entry ∷ []; consumer_groups = (j, group) ∷ [] }

abbrev pub streaming : Tealis
streaming = holding (Value.stream entries)

-- `a` is subscribed to the channel `k`.
abbrev pub subscribed : Tealis
subscribed = record started { pubsub_subscribers = (k, (a, []) ∷ []) ∷ [] }

-- Every other command is answered with an error.
abbrev pub unknown : Commands
unknown command parts client s = (ok (codes "-ERR Unknown command"), s)

abbrev pub arithmetic : Arithmetic
arithmetic = record {
  add = λ x y. x + y;
  sub = λ x y. x - y;
  mul = λ x y. x * y;
  div = λ x y. x / y;
  neg = λ x. x;
  pow = λ x y. x ^ y;
  log = λ x. x;
  sqrt = λ x. x;
  sin = λ x. x;
  cos = λ x. x;
  atan2 = λ x y. x;
  below = ltb;
  equal = λ x y. x == y;
  of_int = pos_part;
  to_int64 = pos;
  seconds = pos_part;
}

abbrev pub library : Library
library = record {
  shown = λ v. codes "v";
  shown_map = λ d. codes "map[]";
  shown_float = λ x. itoa (pos x);
  spare = λ cap len. cap;
  unmarshal = λ t. nil_map;
  marshal = λ n. inr (codes "{}");
  scan_index = atoi;
  parse_float = λ t. none;
  sorted = λ l. l;
  arithmetic = arithmetic;
  float32 = λ n. ((n % 3) == 1, n + 1);
  new_source = pos_part;
  sort_strings = λ l. l;
  sort_results = λ l. l;
  shown_vector = λ v. codes "[]";
  marshal_vector = λ v. codes "[]";
  float_error = λ t. codes "invalid syntax";
  path_match = λ pattern key. some false;
}
