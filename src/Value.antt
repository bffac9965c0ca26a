-- ===== src/Value.antt =====
-- The dynamic types of the values that `Tealis.Store` holds (internal/storage), and the type
-- assertions on them. A float64 stands as its 64-bit pattern.
use tealis.Base.{ℕ, List, Option, none, some, Bool}
use tealis.Base.Int.{ℤ}
use tealis.Base.Text.{Text}
use tealis.Base.Dict.{Dict}

-- What `encoding/json` decodes into an `interface{}`.
mutual
  pub data Json : Type 0 where
    null : Json
    bool : Bool → Json
    num : ℕ → Json
    str : Text → Json
    arr : Items → Json
    obj : Fields → Json

  pub data Items : Type 0 where
    nil : Items
    cons : Json → Items → Items

  pub data Fields : Type 0 where
    end : Fields
    field : Text → Json → Fields → Fields

-- stream.go
pub record StreamEntry : Type 0 where
  pub id : Text
  pub fields : Dict Text

pub record ConsumerGroup : Type 0 where
  -- consumer name → the IDs that were handed to it
  pub consumers : Dict (List Text)
  pub pending : Dict StreamEntry

pub record Stream : Type 0 where
  pub entries : List StreamEntry
  pub consumer_groups : Dict ConsumerGroup

-- A `[]byte`: a prefix of an array, which other slices may share. `array` is an index of
-- `Tealis.arrays`.
pub record Slice : Type 0 where
  pub array : ℕ
  pub len : ℕ

-- hyperloglog.go
pub record HyperLogLog : Type 0 where
  pub registers : List ℕ
  pub m : ℕ
  pub alpha_mm : ℕ

-- timeSeries.go. An instant is in nanoseconds since the zero value of `time.Time`.
pub record DataPoint : Type 0 where
  pub timestamp : ℤ
  pub value : ℕ

pub record TimeSeries : Type 0 where
  pub points : List DataPoint
  pub aggregation : Text

-- zset.go. A pointer to a node is its index among the nodes that the set has made, of which the header is the
-- first; nil is `none`. `rand_src` is the state of the set's source of random numbers.
pub record SkipListNode : Type 0 where
  pub key : Text
  pub score : ℕ
  pub forward : List (Option ℕ)

pub record SortedSet : Type 0 where
  pub nodes : List SkipListNode
  pub level : ℕ
  pub length : ℕ
  pub rand_src : ℕ

-- geo.go
pub record GeoLocation : Type 0 where
  pub latitude : ℕ
  pub longitude : ℕ
  pub name : Text

pub record GeoSet : Type 0 where
  pub locations : Dict GeoLocation
  pub sorted : List Text

-- A JSON document is a `map[string]interface{}`, as a hash is. `nil_map` is the nil map of that
-- type, which can be read and not written.
pub data Value : Type 0 where
  nil_value : Value
  string : Text → Value
  list : List Text → Value
  array : List Json → Value
  hash : Dict Json → Value
  nil_map : Value
  set : Dict (Unit {0}) → Value
  stream : Stream → Value
  bytes : Slice → Value
  vector : List ℕ → Value
  hll : HyperLogLog → Value
  -- a `*HyperLogLog` that is nil
  nil_hll : Value
  time_series : TimeSeries → Value
  sorted_set : SortedSet → Value
  geo_set : GeoSet → Value

-- `v.(string)`
unfoldable pub as_string : Value → Option Text
as_string (string t) = some t
as_string _ = none

-- `v.([]string)`
unfoldable pub as_list : Value → Option (List Text)
as_list (list l) = some l
as_list _ = none

-- `v.([]interface{})`
unfoldable pub as_array : Value → Option (List Json)
as_array (array l) = some l
as_array _ = none

-- `v.(map[string]struct{})`
unfoldable pub as_set : Value → Option (Dict (Unit {0}))
as_set (set d) = some d
as_set _ = none

-- `v.(*Stream)`
unfoldable pub as_stream : Value → Option Stream
as_stream (stream x) = some x
as_stream _ = none

-- `v.([]byte)`
unfoldable pub as_bytes : Value → Option Slice
as_bytes (bytes b) = some b
as_bytes _ = none

-- `v.(*TimeSeries)`
unfoldable pub as_time_series : Value → Option TimeSeries
as_time_series (time_series x) = some x
as_time_series _ = none

-- `v.(*SortedSet)`
unfoldable pub as_sorted_set : Value → Option SortedSet
as_sorted_set (sorted_set x) = some x
as_sorted_set _ = none

-- `v.(*GeoSet)`
unfoldable pub as_geo_set : Value → Option GeoSet
as_geo_set (geo_set x) = some x
as_geo_set _ = none

-- `v.([]float64)`
unfoldable pub as_vector : Value → Option (List ℕ)
as_vector (vector x) = some x
as_vector _ = none

-- A map of type `map[string]interface{}` as the program meets it: nil, or one with entries.
pub data GoMap : Type 0 where
  nil_map : GoMap
  made : Dict Json → GoMap

-- `v.(map[string]interface{})`
unfoldable pub as_hash : Value → Option GoMap
as_hash (hash d) = some (made d)
as_hash nil_map = some nil_map
as_hash _ = none

-- A comma-ok assertion on `r.Store[key]`: a missing key fails it, as nil does.
abbrev pub and_then : {A : Type 0} → Option Value → (Value → Option A) → Option A
and_then none f = none
and_then (some v) f = f v
