-- ===== src/Tests/Documents.antt =====
-- Examples for JSON documents, HyperLogLogs and time series (internal/storage).
use tealis.Base.{
  ℕ, suc, ◌+◌, ◌≤◌, ◌≡◌, ◌≢◌, refl, [], ◌∷◌, ◌++◌, List, Option, none, some, Bool, true, false,
  ◌==◌, ok, inl, inr, arith, if◌then◌else◌, Bool-cases, ◌&&◌,
}
use Prim.Native.Nat.{max}
use tealis.Base.Int.{ℤ, pos, leb_ℤ, ltb_ℤ, ◌≤ℤ◌}
use tealis.Base.Text.{Text, codes}
use tealis.Base.Dict.{lookup, insert}
use tealis.Strconv.{atoi}
use tealis.Value.{
  Value, hash, str, obj, field, end, made, nil_map, hll, DataPoint, TimeSeries, time_series,
  HyperLogLog,
}
use tealis.Tealis.{Tealis}
use tealis.JsonCommands.{Node, node_of, get_at_path, map_node, leaf, json_set, json_get, json_del}
use tealis.JsonCommands.Paths.{json_get-json_set, json_get-append}
use tealis.JsonCommands.SetThenGet.{get_at_path-set_at_path}
use tealis.JsonCommands.Setting.{set_at_path}
use tealis.JsonCommands.Losses.{HoldsText, Refused, edit-Refused}
use tealis.HyperLogLogCommands.{register_index, rank, pfadd, pfmerge}
use tealis.HyperLogLogCommands.Registers.{register_in, IsHllIn, pfadd-registers}
use tealis.HyperLogLogCommands.Merging.{largest, pfmerge-registers}
use tealis.TimeSeriesCommands.{ts_add, ts_range, ts_get}
use tealis.TimeSeriesCommands.Ranges.{NoneBefore, InOrder, count, Sorts, ts_add-ts_range}
use tealis.Tests.Data.{k, j, a, b, hello, started, holding, arithmetic, library}

-- {"a": {"b": "hello"}}
abbrev nested : Tealis
nested = holding (hash ((a, obj (field b (str hello) end)) ∷ []))

json_get-json_set_example :
    (json_get atoi k (codes ".") (json_set library.unmarshal k (codes "a") hello nested).1
      ≡ inr (map_node nil_map))
    × (json_get atoi j (codes ".") (json_set library.unmarshal k (codes "a") hello nested).1
        ≡ json_get atoi j (codes ".") nested)
unfolding tealis.Base.Text.text_eq
json_get-json_set_example =
    json_get-json_set atoi library.unmarshal k j (codes "a") hello (codes ".") nested
      (λ e. absurd (ground (arith, e)))

json_get-append_example : json_get atoi k (codes "a.b") nested ≡ inr (leaf (str hello))
unfolding tealis.Base.Text.text_eq json_get lookup tealis.JsonCommands.get_at_path
    tealis.JsonCommands.get_parts tealis.Strings.split tealis.JsonCommands.without_dot
    tealis.JsonCommands.descend tealis.JsonCommands.node_at tealis.JsonCommands.entry
    tealis.JsonCommands.node_of tealis.JsonCommands.fields_of
json_get-append_example =
    json_get-append atoi k b'a' [] b (map_node (made ((b, str hello) ∷ []))) (leaf (str hello))
      nested refl refl refl

-- {"b": {"b": "hello"}}, where `setAtPath` makes the inner map.
get_at_path-set_at_path_example :
    get_at_path atoi (node_of (obj (field b (obj (field b (str hello) end)) end))) (codes "b.b")
    ≡ inr (leaf (str hello))
unfolding tealis.JsonCommands.without_dot tealis.Strings.split
    tealis.JsonCommands.SetThenGet.all_names tealis.JsonCommands.SetThenGet.is_null
    tealis.JsonCommands.Setting.parse_index set_at_path tealis.JsonCommands.Setting.set_value
    tealis.JsonCommands.Setting.put_change lookup tealis.JsonCommands.Setting.child_or_new
    tealis.JsonCommands.Setting.put_field insert tealis.JsonCommands.Setting.to_fields
    tealis.JsonCommands.fields_of tealis.JsonCommands.node_of
get_at_path-set_at_path_example =
    get_at_path-set_at_path atoi (codes "b.b") (str hello) (obj end)
      (obj (field b (obj (field b (str hello) end)) end))
      (obj (field b (obj (field b (str hello) end)) end)) refl refl refl refl

edit-Refused_example :
    HoldsText k (json_del atoi (λ n. codes "{}") k (codes "a.b") nested).1
    × Refused (json_get atoi k a (json_del atoi (λ n. codes "{}") k (codes "a.b") nested).1)
unfolding tealis.Base.Text.text_eq tealis.JsonCommands.without_dot json_del lookup
    tealis.JsonCommands.delete_parts tealis.Strings.split tealis.JsonCommands.descend
    tealis.JsonCommands.node_at tealis.JsonCommands.entry tealis.JsonCommands.node_of
edit-Refused_example =
    edit-Refused atoi (λ n. codes "{}") none k (codes "a.b") a nested refl refl refl

pfadd-registers_example :
    ((pfadd arithmetic k hello started).0 ≡ ok none)
    × IsHllIn (lookup k (pfadd arithmetic k hello started).1.store)
    × ((i : ℕ)
        → register_in i (lookup k (pfadd arithmetic k hello started).1.store)
          ≡ (if i == register_index 16384 hello then max 0 (rank 16384 hello) else 0))
    × (50 ≤ rank 16384 hello)
    × (rank 16384 hello ≤ 65)
unfolding lookup
pfadd-registers_example = pfadd-registers arithmetic k hello started (inl refl)

-- One HyperLogLog, made by `PFADD`.
abbrev counted : Tealis
counted = (pfadd arithmetic k hello started).1

pfmerge-registers_example :
    ((pfmerge arithmetic j (k ∷ []) counted).0 ≡ ok none)
    × IsHllIn (lookup j (pfmerge arithmetic j (k ∷ []) counted).1.store)
    × ((i : ℕ)
        → register_in i (lookup j (pfmerge arithmetic j (k ∷ []) counted).1.store)
          ≡ largest i 0 (k ∷ []) counted)
unfolding lookup
pfmerge-registers_example =
    pfmerge-registers arithmetic j k [] counted
      ((pfadd-registers arithmetic k hello started (inl refl)).1, tt)

-- Insertion sort, which does what `sort.Slice` promises.
put_point : DataPoint → List DataPoint → List DataPoint
put_point p [] = p ∷ []
put_point p (q ∷ points) =
    let rest = put_point p points in
    if leb_ℤ p.timestamp q.timestamp then p ∷ q ∷ points else q ∷ rest

unfoldable insertion_sort : List DataPoint → List DataPoint
unfolding put_point
insertion_sort [] = []
insertion_sort (p ∷ points) = put_point p (insertion_sort points)

NoneBefore-trans :
    (t u : ℤ) (points : List DataPoint) → t ≤ℤ u → NoneBefore u points → NoneBefore t points
NoneBefore-trans t u [] h g = tt
NoneBefore-trans t u (q ∷ points) h g = (omega (arith, h, g.0), NoneBefore-trans t u points h g.1)

put_point-NoneBefore :
    (t : ℤ) (p : DataPoint) (points : List DataPoint)
    → t ≤ℤ p.timestamp
    → NoneBefore t points
    → NoneBefore t (put_point p points)
unfolding put_point
put_point-NoneBefore t p [] h g = (h, tt)
put_point-NoneBefore t p (q ∷ points) h g = elim (Bool-cases (leb_ℤ p.timestamp q.timestamp)) [
  | inl e ↦ rw e (h, g)
  | inr e ↦ rw e (g.0, put_point-NoneBefore t p points h g.1)
]

put_point-InOrder :
    (p : DataPoint) (points : List DataPoint) → InOrder points → InOrder (put_point p points)
unfolding put_point
put_point-InOrder p [] h = (tt, tt)
put_point-InOrder p (q ∷ points) h = elim (Bool-cases (leb_ℤ p.timestamp q.timestamp)) [
  | inl e ↦
      let below : p.timestamp ≤ℤ q.timestamp = ground (arith, e) in
      rw e ((below, NoneBefore-trans p.timestamp q.timestamp points below h.0), h)
  | inr e ↦
      let above : q.timestamp ≤ℤ p.timestamp = ground (arith, e) in
      rw e (put_point-NoneBefore q.timestamp p points above h.0, put_point-InOrder p points h.1)
]

count-put_point :
    (f : DataPoint → Bool) (p : DataPoint) (points : List DataPoint)
    → count f (put_point p points) ≡ (if f p then 1 else 0) + count f points
unfolding put_point
count-put_point f p [] = refl
count-put_point f p (q ∷ points) = elim (Bool-cases (leb_ℤ p.timestamp q.timestamp)) [
  | inl e ↦ rw e refl
  | inr e ↦ rw (e, count-put_point f p points) (omega arith)
]

insertion_sort-Sorts : Sorts insertion_sort
unfolding insertion_sort
insertion_sort-Sorts [] = (tt, λ f. refl)
insertion_sort-Sorts (p ∷ points) =
    let (order, same) = insertion_sort-Sorts points in
    (put_point-InOrder p (insertion_sort points) order, λ f. rw (count-put_point, same) refl)

abbrev measured : TimeSeries
measured = record {
  points = record { timestamp = pos 7; value = 1 } ∷ [];
  aggregation = codes "avg";
}

abbrev measuring : Tealis
measuring = holding (time_series measured)

ts_add-ts_range_example :
    ((ts_add insertion_sort k (pos 3) 2 measuring).0 ≡ none)
    × ((l : List DataPoint) × ((ts_range k
              (pos 1)
              (pos 9)
              (ts_add insertion_sort k (pos 3) 2 measuring).1
            ≡ inr l)
          × InOrder l
          × ((p : DataPoint → Bool)
              → count p l
                ≡ count
                    (λ dp. (ltb_ℤ (pos 1) dp.timestamp && ltb_ℤ dp.timestamp (pos 9)) && p dp)
                    (measured.points ++ record { timestamp = pos 3; value = 2 } ∷ []))))
unfolding tealis.TimeSeriesCommands.series_at lookup tealis.Base.Text.text_eq
    tealis.Value.as_time_series
ts_add-ts_range_example =
    ts_add-ts_range insertion_sort insertion_sort-Sorts k (pos 3) (pos 1) (pos 9) 2 measured
      measuring refl
