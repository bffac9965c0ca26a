-- ===== src/TimeSeriesCommands.antt =====
-- internal/storage/timeSeries.go. Each method holds `Mu` to its end, so that the lock of a series is never
-- waited for. `sorted` is what `sort.Slice` makes of the points, by their timestamps.
pub mod Ranges
use tealis.Base.{
  ℕ, zero, suc, ◌+◌, ◌-◌, ◌*◌, ◌/◌, ◌%◌, List, [], ◌∷◌, ◌++◌, Option, none, some, Bool, ◌&&◌, ◌⊎◌,
  inl, inr, if◌then◌else◌, length, is_some,
}
use tealis.Base.Int.{ℤ, pos, negsuc, ltb_ℤ, leb_ℤ}
use tealis.Base.Text.{Text, codes, text_eq}
use tealis.Base.Dict.{lookup}
use tealis.Floats.{Arithmetic}
use tealis.Value.{Value, DataPoint, TimeSeries, time_series, as_time_series, and_then}
use tealis.Tealis.{Tealis, put}

-- `r.Store[key].(*TimeSeries)`
unfoldable pub series_at : Text → Tealis → Option TimeSeries
series_at key s = and_then (lookup key s.store) as_time_series

-- `TSCreate`: the error, if there is one.
unfoldable pub ts_create : Text → Text → Tealis → Option Text × Tealis
ts_create key aggregation s =
    if is_some (lookup key s.store)
    then (some (codes "time series " ++ key ++ codes " already exists"), s)
    else (none, put key (time_series (record { points = []; aggregation = aggregation })) s)

unfoldable pub not_found : Text → Text
not_found key = codes "time series " ++ key ++ codes " not found"

-- `TSAdd`
unfoldable pub ts_add :
    (List DataPoint → List DataPoint) → Text → ℤ → ℕ → Tealis → Option Text × Tealis
ts_add sorted key timestamp value s = elim (series_at key s) [
  | none ↦ (some (not_found key), s)
  | some ts ↦
      let point : DataPoint = record { timestamp = timestamp; value = value } in
      (none, put key (time_series (record ts { points = sorted (ts.points ++ point ∷ []) })) s)
]

-- `dp.Timestamp.After(start) && dp.Timestamp.Before(end)`
unfoldable pub within : ℤ → ℤ → DataPoint → Bool
within start end dp = ltb_ℤ start dp.timestamp && ltb_ℤ dp.timestamp end

-- The loop of `TSRange`.
unfoldable pub range_loop : ℤ → ℤ → List DataPoint → List DataPoint
range_loop start end [] = []
range_loop start end (dp ∷ points) =
    let rest = range_loop start end points in if within start end dp then dp ∷ rest else rest

-- `TSRange`
unfoldable pub ts_range : Text → ℤ → ℤ → Tealis → Text ⊎ List DataPoint
ts_range key start end s = elim (series_at key s) [
  | none ↦ inl (not_found key)
  | some ts ↦ inr (range_loop start end ts.points)
]

-- `ts.Points[len(ts.Points)-1]`
unfoldable pub last_point : List DataPoint → Option DataPoint
last_point [] = none
last_point (dp ∷ []) = some dp
last_point (dp ∷ next ∷ points) = last_point (next ∷ points)

unfoldable pub latest : Text → Option DataPoint → Text ⊎ DataPoint
latest key none = inl (codes "no data points in time series " ++ key)
latest key (some dp) = inr dp

-- `TSGet`
unfoldable pub ts_get : Text → Tealis → Text ⊎ DataPoint
ts_get key s = elim (series_at key s) [
  | none ↦ inl (not_found key)
  | some ts ↦ latest key (last_point ts.points)
]

-- `Truncate`: down to a multiple of the interval.
unfoldable pub truncate : ℕ → ℤ → ℤ
truncate zero t = t
truncate (suc d) (pos n) = pos (n - n % suc d)
truncate (suc d) (negsuc n) = negsuc (n / suc d * suc d + d)

module _ (arithmetic : Arithmetic) where
  -- `sum += v`
  unfoldable pub sum_from : ℕ → List ℕ → ℕ
  sum_from sum [] = sum
  sum_from sum (v ∷ values) = sum_from (arithmetic.add sum v) values

  -- The loops of `tsMin` and `tsMax`.
  unfoldable pub min_from : ℕ → List ℕ → ℕ
  min_from low [] = low
  min_from low (v ∷ values) = min_from (if arithmetic.below v low then v else low) values

  unfoldable pub max_from : ℕ → List ℕ → ℕ
  max_from high [] = high
  max_from high (v ∷ values) = max_from (if arithmetic.below high v then v else high) values

  -- `tsMin` and `tsMax`, from an infinity
  unfoldable pub ts_min : List ℕ → ℕ
  ts_min [] = 0
  ts_min (v ∷ values) = min_from 9218868437227405312 (v ∷ values)

  unfoldable pub ts_max : List ℕ → ℕ
  ts_max [] = 0
  ts_max (v ∷ values) = max_from 18442240474082181120 (v ∷ values)

  -- `aggregate`
  unfoldable pub aggregate : Text → List ℕ → ℕ
  aggregate method values =
      if text_eq method (codes "avg")
      then arithmetic.div (sum_from 0 values) (arithmetic.of_int (pos (length values)))
      else if text_eq method (codes "min")
      then ts_min values
      else if text_eq method (codes "max")
      then ts_max values
      else 0

  -- `IsZero`
  unfoldable pub is_zero : ℤ → Bool
  is_zero t = leb_ℤ t (pos 0) && leb_ℤ (pos 0) t

  unfoldable pub same_instant : ℤ → ℤ → Bool
  same_instant t u = leb_ℤ t u && leb_ℤ u t

  -- A point of the result.
  unfoldable pub sample : Text → ℤ → List ℕ → DataPoint
  sample method start values = record { timestamp = start; value = aggregate method values }

  -- The end of the loop: the last interval, if it has values.
  unfoldable pub last_sample : Text → ℤ → List ℕ → List DataPoint
  last_sample method start [] = []
  last_sample method start (v ∷ values) = sample method start (v ∷ values) ∷ []

  -- The loop of `DownSample`, by the start of the current interval and its values so far: what it adds to
  -- the result.
  unfoldable pub sample_loop : Text → ℕ → ℤ → ℤ → ℤ → List ℕ → List DataPoint → List DataPoint
  sample_loop method interval start end current values [] = last_sample method current values
  sample_loop method interval start end current values (dp ∷ points) =
      let index = truncate interval dp.timestamp in
      let begun = if is_zero current then index else current in
      let skipped = sample_loop method interval start end current values points in
      let joined = sample_loop method interval start end begun (values ++ dp.value ∷ []) points in
      let next = sample_loop method interval start end index (dp.value ∷ []) points in
      if within start end dp
      then (if same_instant index begun then joined else sample method begun values ∷ next)
      else skipped

  -- `DownSample`. The zero value of `time.Time` is the instant 0.
  unfoldable pub down_sample : Text → ℤ → ℤ → ℕ → Text → Tealis → Text ⊎ List DataPoint
  down_sample key start end interval method s = elim (series_at key s) [
    | none ↦ inl (not_found key)
    | some ts ↦ inr (sample_loop method interval start end (pos 0) [] ts.points)
  ]
