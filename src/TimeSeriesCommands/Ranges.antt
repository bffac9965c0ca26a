-- ===== src/TimeSeriesCommands/Ranges.antt =====
-- What `TSRange` and `TSGet` of internal/storage/timeSeries.go find after a `TSAdd`.
use tealis.Base.{
  ℕ, ◌+◌, ◌≤◌, ◌≡◌, refl, sym, ◌∙◌, List, [], ◌∷◌, ◌++◌, none, some, Bool, true, false, ◌&&◌, inl,
  inr, if◌then◌else◌, arith, Bool-cases,
}
use tealis.Base.Int.{ℤ, ltb_ℤ, ◌≤ℤ◌}
use tealis.Base.Text.{Text}
use tealis.Base.Dict.{lookup-insert_self}
use tealis.Value.{DataPoint, TimeSeries, time_series, as_time_series}
use tealis.Tealis.{Tealis, put}
use tealis.TimeSeriesCommands.{
  series_at, ts_add, within, range_loop, ts_range, last_point, latest, ts_get,
}

-- No point is before the instant.
abbrev pub NoneBefore : ℤ → List DataPoint → Type 0
NoneBefore t [] = Unit
NoneBefore t (dp ∷ points) = (t ≤ℤ dp.timestamp) × NoneBefore t points

abbrev pub InOrder : List DataPoint → Type 0
InOrder [] = Unit
InOrder (dp ∷ points) = NoneBefore dp.timestamp points × InOrder points

-- How many points pass a test.
abbrev pub count : (DataPoint → Bool) → List DataPoint → ℕ
count p [] = 0
count p (dp ∷ points) = (if p dp then 1 else 0) + count p points

-- `sort.Slice` puts the points in order, and neither adds nor loses any.
abbrev pub Sorts : (List DataPoint → List DataPoint) → Type 0
Sorts sorted =
    (l : List DataPoint)
    → InOrder (sorted l) × ((p : DataPoint → Bool) → count p (sorted l) ≡ count p l)

count-append :
    (p : DataPoint → Bool) (xs ys : List DataPoint) → count p (xs ++ ys) ≡ count p xs + count p ys
count-append p [] ys = omega arith
count-append p (x ∷ xs) ys = omega (arith, count-append p xs ys)

range_loop-NoneBefore :
    (t start end : ℤ) (points : List DataPoint)
    → NoneBefore t points
    → NoneBefore t (range_loop start end points)
unfolding range_loop
range_loop-NoneBefore t start end [] h = tt
range_loop-NoneBefore t start end (dp ∷ points) h = elim (Bool-cases (within start end dp)) [
  | inl e ↦ rw e (h.0, range_loop-NoneBefore t start end points h.1)
  | inr e ↦ rw e (range_loop-NoneBefore t start end points h.1)
]

range_loop-InOrder :
    (start end : ℤ) (points : List DataPoint)
    → InOrder points
    → InOrder (range_loop start end points)
unfolding range_loop
range_loop-InOrder start end [] h = tt
range_loop-InOrder start end (dp ∷ points) h = elim (Bool-cases (within start end dp)) [
  | inl e ↦ rw e (
    range_loop-NoneBefore dp.timestamp start end points h.0,
    range_loop-InOrder start end points h.1,
  )
  | inr e ↦ rw e (range_loop-InOrder start end points h.1)
]

count-range_loop :
    (p : DataPoint → Bool) (start end : ℤ) (points : List DataPoint)
    → count p (range_loop start end points) ≡ count (λ dp. within start end dp && p dp) points
unfolding range_loop
count-range_loop p start end [] = refl
count-range_loop p start end (dp ∷ points) = elim (Bool-cases (within start end dp)) [
  | inl e ↦ rw (e, count-range_loop p start end points) refl
  | inr e ↦ rw (e, count-range_loop p start end points) (omega arith)
]

series_at-put :
    (key : Text) (x : TimeSeries) (s : Tealis) → series_at key (put key (time_series x) s) ≡ some x
unfolding series_at as_time_series
series_at-put key x s = rw lookup-insert_self refl

-- The last point is the latest, and is one of the points.
last_point-latest :
    (dp : DataPoint) (points : List DataPoint)
    → InOrder (dp ∷ points)
    → (last : DataPoint) × ((last_point (dp ∷ points) ≡ some last)
        × (dp.timestamp ≤ℤ last.timestamp)
        × (count (λ q. ltb_ℤ last.timestamp q.timestamp) (dp ∷ points) ≡ 0)
        × ((p : DataPoint → Bool) → (if p last then 1 else 0) ≤ count p (dp ∷ points)))
unfolding last_point
last_point-latest dp [] h = (dp, (refl, omega arith, ground arith, λ p. omega arith))
last_point-latest dp (next ∷ points) h =
    let (last, (e, later, none_after, there)) = last_point-latest next points h.1 in
    let above : dp.timestamp ≤ℤ last.timestamp = omega (arith, h.0.0, later) in
    let not_after : ltb_ℤ last.timestamp dp.timestamp ≡ false = ground (arith, above) in
    (last, (e, above, rw not_after (omega (arith, none_after)), λ p. omega (arith, there p)))

last_of_sorted :
    (l : List DataPoint)
    → InOrder l
    → 1 ≤ count (λ q. true) l
    → (last : DataPoint) × ((last_point l ≡ some last)
        × (count (λ q. ltb_ℤ last.timestamp q.timestamp) l ≡ 0)
        × ((p : DataPoint → Bool) → (if p last then 1 else 0) ≤ count p l))
last_of_sorted [] h g = absurd (omega arith)
last_of_sorted (dp ∷ points) h g =
    let (last, (e, later, none_after, there)) = last_point-latest dp points h in
    (last, (e, none_after, there))

module _ (sorted : List DataPoint → List DataPoint) (sorts : Sorts sorted) where
  -- Given that `sort.Slice` sorts, `TSAdd` on a time series returns no error, and then `TSRange` gives points in the order of their timestamps, namely those strictly between the start and the end, of the points that were there and the new one: as many of them pass any test.
  pub ts_add-ts_range :
      (key : Text) (timestamp start end : ℤ) (value : ℕ) (ts : TimeSeries) (s : Tealis)
      → series_at key s ≡ some ts
      → ((ts_add sorted key timestamp value s).0 ≡ none)
        × ((l : List DataPoint) × ((ts_range key start end (ts_add sorted key timestamp value s).1
                ≡ inr l)
              × InOrder l
              × ((p : DataPoint → Bool)
                  → count p l
                    ≡ count
                        (λ dp. (ltb_ℤ start dp.timestamp && ltb_ℤ dp.timestamp end) && p dp)
                        (ts.points ++ record { timestamp = timestamp; value = value } ∷ []))))
  unfolding ts_add ts_range within
  ts_add-ts_range key timestamp start end value ts s h =
      let point : DataPoint = record { timestamp = timestamp; value = value } in
      let (order, same) = sorts (ts.points ++ point ∷ []) in
      let now = sorted (ts.points ++ point ∷ []) in
      rw (ts_add, h, ts_range, series_at-put)
        (
          refl,
          (
            range_loop start end now,
            (
              refl,
              range_loop-InOrder start end now order,
              λ p. count-range_loop p start end now ∙ same (λ dp. within start end dp && p dp),
            ),
          ),
        )

  -- Given that `sort.Slice` sorts, after a `TSAdd` on a time series `TSGet` returns a point, and none of the points that were there and the new one is later; every test that the returned point passes is passed by one of these.
  ts_add-ts_get :
      (key : Text) (timestamp : ℤ) (value : ℕ) (ts : TimeSeries) (s : Tealis)
      → series_at key s ≡ some ts
      → (last : DataPoint) × ((ts_get key (ts_add sorted key timestamp value s).1 ≡ inr last)
          × (count
                (λ q. ltb_ℤ last.timestamp q.timestamp)
                (ts.points ++ record { timestamp = timestamp; value = value } ∷ [])
              ≡ 0)
          × ((p : DataPoint → Bool)
              → (if p last then 1 else 0)
                ≤ count p (ts.points ++ record { timestamp = timestamp; value = value } ∷ [])))
  unfolding ts_add ts_get latest
  ts_add-ts_get key timestamp value ts s h =
      let point : DataPoint = record { timestamp = timestamp; value = value } in
      let all = ts.points ++ point ∷ [] in
      let (order, same) = sorts all in
      let (last, (e, none_after, there)) =
        last_of_sorted (sorted all) order
          (omega (arith, same (λ q. true), count-append (λ q. true) ts.points (point ∷ []))) in
      (
        last,
        (
          rw (ts_add, h, ts_get, series_at-put, e) refl,
          sym (same _) ∙ none_after,
          λ p. omega (arith, same p, there p),
        ),
      )
