-- ===== src/Handler/Series.antt =====
-- The cases of ProcessCommand (internal/storage/handler.go) for time series.
use tealis.Base.{
  ℕ, suc, ◌-◌, ◌*◌, ◌/◌, List, [], ◌∷◌, ◌++◌, Option, none, some, ◌⊎◌, inl, inr, Bool, ◌||◌,
  if◌then◌else◌,
}
use tealis.Base.Int.{ℤ, pos, negsuc, ◌+ℤ◌, ◌-ℤ◌, wrap64}
use tealis.Base.Text.{Text, codes, text_eq}
use tealis.Value.{DataPoint}
use tealis.Strconv.{itoa, atoi}
use tealis.Strings.{to_lower}
use tealis.Tealis.{Action}
use tealis.Transactions.{crlf}
use tealis.TimeSeriesCommands.{ts_create, ts_add, ts_range, ts_get}
use tealis.Handler.Outside.{Library}
use tealis.Handler.Replies.{bulk, say, told}
use tealis.Handler.Documents.{err_or}

-- `time.Unix(secs, 0)`, and the seconds back: the zero value of `time.Time` is 62135596800 s before 1970.
unfoldable pub unix_time : ℤ → ℤ
unix_time secs = elim (wrap64 (secs +ℤ pos 62135596800)) [
  | pos n ↦ pos (n * 1000000000)
  | negsuc n ↦ negsuc (suc n * 1000000000 - 1)
]

unfoldable pub unix_seconds : ℤ → ℤ
unix_seconds (pos n) = pos (n / 1000000000) -ℤ pos 62135596800
unix_seconds (negsuc n) = negsuc (n / 1000000000) -ℤ pos 62135596800

unfoldable pub known_method : Text → Bool
known_method m = text_eq m (codes "avg") || text_eq m (codes "min") || text_eq m (codes "max")

unfoldable pub ts_create_command : List Text → Action Text
ts_create_command (_ ∷ key ∷ method ∷ _) s =
    if known_method (to_lower method)
    then told (err_or (codes "+OK")) (ts_create key (to_lower method) s)
    else say (codes "-ERR Invalid aggregation method. Choose 'avg', 'min', or 'max'.") s
ts_create_command _ s = say (codes "-ERR TS.CREATE requires key and aggregation method") s

add_checked : Library → Text → Option ℤ → Option ℕ → Action Text
add_checked lib key none value s = say (codes "-ERR Invalid timestamp") s
add_checked lib key (some secs) none s = say (codes "-ERR Invalid value") s
add_checked lib key (some secs) (some value) s =
    told (err_or (codes "+OK")) (ts_add lib.sorted key (unix_time secs) value s)

unfoldable pub ts_add_command : Library → List Text → Action Text
unfolding add_checked
ts_add_command lib (_ ∷ key ∷ secs ∷ value ∷ _) s =
    add_checked lib key (atoi secs) (lib.parse_float value) s
ts_add_command lib _ s = say (codes "-ERR TS.ADD requires key, timestamp, and value") s

-- `"%d %f\r\n"`
unfoldable pub point_text : Library → DataPoint → Text
point_text lib dp = itoa (unix_seconds dp.timestamp) ++ (b' ' ∷ (lib.shown_float dp.value ++ crlf))

points_text : Library → List DataPoint → Text
points_text lib [] = []
points_text lib (dp ∷ points) = point_text lib dp ++ points_text lib points

range_reply : Library → Text ⊎ List DataPoint → Text
unfolding points_text
range_reply lib (inl e) = codes "-ERR " ++ e
range_reply lib (inr []) = codes "$-1"
range_reply lib (inr (dp ∷ points)) = bulk (points_text lib (dp ∷ points))

range_checked : Library → Text → Option ℤ → Option ℤ → Action Text
unfolding range_reply
range_checked lib key none end s = say (codes "-ERR Invalid start timestamp") s
range_checked lib key (some start) none s = say (codes "-ERR Invalid end timestamp") s
range_checked lib key (some start) (some end) s =
    say (range_reply lib (ts_range key (unix_time start) (unix_time end) s)) s

unfoldable pub ts_range_command : Library → List Text → Action Text
unfolding range_checked
ts_range_command lib (_ ∷ key ∷ start ∷ end ∷ _) s = range_checked lib key (atoi start) (atoi end) s
ts_range_command lib _ s = say (codes "-ERR TS.RANGE requires key, start, and end timestamps") s

latest_reply : Library → Text ⊎ DataPoint → Text
latest_reply lib (inl e) = codes "-ERR " ++ e
latest_reply lib (inr dp) = point_text lib dp

unfoldable pub ts_get_command : Library → List Text → Action Text
unfolding latest_reply
ts_get_command lib (_ ∷ key ∷ _) s = say (latest_reply lib (ts_get key s)) s
ts_get_command lib _ s = say (codes "-ERR TS.GET requires key") s
