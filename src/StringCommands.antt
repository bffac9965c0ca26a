-- ===== src/StringCommands.antt =====
-- internal/storage/string.go. Text is bytes, as in Go; each method holds `Mu` to its end.
pub mod ReadWrite
pub mod Substrings
use tealis.Base.{
  ℕ, ◌+◌, ◌-◌, List, [], ◌∷◌, ◌++◌, Option, none, some, Bool, true, false, ◌&&◌, ◌||◌, Outcome, ok,
  panic, deadlock, ◌>>=◌, ltb, leb, if◌then◌else◌, length, take, drop, replicate, is_some,
}
use tealis.Base.Int.{ℤ, pos, negsuc, ◌+ℤ◌, wrap64, ltb_ℤ, leb_ℤ}
use tealis.Base.Text.{Text, text_eq, codes}
use tealis.Base.Dict.{Dict, lookup, insert, erase}
use tealis.Ranges.{slice, from_end, at_least_zero}
use tealis.Mutex.{Mutex, unlocked, rlock, lock}
use tealis.Strconv.{itoa, atoi}
use tealis.Value.{Value, nil_value, string, as_string, and_then}
use tealis.Tealis.{Tealis, Action, put, drop_key}
use tealis.Tealis.Expiry.{is_past}

-- `Set`
unfoldable pub set : Text → Text → ℤ → ℤ → Tealis → Tealis
set key value ttl now s = record s {
  store = insert key (string value) s.store;
  expiries = if ltb_ℤ (pos 0) ttl then insert key (now +ℤ ttl) s.expiries else erase key s.expiries;
}

-- The end of `Get`: `value.(string)`, unless the value is nil.
get_value : Option Value → Outcome (Option Text)
get_value none = ok none
get_value (some nil_value) = ok (some [])
get_value (some v) = elim (as_string v) [ none ↦ panic | some t ↦ ok (some t) ]

-- The write lock that `Get` takes for a key that has expired, while it holds the read lock.
get_expired : Text → Option Mutex → Action (Option Text)
get_expired key none s = (deadlock, s)
get_expired key (some m) s = (ok none, drop_key key s)

-- `Get`: the value, if the key exists.
unfoldable pub get : Text → ℤ → Action (Option Text)
unfolding get_value get_expired
get key now s = elim (rlock unlocked) [
  | none ↦ (deadlock, s)
  | some held ↦
      if is_past now (lookup key s.expiries)
      then get_expired key (lock held) s
      else (get_value (lookup key s.store), s)
]

unfoldable pub del : Text → Tealis → Bool × Tealis
del key s = if is_some (lookup key s.store) then (true, drop_key key s) else (false, s)

unfoldable pub exists : Text → Tealis → Bool
exists key s = is_some (lookup key s.store)

-- `Append`: the new length.
unfoldable pub append : Text → Text → Action ℕ
append key value s = elim (lookup key s.store) [
  | none ↦ (ok (length value), put key (string value) s)
  | some v ↦ elim (as_string v) [
    | none ↦ (panic, s)
    | some current ↦ (ok (length (current ++ value)), put key (string (current ++ value)) s)
  ]
]

unfoldable pub str_len : Text → Tealis → Outcome ℕ
str_len key s = elim (lookup key s.store) [
  | none ↦ ok 0
  | some v ↦ elim (as_string v) [ none ↦ panic | some t ↦ ok (length t) ]
]

-- `IncrBy`: `none` is the error "value is not an integer".
unfoldable pub incr_by : Text → ℤ → Action (Option ℤ)
incr_by key increment s = elim (lookup key s.store) [
  | none ↦ (ok (some increment), put key (string (itoa increment)) s)
  | some v ↦ elim (as_string v) [
    | none ↦ (panic, s)
    | some current ↦ elim (atoi current) [
      | none ↦ (ok none, s)
      | some n ↦
          let sum : ℤ = wrap64 (n +ℤ increment) in (ok (some sum), put key (string (itoa sum)) s)
    ]
  ]
]

range_of : Text → ℤ → ℤ → Outcome Text
range_of value start end =
    let len : ℤ = pos (length value) in
    let start : ℤ = at_least_zero (from_end start (length value)) in
    let end : ℤ = from_end end (length value) in
    if leb_ℤ len start
    then ok []
    else let end : ℤ = if leb_ℤ len end then len +ℤ negsuc 0 else end in
      if ltb_ℤ end start then ok [] else slice value start (end +ℤ pos 1)

unfoldable pub get_range : Text → ℤ → ℤ → Tealis → Outcome Text
unfolding range_of
get_range key start end s = elim (and_then (lookup key s.store) as_string) [
  | none ↦ ok []
  | some value ↦ range_of value start end
]

-- `currentValue[:offset] + value`, after padding with spaces up to the offset
spliced : Text → ℤ → Text → Outcome Text
spliced current (negsuc n) value = panic
spliced current (pos offset) value =
    let padded =
      (if ltb (length current) offset
        then current ++ replicate (offset - length current) b' '
        else current) in
    slice padded (pos 0) (pos offset) >>= λ kept. ok (kept ++ value)

-- `SetRange`: the new length.
unfoldable pub set_range : Text → ℤ → Text → Action ℕ
unfolding spliced
set_range key offset value s =
    let current : Text = elim (and_then (lookup key s.store) as_string) [
      | none ↦ []
      | some t ↦ t
    ] in
    elim (spliced current offset value) [
      | ok t ↦ (ok (length t), put key (string t) s)
      | panic ↦ (panic, s)
      | deadlock ↦ (deadlock, s)
    ]

-- `matchesPattern`. `path_match` is `path.Match`, nothing where it fails.
unfoldable pub matches_pattern : (Text → Text → Option Bool) → Text → Text → Bool
matches_pattern path_match key glob = elim (path_match glob key) [
  | none ↦ false
  | some matched ↦ matched
]

-- The loop of `Keys` over the store.
unfoldable pub matched_keys : (Text → Text → Option Bool) → Text → Dict Value → List Text
matched_keys path_match glob [] = []
matched_keys path_match glob ((key, _) ∷ d) =
    let rest = matched_keys path_match glob d in
    if text_eq glob (codes "*") || matches_pattern path_match key glob then key ∷ rest else rest

-- `Keys`
unfoldable pub keys : (Text → Text → Option Bool) → Text → Tealis → List Text
keys path_match glob s = matched_keys path_match glob s.store
