-- ===== src/HashCommands.antt =====
-- internal/storage/hset.go. A hash is a `map[string]interface{}`; the nil map of that type (which
-- JSON.SET stores for a malformed document) reads as empty and panics when it is written. Each method
-- holds `Mu` to its end.
pub mod Fields
use tealis.Base.{
  ℕ, List, [], ◌∷◌, Option, none, some, Bool, true, false, Outcome, ok, panic, if◌then◌else◌,
  is_some,
}
use tealis.Base.Text.{Text}
use tealis.Base.Dict.{Dict, lookup, insert, erase}
use tealis.Value
use tealis.Value.{Value, Json, GoMap, made, as_hash, and_then}
use tealis.Tealis.{Tealis, Action, put}

-- `hash, ok := r.Store[key].(map[string]interface{})`
abbrev pub hash_at : Text → Tealis → Option GoMap
hash_at key s = and_then (lookup key s.store) as_hash

-- `if !ok { hash = make(...); r.Store[key] = hash }`: a value of another type is replaced.
abbrev pub hash_or_new : Option GoMap → GoMap
hash_or_new none = made []
hash_or_new (some h) = h

-- The entries that a read sees.
abbrev pub entries : GoMap → Dict Json
entries GoMap.nil_map = []
entries (made d) = d

abbrev pub field_of : Text → Option GoMap → Option Json
field_of f none = none
field_of f (some h) = lookup f (entries h)

hset_in : Text → Text → Json → GoMap → Action ℕ
hset_in key field value GoMap.nil_map s = (panic, s)
hset_in key field value (made d) s =
    (ok (if is_some (lookup field d) then 0 else 1), put key (Value.hash (insert field value d)) s)

-- `HSET`: 1 if the field is new, and 0 if it is not.
unfoldable pub hset : Text → Text → Json → Action ℕ
unfolding hset_in
hset key field value s = hset_in key field value (hash_or_new (hash_at key s)) s

unfoldable pub hget : Text → Text → Tealis → Option Json
hget key field s = field_of field (hash_at key s)

-- `for field, value := range fields { hash[field] = value }`
unfoldable pub insert_all : Dict Json → Dict Json → Dict Json
insert_all [] d = d
insert_all ((f, v) ∷ fs) d = insert_all fs (insert f v d)

-- Writing no field into the nil map does not panic.
hmset_in : Text → Dict Json → GoMap → Action (Unit {0})
hmset_in key [] GoMap.nil_map s = (ok tt, s)
hmset_in key (f ∷ fs) GoMap.nil_map s = (panic, s)
hmset_in key fs (made d) s = (ok tt, put key (Value.hash (insert_all fs d)) s)

unfoldable pub hmset : Text → Dict Json → Action (Unit {0})
unfolding hmset_in
hmset key fields s = hmset_in key fields (hash_or_new (hash_at key s)) s

copied : Option GoMap → Option (Dict Json)
unfolding insert_all
copied none = none
copied (some h) = some (insert_all (entries h) [])

-- `HGETALL`: a copy, or nil for a key without a hash.
unfoldable pub hgetall : Text → Tealis → Option (Dict Json)
unfolding copied
hgetall key s = copied (hash_at key s)

hdel_in : Text → Text → Option GoMap → Tealis → ℕ × Tealis
hdel_in key field none s = (0, s)
hdel_in key field (some h) s =
    if is_some (lookup field (entries h))
    then (1, put key (Value.hash (erase field (entries h))) s)
    else (0, s)

-- `HDEL`: 1 if the field was there. (A deletion from the nil map is not reached.)
unfoldable pub hdel : Text → Text → Tealis → ℕ × Tealis
unfolding hdel_in
hdel key field s = hdel_in key field (hash_at key s) s

unfoldable pub hexists : Text → Text → Tealis → Bool
hexists key field s = is_some (field_of field (hash_at key s))
