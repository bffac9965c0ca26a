-- ===== src/Handler/KeptSets.antt =====
-- What the cases for sorted sets, locations, vectors, keys and expiries leave alone, and what those for channels
-- leave alone (internal/storage/handler.go).
use tealis.Base.{
  ℕ, List, [], ◌∷◌, Option, none, some, Outcome, ok, panic, deadlock, ◌≡◌, refl, ◌∙◌, arith,
}
use tealis.Base.Int.{ℤ}
use tealis.Base.Text.{Text}
use tealis.Tealis.{Tealis, Action}
use tealis.Transactions.{append_to_aof}
use tealis.SortedSetCommands.{store_set, zadd, store_removed, zrem}
use tealis.GeoCommands.{geo_add}
use tealis.VectorCommands.{vector_set}
use tealis.PubSub.{subscribe, unsubscribe, publish}
use tealis.Tealis.Expiry.{ex}
use tealis.Handler.Outside.{Library}
use tealis.Handler.Strings.{quit_command, ex_command, keys_command}
use tealis.Handler.Scores.{
  zadd_command, zrange_command, zrank_command, zrem_command, zrangebyscore_command,
}
use tealis.Handler.Places.{
  next_place, place_checked, add_places, geoadd_command, geodist_command, georadius_command,
}
use tealis.Handler.Vectors.{vector_set_command, vector_get_command, vector_search_command}
use tealis.Handler.Channels.{subscribe_command, unsubscribe_command, publish_command}
use tealis.Handler.Kept.{session, Keeps}

pub quit_command-Keeps : (parts : List Text) → Keeps (quit_command parts)
unfolding quit_command
quit_command-Keeps parts s = refl

pub ex_command-Keeps :
    (lib : Library) (now : ℤ) (parts : List Text) → Keeps (ex_command lib now parts)
unfolding ex_command ex
ex_command-Keeps lib now parts s = ground arith

pub keys_command-Keeps : (lib : Library) (parts : List Text) → Keeps (keys_command lib parts)
unfolding keys_command
keys_command-Keeps lib parts s = ground arith

pub zadd_command-Keeps :
    (lib : Library) (now : ℤ) (parts : List Text) → Keeps (zadd_command lib now parts)
unfolding zadd_command zadd store_set
zadd_command-Keeps lib now parts s = ground arith

pub zrange_command-Keeps : (parts : List Text) → Keeps (zrange_command parts)
unfolding zrange_command
zrange_command-Keeps parts s = ground arith

pub zrank_command-Keeps : (parts : List Text) → Keeps (zrank_command parts)
unfolding zrank_command
zrank_command-Keeps parts s = ground arith

pub zrem_command-Keeps : (parts : List Text) → Keeps (zrem_command parts)
unfolding zrem_command zrem store_removed
zrem_command-Keeps parts s = ground arith

pub zrangebyscore_command-Keeps :
    (lib : Library) (parts : List Text) → Keeps (zrangebyscore_command lib parts)
unfolding zrangebyscore_command
zrangebyscore_command-Keeps lib parts s = ground arith

geo_add-session :
    (lib : Library) (key : Text) (lat lon : ℕ) (member : Text) (s : Tealis)
    → session (geo_add lib.sort_strings key lat lon member s).1 ≡ session s
unfolding geo_add
geo_add-session lib key lat lon member s = ground arith

next_place-session :
    (rest : Action Text)
    → Keeps rest
    → (x : Outcome (Unit {0}) × Tealis) → session (next_place rest x).1 ≡ session x.1
unfolding next_place
next_place-session rest h (ok _, t) = h t
next_place-session rest h (panic, t) = refl
next_place-session rest h (deadlock, t) = refl

place_checked-Keeps :
    (lib : Library) (key : Text) (longitude latitude : Option ℕ) (member : Text)
    (rest : Action Text)
    → Keeps rest
    → Keeps (place_checked lib key longitude latitude member rest)
unfolding place_checked
place_checked-Keeps lib key (some x) (some y) member rest h s =
    next_place-session rest h (geo_add lib.sort_strings key x y member s)
    ∙ geo_add-session lib key x y member s
place_checked-Keeps lib key (some x) none member rest h s = refl
place_checked-Keeps lib key none y member rest h s = refl

add_places-Keeps :
    (lib : Library) (key : Text) (parts : List Text) → Keeps (add_places lib key parts)
unfolding add_places
add_places-Keeps lib key [] s = refl
add_places-Keeps lib key (_ ∷ []) s = refl
add_places-Keeps lib key (_ ∷ _ ∷ []) s = refl
add_places-Keeps lib key (x ∷ y ∷ member ∷ parts) s =
    place_checked-Keeps lib key (lib.parse_float x) (lib.parse_float y) member
      (add_places lib key parts) (add_places-Keeps lib key parts) s

pub geoadd_command-Keeps : (lib : Library) (parts : List Text) → Keeps (geoadd_command lib parts)
unfolding geoadd_command
geoadd_command-Keeps lib [] s = refl
geoadd_command-Keeps lib (c ∷ []) s = refl
geoadd_command-Keeps lib (c ∷ key ∷ parts) s = grind (arith, add_places-Keeps lib key parts s)

pub geodist_command-Keeps : (lib : Library) (parts : List Text) → Keeps (geodist_command lib parts)
unfolding geodist_command
geodist_command-Keeps lib parts s = ground arith

pub georadius_command-Keeps :
    (lib : Library) (parts : List Text) → Keeps (georadius_command lib parts)
unfolding georadius_command
georadius_command-Keeps lib parts s = ground arith

pub vector_get_command-Keeps :
    (lib : Library) (parts : List Text) → Keeps (vector_get_command lib parts)
unfolding vector_get_command
vector_get_command-Keeps lib parts s = ground arith

pub vector_search_command-Keeps :
    (lib : Library) (parts : List Text) → Keeps (vector_search_command lib parts)
unfolding vector_search_command
vector_search_command-Keeps lib parts s = ground arith

-- It leaves the queues of transactions alone.
abbrev pub KeepsQueues : {A : Type 0} → Action A → Type 0
KeepsQueues f = (s : Tealis) → (f s).1.transactions ≡ s.transactions

pub subscribe_command-queues :
    (client : Text) (parts : List Text) → KeepsQueues (subscribe_command client parts)
unfolding subscribe_command subscribe
subscribe_command-queues client parts s = ground arith

pub unsubscribe_command-queues :
    (client : Text) (parts : List Text) → KeepsQueues (unsubscribe_command client parts)
unfolding unsubscribe_command unsubscribe
unsubscribe_command-queues client parts s = ground arith

pub publish_command-queues :
    (client : Text) (parts : List Text) → KeepsQueues (publish_command client parts)
unfolding publish_command publish
publish_command-queues client parts s = ground arith

pub vector_set_command-queues :
    (lib : Library) (parts : List Text) → KeepsQueues (vector_set_command lib parts)
unfolding vector_set_command vector_set append_to_aof
vector_set_command-queues lib parts s = ground arith
