-- ===== src/Handler/Places.antt =====
-- The cases of ProcessCommand (internal/storage/handler.go) for locations.
use tealis.Base.{
  ℕ, ◌%◌, List, ◌∷◌, Option, some, Outcome, ok, panic, deadlock, ◌==◌, ltb, ◌||◌, not,
  if◌then◌else◌, length,
}
use tealis.Base.Text.{Text, codes}
use tealis.Tealis.{Tealis, Action}
use tealis.GeoCommands.{geo_add, geo_dist, geo_search}
use tealis.Handler.Outside.{Library}
use tealis.Handler.Replies.{reply, say}
use tealis.Handler.Scores.{members_reply}

-- The rest of the loop after one location.
unfoldable pub next_place : Action Text → Outcome (Unit {0}) × Tealis → Outcome Text × Tealis
next_place rest (ok _, s) = rest s
next_place rest (panic, s) = (panic, s)
next_place rest (deadlock, s) = (deadlock, s)

-- One location: the longitude stands where `GEOAdd` takes the latitude.
unfoldable pub place_checked :
    Library → Text → Option ℕ → Option ℕ → Text → Action Text → Action Text
unfolding next_place
place_checked lib key (some longitude) (some latitude) member rest s =
    next_place rest (geo_add lib.sort_strings key longitude latitude member s)
place_checked lib key _ _ member rest s =
    say (codes "-ERR Longitude and latitude must be valid floating-point numbers") s

-- The loop of the case "GEOADD".
unfoldable pub add_places : Library → Text → List Text → Action Text
unfolding place_checked
add_places lib key (longitude ∷ latitude ∷ member ∷ parts) s =
    place_checked lib key (lib.parse_float longitude) (lib.parse_float latitude) member
      (add_places lib key parts) s
add_places lib key _ s = say (codes ":1") s

unfoldable pub geoadd_command : Library → List Text → Action Text
geoadd_command lib (c ∷ key ∷ parts) s =
    if ltb (length parts) 3 || not ((length parts % 3) == 0)
    then say (codes "-ERR GEOADD requires key, longitude, latitude, and member") s
    else add_places lib key parts s
geoadd_command lib _ s = say (codes "-ERR GEOADD requires key, longitude, latitude, and member") s

geodist_checked : Library → Text → Text → Text → List Text → Action Text
geodist_checked lib key member1 member2 (unit ∷ more ∷ _) s =
    say (codes "-ERR GEODIST requires key, member1, member2, and an optional unit") s
geodist_checked lib key member1 member2 _ s =
    reply (λ d. b':' ∷ lib.shown_float d) (geo_dist lib.arithmetic key member1 member2 s, s)

-- A unit is not looked at.
unfoldable pub geodist_command : Library → List Text → Action Text
unfolding geodist_checked
geodist_command lib (_ ∷ key ∷ member1 ∷ member2 ∷ unit) s =
    geodist_checked lib key member1 member2 unit s
geodist_command lib _ s =
    say (codes "-ERR GEODIST requires key, member1, member2, and an optional unit") s

georadius_checked : Library → Text → Option ℕ → Option ℕ → Option ℕ → Action Text
georadius_checked lib key (some longitude) (some latitude) (some radius) s =
    reply members_reply (geo_search lib.arithmetic key longitude latitude radius s, s)
georadius_checked lib key _ _ _ s =
    say (codes "-ERR Longitude, latitude, and radius must be valid numbers") s

unfoldable pub georadius_command : Library → List Text → Action Text
unfolding georadius_checked
georadius_command lib (_ ∷ key ∷ longitude ∷ latitude ∷ radius ∷ unit ∷ _) s =
    georadius_checked lib key (lib.parse_float longitude) (lib.parse_float latitude)
      (lib.parse_float radius) s
georadius_command lib _ s =
    say (codes "-ERR GEORADIUS requires key, longitude, latitude, radius, and unit") s
