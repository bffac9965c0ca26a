-- ===== src/GeoCommands.antt =====
-- internal/storage/geo.go. A `*GeoSet` is the value of one key only, so that it stands in the store as what it
-- points to. `sort_strings` is `sort.Strings`. Each method holds `Mu` to its end.
pub mod Searches
use tealis.Base.{
  ℕ, List, [], ◌∷◌, ◌++◌, Option, none, some, Bool, ◌||◌, if◌then◌else◌, Outcome, ok, panic,
}
use tealis.Base.Text.{Text}
use tealis.Base.Dict.{Dict, lookup, insert}
use tealis.Floats.{Arithmetic}
use tealis.Value.{GeoLocation, GeoSet, geo_set, as_geo_set}
use tealis.Tealis.{Tealis, Action, put}

-- `NewGeoSet`
unfoldable pub new_geo_set : GeoSet
new_geo_set = record { locations = []; sorted = [] }

-- `Add`
unfoldable pub add : (List Text → List Text) → Text → ℕ → ℕ → GeoSet → GeoSet
add sort_strings name lat lon g = record {
  locations = insert name (record { latitude = lat; longitude = lon; name = name }) g.locations;
  sorted = sort_strings (g.sorted ++ name ∷ []);
}

-- `GEOAdd`, which panics at a key of another type.
unfoldable pub geo_add : (List Text → List Text) → Text → ℕ → ℕ → Text → Action (Unit {0})
geo_add sort_strings key lat lon member s = elim (lookup key s.store) [
  | none ↦ (ok tt, put key (geo_set (add sort_strings member lat lon new_geo_set)) s)
  | some v ↦ elim (as_geo_set v) [
    | none ↦ (panic, s)
    | some g ↦ (ok tt, put key (geo_set (add sort_strings member lat lon g)) s)
  ]
]

module _ (arithmetic : Arithmetic) where
  -- Times `math.Pi / 180`.
  unfoldable pub radians : ℕ → ℕ
  radians x = arithmetic.mul x 4580687790476533049

  -- `math.Sin(d / 2)`
  unfoldable pub sin_half : ℕ → ℕ
  sin_half d = arithmetic.sin (arithmetic.div d 4611686018427387904)

  -- `Distance`: 6371 times the angle.
  unfoldable pub distance : ℕ → ℕ → ℕ → ℕ → ℕ
  distance lat1 lon1 lat2 lon2 =
      let d_lat = radians (arithmetic.sub lat2 lat1) in
      let d_lon = radians (arithmetic.sub lon2 lon1) in
      let cosines =
        arithmetic.mul (arithmetic.cos (radians lat1)) (arithmetic.cos (radians lat2)) in
      let a =
        arithmetic.add (arithmetic.mul (sin_half d_lat) (sin_half d_lat))
          (arithmetic.mul (arithmetic.mul cosines (sin_half d_lon)) (sin_half d_lon)) in
      let c = arithmetic.mul 4611686018427387904 (
        arithmetic.atan2 (arithmetic.sqrt a)
          (arithmetic.sqrt (arithmetic.sub 4607182418800017408 a))) in
      arithmetic.mul 4663727003281653760 c

  -- The locations of two members.
  unfoldable pub distance_of : Option GeoLocation → Option GeoLocation → Outcome ℕ
  distance_of (some a) (some b) = ok (distance a.latitude a.longitude b.latitude b.longitude)
  distance_of (some a) none = panic
  distance_of none b = panic

  -- `GEODist`, which panics at a missing key or member too.
  unfoldable pub geo_dist : Text → Text → Text → Tealis → Outcome ℕ
  geo_dist key member1 member2 s = elim (lookup key s.store) [
    | none ↦ panic
    | some v ↦ elim (as_geo_set v) [
      | none ↦ panic
      | some g ↦ distance_of (lookup member1 g.locations) (lookup member2 g.locations)
    ]
  ]

  -- `dist <= radius`
  unfoldable pub is_near : ℕ → ℕ → ℕ → GeoLocation → Bool
  is_near lat lon radius loc =
      let dist = distance lat lon loc.latitude loc.longitude in
      arithmetic.below dist radius || arithmetic.equal dist radius

  -- The loop of `SearchByRadius`, over a map.
  unfoldable pub search_by_radius : ℕ → ℕ → ℕ → Dict GeoLocation → List Text
  search_by_radius lat lon radius [] = []
  search_by_radius lat lon radius ((_, loc) ∷ locations) =
      let rest = search_by_radius lat lon radius locations in
      if is_near lat lon radius loc then loc.name ∷ rest else rest

  -- `GEOSearch`
  unfoldable pub geo_search : Text → ℕ → ℕ → ℕ → Tealis → Outcome (List Text)
  geo_search key lat lon radius s = elim (lookup key s.store) [
    | none ↦ ok []
    | some v ↦ elim (as_geo_set v) [
      | none ↦ panic
      | some g ↦ ok (search_by_radius lat lon radius g.locations)
    ]
  ]
