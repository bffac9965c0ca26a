-- ===== src/GeoCommands/Searches.antt =====
-- What a search finds among the locations of a key (internal/storage/geo.go).
use tealis.Base.{
  ℕ, ◌||◌, List, [], ◌∷◌, Option, none, some, Bool, false, if◌then◌else◌, ok, ◌≡◌, refl, ap, arith,
}
use tealis.Base.Text.{Text, text_eq, text_eq_iff}
use tealis.Base.Dict.{
  Dict, lookup, insert, lookup-insert, lookup-insert_self, erase-insert, IsDict, insert-IsDict,
}
use tealis.Floats.{Arithmetic}
use tealis.Value.{GeoLocation, GeoSet, geo_set, as_geo_set}
use tealis.Tealis.{Tealis}
use tealis.SetCommands.Members.{contains}
use tealis.SortedSetCommands.Scores.{SameElsewhere}
use tealis.GeoCommands.{add, new_geo_set, geo_add, distance, is_near, search_by_radius, geo_search}

-- Each location carries the name that it stands under.
abbrev pub AllNamed : Dict GeoLocation → Type 0
AllNamed [] = Unit
AllNamed ((name, loc) ∷ d) = (loc.name ≡ name) × AllNamed d

-- The key holds these locations, each once and under its name, or there are none and no key.
pub data Places (key : Text) (s : Tealis) : Dict GeoLocation → Type 0 where
  absent : lookup key s.store ≡ none → Places key s []
  present :
      {d : Dict GeoLocation} (g : GeoSet)
      → lookup key s.store ≡ some (geo_set g)
      → g.locations ≡ d
      → IsDict d
      → AllNamed d
      → Places key s d

abbrev pub location : Text → ℕ → ℕ → GeoLocation
location name lat lon = record { latitude = lat; longitude = lon; name = name }

insert-AllNamed :
    (name : Text) (loc : GeoLocation) (d : Dict GeoLocation)
    → loc.name ≡ name
    → AllNamed d
    → AllNamed (insert name loc d)
unfolding insert
insert-AllNamed name loc [] e h = (e, tt)
insert-AllNamed name loc ((k, l) ∷ d) e h =
    ground (arith, text_eq_iff k name, insert-AllNamed name loc d e)

module _ (arithmetic : Arithmetic) (lat lon radius : ℕ) where
  -- The distance is below the radius or equal to it.
  abbrev pub in_radius : GeoLocation → Bool
  in_radius loc =
      arithmetic.below (distance arithmetic lat lon loc.latitude loc.longitude) radius
      || arithmetic.equal (distance arithmetic lat lon loc.latitude loc.longitude) radius

  abbrev pub near_in : Option GeoLocation → Bool
  near_in none = false
  near_in (some loc) = in_radius loc

  contains-search_by_radius :
      (m : Text) (d : Dict GeoLocation)
      → IsDict d
      → AllNamed d
      → contains (search_by_radius arithmetic lat lon radius d) m ≡ near_in (lookup m d)
  unfolding search_by_radius lookup is_near
  contains-search_by_radius m [] h n = refl
  contains-search_by_radius m ((k, loc) ∷ d) h n =
      ground (arith, text_eq_iff k m, contains-search_by_radius m d h.1 n.1, h.0, n.0)

  -- A search of a key finds the names of the near locations, and no others.
  geo_search-near :
      (key : Text) (d : Dict GeoLocation) (s : Tealis)
      → Places key s d
      → (found : List Text) × ((geo_search arithmetic key lat lon radius s ≡ ok found)
          × ((m : Text) → contains found m ≡ near_in (lookup m d)))
  unfolding geo_search as_geo_set lookup
  geo_search-near key d s (absent missing) = ([], (rw (missing, geo_search) refl, λ m. refl))
  geo_search-near key d s (present g there e h n) = (
    search_by_radius arithmetic lat lon radius d,
    (rw (there, geo_search, e) refl, λ m. contains-search_by_radius m d h n),
  )

module _ (sort_strings : List Text → List Text) (key : Text) where
  stored :
      (g : GeoSet) (member : Text) (lat lon : ℕ) (d : Dict GeoLocation) (s : Tealis)
      → g.locations ≡ d
      → IsDict d
      → AllNamed d
      → Places key
          (record s { store = insert key (geo_set (add sort_strings member lat lon g)) s.store })
          (insert member (location member lat lon) d)
  unfolding add
  stored g member lat lon d s e h n =
      present (add sort_strings member lat lon g)
        (lookup-insert_self key (geo_set (add sort_strings member lat lon g)) s.store)
        (ap (insert member (location member lat lon)) e)
        (insert-IsDict member (location member lat lon) d h)
        (insert-AllNamed member (location member lat lon) d refl n)

  -- What `GEOAdd` leaves.
  abbrev pub Placed : Text → ℕ → ℕ → Dict GeoLocation → Tealis → Tealis → Type 0
  Placed member lat lon d s s' =
      (geo_add sort_strings key lat lon member s ≡ (ok tt, s'))
      × (Places key s' (insert member (location member lat lon) d) × SameElsewhere key s s')

  geo_add-Placed :
      (member : Text) (lat lon : ℕ) (d : Dict GeoLocation) (s : Tealis)
      → Places key s d
      → (s' : Tealis) × Placed member lat lon d s s'
  unfolding geo_add as_geo_set new_geo_set
  geo_add-Placed member lat lon d s (absent missing) = (
    record s { store = insert key (geo_set (add sort_strings member lat lon new_geo_set)) s.store },
    (
      rw (missing, geo_add) refl,
      (
        stored new_geo_set member lat lon [] s refl tt tt,
        (refl, erase-insert key (geo_set (add sort_strings member lat lon new_geo_set)) s.store),
      ),
    ),
  )
  geo_add-Placed member lat lon d s (present g there e h n) = (
    record s { store = insert key (geo_set (add sort_strings member lat lon g)) s.store },
    (
      rw (there, geo_add) refl,
      (
        stored g member lat lon d s e h n,
        (refl, erase-insert key (geo_set (add sort_strings member lat lon g)) s.store),
      ),
    ),
  )

  -- `GEOAdd` of a member to a key that holds locations, or is absent, ends, changes nothing else, and leaves the locations with the member at the place given. Every search after it lists exactly the members that are within the radius: the member by its new place, and another by the place that it had.
  pub geo_add-geo_search :
      (member : Text) (lat lon : ℕ) (d : Dict GeoLocation) (s : Tealis)
      → Places key s d
      → (s' : Tealis) × (Placed member lat lon d s s'
          × ((arithmetic : Arithmetic) (x y radius : ℕ)
              → (found : List Text) × ((geo_search arithmetic key x y radius s' ≡ ok found)
                  × ((m : Text)
                      → contains found m ≡ (
                          if text_eq member m
                          then in_radius arithmetic x y radius (location member lat lon)
                          else near_in arithmetic x y radius (lookup m d))))))
  geo_add-geo_search member lat lon d s h =
      let (s', placed) = geo_add-Placed member lat lon d s h in
      (s', (placed, λ arithmetic x y radius. searched s' placed.1.0 arithmetic x y radius))
    where
      searched :
          (s' : Tealis)
          → Places key s' (insert member (location member lat lon) d)
          → (arithmetic : Arithmetic) (x y radius : ℕ)
          → (found : List Text) × ((geo_search arithmetic key x y radius s' ≡ ok found)
              × ((m : Text)
                  → contains found m ≡ (
                      if text_eq member m
                      then in_radius arithmetic x y radius (location member lat lon)
                      else near_in arithmetic x y radius (lookup m d))))
      searched s' held arithmetic x y radius =
          let (found, (done, finds)) =
            geo_search-near arithmetic x y radius key (insert member (location member lat lon) d) s'
              held in
          (
            found,
            (
              done,
              λ m. ground (arith, finds m, lookup-insert m member (location member lat lon) d),
            ),
          )
