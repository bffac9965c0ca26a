-- ===== src/Tests/Places.antt =====
-- Examples for locations (internal/storage/geo.go).
use tealis.Base.{ℕ, List, [], ◌∷◌, some, none, if◌then◌else◌, ok, ◌≡◌, refl}
use tealis.Base.Text.{Text, text_eq}
use tealis.Base.Dict.{lookup}
use tealis.Floats.{Arithmetic}
use tealis.Value.{GeoSet, geo_set}
use tealis.Tealis.{Tealis, put}
use tealis.SetCommands.Members.{contains}
use tealis.GeoCommands.{geo_search}
use tealis.GeoCommands.Searches.{
  Places, present, location, in_radius, near_in, Placed, geo_add-geo_search,
}
use tealis.Tests.Data.{k, a, b, started}

-- One location, a at 3 and 4.
abbrev one_place : GeoSet
one_place = record { locations = (a, location a 3 4) ∷ []; sorted = a ∷ [] }

abbrev placed : Tealis
placed = put k (geo_set one_place) started

placed-Places : Places k placed ((a, location a 3 4) ∷ [])
unfolding lookup text_eq tealis.Base.Dict.insert
placed-Places = present one_place refl refl (refl, tt) (refl, tt)

geo_add-geo_search_example :
    (s' : Tealis) × (Placed (λ l. l) k b 5 6 ((a, location a 3 4) ∷ []) placed s'
      × ((arithmetic : Arithmetic) (x y radius : ℕ)
          → (found : List Text) × ((geo_search arithmetic k x y radius s' ≡ ok found)
              × ((m : Text)
                  → contains found m ≡ (
                      if text_eq b m
                      then in_radius arithmetic x y radius (location b 5 6)
                      else near_in arithmetic x y radius (lookup m ((a, location a 3 4) ∷ [])))))))
geo_add-geo_search_example =
    geo_add-geo_search (λ l. l) k b 5 6 ((a, location a 3 4) ∷ []) placed placed-Places
