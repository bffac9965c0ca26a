-- ===== src/Handler/Outside.antt =====
-- What internal/storage/handler.go and the methods it calls take from Go's libraries and its runtime, as
-- parameters of the model.
use tealis.Base.{ℕ, List, Option, Bool, ◌⊎◌}
use tealis.Base.Int.{ℤ}
use tealis.Base.Text.{Text}
use tealis.Base.Dict.{Dict}
use tealis.Floats.{Arithmetic}
use tealis.Value.{Json, GoMap, DataPoint}
use tealis.BitfieldCommands.{Spare}
use tealis.JsonCommands.{Node}

pub record Library : Type 0 where
  -- fmt.Sprintf of a value and of a `map[string]string` with `%v`, and of a float with `%f`
  pub shown : Json → Text
  pub shown_map : Dict Text → Text
  pub shown_float : ℕ → Text
  -- what `append` allocates beyond what it needs
  pub spare : Spare
  -- encoding/json: what is left in a nil map, and an error or a text
  pub unmarshal : Text → GoMap
  pub marshal : Node → Text ⊎ Text
  -- `fmt.Sscanf(part, "%d", &index)` and `strconv.ParseFloat(s, 64)`
  pub scan_index : Text → Option ℤ
  pub parse_float : Text → Option ℕ
  -- `sort.Slice` of points by their timestamps
  pub sorted : List DataPoint → List DataPoint
  pub arithmetic : Arithmetic
  -- math/rand: whether the next number is below 0.5 and the source that is left, and a source from an instant
  pub float32 : ℕ → Bool × ℕ
  pub new_source : ℤ → ℕ
  -- `sort.Strings`, and `sort.Slice` of keys by their distances
  pub sort_strings : List Text → List Text
  pub sort_results : List (Text × ℕ) → List (Text × ℕ)
  -- a vector with `%v`, and as JSON: nothing where that fails
  pub shown_vector : List ℕ → Text
  pub marshal_vector : List ℕ → Text
  -- the text of an error of strconv.ParseFloat, and `path.Match(pattern, key)`, nothing where that fails
  pub float_error : Text → Text
  pub path_match : Text → Text → Option Bool
