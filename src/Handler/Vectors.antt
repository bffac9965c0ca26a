-- ===== src/Handler/Vectors.antt =====
-- The cases of ProcessCommand (internal/storage/handler.go) for vectors.
use tealis.Base.{ℕ, List, [], ◌∷◌, ◌++◌, Option, none, some, ltb, if◌then◌else◌}
use tealis.Base.Int.{ℤ, pos}
use tealis.Base.Text.{Text, codes}
use tealis.Strconv.{atoi}
use tealis.Tealis.{Action}
use tealis.Transactions.{crlf}
use tealis.VectorCommands.{vector_set, vector_get, vector_search}
use tealis.Handler.Outside.{Library}
use tealis.Handler.Replies.{say, told}

-- The loops that parse a vector.
unfoldable pub parse_vector : Library → List Text → Option (List ℕ)
parse_vector lib [] = some []
parse_vector lib (part ∷ parts) = elim (lib.parse_float part) [
  | none ↦ none
  | some x ↦ elim (parse_vector lib parts) [ none ↦ none | some v ↦ some (x ∷ v) ]
]

set_parsed : Library → Text → Option (List ℕ) → Action Text
set_parsed lib key none s = say (codes "-ERR Invalid vector value" ++ crlf) s
set_parsed lib key (some v) s = told (λ t. t) (vector_set lib.shown_vector key v s)

unfoldable pub vector_set_command : Library → List Text → Action Text
unfolding set_parsed
vector_set_command lib (_ ∷ key ∷ value ∷ values) s =
    set_parsed lib key (parse_vector lib (value ∷ values)) s
vector_set_command lib _ s = say (codes "-ERR Usage: VECTOR.SET key [values...]" ++ crlf) s

unfoldable pub vector_get_command : Library → List Text → Action Text
vector_get_command lib (_ ∷ key ∷ []) s = say (vector_get lib.marshal_vector key s) s
vector_get_command lib _ s = say (codes "-ERR Usage: VECTOR.GET key" ++ crlf) s

-- The last part, and those before it.
unfoldable pub last_part : Text → List Text → Text
last_part part [] = part
last_part part (next ∷ parts) = last_part next parts

unfoldable pub front_parts : Text → List Text → List Text
front_parts part [] = []
front_parts part (next ∷ parts) = part ∷ front_parts next parts

search_parsed : Library → Option (List ℕ) → Option ℤ → Action Text
search_parsed lib none k s = say (codes "-ERR Invalid query vector value" ++ crlf) s
search_parsed lib (some query) (some (pos k)) s =
    if ltb 0 k
    then say (vector_search lib.arithmetic lib.sort_results lib.shown_float query k s) s
    else say (codes "-ERR Invalid k value" ++ crlf) s
search_parsed lib (some query) _ s = say (codes "-ERR Invalid k value" ++ crlf) s

unfoldable pub vector_search_command : Library → List Text → Action Text
unfolding search_parsed
vector_search_command lib (_ ∷ a ∷ b ∷ c ∷ parts) s =
    search_parsed lib (parse_vector lib (front_parts a (b ∷ c ∷ parts)))
      (atoi (last_part a (b ∷ c ∷ parts))) s
vector_search_command lib _ s = say (codes "-ERR Usage: VECTOR.SEARCH [query...] k" ++ crlf) s
