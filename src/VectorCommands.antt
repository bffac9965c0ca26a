-- ===== src/VectorCommands.antt =====
-- internal/storage/vector.go, with replies as the program writes them. `shown` is `fmt.Sprintf` of a vector with
-- `%v`, `marshal` its JSON text, which is empty where `json.Marshal` fails, `sorted` is `sort.Slice` of the results
-- by their distances, and `shown_float` is `%f`. Each method holds `Mu` to its end.
use tealis.Base.{
  ℕ, List, [], ◌∷◌, ◌++◌, none, some, ◌||◌, not, ◌==◌, if◌then◌else◌, length, take, map,
}
use tealis.Base.Int.{pos}
use tealis.Base.Text.{Text, codes}
use tealis.Base.Dict.{Dict, lookup}
use tealis.Floats.{Arithmetic}
use tealis.Strings.{join}
use tealis.Strconv.{itoa}
use tealis.Value.{Value, vector, as_vector}
use tealis.Tealis.{Tealis, put}
use tealis.Transactions.{crlf, append_to_aof}

-- `VectorSet`
unfoldable pub vector_set : (List ℕ → Text) → Text → List ℕ → Tealis → Text × Tealis
vector_set shown key v s =
    let stored = put key (vector v) s in
    let line = codes "VECTOR.SET " ++ (key ++ (b' ' ∷ shown v)) in
    (codes "+OK" ++ crlf, if stored.enable_aof then append_to_aof line stored else stored)

-- `VectorGet`
unfoldable pub vector_get : (List ℕ → Text) → Text → Tealis → Text
vector_get marshal key s = elim (lookup key s.store) [
  | none ↦ codes "-ERR Key not found" ++ crlf
  | some value ↦ elim (as_vector value) [
    | none ↦ codes "-ERR Key is not a vector" ++ crlf
    | some v ↦ b'$' ∷ itoa (pos (length (marshal v))) ++ (crlf ++ (marshal v ++ crlf))
  ]
]

-- A key with its distance.
abbrev pub Result : Type 0
Result = Text × ℕ

module _ (arithmetic : Arithmetic) where
  -- The loop of `CosineSimilarity`, on vectors of one length: the product and the squares of the norms.
  unfoldable pub products : List ℕ → List ℕ → ℕ × ℕ × ℕ → ℕ × ℕ × ℕ
  products [] b sums = sums
  products (x ∷ a) [] sums = sums
  products (x ∷ a) (y ∷ b) (dot, norm_a, norm_b) = products a b (
    arithmetic.add dot (arithmetic.mul x y),
    arithmetic.add norm_a (arithmetic.mul x x),
    arithmetic.add norm_b (arithmetic.mul y y),
  )

  unfoldable pub from_products : ℕ × ℕ × ℕ → ℕ
  from_products (dot, norm_a, norm_b) =
      if arithmetic.equal norm_a 0 || arithmetic.equal norm_b 0
      then 4607182418800017408
      else arithmetic.sub 4607182418800017408
          (arithmetic.div dot (arithmetic.mul (arithmetic.sqrt norm_a) (arithmetic.sqrt norm_b)))

  -- `CosineSimilarity`
  unfoldable pub cosine_similarity : List ℕ → List ℕ → ℕ
  cosine_similarity a b =
      if not (length a == length b)
      then 4607182418800017408
      else from_products (products a b (0, 0, 0))

  -- The loop of `VectorSearch` over the store.
  unfoldable pub results_in : List ℕ → Dict Value → List Result
  results_in query [] = []
  results_in query ((key, value) ∷ d) = elim (as_vector value) [
    | none ↦ results_in query d
    | some v ↦ (key, cosine_similarity query v) ∷ results_in query d
  ]

  -- `"%s: %f"`
  unfoldable pub result_text : (ℕ → Text) → Result → Text
  result_text shown_float (key, distance) = key ++ (codes ": " ++ shown_float distance)

  -- `VectorSearch`, for a positive `k`
  unfoldable pub vector_search :
      (List Result → List Result) → (ℕ → Text) → List ℕ → ℕ → Tealis → Text
  vector_search sorted shown_float query k s =
      join crlf (map (result_text shown_float) (take k (sorted (results_in query s.store)))) ++ crlf
