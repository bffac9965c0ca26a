-- ===== src/JsonCommands.antt =====
-- internal/storage/json.go. `unmarshal` is what `json.Unmarshal` leaves in a `map[string]interface{}` that
-- was nil, also where it fails; `marshal` is `json.Marshal` of a document, which cannot fail on what comes
-- from JSON; `scan_index` is `fmt.Sscanf(part, "%d", &index)`. Documents are changed in place, and no other
-- key shares them. `JSONSet` and `JSONArrAppend` hold `Mu` to their end, the others take no lock. The
-- printing is left out. `setAtPath` and `setValue`, which nothing calls, are in Setting.
pub mod Paths
pub mod Losses
pub mod Setting
pub mod SetThenGet
use tealis.Base.{
  ℕ, zero, suc, List, [], ◌∷◌, ◌++◌, Option, none, some, Bool, true, false, if◌then◌else◌, ◌||◌,
  ◌⊎◌, inl, inr, get_elem?, set, ◌==◌,
}
use tealis.Base.Int.{ℤ, pos, negsuc}
use tealis.Base.Text.{Text, codes, text_eq}
use tealis.Base.Dict.{Dict, lookup, insert, erase}
use tealis.Value.{
  Value, nil_value, Json, Items, Fields, null, str, arr, obj, nil, cons, end, field, GoMap, nil_map,
  made, hash, array, string,
}
use tealis.Strings.{split}
use tealis.Tealis.{Tealis, Action, put, drop_key}

-- What a type switch finds of a value within a document: a map, an array, nil, or neither.
pub data Node : Type 0 where
  map_node : GoMap → Node
  array_node : List Json → Node
  nil_node : Node
  leaf : Json → Node
  -- a stored value that is no document
  other : Value → Node

unfoldable pub items_of : Items → List Json
items_of nil = []
items_of (cons j items) = j ∷ items_of items

unfoldable pub fields_of : Fields → Dict Json
fields_of end = []
fields_of (field name j rest) = (name, j) ∷ fields_of rest

unfoldable pub node_of : Json → Node
node_of null = nil_node
node_of (arr items) = array_node (items_of items)
node_of (obj names) = map_node (made (fields_of names))
node_of j = leaf j

unfoldable pub node_at : Value → Node
node_at (hash d) = map_node (made d)
node_at Value.nil_map = map_node nil_map
node_at (array l) = array_node l
node_at nil_value = nil_node
node_at v = other v

-- `m[part]`, where a missing entry is nil
unfoldable pub entry : Text → GoMap → Node
entry part nil_map = nil_node
entry part (made d) = elim (lookup part d) [ none ↦ nil_node | some j ↦ node_of j ]

-- `strings.HasPrefix(path, ".")` and `path[1:]`
unfoldable pub without_dot : Text → Text
without_dot [] = []
without_dot (c ∷ path) = if c == b'.' then path else c ∷ path

unfoldable pub not_found : Text → Text
not_found part = codes "key '" ++ part ++ codes "' not found"

unfoldable pub bad_index : Text → Text
bad_index part = codes "invalid index '" ++ part ++ codes "' for array"

unfoldable pub bad_path : Text → Text → Text
bad_path path part = codes "invalid path '" ++ path ++ codes "' at part '" ++ part ++ codes "'"

-- A `map[string]interface{}` as a stored value.
unfoldable pub value_of : GoMap → Value
value_of nil_map = Value.nil_map
value_of (made d) = hash d

-- `JSONSet`, which does not look at the path: no error.
unfoldable pub json_set : (Text → GoMap) → Text → Text → Text → Tealis → Option Text × Tealis
json_set unmarshal key path value s = (none, put key (value_of (unmarshal value)) s)

-- An error, or what was found.
abbrev pub Found : Type 0
Found = Text ⊎ Node

-- `arr[index]` behind the test of the index, in the case of an array.
unfoldable pub element : Text → Option ℤ → List Json → Text ⊎ (ℕ × Json)
element part (some (pos i)) l = elim (get_elem? l i) [
  | none ↦ inl (bad_index part)
  | some j ↦ inr (i, j)
]
element part _ l = inl (bad_index part)

module _ (scan_index : Text → Option ℤ) where
  -- One round of the loop of `getAtPath`.
  unfoldable pub descend : Text → Text → Node → Found
  descend path part (map_node m) = elim (entry part m) [
    | nil_node ↦ inl (not_found part)
    | n ↦ inr n
  ]
  descend path part (array_node l) = elim (element part (scan_index part) l) [
    | inl e ↦ inl e
    | inr (i, j) ↦ inr (node_of j)
  ]
  descend path part n = inl (bad_path path part)

  -- The loop of `getAtPath`.
  unfoldable pub get_parts : Text → List Text → Node → Found
  get_parts path [] n = inr n
  get_parts path (part ∷ parts) n = elim (descend path part n) [
    | inl e ↦ inl e
    | inr next ↦ get_parts path parts next
  ]

  -- `getAtPath`
  unfoldable pub get_at_path : Node → Text → Found
  get_at_path n path = get_parts (without_dot path) (split b'.' (without_dot path)) n

  get_in : Text → Option Value → Found
  get_in path none = inl (codes "key not found")
  get_in path (some v) =
      if text_eq path (codes ".") then inr (node_at v) else get_at_path (node_at v) path

  -- `JSONGet`
  unfoldable pub json_get : Text → Text → Tealis → Found
  unfolding get_in
  json_get key path s = get_in path (lookup key s.store)

  -- The loop of `JSONDel`: the map or array of the last part, without what the part names.
  unfoldable pub delete_parts : Text → List Text → Node → Found
  delete_parts path [] n = inl (codes "path '" ++ path ++ codes "' not found")
  delete_parts path (part ∷ []) (map_node nil_map) = inr (map_node nil_map)
  delete_parts path (part ∷ []) (map_node (made d)) = inr (map_node (made (erase part d)))
  delete_parts path (part ∷ []) (array_node l) = elim (element part (scan_index part) l) [
    | inl e ↦ inl e
    | inr (i, j) ↦ inr (array_node (set l i null))
  ]
  delete_parts path (part ∷ []) n = inl (bad_path path part)
  delete_parts path (part ∷ next ∷ parts) n = elim (descend path part n) [
    | inl e ↦ inl e
    | inr m ↦ delete_parts path (next ∷ parts) m
  ]

  module _ (marshal : Node → Text) where
    store_text : Text → Found → Tealis → Option Text × Tealis
    store_text key (inl e) s = (some e, s)
    store_text key (inr n) s = (none, put key (string (marshal n)) s)

    delete_in : Text → Text → Option Value → Tealis → Option Text × Tealis
    delete_in key path none s = (some (codes "key not found"), s)
    delete_in key path (some v) s =
        if text_eq path [] || text_eq path (codes ".")
        then (none, drop_key key s)
        else store_text key (delete_parts path (split b'.' path) (node_at v)) s

    -- `JSONDel`
    unfoldable pub json_del : Text → Text → Tealis → Option Text × Tealis
    unfolding delete_in store_text
    json_del key path s = delete_in key (without_dot path) (lookup key s.store) s

    unfoldable pub to_items : List Json → Items
    to_items [] = nil
    to_items (j ∷ l) = cons j (to_items l)

    not_array : Text → Text
    not_array part = codes "key '" ++ part ++ codes "' is not an array"

    not_map : Text → Text
    not_map path = codes "path '" ++ path ++ codes "' is not a valid map"

    -- `m[part] = append(arr, values...)`
    append_entry : Text → List Json → Dict Json → Option Json → Found
    append_entry part values d (some (arr items)) =
        inr (map_node (made (insert part (arr (to_items (items_of items ++ values))) d)))
    append_entry part values d _ = inl (not_array part)

    -- The loop of `JSONArrAppend`.
    unfoldable pub append_parts : Text → List Json → List Text → Node → Found
    unfolding append_entry not_array not_map
    append_parts path values [] n = inl (codes "invalid path '" ++ path ++ codes "'")
    append_parts path values (part ∷ []) (map_node (made d)) =
        append_entry part values d (lookup part d)
    append_parts path values (part ∷ []) (map_node nil_map) = inl (not_array part)
    append_parts path values (part ∷ []) n = inl (not_map path)
    append_parts path values (part ∷ next ∷ parts) (map_node (made d)) = elim (lookup part d) [
      | none ↦ inl (not_found part)
      | some j ↦ append_parts path values (next ∷ parts) (node_of j)
    ]
    append_parts path values (part ∷ next ∷ parts) (map_node nil_map) = inl (not_found part)
    append_parts path values (part ∷ next ∷ parts) n =
        inl (not_map path ++ codes " at '" ++ part ++ codes "'")

    append_in : Text → Text → List Json → Option Value → Tealis → Option Text × Tealis
    append_in key path values none s = (some (codes "key not found"), s)
    append_in key path values (some v) s =
        store_text key (append_parts path values (split b'.' path) (node_at v)) s

    -- `JSONArrAppend`
    unfoldable pub json_arr_append : Text → Text → List Json → Tealis → Option Text × Tealis
    unfolding append_in store_text
    json_arr_append key path values s =
        append_in key (without_dot path) values (lookup key s.store) s
