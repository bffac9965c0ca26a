-- ===== src/JsonCommands/Setting.antt =====
-- setAtPath, setValue and parseIndex of internal/storage/json.go, which no command calls. A map that is
-- changed in place is changed in the document too, so that the document is returned beside the result, also
-- where the result is an error.
use tealis.Base.{
  List, [], ◌∷◌, Option, none, some, if◌then◌else◌, ◌⊎◌, inl, inr, set, Outcome, ok, panic,
  deadlock, ◌==◌, ltb, length,
}
use tealis.Base.Int.{ℤ, pos, negsuc}
use tealis.Base.Text.{Text, codes}
use tealis.Base.Dict.{Dict, lookup, insert}
use tealis.Value.{Json, Items, Fields, arr, obj, nil, cons, end, field}
use tealis.Strings.{split}
use tealis.Strconv.{atoi}
use tealis.JsonCommands.{items_of, fields_of}

-- A document, and an error or the value that is to stand in its place.
abbrev pub Change : Type 0
Change = Json × (Text ⊎ Json)

unfoldable pub to_fields : Dict Json → Fields
to_fields [] = end
to_fields ((name, j) ∷ d) = field name j (to_fields d)

unfoldable pub list_items : List Json → Items
list_items [] = nil
list_items (j ∷ l) = cons j (list_items l)

-- `m[key] = j`
unfoldable pub put_field : Text → Json → Fields → Json
put_field key j names = obj (to_fields (insert key j (fields_of names)))

-- The number between the brackets: the text without its last byte, which is a closing one.
unfoldable pub before_bracket : Text → Option Text
before_bracket [] = none
before_bracket (c ∷ []) = if c == b']' then some [] else none
before_bracket (c ∷ d ∷ s) = elim (before_bracket (d ∷ s)) [ none ↦ none | some t ↦ some (c ∷ t) ]

unfoldable pub number_in : Option Text → Option ℤ
number_in none = none
number_in (some t) = atoi t

-- `parseIndex`, without the text of its error
unfoldable pub parse_index : Text → Option ℤ
parse_index [] = none
parse_index (c ∷ s) = if c == b'[' then number_in (before_bracket s) else none

invalid_index : Text
invalid_index = codes "invalid array index"

-- `arr[index] = value`, where a negative index is not refused.
unfoldable pub set_item : Option ℤ → List Json → Json → Outcome Change
unfolding invalid_index
set_item none l value = ok (arr (list_items l), inl invalid_index)
set_item (some (negsuc n)) l value = panic
set_item (some (pos i)) l value =
    let changed = arr (list_items (set l i value)) in
    if ltb i (length l)
    then ok (changed, inr changed)
    else ok (arr (list_items l), inl invalid_index)

-- The map after its entry was changed.
unfoldable pub put_change : Text → Fields → Outcome Change → Outcome Change
put_change key names (ok (child, inl e)) = ok (put_field key child names, inl e)
put_change key names (ok (child, inr updated)) =
    let changed = put_field key updated names in ok (changed, inr changed)
put_change key names panic = panic
put_change key names deadlock = deadlock

-- `m[key]`, or the map that is made for it.
unfoldable pub child_or_new : Text → Fields → Json
child_or_new key names = elim (lookup key (fields_of names)) [ none ↦ obj end | some j ↦ j ]

invalid_path : Text
invalid_path = codes "invalid path or data type"

-- `setValue`
unfoldable pub set_value : List Text → Json → Json → Outcome Change
unfolding invalid_path
set_value [] value document = ok (document, inr value)
set_value (key ∷ []) value (obj names) =
    let changed = put_field key value names in ok (changed, inr changed)
set_value (key ∷ next ∷ rest) value (obj names) =
    put_change key names (set_value (next ∷ rest) value (child_or_new key names))
set_value (part ∷ []) value (arr items) = set_item (parse_index part) (items_of items) value
set_value (key ∷ rest) value document = ok (document, inl invalid_path)

-- `setAtPath`
unfoldable pub set_at_path : Json → Text → Json → Outcome Change
set_at_path document path value = set_value (split b'.' path) value document
