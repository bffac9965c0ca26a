-- ===== src/JsonCommands/SetThenGet.antt =====
-- `getAtPath` of internal/storage/json.go on a document that `setAtPath` has changed.
use tealis.Base.{
  List, [], ◌∷◌, Option, none, some, Bool, true, false, inl, inr, ◌≡◌, refl, sym, ap, arith, ok,
  panic, deadlock, Outcome,
}
use tealis.Base.Int.{ℤ}
use tealis.Base.Text.{Text}
use tealis.Base.Dict.{Dict, lookup-insert_self}
use tealis.Value.{Json, Fields, null, bool, num, str, arr, obj}
use tealis.Strings.{split}
use tealis.JsonCommands.{
  get_at_path, without_dot, node_of, items_of, fields_of, entry, descend, get_parts,
}
use tealis.JsonCommands.Setting.{
  Change, to_fields, put_field, parse_index, set_item, put_change, child_or_new, set_value,
  set_at_path,
}

fields_of-to_fields : (d : Dict Json) → fields_of (to_fields d) ≡ d
unfolding fields_of to_fields
fields_of-to_fields [] = refl
fields_of-to_fields ((name, j) ∷ d) = ap (λ (l : Dict Json). (name, j) ∷ l) (fields_of-to_fields d)

-- No part is a number in brackets.
unfoldable pub all_names : List Text → Bool
all_names [] = true
all_names (part ∷ parts) = elim (parse_index part) [ none ↦ all_names parts | some i ↦ false ]

unfoldable pub is_null : Json → Bool
is_null null = true
is_null (bool b) = false
is_null (num n) = false
is_null (str t) = false
is_null (arr items) = false
is_null (obj names) = false

-- One part leads from a changed map to what was put there.
descend-put_field :
    (scan_index : Text → Option ℤ) (path key : Text) (j : Json) (names : Fields)
    → is_null j ≡ false
    → descend scan_index path key (node_of (put_field key j names)) ≡ inr (node_of j)
unfolding descend node_of entry put_field is_null
descend-put_field scan_index path key null names ne = ground arith
descend-put_field scan_index path key (bool b) names ne =
    rw (fields_of-to_fields, descend, entry, lookup-insert_self) refl
descend-put_field scan_index path key (num n) names ne =
    rw (fields_of-to_fields, descend, entry, lookup-insert_self) refl
descend-put_field scan_index path key (str t) names ne =
    rw (fields_of-to_fields, descend, entry, lookup-insert_self) refl
descend-put_field scan_index path key (arr items) names ne =
    rw (fields_of-to_fields, descend, entry, lookup-insert_self) refl
descend-put_field scan_index path key (obj l) names ne =
    rw (fields_of-to_fields, descend, entry, lookup-insert_self) refl

put_change-result :
    (key : Text) (names : Fields) (x : Outcome Change) (d r : Json)
    → put_change key names x ≡ ok (d, inr r)
    → (updated : Json) × ((child : Json) × ((x ≡ ok (child, inr updated))
          × (r ≡ put_field key updated names)))
unfolding put_change
put_change-result key names (ok (child, inl e)) d r h = ground arith
put_change-result key names (ok (child, inr updated)) d r h =
    (updated, (child, (refl, ground arith)))
put_change-result key names panic d r h = ground arith
put_change-result key names deadlock d r h = ground arith

set_item-is_null :
    (index : Option ℤ) (l : List Json) (value d r : Json)
    → set_item index l value ≡ ok (d, inr r)
    → is_null r ≡ false
unfolding set_item is_null
set_item-is_null index l value d r h = ground arith

-- Below a name, the result is a map or an array.
set_value-is_null :
    (key : Text) (rest : List Text) (value document d r : Json)
    → set_value (key ∷ rest) value document ≡ ok (d, inr r)
    → is_null r ≡ false
unfolding set_value is_null put_field
set_value-is_null key [] value (obj names) d r h = ground arith
set_value-is_null key (next ∷ rest) value (obj names) d r h =
    let (updated, (child, (e, g))) =
      put_change-result key names (set_value (next ∷ rest) value (child_or_new key names)) d r h in
    rw g refl
set_value-is_null key [] value (arr items) d r h =
    set_item-is_null (parse_index key) (items_of items) value d r h
set_value-is_null key rest value document d r h = ground arith

names-head :
    (key : Text) (rest : List Text) → all_names (key ∷ rest) ≡ true → parse_index key ≡ none
unfolding all_names
names-head key rest h = ground arith

names-tail : (key : Text) (rest : List Text) → all_names (key ∷ rest) ≡ true → all_names rest ≡ true
unfolding all_names
names-tail key rest h = ground arith

get_parts-set_value :
    (scan_index : Text → Option ℤ) (path : Text) (parts : List Text) (value document d r : Json)
    → all_names parts ≡ true
    → is_null value ≡ false
    → set_value parts value document ≡ ok (d, inr r)
    → get_parts scan_index path parts (node_of r) ≡ inr (node_of value)
unfolding get_parts set_value set_item
get_parts-set_value scan_index path [] value document d r names proper h = ground arith
get_parts-set_value scan_index path (key ∷ []) value (obj l) d r names proper h =
    let e : put_field key value l ≡ r = ground arith in
    rw (sym e, get_parts, descend-put_field scan_index path key value l proper) refl
get_parts-set_value scan_index path (key ∷ next ∷ rest) value (obj l) d r names proper h =
    let child = child_or_new key l in
    let (updated, (changed, (e, g))) =
      put_change-result key l (set_value (next ∷ rest) value child) d r h in
    let present = set_value-is_null next rest value child changed updated e in
    let names' = names-tail key (next ∷ rest) names in
    rw (g, get_parts, descend-put_field scan_index path key updated l present)
      (get_parts-set_value scan_index path (next ∷ rest) value child changed updated names' proper
        e)
get_parts-set_value scan_index path (key ∷ []) value (arr items) d r names proper h =
    absurd (ground (arith, h, names-head key [] names))
get_parts-set_value scan_index path (key ∷ rest) value document d r names proper h = ground arith

-- What `setAtPath` puts at a path `getAtPath` finds there: where `setAtPath` succeeds, whatever the document was, `getAtPath` leads from the result to the value, if the value is not nil, the path begins with no dot, and no part of it is a number in brackets.
pub get_at_path-set_at_path :
    (scan_index : Text → Option ℤ) (path : Text) (value document d r : Json)
    → without_dot path ≡ path
    → all_names (split b'.' path) ≡ true
    → is_null value ≡ false
    → set_at_path document path value ≡ ok (d, inr r)
    → get_at_path scan_index (node_of r) path ≡ inr (node_of value)
unfolding get_at_path set_at_path
get_at_path-set_at_path scan_index path value document d r plain names proper h =
    rw (get_at_path, plain)
      (get_parts-set_value scan_index path (split b'.' path) value document d r names proper h)
