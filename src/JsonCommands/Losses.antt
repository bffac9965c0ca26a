-- ===== src/JsonCommands/Losses.antt =====
-- What is left of a document after `JSONDel` and `JSONArrAppend` of internal/storage/json.go.
use tealis.Base.{List, [], Option, none, some, false, ◌||◌, inl, inr, ◌≡◌, arith, Option-cases}
use tealis.Base.Int.{ℤ}
use tealis.Base.Text.{Text, codes, text_eq}
use tealis.Base.Dict.{lookup, lookup-insert_self}
use tealis.Value.{Json, string}
use tealis.Strings.{split}
use tealis.Tealis.{Tealis}
use tealis.JsonCommands.Paths.{split-cons}
use tealis.JsonCommands.{
  Node, node_at, without_dot, descend, get_parts, get_at_path, get_in, json_get, delete_parts,
  delete_in, store_text, json_del, append_parts, append_in, json_arr_append, Found,
}

-- The value of the key is a text.
abbrev pub HoldsText : Text → Tealis → Type 0
HoldsText key s = (t : Text) × (lookup key s.store ≡ some (string t))

abbrev pub Refused : Found → Type 0
Refused (inl e) = Unit
Refused (inr n) = ⊥

module _ (scan_index : Text → Option ℤ) (marshal : Node → Text) where
  store_text-HoldsText :
      (key : Text) (x : Found) (s : Tealis)
      → (store_text scan_index marshal key x s).0 ≡ none
      → HoldsText key (store_text scan_index marshal key x s).1
  unfolding store_text
  store_text-HoldsText key (inl e) s h = absurd (ground (arith, h))
  store_text-HoldsText key (inr n) s h =
      (marshal n, lookup-insert_self key (string (marshal n)) s.store)

  json_del-HoldsText :
      (key path : Text) (s : Tealis)
      → text_eq (without_dot path) [] || text_eq (without_dot path) (codes ".") ≡ false
      → (json_del scan_index marshal key path s).0 ≡ none
      → HoldsText key (json_del scan_index marshal key path s).1
  unfolding json_del delete_in
  json_del-HoldsText key path s proper done = elim (Option-cases (lookup key s.store)) [
    | inl missing ↦ absurd (ground (arith, done, missing))
    | inr (v, there) ↦
        rw (there, proper)
          (store_text-HoldsText key
            (delete_parts scan_index (without_dot path) (split b'.' (without_dot path)) (node_at v))
            s (ground (arith, done, there, proper)))
  ]

  json_arr_append-HoldsText :
      (key path : Text) (values : List Json) (s : Tealis)
      → (json_arr_append scan_index marshal key path values s).0 ≡ none
      → HoldsText key (json_arr_append scan_index marshal key path values s).1
  unfolding json_arr_append append_in
  json_arr_append-HoldsText key path values s done = elim (Option-cases (lookup key s.store)) [
    | inl missing ↦ absurd (ground (arith, done, missing))
    | inr (v, there) ↦ rw there (
        store_text-HoldsText key
          (append_parts scan_index marshal (without_dot path) values (split b'.' (without_dot path))
            (node_at v))
          s (ground (arith, done, there)))
  ]

  -- A text has no parts.
  json_get-Refused :
      (key q : Text) (s : Tealis)
      → HoldsText key s
      → text_eq q (codes ".") ≡ false
      → Refused (json_get scan_index key q s)
  unfolding json_get get_in node_at get_at_path get_parts descend
  json_get-Refused key q s (t, there) h =
      let (first, (rest, parts)) = split-cons b'.' (without_dot q) in rw (there, h, parts) tt

  -- `JSONArrAppend` of the values, or `JSONDel` where there are none.
  abbrev pub edit : Option (List Json) → Text → Text → Tealis → Option Text × Tealis
  edit none key path s = json_del scan_index marshal key path s
  edit (some values) key path s = json_arr_append scan_index marshal key path values s

  edit-HoldsText :
      (values : Option (List Json)) (key path : Text) (s : Tealis)
      → text_eq (without_dot path) [] || text_eq (without_dot path) (codes ".") ≡ false
      → (edit values key path s).0 ≡ none
      → HoldsText key (edit values key path s).1
  edit-HoldsText none key path s proper done = json_del-HoldsText key path s proper done
  edit-HoldsText (some values) key path s proper done =
      json_arr_append-HoldsText key path values s done

  -- After a `JSONDel` or a `JSONArrAppend` without an error, of a path that is not the root, the value of the key is a text, and `JSONGet` of the key finds nothing at any path but ".".
  pub edit-Refused :
      (values : Option (List Json)) (key path q : Text) (s : Tealis)
      → text_eq (without_dot path) [] || text_eq (without_dot path) (codes ".") ≡ false
      → (edit values key path s).0 ≡ none
      → text_eq q (codes ".") ≡ false
      → HoldsText key (edit values key path s).1
        × Refused (json_get scan_index key q (edit values key path s).1)
  edit-Refused values key path q s proper done h =
      let text = edit-HoldsText values key path s proper done in
      (text, json_get-Refused key q (edit values key path s).1 text h)
