-- ===== src/Handler/Documents.antt =====
-- The cases of ProcessCommand (internal/storage/handler.go) for JSON documents.
use tealis.Base.{List, [], ◌∷◌, ◌++◌, map, Option, none, some, ◌⊎◌, inl, inr}
use tealis.Base.Text.{Text, codes}
use tealis.Value.{str}
use tealis.Strings.{split}
use tealis.Tealis.{Action}
use tealis.JsonCommands.{Node, Found, json_set, json_get, json_del, json_arr_append}
use tealis.Handler.Outside.{Library}
use tealis.Handler.Replies.{bulk, say, told}

-- `"-ERR " + err.Error()`, or the reply to a success.
unfoldable pub err_or : Text → Option Text → Text
err_or done none = done
err_or done (some e) = codes "-ERR " ++ e

unfoldable pub json_set_command : Library → List Text → Action Text
json_set_command lib (_ ∷ key ∷ path ∷ value ∷ _) s =
    told (err_or (codes "+OK")) (json_set lib.unmarshal key path value s)
json_set_command lib _ s = say (codes "-ERR JSON.SET requires key, path, and value") s

encoded : Text ⊎ Text → Text
encoded (inl e) = codes "-ERR Failed to serialize value to JSON: " ++ e
encoded (inr t) = bulk t

found_reply : Library → Found → Text
unfolding encoded
found_reply lib (inl e) = codes "-ERR " ++ e
found_reply lib (inr n) = encoded (lib.marshal n)

unfoldable pub json_get_command : Library → List Text → Action Text
unfolding found_reply
json_get_command lib (_ ∷ key ∷ path ∷ _) s =
    say (found_reply lib (json_get lib.scan_index key path s)) s
json_get_command lib _ s = say (codes "-ERR JSON.GET requires key and path") s

-- `json.Marshal` of a map or an array of a document does not fail.
unfoldable pub document_text : Library → Node → Text
document_text lib n = elim (lib.marshal n) [ inl e ↦ [] | inr t ↦ t ]

unfoldable pub json_del_command : Library → List Text → Action Text
json_del_command lib (_ ∷ key ∷ path ∷ _) s =
    told (err_or (codes ":1")) (json_del lib.scan_index (document_text lib) key path s)
json_del_command lib _ s = say (codes "-ERR JSON.DEL requires key and path") s

-- The values are texts between commas.
unfoldable pub json_arr_append_command : Library → List Text → Action Text
json_arr_append_command lib (_ ∷ key ∷ path ∷ values ∷ _) s =
    told (err_or (codes ":1"))
      (json_arr_append lib.scan_index (document_text lib) key path (map str (split b',' values)) s)
json_arr_append_command lib _ s =
    say (codes "-ERR JSON.ARRAPPEND requires key, path, and value(s)") s
