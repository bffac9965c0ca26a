-- ===== src/Handler/Streams.antt =====
-- The cases of ProcessCommand (internal/storage/handler.go) for streams. `shown_map` is what
-- fmt.Sprintf makes of a `map[string]string` with `%v`.
use tealis.Base.{List, [], ◌∷◌, ◌++◌, Option, none, some, Bool, if◌then◌else◌}
use tealis.Base.Int.{ℤ, pos}
use tealis.Base.Text.{Text, text_eq, codes}
use tealis.Base.Dict.{Dict, insert}
use tealis.Strconv.{atoi}
use tealis.Strings.{to_upper}
use tealis.Value.{StreamEntry}
use tealis.Tealis.{Action}
use tealis.StreamCommands.{xadd, xread, xrange, xlen, xgroup_create, xread_group, xack}
use tealis.Transactions.{crlf}
use tealis.Handler.Replies.{colon, say, told}

-- The loop of `formatEntries`.
format_each : (Dict Text → Text) → List StreamEntry → Text
format_each shown_map [] = []
format_each shown_map (e ∷ es) =
    e.id ++ (codes ": " ++ (shown_map e.fields ++ (crlf ++ format_each shown_map es)))

-- `formatEntries`
unfoldable pub format_entries : (Dict Text → Text) → List StreamEntry → Text
unfolding format_each
format_entries shown_map [] = codes "(empty list or set)"
format_entries shown_map (e ∷ es) = format_each shown_map (e ∷ es)

-- The field-value pairs of `XADD`, or `none` for an odd number of parts.
field_pairs : List Text → Dict Text → Option (Dict Text)
field_pairs [] d = some d
field_pairs (f ∷ []) d = none
field_pairs (f ∷ v ∷ rest) d = field_pairs rest (insert f v d)

add_pairs : Text → Text → Option (Dict Text) → ℤ → Action Text
add_pairs key id none now s =
    say (codes "-ERR XADD requires at least key, ID, and field-value pairs") s
add_pairs key id (some fields) now s = told (λ given. b'+' ∷ given) (xadd key id fields now s)

unfoldable pub xadd_command : ℤ → List Text → Action Text
unfolding field_pairs add_pairs
xadd_command now (_ ∷ key ∷ id ∷ f ∷ rest) = add_pairs key id (field_pairs (f ∷ rest) []) now
xadd_command now _ = say (codes "-ERR XADD requires at least key, ID, and field-value pairs")

-- `count := 0`, unless there is a part for it.
count_of : List Text → Option ℤ
count_of [] = some (pos 0)
count_of (count ∷ _) = atoi count

read_counted : (Dict Text → Text) → Text → Text → Option ℤ → Action Text
read_counted shown_map key start none s = say (codes "-ERR Invalid count argument") s
read_counted shown_map key start (some count) s =
    say (format_entries shown_map (xread key start count s)) s

unfoldable pub xread_command : (Dict Text → Text) → List Text → Action Text
unfolding count_of read_counted
xread_command shown_map (_ ∷ key ∷ start ∷ rest) = read_counted shown_map key start (count_of rest)
xread_command shown_map _ = say (codes "-ERR XREAD requires key and start ID")

unfoldable pub xrange_command : (Dict Text → Text) → List Text → Action Text
xrange_command shown_map (_ ∷ key ∷ start ∷ end ∷ []) s =
    say (format_entries shown_map (xrange key start end s)) s
xrange_command shown_map _ s = say (codes "-ERR XRANGE requires key, start ID, and end ID") s

unfoldable pub xlen_command : List Text → Action Text
xlen_command (_ ∷ key ∷ []) s = say (colon (pos (xlen key s))) s
xlen_command _ s = say (codes "-ERR XLEN requires key") s

unfoldable pub xgroup_command : List Text → Action Text
xgroup_command (_ ∷ verb ∷ key ∷ name ∷ _) s =
    if text_eq (to_upper verb) (codes "CREATE")
    then told
        (λ (created : Bool). if created then codes "+OK" else codes "-ERR XGROUP CREATE failed")
        (xgroup_create key name s)
    else say (codes "-ERR XGROUP CREATE requires key and group name") s
xgroup_command _ s = say (codes "-ERR XGROUP CREATE requires key and group name") s

group_counted : (Dict Text → Text) → Text → Text → Text → Text → Option ℤ → Action Text
group_counted shown_map key name consumer start none s = say (codes "-ERR Invalid count argument") s
group_counted shown_map key name consumer start (some count) s =
    told (format_entries shown_map) (xread_group key name consumer start count s)

unfoldable pub xreadgroup_command : (Dict Text → Text) → List Text → Action Text
unfolding count_of group_counted
xreadgroup_command shown_map (_ ∷ key ∷ name ∷ consumer ∷ start ∷ rest) =
    group_counted shown_map key name consumer start (count_of rest)
xreadgroup_command shown_map _ =
    say (codes "-ERR XREADGROUP requires key, group, consumer, and start ID")

unfoldable pub xack_command : List Text → Action Text
xack_command (_ ∷ key ∷ name ∷ id ∷ ids) s = told (λ n. colon (pos n)) (xack key name (id ∷ ids) s)
xack_command _ s = say (codes "-ERR XACK requires key, group, and at least one ID") s
