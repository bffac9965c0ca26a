-- ===== src/Handler/Channels.antt =====
-- The cases of ProcessCommand (internal/storage/handler.go) for channels.
use tealis.Base.{List, ◌∷◌, ◌++◌}
use tealis.Base.Text.{Text, codes}
use tealis.Tealis.{Action}
use tealis.Transactions.{crlf, line_of}
use tealis.PubSub.{subscribe, unsubscribe, publish}
use tealis.Handler.Replies.{say, told}

unfoldable pub subscribe_command : Text → List Text → Action Text
subscribe_command client (_ ∷ channel ∷ _) s = told (λ t. t) (subscribe client channel s)
subscribe_command client _ s = say (codes "-ERR Missing channel name" ++ crlf) s

unfoldable pub unsubscribe_command : Text → List Text → Action Text
unsubscribe_command client (_ ∷ channel ∷ _) s = told (λ t. t) (unsubscribe client channel s)
unsubscribe_command client _ s = say (codes "-ERR Missing channel name" ++ crlf) s

-- The message is what follows the channel, with single blanks.
unfoldable pub publish_command : Text → List Text → Action Text
publish_command client (_ ∷ channel ∷ word ∷ words) s =
    told (λ t. t) (publish channel (line_of (word ∷ words)) s)
publish_command client _ s = say (codes "-ERR Missing channel or message" ++ crlf) s
