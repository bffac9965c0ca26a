-- ===== src/Connection.antt =====
-- What src's main.go does with the bytes of its clients: handleConnectionWithRead, cleanBytes,
-- handleCommand and websocketHandler. The listeners, the logs, the prompt and the tables of connections are
-- left out; `run` is ProcessCommand. A panic ends the server, and a command that waits for ever its client.
pub mod Chunks
use tealis.Base.{
  ℕ, List, [], ◌∷◌, ◌++◌, Option, none, some, Bool, true, false, ◌||◌, not, ◌==◌, if◌then◌else◌,
  Outcome, ok, panic, deadlock,
}
use tealis.Base.Text.{Text, codes, text_eq}
use tealis.Strings.{is_space, to_upper}
use tealis.Parser.{parse_command}
use tealis.Tealis.{Tealis}
use tealis.Transactions.{Run, crlf}

-- All but the last byte.
unfoldable pub but_last : Text → Text
but_last [] = []
but_last (c ∷ []) = []
but_last (c ∷ d ∷ s) = c ∷ but_last (d ∷ s)

-- The loop of `cleanBytes`: a backspace takes the byte before it.
unfoldable pub clean_from : Text → Text → Text
clean_from result [] = result
clean_from result (b ∷ input) =
    if b == 8 then clean_from (but_last result) input else clean_from (result ++ b ∷ []) input

-- `cleanBytes`
unfoldable pub clean_bytes : Text → Text
clean_bytes input = clean_from [] input

unfoldable pub trim_space_left : Text → Text
trim_space_left [] = []
trim_space_left (c ∷ s) = let rest = trim_space_left s in if is_space c then rest else c ∷ s

unfoldable pub before_space : ℕ → Text → Text
before_space c [] = if is_space c then [] else c ∷ []
before_space c (d ∷ s) = c ∷ d ∷ s

unfoldable pub trim_space_right : Text → Text
trim_space_right [] = []
trim_space_right (c ∷ s) = before_space c (trim_space_right s)

-- `strings.TrimSpace`, over ASCII
unfoldable pub trim_space : Text → Text
trim_space s = trim_space_right (trim_space_left s)

-- `strings.Contains(string(input), "\n")`
unfoldable pub has_newline : Text → Bool
has_newline [] = false
has_newline (c ∷ s) = c == 10 || has_newline s

-- What a read leads to: the connection goes on with the input that it keeps, it is closed, or the command
-- did not return.
pub data Progress : Type 0 where
  reading : Text → Progress
  closed : Progress
  failed : Outcome Text → Progress

-- The texts that are written to the client, with what becomes of the connection and the state.
abbrev pub Round : Type 0
Round = List Text × Progress × Tealis

-- The end of a command: its reply is written, and QUIT closes the connection.
unfoldable pub answered : Text → Outcome Text × Tealis → Round
answered name (ok response, s) = (
  (response ++ crlf) ∷ [],
  (if text_eq (to_upper name) (codes "QUIT") then closed else reading []),
  s,
)
answered name (panic, s) = ([], failed panic, s)
answered name (deadlock, s) = ([], failed deadlock, s)

unfoldable pub run_parts : Run → Text → List Text → Tealis → Option Round
run_parts run client [] s = some ([], reading [], s)
run_parts run client (name ∷ parts) s = elim (run (name ∷ parts) client s) [
  | none ↦ none
  | some end ↦ some (answered name end)
]

-- `if strings.Contains(...)` with its body.
unfoldable pub take_line : Run → Text → Text → Tealis → Option Round
take_line run client input s =
    if has_newline input
    then run_parts run client (parse_command (trim_space (clean_bytes input))) s
    else some ([], reading input, s)

-- `" \b \b"`, where the read begins with a backspace and there is input
unfoldable pub echo : Text → Text → List Text
echo [] chunk = []
echo (c ∷ input) [] = []
echo (c ∷ input) (b ∷ chunk) = if b == 8 then (32 ∷ 8 ∷ 32 ∷ 8 ∷ []) ∷ [] else []

unfoldable pub after_echo : List Text → Option Round → Option Round
after_echo texts none = none
after_echo texts (some (more, progress, s)) = some (texts ++ more, progress, s)

-- A round of the loop of `handleConnectionWithRead`, for a read of one byte or more.
unfoldable pub on_read : Run → Text → Text → Text → Tealis → Option Round
on_read run client input chunk s =
    after_echo (echo input chunk) (take_line run client (input ++ chunk) s)

unfoldable pub next_read : (Text → Tealis → Option Round) → Option Round → Option Round
next_read rest none = none
next_read rest (some (texts, reading input, s)) = after_echo texts (rest input s)
next_read rest (some (texts, closed, s)) = some (texts, closed, s)
next_read rest (some (texts, failed o, s)) = some (texts, failed o, s)

-- The loop of `handleConnectionWithRead` over the reads, from the input so far.
unfoldable pub on_reads : Run → Text → List Text → Text → Tealis → Option Round
on_reads run client [] input s = some ([], reading input, s)
on_reads run client (chunk ∷ chunks) input s =
    next_read (on_reads run client chunks) (on_read run client input chunk s)

-- What the HTTP handler answers: an error with its status, or a reply.
pub data HttpReply : Type 0 where
  method_not_allowed : HttpReply
  bad_request : Text → HttpReply
  answer : Text → HttpReply

http_answer : Outcome Text × Tealis → Outcome HttpReply × Tealis
http_answer (ok response, s) = (ok (answer (response ++ 10 ∷ [])), s)
http_answer (panic, s) = (panic, s)
http_answer (deadlock, s) = (deadlock, s)

http_parts : Run → List Text → Tealis → Option (Outcome HttpReply × Tealis)
unfolding http_answer
http_parts run [] s = some (ok (bad_request (codes "Malformed command")), s)
http_parts run (name ∷ parts) s = elim (run (name ∷ parts) (codes "HTTP_CLIENT") s) [
  | none ↦ none
  | some end ↦ some (http_answer end)
]

http_text : Run → Text → Tealis → Option (Outcome HttpReply × Tealis)
unfolding http_parts
http_text run [] s = some (ok (bad_request (codes "Empty command received")), s)
http_text run (c ∷ text) s = http_parts run (parse_command (c ∷ text)) s

-- `handleCommand`, for a body that could be read.
unfoldable pub handle_command : Run → Text → Text → Tealis → Option (Outcome HttpReply × Tealis)
unfolding http_text
handle_command run method body s =
    if not (text_eq method (codes "POST"))
    then some (ok method_not_allowed, s)
    else if text_eq body []
    then some (ok (bad_request (codes "Invalid or empty command")), s)
    else http_text run (trim_space body) s

-- One message of `websocketHandler`, whose response is written back.
unfoldable pub websocket_message : Run → Text → Text → Tealis → Option (Outcome Text × Tealis)
websocket_message run client message s = run (parse_command message) client s
