-- ===== src/Tests/Inputs.antt =====
-- Examples for the input of a connection (internal/protocol/parser.go and main.go).
use tealis.Base.{◌≡◌, refl, [], ◌∷◌, ◌++◌, map}
use tealis.Base.Int.{pos}
use tealis.Base.Text.{codes}
use tealis.Strings.{join}
use tealis.Parser.{parse_command}
use tealis.Parser.RoundTrip.{quoted, parse_command-quoted}
use tealis.Connection.{on_reads, take_line, after_echo, clean_bytes}
use tealis.Connection.Chunks.{on_reads-take_line}
use tealis.Handler.{process_command}
use tealis.Tests.Data.{a, expiring, library, unknown}

parse_command-quoted_example :
    parse_command (join (codes " ") (map quoted (codes "GET" ∷ codes "a b" ∷ [])))
    ≡ codes "GET" ∷ codes "a b" ∷ []
unfolding tealis.Parser.is_quote
parse_command-quoted_example =
    parse_command-quoted (codes "GET" ∷ codes "a b" ∷ [])
      ((((refl, (refl, (refl, tt))), refl, refl)), ((((refl, (refl, (refl, tt))), refl, refl)), tt))

on_reads-take_line_example :
    on_reads
      (process_command library unknown (pos 5) 1)
      a
      (codes "GEX" ∷ (8 ∷ codes "T k" ++ 10 ∷ []) ∷ [])
      []
      expiring
    ≡ after_echo ((32 ∷ 8 ∷ 32 ∷ 8 ∷ []) ∷ []) (
        take_line
          (process_command library unknown (pos 5) 1)
          a
          (codes "GEX" ++ 8 ∷ codes "T k" ++ 10 ∷ [])
          expiring)
unfolding tealis.Connection.has_newline
on_reads-take_line_example =
    on_reads-take_line (process_command library unknown (pos 5) 1) a (codes "GEX" ∷ [])
      (8 ∷ codes "T k" ++ 10 ∷ []) [] expiring refl (refl, tt)
