-- ===== src/Tests/Parser.antt =====
-- The request parser on concrete lines.
use yftpserver.Prelude.{◌≡◌, refl, Bytes, false, [], ◌∷◌, ◌++◌, ok}
use yftpserver.Reply.{new_reply}
use yftpserver.RequestParser.{
  RequestParser, new_parser, receive_byte, store_byte, receive, Parsed, parsed_of, command_of_line,
  map_command, parse,
}
use yftpserver.RequestParser.Lines.{IsValid, new_parser-IsValid}
use yftpserver.RequestParser.LineRoundTrip.{receive_line}
use yftpserver.RequestParser.Admission.{Admission, map_command-Admission}
use yftpserver.RequestParser.Requests.{parse-IsValid, parse_line}
use yftpserver.Tests.{ascii}

abbrev noop : Bytes
noop = b'N' ∷ b'O' ∷ b'O' ∷ b'P' ∷ []

abbrev pwd : Bytes
pwd = b'P' ∷ b'W' ∷ b'D' ∷ []

abbrev crlf : Bytes
crlf = b'\r' ∷ b'\n' ∷ []

abbrev has_noop : RequestParser
has_noop = record new_parser { recv_line_buffer = noop ∷ [] }

receive_line_example :
    receive false (noop ++ crlf) new_parser ≡ record has_noop { telnet_skip = false }
receive_line_example =
    receive_line false b'N' (b'O' ∷ b'O' ∷ b'P' ∷ []) new_parser refl
      (refl, (refl, (refl, (refl, tt)))) refl

map_command-Admission_example :
    Admission false noop [] new_reply (map_command false noop [] new_reply)
map_command-Admission_example = map_command-Admission false noop [] new_reply

parsed_noop :
    parse ⦃pf = ascii⦄ noop new_parser new_reply
    ≡ ok (Parsed.indeterminate, record new_parser { recv_buffer = noop }, new_reply)
unfolding parse receive receive_byte store_byte
parsed_noop = refl

parse-IsValid_example : IsValid (record new_parser { recv_buffer = noop })
parse-IsValid_example =
    parse-IsValid noop new_parser new_reply Parsed.indeterminate _ new_reply new_parser-IsValid
      parsed_noop

parse_line_example :
    let (t, r') = command_of_line false noop new_reply in
    parse ((b'N' ∷ b'O' ∷ b'O' ∷ b'P' ∷ []) ++ crlf) new_parser new_reply
    ≡ ok (parsed_of t t.id, new_parser, r')
parse_line_example =
    parse_line b'N' (b'O' ∷ b'O' ∷ b'P' ∷ []) noop new_parser new_reply refl refl
      (refl, (refl, (refl, (refl, tt)))) refl refl
