-- ===== src/RequestParser.antt =====
-- jni/yftp/request_parser.h and jni/yftp/request_parser.cpp: bytes of the control connection become
-- command lines, and a line becomes a command. The times that the parser stores are never read, and
-- are left out.
pub mod Lines
pub mod LineRoundTrip
pub mod Admission
pub mod Requests
pub mod BeforeLogin
use yftpserver.Prelude.{
  ℕ, suc, zero, ◌+◌, ◌-◌, ◌<◌, ◌≡◌, WString, Bytes, Bool, true, false, not, ◌&&◌, ◌||◌, [], ◌∷◌,
  ◌++◌, List, map, Option, none, some, if◌then◌else◌, ltb, leb, ◌==◌, is_empty, length, lit,
  text_eq, Outcome, ok, or_throw, ◌>>=◌, arith,
}
use yftpserver.Platform.{Platform}
use yftpserver.Reply.{Reply, create}
use yftpserver.Commands.{Commands, TCommand, Row, invalid_command, command_map}

-- `recv_buffer` is the first `m_nRecvBufferPos` bytes of `m_RecvBuffer`.
pub record RequestParser : Type 0 where
  pub recv_line_buffer : List Bytes
  pub recv_buffer : Bytes
  pub telnet_skip : Bool
  pub loggedon : Bool

abbrev pub new_parser : RequestParser
new_parser = record {
  recv_line_buffer = [];
  recv_buffer = [];
  telnet_skip = false;
  loggedon = false;
}

abbrev pub set_status : Bool → RequestParser → RequestParser
set_status logon p = record p { loggedon = logon }

-- The longest line that is kept.
abbrev pub max_line : ℕ
max_line = 2000

-- `m_RecvBuffer[2048]`.
abbrev pub recv_buffer_size : ℕ
recv_buffer_size = 2048

-- `pdata[i] < k` and `pdata[i] == k` for a byte and a positive `k`: a signed `char` from 128 on is
-- negative.
abbrev pub char_lt : Bool → ℕ → ℕ → Bool
char_lt signed c k = if signed && leb 128 c then true else ltb c k

abbrev pub char_eq : Bool → ℕ → ℕ → Bool
char_eq signed c k = if signed && leb 128 c then false else c == k

-- `\r`, `\n` and NUL end a line.
abbrev pub is_line_end : ℕ → Bool
is_line_end c = c == b'\r' || c == 0 || c == b'\n'

-- The line ending and buffering half of the loop body.
unfoldable pub store_byte : ℕ → RequestParser → RequestParser
store_byte c p =
    if is_line_end c
    then if is_empty p.recv_buffer then p else record p {
      recv_line_buffer = p.recv_line_buffer ++ p.recv_buffer ∷ [];
      recv_buffer = [];
    }
    else if ltb (length p.recv_buffer) max_line
    then record p { recv_buffer = p.recv_buffer ++ c ∷ [] }
    else p

-- The loop body: at the start of a line a telnet command is skipped.
unfoldable pub receive_byte : Bool → ℕ → RequestParser → RequestParser
receive_byte signed c p =
    if is_empty p.recv_buffer
    then if p.telnet_skip
      then if char_lt signed c 240 then store_byte c (record p { telnet_skip = false }) else p
      else if char_eq signed c 255
      then record p { telnet_skip = true }
      else store_byte c p
    else store_byte c p

-- The loop of `parse` over the bytes received.
unfoldable pub receive : Bool → Bytes → RequestParser → RequestParser
receive signed [] p = p
receive signed (c ∷ cs) p = receive signed cs (receive_byte signed c p)

-- `command_map.find`.
unfoldable pub find_row : WString → List Row → Option TCommand
find_row key [] = none
find_row key (r ∷ rows) = if text_eq (lit r.key) key then some r.command else find_row key rows

-- C's `toupper` in the "C" locale.
unfoldable pub toupper : ℕ → ℕ
toupper c = if leb b'a' c && leb c b'z' then c - 32 else c

-- The text before the first space, and, if there is one, the text behind it.
unfoldable pub split_at_space : WString → WString × Option WString
split_at_space [] = ([], none)
split_at_space (c ∷ cs) =
    let (front, back) = split_at_space cs in if c == b' ' then ([], some cs) else (c ∷ front, back)

abbrev pub args_of : Option WString → WString
args_of none = []
args_of (some args) = args

-- What `parse` returns: `false` stands for a command whose `id` is `invalid`.
pub data Parsed : Type 0 where
  indeterminate invalid : Parsed
  complete : TCommand → Parsed

abbrev pub parsed_of : TCommand → Commands → Parsed
parsed_of c Commands.invalid = Parsed.invalid
parsed_of c _ = Parsed.complete c

module _ ⦃pf : Platform⦄ where
  -- What `MapCommand` does with a row that it has found, or with none.
  unfoldable pub admit : Bool → Option TCommand → WString → Reply → TCommand × Reply
  admit loggedon none args r =
      (invalid_command, create 500 (lit "Syntax error, command unrecognized.") r)
  admit loggedon (some c) args r =
      if c.has_args && is_empty args
      then (invalid_command, create 501 (lit "Syntax error.") r)
      else if not loggedon && not c.valid_before_logon
      then (invalid_command, create 530 (lit "Please log in with USER and PASS first.") r)
      else (record c { args = args }, r)

  unfoldable pub map_command : Bool → WString → WString → Reply → TCommand × Reply
  map_command loggedon command args r = admit loggedon (find_row command command_map) args r

  -- `GetCommand` on a line that has been decoded. The test for a failed decoding behind a space is
  -- never met: text behind a space that does not end the line is not empty.
  unfoldable pub command_of_line : Bool → WString → Reply → TCommand × Reply
  command_of_line loggedon line r =
      let (command, args) = split_at_space line in
      if is_empty command
      then (invalid_command, r)
      else map_command loggedon (map toupper command) (args_of args) r

  unfoldable pub get_command : RequestParser → Reply → Outcome (TCommand × RequestParser × Reply)
  get_command p r = elim p.recv_line_buffer [
    | [] ↦ ok (invalid_command, p, r)
    | line ∷ lines ↦ do
      text ← or_throw (pf.utf82ws line)
      let (c, r') = command_of_line p.loggedon text r
      ok (c, record p { recv_line_buffer = lines }, r')
  ]

  -- `parse`: receive all the bytes, then take one command, if a line is complete.
  unfoldable pub parse : Bytes → RequestParser → Reply → Outcome (Parsed × RequestParser × Reply)
  parse pdata p r =
      let q = receive pf.char_is_signed pdata p in
      if is_empty q.recv_line_buffer
      then ok (Parsed.indeterminate, q, r)
      else do (c, q', r') ← get_command q r; ok (parsed_of c c.id, q', r')
