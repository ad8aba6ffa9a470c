-- ===== src/RequestParser/Requests.antt =====
-- One call of `parse`: how many commands it takes, what it keeps, and when it throws.
use yftpserver.Prelude.{
  ℕ, ◌≡◌, refl, WString, Bytes, true, false, [], ◌∷◌, ◌++◌, List, Option-cases, none, some,
  Bool-cases, inl, inr, is_empty, take, arith, ok, thrown, bind-eq-ok,
}
use yftpserver.Platform.{Platform}
use yftpserver.Reply.{Reply}
use yftpserver.Commands.{TCommand}
use yftpserver.RequestParser.{
  RequestParser, max_line, char_lt, receive, command_of_line, get_command, Parsed, parsed_of, parse,
}
use yftpserver.RequestParser.Lines.{IsInner, IsValid, receive-IsValid}
use yftpserver.RequestParser.LineRoundTrip.{receive_line}

module _ ⦃pf : Platform⦄ where
  get_command-IsValid :
      (p : RequestParser) (r : Reply) (c : TCommand) (p' : RequestParser) (r' : Reply)
      → IsValid p
      → get_command p r ≡ ok (c, p', r')
      → IsValid p'
  unfolding get_command
  get_command-IsValid p r c p' r' v e = go p.recv_line_buffer refl
    where
      go : (ls : List Bytes) → p.recv_line_buffer ≡ ls → IsValid p'
      go [] b = ground arith
      go (line ∷ lines) b = elim (Option-cases (pf.utf82ws line)) [
        | inl bad ↦ ground arith
        | inr (text, good) ↦ ground arith
      ]

  -- Whatever the client sends, in whatever pieces, the parser stays well formed: the buffer holds at
  -- most 2000 bytes, and every line that waits has one to 2000 bytes, none of which ends a line.
  pub parse-IsValid :
      (pdata : Bytes) (p : RequestParser) (r : Reply) (x : Parsed) (p' : RequestParser) (r' : Reply)
      → IsValid p
      → parse pdata p r ≡ ok (x, p', r')
      → IsValid p'
  unfolding parse
  parse-IsValid pdata p r x p' r' v e =
      let q = receive pf.char_is_signed pdata p in
      let w : IsValid q = receive-IsValid pf.char_is_signed pdata p v in
      elim (Bool-cases (is_empty q.recv_line_buffer)) [
        | inl none_yet ↦ ground arith
        | inr some_line ↦
            let ((c, q', s), got, rest) = bind-eq-ok (get_command q r) _ (rw some_line at e) in
            let w' = get_command-IsValid q r c q' s w got in ground arith
      ]

  -- What `parse` makes of the buffers that `q` holds when all bytes are in.
  parse_buffered :
      (pdata line : Bytes) (lines : List Bytes) (text : WString) (p q : RequestParser) (r : Reply)
      → receive pf.char_is_signed pdata p ≡ q
      → q.recv_line_buffer ≡ line ∷ lines
      → pf.utf82ws line ≡ some text
      → let (t, r') = command_of_line q.loggedon text r in
        parse pdata p r ≡ ok (parsed_of t t.id, record q { recv_line_buffer = lines }, r')
  unfolding parse get_command
  parse_buffered pdata line lines text p q r got buffered decoded = rw got (ground arith)

  -- A line that an idle parser receives whole is taken as a command at once.
  pub parse_line :
      (c : ℕ) (cs : Bytes) (text : WString) (p : RequestParser) (r : Reply)
      → p.recv_buffer ≡ []
      → p.recv_line_buffer ≡ []
      → IsInner (c ∷ cs)
      → char_lt pf.char_is_signed c 240 ≡ true
      → pf.utf82ws (take max_line (c ∷ cs)) ≡ some text
      → let (t, r') = command_of_line p.loggedon text r in
        parse ((c ∷ cs) ++ b'\r' ∷ b'\n' ∷ []) p r
        ≡ ok (
          parsed_of t t.id,
          record p { recv_line_buffer = []; recv_buffer = []; telnet_skip = false },
          r',
        )
  parse_line c cs text p r idle drained h plain decoded =
      let q = record p {
        recv_line_buffer = p.recv_line_buffer ++ take max_line (c ∷ cs) ∷ [];
        recv_buffer = [];
        telnet_skip = false;
      } in
      parse_buffered _ (take max_line (c ∷ cs)) [] text p q r
        (receive_line pf.char_is_signed c cs p idle h plain) (rw drained) decoded

  -- While a line waits, a new line goes behind it, and the command taken is that of the old line:
  -- a client that once sent two lines in one piece is answered one command late from then on.
  pub parse_line_behind :
      (c : ℕ) (cs waiting : Bytes) (text : WString) (p : RequestParser) (r : Reply)
      → p.recv_buffer ≡ []
      → p.recv_line_buffer ≡ waiting ∷ []
      → IsInner (c ∷ cs)
      → char_lt pf.char_is_signed c 240 ≡ true
      → pf.utf82ws waiting ≡ some text
      → let (t, r') = command_of_line p.loggedon text r in
        parse ((c ∷ cs) ++ b'\r' ∷ b'\n' ∷ []) p r
        ≡ ok (
          parsed_of t t.id,
          record p {
            recv_line_buffer = take max_line (c ∷ cs) ∷ [];
            recv_buffer = [];
            telnet_skip = false;
          },
          r',
        )
  parse_line_behind c cs waiting text p r idle buffered h plain decoded =
      let q = record p {
        recv_line_buffer = p.recv_line_buffer ++ take max_line (c ∷ cs) ∷ [];
        recv_buffer = [];
        telnet_skip = false;
      } in
      parse_buffered _ waiting (take max_line (c ∷ cs) ∷ []) text p q r
        (receive_line pf.char_is_signed c cs p idle h plain) (rw buffered) decoded

  -- A line that is not UTF-8 makes `parse` throw, whoever sends it.
  pub parse_undecodable :
      (c : ℕ) (cs : Bytes) (p : RequestParser) (r : Reply)
      → p.recv_buffer ≡ []
      → p.recv_line_buffer ≡ []
      → IsInner (c ∷ cs)
      → char_lt pf.char_is_signed c 240 ≡ true
      → pf.utf82ws (take max_line (c ∷ cs)) ≡ none
      → parse ((c ∷ cs) ++ b'\r' ∷ b'\n' ∷ []) p r ≡ thrown
  unfolding parse get_command
  parse_undecodable c cs p r idle drained h plain bad =
      rw (receive_line pf.char_is_signed c cs p idle h plain, drained) (rw bad)
