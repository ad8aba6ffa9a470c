-- ===== src/RequestParser/BeforeLogin.antt =====
-- What `parse` can return for a client that has not logged in.
use yftpserver.Prelude.{
  ℕ, ◌≡◌, refl, ◌∙◌, ◌⊎◌, inl, inr, WString, Bytes, Bool, true, false, [], ◌∷◌, List, map,
  Option-cases, Bool-cases, is_empty, arith, Outcome, ok, fault, thrown, running, ◌>>=◌,
}
use yftpserver.Platform.{Platform}
use yftpserver.Reply.{Reply}
use yftpserver.Commands.{Commands, TCommand}
use yftpserver.RequestParser.{
  RequestParser, store_byte, receive_byte, receive, toupper, split_at_space, args_of,
  command_of_line, get_command, Parsed, parsed_of, parse,
}
use yftpserver.RequestParser.Admission.{open_before_login, map_command_before_login}

receive_byte-loggedon :
    (signed : Bool) (c : ℕ) (p : RequestParser) → (receive_byte signed c p).loggedon ≡ p.loggedon
unfolding receive_byte store_byte
receive_byte-loggedon signed c p = ground arith

-- Receiving bytes logs nobody in or out.
receive-loggedon :
    (signed : Bool) (cs : Bytes) (p : RequestParser) → (receive signed cs p).loggedon ≡ p.loggedon
unfolding receive
receive-loggedon signed [] p = refl
receive-loggedon signed (c ∷ cs) p =
    receive-loggedon signed cs (receive_byte signed c p) ∙ receive_byte-loggedon signed c p

abbrev pub IsOpen : Parsed → Type 0
IsOpen Parsed.indeterminate = Unit
IsOpen Parsed.invalid = Unit
IsOpen (Parsed.complete c) = open_before_login c.id ≡ true

-- The parser waits, refuses, throws, or returns a command that needs no login.
abbrev pub ReturnsOpen : Outcome (Parsed × RequestParser × Reply) → Type 0
ReturnsOpen (ok x) = IsOpen x.0
ReturnsOpen thrown = Unit
ReturnsOpen fault = ⊥
ReturnsOpen running = ⊥

parsed_of-IsOpen :
    (c : TCommand) (k : Commands)
    → c.id ≡ k
    → (c.id ≡ Commands.invalid) ⊎ (open_before_login c.id ≡ true)
    → IsOpen (parsed_of c k)
parsed_of-IsOpen c Commands.invalid e h = tt
parsed_of-IsOpen c _ e h = ground arith

module _ ⦃pf : Platform⦄ where
  command_of_line_before_login :
      (line : WString) (r : Reply)
      → ((command_of_line false line r).0.id ≡ Commands.invalid)
        ⊎ (open_before_login (command_of_line false line r).0.id ≡ true)
  unfolding command_of_line
  command_of_line_before_login line r = elim (Bool-cases (is_empty (split_at_space line).0)) [
    | inl blank ↦ rw blank (inl refl)
    | inr given ↦ rw given (
        map_command_before_login (map toupper (split_at_space line).0)
          (args_of (split_at_space line).1) r)
  ]

  get_command-ReturnsOpen :
      (p : RequestParser) (r : Reply)
      → p.loggedon ≡ false
      → ReturnsOpen (get_command p r >>= λ (c, q', r'). ok (parsed_of c c.id, q', r'))
  unfolding get_command
  get_command-ReturnsOpen p r out = by_lines p.recv_line_buffer refl
    where
      by_lines :
          (ls : List Bytes)
          → p.recv_line_buffer ≡ ls
          → ReturnsOpen (get_command p r >>= λ (c, q', r'). ok (parsed_of c c.id, q', r'))
      by_lines [] e = rw (e, get_command) tt
      by_lines (line ∷ lines) e = elim (Option-cases (pf.utf82ws line)) [
        | inl bad ↦ rw (e, get_command, bad) tt
        | inr (text, good) ↦
            rw (e, get_command, good, out)
              (parsed_of-IsOpen _ _ refl (command_of_line_before_login text r))
      ]

  -- Whatever bytes arrive for a client that has not logged in, `parse` asks for more, refuses, throws
  -- on a line that is not UTF-8, or returns one of the thirteen commands that need no login.
  pub parse_before_login :
      (pdata : Bytes) (p : RequestParser) (r : Reply)
      → p.loggedon ≡ false
      → ReturnsOpen (parse pdata p r)
  unfolding parse
  parse_before_login pdata p r out =
      let q = receive pf.char_is_signed pdata p in
      elim (Bool-cases (is_empty q.recv_line_buffer)) [
        | inl none_yet ↦ rw none_yet tt
        | inr some_line ↦
            rw some_line
              (get_command-ReturnsOpen q r (receive-loggedon pf.char_is_signed pdata p ∙ out))
      ]
