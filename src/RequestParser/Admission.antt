-- ===== src/RequestParser/Admission.antt =====
-- Which commands the parser lets through, and what it replies to those that it does not.
use yftpserver.Prelude.{
  ◌≡◌, refl, ◌⊎◌, inl, inr, WString, Bool, true, false, not, ◌&&◌, ◌||◌, [], ◌∷◌, List, Option,
  none, some, Bool-cases, is_empty, lit, text_eq, All, arith, subst,
}
use yftpserver.Platform.{Platform}
use yftpserver.Reply.{Reply, create}
use yftpserver.Commands.{Commands, TCommand, Row, invalid_command, command_map}
use yftpserver.RequestParser.{find_row, admit, map_command}

-- The commands that need no login.
abbrev pub open_before_login : Commands → Bool
open_before_login Commands.user = true
open_before_login Commands.pass = true
open_before_login Commands.quit = true
open_before_login Commands.syst = true
open_before_login Commands.auth = true
open_before_login Commands.adat = true
open_before_login Commands.pbsz = true
open_before_login Commands.prot = true
open_before_login Commands.feat = true
open_before_login Commands.opts = true
open_before_login Commands.help = true
open_before_login Commands.site = true
open_before_login Commands.clnt = true
open_before_login _ = false

abbrev is_invalid : Commands → Bool
is_invalid Commands.invalid = true
is_invalid _ = false

-- What the table says of each row.
abbrev IsRow : TCommand → Type 0
IsRow c = (c.valid_before_logon ≡ open_before_login c.id) × (is_invalid c.id ≡ false)

rows : All (λ r. IsRow r.command) command_map
unfolding command_map
rows = ground arith

find_row-All :
    (P : TCommand → Type 0) (key : WString) (t : List Row) (c : TCommand)
    → All (λ r. P r.command) t
    → find_row key t ≡ some c
    → P c
unfolding find_row
find_row-All P key [] c h e = cc
find_row-All P key (r ∷ t) c h e = elim (Bool-cases (text_eq (lit r.key) key)) [
  | inl hit ↦ let same : r.command ≡ c = ground arith in subst P same h.0
  | inr miss ↦
      let later : find_row key t ≡ some c = ground arith in find_row-All P key t c h.1 later
]

module _ ⦃pf : Platform⦄ where
  -- A command that the parser lets through carries its arguments, is in the table under its name,
  -- and is open before login unless the client has logged in; the reply is left alone. Any other is
  -- refused: 500 for a name that is not in the table, else 501 for missing arguments, else 530.
  pub data Admission (loggedon : Bool) (key args : WString) (r : Reply)
      : TCommand × Reply → Type 0 where
    admitted :
        (c : TCommand)
        → find_row key command_map ≡ some c
        → c.has_args && is_empty args ≡ false
        → loggedon || open_before_login c.id ≡ true
        → Admission loggedon key args r (record c { args = args }, r)
    unknown :
        find_row key command_map ≡ none
        → Admission loggedon key args r
            (invalid_command, create 500 (lit "Syntax error, command unrecognized.") r)
    no_args :
        (c : TCommand)
        → find_row key command_map ≡ some c
        → c.has_args ≡ true
        → args ≡ []
        → Admission loggedon key args r (invalid_command, create 501 (lit "Syntax error.") r)
    not_logged_in :
        (c : TCommand)
        → find_row key command_map ≡ some c
        → c.has_args && is_empty args ≡ false
        → loggedon ≡ false
        → open_before_login c.id ≡ false
        → Admission loggedon key args r
            (invalid_command, create 530 (lit "Please log in with USER and PASS first.") r)

  admit-Admission :
      (loggedon : Bool) (key args : WString) (r : Reply) (o : Option TCommand)
      → find_row key command_map ≡ o
      → Admission loggedon key args r (admit loggedon o args r)
  unfolding admit
  admit-Admission loggedon key args r none e = unknown e
  admit-Admission loggedon key args r (some c) e =
      let known : IsRow c = find_row-All IsRow key command_map c rows e in
      elim (Bool-cases (c.has_args && is_empty args)) [
        | inl lacks ↦ rw lacks (no_args c e (ground arith) (ground arith))
        | inr given ↦ rw given (elim (Bool-cases (not loggedon && not c.valid_before_logon)) [
          | inl shut ↦ rw shut (not_logged_in c e given (ground arith) (ground arith))
          | inr open_ ↦ rw open_ (admitted c e given (ground arith))
        ])
      ]

  -- `MapCommand` lets a command through, with its arguments, exactly if its name is in the table, it has
  -- the arguments it needs, and it is allowed before login or the client is logged in; else it replies
  -- 500 for an unknown name, 501 for missing arguments and 530 for a missing login, tested in this order.
  pub map_command-Admission :
      (loggedon : Bool) (key args : WString) (r : Reply)
      → Admission loggedon key args r (map_command loggedon key args r)
  unfolding map_command
  map_command-Admission loggedon key args r =
      admit-Admission loggedon key args r (find_row key command_map) refl

  -- Before login, what the parser lets through is one of the commands that need no login.
  pub map_command_before_login :
      (key args : WString) (r : Reply)
      → ((map_command false key args r).0.id ≡ Commands.invalid)
        ⊎ (open_before_login (map_command false key args r).0.id ≡ true)
  map_command_before_login key args r = open_or_invalid (map_command-Admission false key args r)
    where
      open_or_invalid :
          {x : TCommand × Reply}
          → Admission false key args r x
          → (x.0.id ≡ Commands.invalid) ⊎ (open_before_login x.0.id ≡ true)
      open_or_invalid (admitted c e given open_) = inr open_
      open_or_invalid (unknown e) = inl refl
      open_or_invalid (no_args c e takes none_given) = inl refl
      open_or_invalid (not_logged_in c e given out shut) = inl refl
