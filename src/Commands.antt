-- ===== src/Commands.antt =====
-- jni/yftp/request_parser.h and the table of jni/yftp/request_parser.cpp: the commands.
use yftpserver.Prelude.{Bool, true, false, String, WString, List, [], ◌∷◌}

-- `enum class commands`.
pub data Commands : Type 0 where
  invalid user pass quit cwd pwd port pasv type list : Commands
  rest cdup retr stor size dele rmd mkd rnfr rnto : Commands
  abor syst noop appe nlst mdtm nop epsv eprt auth : Commands
  adat pbsz prot feat mode opts help allo mlst mlsd : Commands
  site pasvsmc stru clnt mfmt hash rein stat stou : Commands

pub record TCommand : Type 0 where
  pub id : Commands
  pub args : WString
  pub has_args : Bool
  pub valid_before_logon : Bool

-- `{ commands::invalid, L"", false, false }`.
abbrev pub invalid_command : TCommand
invalid_command = record {
  id = Commands.invalid;
  args = [];
  has_args = false;
  valid_before_logon = false;
}

-- A row of the table: its key, its command, and its two flags.
pub record Row : Type 0 where
  pub key : String
  pub command : TCommand

abbrev row : String → Commands → Bool → Bool → Row
row key id has_args valid_before_logon = record {
  key = key;
  command = record {
    id = id;
    args = [];
    has_args = has_args;
    valid_before_logon = valid_before_logon;
  };
}

unfoldable pub command_map : List Row
command_map =
    row "USER" Commands.user true true
    ∷ row "PASS" Commands.pass false true
    ∷ row "QUIT" Commands.quit false true
    ∷ row "CWD" Commands.cwd false false
    ∷ row "PWD" Commands.pwd false false
    ∷ row "PORT" Commands.port true false
    ∷ row "PASV" Commands.pasv false false
    ∷ row "TYPE" Commands.type true false
    ∷ row "LIST" Commands.list false false
    ∷ row "REST" Commands.rest true false
    ∷ row "CDUP" Commands.cdup false false
    ∷ row "RETR" Commands.retr true false
    ∷ row "STOR" Commands.stor true false
    ∷ row "STOU" Commands.stou true false
    ∷ row "SIZE" Commands.size true false
    ∷ row "DELE" Commands.dele true false
    ∷ row "RMD" Commands.rmd true false
    ∷ row "MKD" Commands.mkd true false
    ∷ row "RNFR" Commands.rnfr true false
    ∷ row "RNTO" Commands.rnto true false
    ∷ row "ABOR" Commands.abor false false
    ∷ row "SYST" Commands.syst false true
    ∷ row "NOOP" Commands.noop false false
    ∷ row "APPE" Commands.appe true false
    ∷ row "NLST" Commands.nlst false false
    ∷ row "MDTM" Commands.mdtm true false
    ∷ row "XPWD" Commands.pwd false false
    ∷ row "XCUP" Commands.cdup false false
    ∷ row "XMKD" Commands.mkd true false
    ∷ row "XRMD" Commands.rmd true false
    ∷ row "XCWD" Commands.cwd true false
    ∷ row "NOP" Commands.nop false false
    ∷ row "EPSV" Commands.epsv false false
    ∷ row "EPRT" Commands.eprt true false
    ∷ row "AUTH" Commands.auth true true
    ∷ row "ADAT" Commands.adat true true
    ∷ row "PBSZ" Commands.pbsz true true
    ∷ row "PROT" Commands.prot true true
    ∷ row "FEAT" Commands.feat false true
    ∷ row "MODE" Commands.mode true false
    ∷ row "OPTS" Commands.opts true true
    ∷ row "HELP" Commands.help false true
    ∷ row "ALLO" Commands.allo false false
    ∷ row "MLST" Commands.mlst false false
    ∷ row "MLSD" Commands.mlsd false false
    ∷ row "SITE" Commands.site true true
    ∷ row "P@SW" Commands.pasvsmc false false
    ∷ row "STRU" Commands.stru true false
    ∷ row "CLNT" Commands.clnt true true
    ∷ row "MFMT" Commands.mfmt true false
    ∷ row "HASH" Commands.hash true false
    ∷ row "REIN" Commands.rein false false
    ∷ row "STAT" Commands.stat false false
    ∷ []
