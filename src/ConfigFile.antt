-- ===== src/ConfigFile.antt =====
-- jni/yftp/main.cpp under `SERVER_APP`: the accounts and the ports that the configuration file of the
-- service names. The file itself, `boost::split` and the conversions of text are parameters of the model.
pub mod Loading
use yftpserver.Conversion.{CLibrary, s2ws_result}
use yftpserver.Prelude.{
  ℕ, zero, suc, ◌+◌, ◌-◌, ◌%◌, ◌^◌, Bool, true, false, not, ◌&&◌, ◌||◌, WString, Bytes, [], ◌∷◌,
  ◌++◌, List, Option, none, some, if◌then◌else◌, ◌==◌, is_empty, lit, text_eq, ℤ, pos, negsuc,
  bit_or, Outcome, ok, running, ◌>>=◌,
}
use yftpserver.FileSystem.{FileSystem}
use yftpserver.Reply.{decimal}
use yftpserver.UserNode.{priv_read, priv_write, priv_del, last_char}
use yftpserver.FtpServer.{World}
use yftpserver.FtpServer.Configuration.{allow_anonymous, add_user, set_data_port_range}

-- What the service is given: `get_string(key, default)`, `boost::split` with whether it takes adjacent
-- separators as one, the C library for `s2ws`, and `atoi`.
pub record ConfigSource : Type 0 where
  pub get_string : Bytes → Bytes → Bytes
  pub split : Bool → Bytes → Bytes → List Bytes
  pub c_library : CLibrary
  pub atoi : Bytes → ℤ

-- The loop over the letters of the privileges.
unfoldable pub privileges : ℕ → Bytes → ℕ
privileges priv [] = priv
privileges priv (c ∷ cs) =
    let next =
      if c == b'r'
      then bit_or priv priv_read
      else if c == b'w'
      then bit_or priv priv_write
      else if c == b'd'
      then bit_or priv priv_del
      else priv in
    privileges next cs

abbrev pub is_separator : Option ℕ → Bool
is_separator none = true
is_separator (some c) = c == b'\\' || c == b'/'

-- The directory of a user below the root directory, which may lack its separator (POSIX's).
unfoldable pub user_dir : Bytes → Bytes → Bytes
user_dir root dir =
    (if not (is_empty root) && not (is_separator (last_char root)) then root ++ b'/' ∷ [] else root)
    ++ dir

-- `unsigned short port = atoi(…)`.
unfoldable pub to_port : ℤ → ℕ
to_port (pos n) = n % 65536
to_port (negsuc n) = 65535 - n % 65536

unfoldable pub user_info : ConfigSource → ℕ → Bytes
user_info source i = source.get_string (lit "ftp.server.user" ++ decimal i) []

module _ {F : Type 0} ⦃os : FileSystem F⦄ (source : ConfigSource) where
  -- The account of anonymous users, and whether the server may start.
  unfoldable pub load_anonymous : Bytes → Bytes → World F → Outcome (World F × Bool)
  load_anonymous root info w =
      if is_empty info then ok (w, true) else elim (source.split false (lit ":;,") info) [
        | allowed ∷ dir ∷ letters ∷ [] ↦
            allow_anonymous (text_eq allowed (lit "1"))
              (s2ws_result source.c_library (user_dir root dir)) (privileges 0 letters) w
        | _ ↦ ok (w, false)
      ]

  -- One line of a user: the server, and whether the line has four parts.
  unfoldable pub load_user : Bytes → Bytes → World F → Outcome (World F × Bool)
  load_user root info w = elim (source.split false (lit ":;,") info) [
    | name ∷ password ∷ dir ∷ letters ∷ [] ↦
        (add_user (s2ws_result source.c_library name) (s2ws_result source.c_library password)
            (s2ws_result source.c_library (user_dir root dir)) (privileges 0 letters) w
          >>= λ (w', added). ok (w', true))
    | _ ↦ ok (w, false)
  ]

  -- The loop over the users, which ends at the first number that names none; the result says whether
  -- there was a line of four parts.
  unfoldable pub load_users : ℕ → ℕ → Bytes → Bool → World F → Outcome (World F × Bool)
  load_users zero i root have_user w = running
  load_users (suc fuel) i root have_user w =
      let more = load_users fuel (suc i) root in
      if is_empty (user_info source i)
      then ok (w, have_user)
      else (load_user root (user_info source i) w >>= λ (w', complete).
          more (have_user || complete) w')

  unfoldable pub set_ports : List Bytes → World F → World F
  set_ports (first ∷ last ∷ []) w =
      let start_port = to_port (source.atoi first) in
      let end_port = to_port (source.atoi last) in
      (set_data_port_range start_port ((end_port + 1 + 2 ^ 32 - start_port) % 2 ^ 32) w).0
  set_ports _ w = w

  unfoldable pub load_ports : Bytes → World F → World F
  load_ports range w =
      if is_empty range || text_eq range (lit "0-0")
      then w
      else set_ports (source.split true (lit "-: ") range) w

  -- `FtpServerApp::main`: the server, and whether it starts.
  unfoldable pub load_config : ℕ → World F → Outcome (World F × Bool)
  load_config fuel w =
      let root = source.get_string (lit "ftp.server.root_dir") [] in
      let anonymous = source.get_string (lit "ftp.server.allow_anonymous") (lit "1::rwd") in
      let range = source.get_string (lit "ftp.server.pasv_port_range") (lit "0-0") in
      load_anonymous root anonymous w >>= λ (w1, allowed).
      if not allowed
      then ok (w1, false)
      else (load_users fuel 1 root false w1 >>= λ (w2, have_user). ok (
          if is_empty anonymous && not have_user then (w2, false) else (load_ports range w2, true)))
