-- ===== src/Native.antt =====
-- jni/yftp/ftpserve_native.cpp: the entry points of the application, over the one server of the process
-- and the settings that the process keeps of it.
pub mod Settings
use yftpserver.Prelude.{
  ℕ, zero, suc, Bool, true, false, not, WString, [], if◌then◌else◌, ◌==◌, is_empty, text_eq,
  Outcome, ok, ◌>>=◌,
}
use yftpserver.FileSystem.{FileSystem}
use yftpserver.Network.{Acceptor}
use yftpserver.FtpServer.{World}
use yftpserver.FtpServer.Configuration.{
  allow_anonymous, delete_user_of_server, add_user, set_user_password, set_user_home_directory,
  set_user_privilege,
}
use yftpserver.Listener.{
  Listener, new_listener, set_listening_port, start_listening, stop_listening,
}

-- The global variables; `server` and `listener` are the two halves of `ftp_server`.
pub record Native (F : Type 0) : Type 0 where
  pub g_listen_port : ℕ
  pub g_start_dir : WString
  pub g_priv : ℕ
  pub g_allow_anonymous : Bool
  pub g_username : WString
  pub g_password : WString
  pub server : World F
  pub listener : Listener

abbrev pub bool_eq : Bool → Bool → Bool
bool_eq true b = b
bool_eq false b = not b

abbrev pub set_server : {F : Type 0} → World F → Native F → Native F
set_server w n = record n { server = w }

module _ {F : Type 0} ⦃os : FileSystem F⦄ where
  -- The steps of `init_ftp_server`, each under its condition. A port is a positive `int`.
  unfoldable pub init_anonymous : Bool → WString → ℕ → Native F → Outcome (Native F × Bool)
  init_anonymous do_allow start_path priv n =
      if bool_eq n.g_allow_anonymous do_allow
      then ok (n, true)
      else (allow_anonymous do_allow start_path priv n.server >>= λ (w, ret).
          let m = set_server w n in
          ok (
            if ret
            then (record m { g_allow_anonymous = do_allow; g_priv = priv }, true)
            else (m, false)))

  unfoldable pub init_port : ℕ → Native F → Native F
  init_port port n =
      if n.g_listen_port == port
      then n
      else record n { listener = set_listening_port port n.listener; g_listen_port = port }

  unfoldable pub forget_user : Native F → Native F
  forget_user n =
      if is_empty n.g_username
      then n
      else record n { server = (delete_user_of_server n.g_username n.server).0; g_username = [] }

  unfoldable pub init_user : WString → WString → WString → ℕ → Native F → Outcome (Native F)
  init_user username password start_path priv n =
      let m = forget_user n in
      let (w', renewed) = set_user_password username password n.server in
      if not (text_eq n.g_username username)
      then if is_empty username
        then ok m
        else (add_user username password start_path priv m.server >>= λ (w, ret). ok (
            if ret
            then record (set_server w m) {
              g_username = username;
              g_password = password;
              g_priv = priv;
            }
            else set_server w m))
      else if text_eq n.g_password password
      then ok n
      else ok
          (if renewed then record (set_server w' n) { g_password = password } else set_server w' n)

  unfoldable pub init_directory : WString → Native F → Outcome (Native F)
  init_directory start_path n =
      if text_eq n.g_start_dir start_path
      then ok n
      else (set_user_home_directory [] start_path n.server >>= λ (w, ret).
          ok (if ret then record (set_server w n) { g_start_dir = start_path } else set_server w n))

  unfoldable pub init_privilege : ℕ → Native F → Native F
  init_privilege priv n =
      let (w, ret) = set_user_privilege [] priv n.server in
      if n.g_priv == priv
      then n
      else if ret
      then record (set_server w n) { g_priv = priv }
      else set_server w n

  unfoldable pub init_ftp_server :
      Bool → WString → WString → WString → ℕ → ℕ → Native F → Outcome (Native F × Bool)
  init_ftp_server do_allow username password start_path priv port n = do
    (n1, ret) ← init_anonymous do_allow start_path priv n
    n2 ← init_user username password start_path priv (init_port port n1)
    n3 ← init_directory start_path n2
    ok (init_privilege priv n3, ret)

module _ {F : Type 0} ⦃a : Acceptor F⦄ where
  -- `start_ftp_server`, with whether the thread of `run` is joinable.
  unfoldable pub start_ftp_server : Bool → Native F → Native F × Bool
  start_ftp_server joinable n =
      let (l, sys, ret) = start_listening 0 0 n.listener n.server.system in
      (
        record n { listener = l; server = record n.server { system = sys } },
        if ret then joinable else false,
      )

-- The loop of `stop_ftp_server`: `is_stopped i` is what the thread of `run` shows after `i` pauses. The
-- number of pauses when it ends.
unfoldable pub pauses : ℕ → (ℕ → Bool) → ℕ → ℕ
pauses zero is_stopped i = i
pauses (suc left) is_stopped i =
    let more = pauses left is_stopped (suc i) in if is_stopped i then i else more

module _ {F : Type 0} ⦃a : Acceptor F⦄ where
  unfoldable pub stop_ftp_server : (ℕ → Bool) → Native F → Native F × Bool
  stop_ftp_server is_stopped n =
      let (l, sys, ret) = stop_listening n.listener n.server.system in
      (
        record n { listener = l; server = record n.server { system = sys } },
        if ret then is_stopped (pauses 10 is_stopped 0) else false,
      )
