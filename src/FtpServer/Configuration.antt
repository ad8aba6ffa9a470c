-- ===== src/FtpServer/Configuration.antt =====
-- jni/yftp/ftp_server.h and jni/yftp/ftp_server.cpp: the operations that configure the server.
use yftpserver.Prelude.{
  ℕ, Bool, true, false, not, ◌&&◌, ◌||◌, WString, [], if◌then◌else◌, leb, ◌==◌, lit, text_eq,
  Outcome, ok, ◌>>=◌,
}
use yftpserver.FileSystem.{FileSystem}
use yftpserver.UserManager.{
  UserManager, delete_all_user, delete_user, error_user_not_found, error_username_invalid,
}
use yftpserver.UserManager
use yftpserver.FtpServer.{World}

module _ {F : Type 0} where
  abbrev pub set_last_error : ℕ → World F → World F
  set_last_error e w = record w { last_error = e }

  -- The ports of passive mode. A number from 2 ^ 31 on is stored as a negative one.
  unfoldable pub set_data_port_range : ℕ → ℕ → World F → World F × Bool
  set_data_port_range data_port_start number w =
      if leb data_port_start 1024 || number == 0
      then (w, false)
      else (record w { data_port_start = data_port_start; data_port_num = number }, true)

  -- The destructor.
  unfoldable pub destroy : World F → World F
  destroy w = record w { users = delete_all_user w.users }

  -- `ftp_server::delete_user` deletes nothing.
  unfoldable pub delete_user_of_server : WString → World F → World F × Bool
  delete_user_of_server name w = (w, false)

  unfoldable pub set_user_privilege : WString → ℕ → World F → World F × Bool
  set_user_privilege name priv w =
      let (users, ret) = UserManager.set_user_privilege name priv w.users in
      (record w { users = users }, ret)

  unfoldable pub set_user_password : WString → WString → World F → World F × Bool
  set_user_password name password w =
      let (users, ret) = UserManager.set_user_password name password w.users in
      (record w { users = users }, ret)

  -- What a call of the user manager leaves, with its error code if it failed.
  abbrev pub take_over : World F → Bool × F × UserManager → World F × Bool
  take_over w (ret, sys, users) =
      let after = record w { users = users; system = sys } in
      if ret then (after, true) else (set_last_error users.last_error after, false)

module _ {F : Type 0} ⦃os : FileSystem F⦄ where
  unfoldable pub set_user_home_directory : WString → WString → World F → Outcome (World F × Bool)
  set_user_home_directory name home_dir w =
      UserManager.set_user_home_directory name home_dir w.system w.users >>= λ (ret, sys, users).
      ok (record w { users = users; system = sys }, ret)

  unfoldable pub add_user : WString → WString → WString → ℕ → World F → Outcome (World F × Bool)
  add_user name password home_dir priv w =
      let clean = set_last_error 0 w in
      if text_eq name (lit "anonymous") || text_eq name (lit "ftp")
      then ok (set_last_error error_username_invalid clean, false)
      else (UserManager.add_user name password home_dir priv clean.system clean.users >>= λ x.
          ok (take_over clean x))

  -- Anonymous login turned off: a user that is not found is no error.
  unfoldable pub forbid_anonymous : World F → World F × Bool
  forbid_anonymous w =
      let (users, ret) = delete_user (lit "anonymous") w.users in
      if not ret && not (users.last_error == error_user_not_found)
      then (record w { users = users; last_error = users.last_error }, false)
      else (record w { users = users; is_allow_anonymous = false }, true)

  unfoldable pub permit_anonymous : WString → ℕ → World F → Outcome (World F × Bool)
  permit_anonymous home_dir priv w =
      UserManager.add_user (lit "anonymous") [] home_dir priv w.system w.users >>= λ x.
      let (after, ret) = take_over w x in
      ok (if ret then (record after { is_allow_anonymous = true }, true) else (after, false))

  unfoldable pub allow_anonymous : Bool → WString → ℕ → World F → Outcome (World F × Bool)
  allow_anonymous do_allow home_dir priv w =
      let clean = set_last_error 0 w in
      if do_allow
      then if not w.is_allow_anonymous
        then permit_anonymous home_dir priv clean
        else ok (clean, true)
      else if w.is_allow_anonymous
      then ok (forbid_anonymous clean)
      else ok (clean, true)
