-- ===== src/FtpServer/Errors.antt =====
-- jni/yftp/error_code.h: `error_manager::to_string`, and the errors that adding a user ends with.
use yftpserver.Prelude.{
  ℕ, ◌≡◌, refl, inl, inr, Bool, true, false, ◌||◌, WString, Option, Option-cases, Bool-cases,
  if◌then◌else◌, is_empty, ◌==◌, lit, text_eq, Outcome, ◌>>=◌, Returns, Returns-bind,
}
use yftpserver.FileSystem.{FileSystem}
use yftpserver.UserNode.{new_user_node}
use yftpserver.UserManager.{
  UserManager, find_user, register_user, error_user_not_found, error_user_exist, error_path_invalid,
  error_param_invalid, error_username_invalid,
}
use yftpserver.UserManager
use yftpserver.UserManager.Registration.{
  Processed, threw, refused, accepted, proccess_home_directory-Processed,
  set_home_directory_returns,
}
use yftpserver.FtpServer.{World}
use yftpserver.FtpServer.Configuration.{add_user, take_over}

-- `error_manager::to_string`.
unfoldable pub error_text : ℕ → WString
error_text code =
    if code == error_user_not_found
    then lit "User Not Found"
    else if code == error_user_exist
    then lit "User Already Exist"
    else if code == error_path_invalid
    then lit "Invalid Path"
    else if code == error_param_invalid
    then lit "Invalid Param"
    else if code == error_username_invalid
    then lit "Invalid User Name"
    else lit "Unknown Error!!!"

abbrev pub get_last_error_string : {F : Type 0} → World F → WString
get_last_error_string w = error_text w.last_error

-- The error has a text of its own.
abbrev pub IsKnown : ℕ → Type 0
IsKnown code = text_eq (error_text code) (lit "Unknown Error!!!") ≡ false

error_user_exist-IsKnown : IsKnown error_user_exist
unfolding error_text lit text_eq
error_user_exist-IsKnown = refl

error_path_invalid-IsKnown : IsKnown error_path_invalid
unfolding error_text lit text_eq
error_path_invalid-IsKnown = refl

error_param_invalid-IsKnown : IsKnown error_param_invalid
unfolding error_text lit text_eq
error_param_invalid-IsKnown = refl

error_username_invalid-IsKnown : IsKnown error_username_invalid
unfolding error_text lit text_eq
error_username_invalid-IsKnown = refl

Explained : {F : Type 0} → Bool × F × UserManager → Type 0
Explained (ret, fs, m) = ret ≡ false → IsKnown m.last_error

register_user-Explained :
    {F : Type 0} (name password : WString) (priv : ℕ) (m : UserManager)
    {x : Outcome (Option WString × F × UserManager)}
    → Processed F m x
    → Returns Explained (x >>= register_user name password priv)
unfolding register_user Explained
register_user-Explained name password priv m threw = tt
register_user-Explained name password priv m (refused fs) = λ e. error_path_invalid-IsKnown
register_user-Explained name password priv m (accepted path fs ne) =
    elim (Option-cases (find_user name m)) [
      | inr (a, e) ↦ rw (e, register_user) (λ e. error_user_exist-IsKnown)
      | inl e ↦
          let blank = record new_user_node { user_name = name; user_password = password } in
          let (home, set) = set_home_directory_returns path blank ne in
          rw (e, register_user, set) (λ e. cc)
    ]

module _ {F : Type 0} ⦃os : FileSystem F⦄ where
  explained :
      (name password home_dir : WString) (priv : ℕ) (fs : F) (m : UserManager)
      → Returns Explained (UserManager.add_user name password home_dir priv fs m)
  unfolding UserManager.add_user Explained
  explained name password home_dir priv fs m = elim (Bool-cases (is_empty name)) [
    | inl blank ↦ rw blank (λ e. error_param_invalid-IsKnown)
    | inr given ↦ rw given (
        register_user-Explained name password priv m
          (proccess_home_directory-Processed home_dir fs m))
  ]

  -- Whenever `add_user` of the server returns false, the text of its last error says why: it is not
  -- that of an unknown error.
  pub add_user-error_text :
      (name password home_dir : WString) (priv : ℕ) (w : World F)
      → Returns (λ x. x.1 ≡ false → IsKnown x.0.last_error) (add_user name password home_dir priv w)
  unfolding add_user Explained
  add_user-error_text name password home_dir priv w =
      elim (Bool-cases (text_eq name (lit "anonymous") || text_eq name (lit "ftp"))) [
        | inl reserved ↦ rw reserved (λ e. error_username_invalid-IsKnown)
        | inr free ↦ rw free (
            Returns-bind Explained (λ x. x.1 ≡ false → IsKnown x.0.last_error)
              (UserManager.add_user name password home_dir priv w.system w.users) _
              (explained name password home_dir priv w.system w.users)
              (λ (ret, sys, users) h. told ret sys users h))
      ]
    where
      told :
          (ret : Bool) (sys : F) (users : UserManager)
          → Explained (ret, sys, users)
          → (take_over (record w { last_error = 0 }) (ret, sys, users)).1 ≡ false
          → IsKnown (take_over (record w { last_error = 0 }) (ret, sys, users)).0.last_error
      told true sys users h e = cc
      told false sys users h e = h refl
