-- ===== src/Native/Settings.antt =====
-- What the settings of the application come to: the start directory, and a user whose name is changed.
use yftpserver.Prelude.{
  ℕ, ◌≡◌, refl, ◌∙◌, Bool, Bool-cases, Option-cases, inl, inr, true, false, not, ◌||◌, WString, [],
  Option, none, some, is_empty, text_eq, lit, if◌then◌else◌, Returns, Returns-bind, Returns-last,
  Ends, Ends-bind, Ends-both, Outcome, ok, fault, thrown, running, All, ◌<◌,
}
use yftpserver.FileSystem.{FileSystem}
use yftpserver.Common.{simplify_path, get_file_status}
use yftpserver.UserNode.{UserNode, new_user_node, set_home_directory}
use yftpserver.UserManager.{
  UserManager, find_user, add_node, is_directory_status, requested_directory, checked_directory,
  proccess_home_directory, assign_directory, register_user,
}
use yftpserver.UserManager
use yftpserver.UserManager.Accounts.{account, account_in-add}
use yftpserver.UserManager.Invariant.{IsValid}
use yftpserver.UserManager.Registration.{Keeps, add_user-Keeps, set_user_home_directory-Keeps}
use yftpserver.FtpServer.{World}
use yftpserver.FtpServer.Configuration.{
  set_last_error, take_over, delete_user_of_server, add_user, set_user_home_directory,
}
use yftpserver.Native.{Native, forget_user, init_user, init_directory}

-- The accounts but for the last error.
abbrev pub SameAccounts : UserManager → UserManager → Type 0
SameAccounts m m' = (m'.node ≡ m.node) × (m'.ftp_user_list ≡ m.ftp_user_list) × (m'.next ≡ m.next)

pub Keeps-Ends :
    {F : Type 0} (x : Outcome (Bool × F × UserManager)) → Keeps x → Ends (λ y. IsValid y.2) x
Keeps-Ends (ok y) h = h
Keeps-Ends thrown h = tt
Keeps-Ends fault h = h
Keeps-Ends running h = h

module _ {F : Type 0} ⦃os : FileSystem F⦄ where
  -- Looking up a directory changes no account.
  pub proccess_home_directory-SameAccounts :
      (home_dir : WString) (fs : F) (m : UserManager)
      → Returns (λ x. SameAccounts m x.2) (proccess_home_directory home_dir fs m)
  unfolding proccess_home_directory checked_directory
  proccess_home_directory-SameAccounts home_dir fs m =
      Returns-last (λ x. SameAccounts m x.2) (requested_directory home_dir fs) (checked_directory m)
        checked
    where
      checked : (x : WString × F) → Returns (λ x. SameAccounts m x.2) (checked_directory m x)
      checked (temp, fs) =
          let path = if is_empty temp then temp else simplify_path fs temp in
          elim (Bool-cases (is_empty path || not (is_directory_status (get_file_status fs path)))) [
            | inl bad ↦ rw bad (refl, refl, refl)
            | inr good ↦ rw good (refl, refl, refl)
          ]

  assign_directory_unnamed :
      (name : WString) (m : UserManager) (x : Option WString × F × UserManager)
      → find_user name m ≡ none
      → SameAccounts m x.2
      → Returns (λ y. (y.0 ≡ false) × SameAccounts m y.2) (assign_directory name x)
  unfolding assign_directory find_user
  assign_directory_unnamed name m (none, fs, m') nobody same = (refl, same)
  assign_directory_unnamed name m (some path, fs, m') nobody same =
      let absent : find_user name m' ≡ none = rw (same.0, same.1) nobody in
      rw (absent, assign_directory) (refl, same)

  set_user_home_directory_unnamed :
      (home_dir : WString) (fs : F) (m : UserManager)
      → find_user [] m ≡ none
      → Returns
          (λ y. (y.0 ≡ false) × SameAccounts m y.2)
          (UserManager.set_user_home_directory [] home_dir fs m)
  unfolding UserManager.set_user_home_directory
  set_user_home_directory_unnamed home_dir fs m nobody =
      Returns-bind (λ x. SameAccounts m x.2) (λ y. (y.0 ≡ false) × SameAccounts m y.2)
        (proccess_home_directory home_dir fs m) _
        (proccess_home_directory-SameAccounts home_dir fs m)
        (λ x same. assign_directory_unnamed [] m x nobody same)

  -- Where no account has an empty name, the names are distinct and the nodes in use, a new start directory
  -- changes nothing: neither the home directory of an account nor the setting itself, whether the
  -- directory is there or not. The call returns, unless it throws because no directory could be looked up.
  pub init_directory_ignored :
      (start_path : WString) (n : Native F)
      → IsValid n.server.users
      → find_user [] n.server.users ≡ none
      → Ends
          (λ n'. (n'.g_start_dir ≡ n.g_start_dir) × SameAccounts n.server.users n'.server.users)
          (init_directory start_path n)
  unfolding init_directory set_user_home_directory
  init_directory_ignored start_path n v nobody =
      let m = n.server.users in
      let sys = n.server.system in
      elim (Bool-cases (text_eq n.g_start_dir start_path)) [
        | inl same ↦ rw same (refl, (refl, refl, refl))
        | inr new ↦ rw new (
            Ends-bind (λ (w, ret). (ret ≡ false) × SameAccounts m w.users)
              (λ n'. (n'.g_start_dir ≡ n.g_start_dir) × SameAccounts m n'.server.users)
              (set_user_home_directory [] start_path n.server) _
              (Ends-bind (λ y. (y.0 ≡ false) × SameAccounts m y.2)
                (λ (w, ret). (ret ≡ false) × SameAccounts m w.users)
                (UserManager.set_user_home_directory [] start_path sys m) _
                (Ends-both (λ y. IsValid y.2) (λ y. (y.0 ≡ false) × SameAccounts m y.2) _
                  (Keeps-Ends _ (set_user_home_directory-Keeps [] start_path sys m v))
                  (set_user_home_directory_unnamed start_path sys m nobody))
                (λ y h. h))
              (λ (w, ret) h. rw (h.0) (refl, h.1)))
      ]

  register_user-account_there :
      (name password other : WString) (priv : ℕ) (u : UserNode)
      (x : Option WString × F × UserManager)
      → All (λ a. a < x.2.next) x.2.ftp_user_list
      → account other x.2 ≡ some u
      → Returns (λ y. account other y.2 ≡ some u) (register_user name password priv x)
  unfolding register_user
  register_user-account_there name password other priv u (none, fs, m) used there = there
  register_user-account_there name password other priv u (some path, fs, m) used there =
      let blank = record new_user_node { user_name = name; user_password = password } in
      elim (Option-cases (find_user name m)) [
        | inr (a, e) ↦ rw (e, register_user) there
        | inl e ↦
            rw (e, register_user)
              (Returns-last (λ y. account other y.2 ≡ some u) (set_home_directory path blank) _
                (λ v.
                  account_in-add m.node m.next (record v { user_privilege = priv }) other
                    m.ftp_user_list used
                  ∙ rw there refl))
      ]

  -- An account that is there stays as it is when another is added.
  add_user-account :
      (name password home_dir other : WString) (priv : ℕ) (fs : F) (m : UserManager) (u : UserNode)
      → IsValid m
      → account other m ≡ some u
      → Returns
          (λ x. account other x.2 ≡ some u)
          (UserManager.add_user name password home_dir priv fs m)
  unfolding UserManager.add_user
  add_user-account name password home_dir other priv fs m u v there =
      elim (Bool-cases (is_empty name)) [
        | inl blank ↦ rw blank there
        | inr given ↦ rw given (
            Returns-bind (λ x. SameAccounts m x.2) (λ x. account other x.2 ≡ some u)
              (proccess_home_directory home_dir fs m) _
              (proccess_home_directory-SameAccounts home_dir fs m)
              (λ x same.
                register_user-account_there name password other priv u x
                  (rw (same.1, same.2) v.allocated) (rw (same.0, same.1) there)))
      ]

  take_over-account :
      (old : WString) (u : UserNode) (w : World F) (x : Bool × F × UserManager)
      → account old x.2 ≡ some u
      → account old (take_over w x).0.users ≡ some u
  take_over-account old u w (true, sys, users) there = there
  take_over-account old u w (false, sys, users) there = there

  server_add_user-account :
      (name password home_dir old : WString) (priv : ℕ) (w : World F) (u : UserNode)
      → IsValid w.users
      → account old w.users ≡ some u
      → Ends (λ x. account old x.0.users ≡ some u) (add_user name password home_dir priv w)
  unfolding add_user
  server_add_user-account name password home_dir old priv w u v there =
      elim (Bool-cases (text_eq name (lit "anonymous") || text_eq name (lit "ftp"))) [
        | inl reserved ↦ rw reserved there
        | inr free ↦ rw free (
            Ends-bind (λ x. account old x.2 ≡ some u) (λ x. account old x.0.users ≡ some u)
              (UserManager.add_user name password home_dir priv w.system w.users) _
              (Ends-both (λ y. IsValid y.2) (λ x. account old x.2 ≡ some u) _
                (Keeps-Ends _ (add_user-Keeps name password home_dir priv w.system w.users v))
                (add_user-account name password home_dir old priv w.system w.users u v there))
              (λ x h. take_over-account old u (set_last_error 0 w) x h))
      ]

  forget_user-server : (n : Native F) → (forget_user n).server ≡ n.server
  unfolding forget_user delete_user_of_server
  forget_user-server n = elim (Bool-cases (is_empty n.g_username)) [
    | inl blank ↦ rw blank refl
    | inr named ↦ rw named refl
  ]

  either :
      (old : WString) (u : UserNode) (b : Bool) (n n' : Native F)
      → account old n.server.users ≡ some u
      → account old n'.server.users ≡ some u
      → account old (if b then n else n').server.users ≡ some u
  either old u true n n' h h' = h
  either old u false n n' h h' = h'

  -- When the application names another user than before, on accounts of distinct names with nodes in
  -- use, the account of the old user is as it was. The call returns, unless it throws because no
  -- directory could be looked up.
  pub init_user_stays :
      (username password start_path old : WString) (priv : ℕ) (u : UserNode) (n : Native F)
      → IsValid n.server.users
      → text_eq n.g_username username ≡ false
      → account old n.server.users ≡ some u
      → Ends
          (λ n'. account old n'.server.users ≡ some u)
          (init_user username password start_path priv n)
  unfolding init_user
  init_user_stays username password start_path old priv u n v changed there =
      let same = forget_user-server n in
      elim (Bool-cases (is_empty username)) [
        | inl blank ↦ rw (changed, blank, same) there
        | inr given ↦
            rw (changed, given, same)
              (Ends-bind (λ x. account old x.0.users ≡ some u)
                (λ n'. account old n'.server.users ≡ some u)
                (add_user username password start_path priv n.server) _
                (server_add_user-account username password start_path old priv n.server u v there)
                (λ (w, ret) h. either old u ret _ _ h h))
      ]
