-- ===== src/UserManager.antt =====
-- jni/yftp/user_manager.h and jni/yftp/user_manager.cpp: the accounts. User nodes are shared: a client
-- holds on to its node when the account is deleted. So nodes have addresses in a table, and the
-- manager's list holds addresses. The mutex makes each call one step.
pub mod Accounts
pub mod Invariant
pub mod Registration
pub mod Laws
pub mod Membership
use yftpserver.Prelude.{
  ℕ, suc, ◌+◌, ◌%◌, ◌<◌, ◌≡◌, WString, Bool, true, false, not, ◌&&◌, ◌||◌, [], ◌∷◌, ◌++◌, List,
  Option, none, some, map, if◌then◌else◌, ◌==◌, is_empty, update, lit, text_eq, Outcome, ok, fault,
  ◌>>=◌, deref, ℤ, pos, negsuc,
}
use yftpserver.FileSystem.{FileSystem, FileStatus}
use yftpserver.Common.{get_app_dir, simplify_path, get_file_status}
use yftpserver.UserNode.{UserNode, new_user_node, delete_all_client, set_home_directory}

-- The codes of jni/yftp/error_code.h.
abbrev pub error_user_not_found : ℕ
error_user_not_found = 0xE0000001

abbrev pub error_user_exist : ℕ
error_user_exist = 0xE0000002

abbrev pub error_path_invalid : ℕ
error_path_invalid = 0xE0000003

abbrev pub error_param_invalid : ℕ
error_param_invalid = 0xE0000004

abbrev pub error_username_invalid : ℕ
error_username_invalid = 0xE0000005

-- Addresses from `next` on are free. The constructor leaves `last_error` as it finds it.
pub record UserManager : Type 0 where
  pub node : ℕ → UserNode
  pub ftp_user_list : List ℕ
  pub next : ℕ
  pub last_error : ℕ

abbrev pub new_user_manager : UserManager
new_user_manager = record {
  node = λ _. new_user_node;
  ftp_user_list = [];
  next = 0;
  last_error = 0;
}

abbrev pub set_error : ℕ → UserManager → UserManager
set_error e m = record m { last_error = e }

abbrev pub set_node : ℕ → UserNode → UserManager → UserManager
set_node a u m = record m { node = update m.node a u }

-- The address of the first user of a name.
unfoldable pub find_in : (ℕ → UserNode) → WString → List ℕ → Option ℕ
find_in node name [] = none
find_in node name (a ∷ rest) =
    if text_eq (node a).user_name name then some a else find_in node name rest

unfoldable pub find_user : WString → UserManager → Option ℕ
unfolding find_in
find_user name m = find_in m.node name m.ftp_user_list

-- The loop of `set_user_password` and `set_user_privilege`: an empty name means every user, any
-- other the first user of that name.
unfoldable pub set_matching :
    (UserNode → UserNode) → WString → List ℕ → (ℕ → UserNode) → (ℕ → UserNode) × Bool
set_matching f name [] node = (node, false)
set_matching f name (a ∷ rest) node =
    let changed = update node a (f (node a)) in
    let all = (set_matching f name rest changed).0 in
    let later = set_matching f name rest node in
    if is_empty name
    then (all, true)
    else if text_eq (node a).user_name name
    then (changed, true)
    else later

unfoldable pub set_user : (UserNode → UserNode) → WString → UserManager → UserManager × Bool
set_user f name m =
    let (node, ret) = set_matching f name m.ftp_user_list m.node in
    if ret
    then (record m { node = node }, true)
    else (record m { node = node; last_error = error_user_not_found }, false)

unfoldable pub set_user_password : WString → WString → UserManager → UserManager × Bool
unfolding set_user
set_user_password name password = set_user (λ u. record u { user_password = password }) name

unfoldable pub set_user_privilege : WString → ℕ → UserManager → UserManager × Bool
unfolding set_user
set_user_privilege name priv = set_user (λ u. record u { user_privilege = priv }) name

-- A change of the first user of a name, and a question to it.
unfoldable pub modify_user : (UserNode → UserNode) → WString → UserManager → UserManager × Bool
unfolding find_user
modify_user f name m = elim (find_user name m) [
  | none ↦ (set_error error_user_not_found m, false)
  | some a ↦ (set_node a (f (m.node a)) m, true)
]

unfoldable pub ask_user {ℓ} :
    {A : Type ℓ} → (UserNode → A) → A → WString → UserManager → UserManager × A
unfolding find_user
ask_user get default name m = elim (find_user name m) [
  | none ↦ (set_error error_user_not_found m, default)
  | some a ↦ (m, get (m.node a))
]

unfoldable pub set_user_max_client : WString → ℤ → UserManager → UserManager × Bool
unfolding modify_user
set_user_max_client name max_client =
    modify_user (λ u. record u { max_client_num = max_client }) name

unfoldable pub get_user_max_client : WString → UserManager → UserManager × ℤ
unfolding ask_user
get_user_max_client = ask_user (λ u. u.max_client_num) (negsuc 0)

unfoldable pub get_user_privilege : WString → UserManager → UserManager × ℕ
unfolding ask_user
get_user_privilege = ask_user (λ u. u.user_privilege) 0

-- `none` is the result `false`, with the caller's text as it was.
unfoldable pub get_user_password : WString → UserManager → UserManager × Option WString
unfolding ask_user
get_user_password = ask_user (λ u. some u.user_password) none

unfoldable pub get_user_home_directory : WString → UserManager → UserManager × Option WString
unfolding ask_user
get_user_home_directory = ask_user (λ u. some u.home_directory) none

-- `delete_user`: the first user of the name loses its clients and leaves the list.
unfoldable pub erase_address : ℕ → List ℕ → List ℕ
erase_address a [] = []
erase_address a (b ∷ bs) = if b == a then bs else b ∷ erase_address a bs

unfoldable pub delete_user : WString → UserManager → UserManager × Bool
unfolding find_user erase_address
delete_user name m = elim (find_user name m) [
  | none ↦ (set_error error_user_not_found m, false)
  | some a ↦
      let emptied = set_node a (delete_all_client (m.node a)) m in
      (record emptied { ftp_user_list = erase_address a m.ftp_user_list }, true)
]

-- The loop of `delete_all_user`.
unfoldable pub empty_all : List ℕ → (ℕ → UserNode) → ℕ → UserNode
empty_all [] node = node
empty_all (a ∷ rest) node = empty_all rest (update node a (delete_all_client (node a)))

unfoldable pub delete_all_user : UserManager → UserManager
unfolding empty_all
delete_all_user m = record m { node = empty_all m.ftp_user_list m.node; ftp_user_list = [] }

-- A new node at a free address, at the end of the list.
abbrev pub add_node : UserNode → UserManager → UserManager
add_node u m = record m {
  node = update m.node m.next u;
  ftp_user_list = m.ftp_user_list ++ m.next ∷ [];
  next = suc m.next;
}

abbrev pub is_directory_status : Option FileStatus → Bool
is_directory_status none = false
is_directory_status (some st) = st.is_directory

-- The locked half of `set_user_home_directory`.
unfoldable pub assign_directory :
    {F : Type 0} → WString → Option WString × F × UserManager → Outcome (Bool × F × UserManager)
assign_directory name (none, fs, m) = ok (false, fs, m)
assign_directory name (some path, fs, m) = elim (find_user name m) [
  | none ↦ ok (false, fs, set_error error_user_not_found m)
  | some a ↦ do u ← set_home_directory path (m.node a); ok (true, fs, set_node a u m)
]

-- The locked half of `add_user`.
unfoldable pub register_user :
    {F : Type 0}
    → WString
    → WString
    → ℕ
    → Option WString × F × UserManager
    → Outcome (Bool × F × UserManager)
register_user name password priv (none, fs, m) = ok (false, fs, m)
register_user name password priv (some path, fs, m) = elim (find_user name m) [
  | some _ ↦ ok (false, fs, set_error error_user_exist m)
  | none ↦ do
    u ←
        set_home_directory path
          (record new_user_node { user_name = name; user_password = password })
    ok (true, fs, add_node (record u { user_privilege = priv }) m)
]

module _ {F : Type 0} ⦃os : FileSystem F⦄ where
  -- The path that the home directory stands for, before it is simplified; looking up the application's
  -- directory may change the files.
  unfoldable pub requested_directory : WString → F → Outcome (WString × F)
  unfolding lit text_eq get_app_dir
  requested_directory home_dir fs =
      if is_empty home_dir || text_eq home_dir (lit ".") then get_app_dir fs else ok (home_dir, fs)

  -- The simplified directory, or `none` with an error code.
  unfoldable pub checked_directory :
      UserManager → WString × F → Outcome (Option WString × F × UserManager)
  unfolding simplify_path get_file_status
  checked_directory m (temp, fs) =
      let path = if is_empty temp then temp else simplify_path fs temp in
      if is_empty path || not (is_directory_status (get_file_status fs path))
      then ok (none, fs, set_error error_path_invalid m)
      else ok (some path, fs, m)

  unfoldable pub proccess_home_directory :
      WString → F → UserManager → Outcome (Option WString × F × UserManager)
  unfolding requested_directory checked_directory
  proccess_home_directory home_dir fs m = requested_directory home_dir fs >>= checked_directory m

  unfoldable pub set_user_home_directory :
      WString → WString → F → UserManager → Outcome (Bool × F × UserManager)
  unfolding assign_directory
  set_user_home_directory name home_dir fs m =
      proccess_home_directory home_dir fs m >>= assign_directory name

  unfoldable pub add_user :
      WString → WString → WString → ℕ → F → UserManager → Outcome (Bool × F × UserManager)
  unfolding register_user
  add_user name password home_dir priv fs m =
      if is_empty name
      then ok (false, fs, set_error error_param_invalid m)
      else (proccess_home_directory home_dir fs m >>= register_user name password priv)
