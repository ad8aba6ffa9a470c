-- ===== src/UserNode.antt =====
-- jni/yftp/user_node.h and the client list of jni/yftp/client_manager.h: one account, with the
-- addresses of the client nodes that use it.
pub mod Limits
use yftpserver.Prelude.{
  ℕ, WString, Bool, true, false, not, ◌||◌, [], ◌∷◌, ◌++◌, List, Option, none, some, if◌then◌else◌,
  ◌==◌, length, Outcome, ok, ◌>>=◌, deref, ℤ, pos, lt_ℤ, is_minus_one, bit_and, bit_or,
}

pub record UserNode : Type 0 where
  pub user_name : WString
  pub user_password : WString
  pub is_enable : Bool
  pub home_directory : WString
  pub user_privilege : ℕ
  pub max_client_num : ℤ
  pub extra_cmd : ℕ
  pub ftp_client_list : List ℕ

-- `enum class user_privilege`.
pub data UserPrivilege : Type 0 where
  read_file write_file delete_file list_dir create_dir delete_dir : UserPrivilege

abbrev pub privilege_bit : UserPrivilege → ℕ
privilege_bit UserPrivilege.read_file = 0x1
privilege_bit UserPrivilege.write_file = 0x2
privilege_bit UserPrivilege.delete_file = 0x4
privilege_bit UserPrivilege.list_dir = 0x8
privilege_bit UserPrivilege.create_dir = 0x10
privilege_bit UserPrivilege.delete_dir = 0x20

-- `FTP_USER_PRIV_READ`, `FTP_USER_PRIV_WRITE`, `FTP_USER_PRIV_DEL` and `FTP_USER_PRIV_ALL`.
abbrev pub priv_read : ℕ
priv_read = bit_or (privilege_bit UserPrivilege.read_file) (privilege_bit UserPrivilege.list_dir)

abbrev pub priv_write : ℕ
priv_write =
    bit_or (privilege_bit UserPrivilege.write_file) (privilege_bit UserPrivilege.create_dir)

abbrev pub priv_del : ℕ
priv_del = bit_or (privilege_bit UserPrivilege.delete_file) (privilege_bit UserPrivilege.delete_dir)

abbrev pub priv_all : ℕ
priv_all = bit_or (bit_or priv_read priv_write) priv_del

-- `user_->get_user_privilege() & (unsigned char)p`, as a test.
unfoldable pub has_privilege : UserPrivilege → UserNode → Bool
has_privilege p u = not (bit_and u.user_privilege (privilege_bit p) == 0)

abbrev pub new_user_node : UserNode
new_user_node = record {
  user_name = [];
  user_password = [];
  is_enable = true;
  home_directory = [];
  user_privilege = priv_read;
  max_client_num = pos 10;
  extra_cmd = 0;
  ftp_client_list = [];
}

-- `client_manager::add_client(client)` and `client_manager::get_client_num`.
abbrev pub manager_add_client : ℕ → UserNode → UserNode
manager_add_client client u = record u { ftp_client_list = u.ftp_client_list ++ client ∷ [] }

abbrev pub get_client_num : UserNode → ℕ
get_client_num u = length u.ftp_client_list

-- `user_node::add_client`: the node afterwards, and whether there was room.
unfoldable pub add_client : ℕ → UserNode → UserNode × Bool
add_client client u =
    if is_minus_one u.max_client_num || lt_ℤ (get_client_num u) u.max_client_num
    then (manager_add_client client u, true)
    else (u, false)

-- The first entry of a client goes; nothing is done for one that is not there.
unfoldable pub erase_client : ℕ → List ℕ → List ℕ
erase_client client [] = []
erase_client client (c ∷ cs) = if c == client then cs else c ∷ erase_client client cs

abbrev pub delete_client : ℕ → UserNode → UserNode
delete_client client u = record u { ftp_client_list = erase_client client u.ftp_client_list }

abbrev pub delete_all_client : UserNode → UserNode
delete_all_client u = record u { ftp_client_list = [] }

-- `*dir.rbegin()`, of a text that must not be empty.
unfoldable pub last_char : WString → Option ℕ
last_char [] = none
last_char (c ∷ []) = some c
last_char (c ∷ d ∷ cs) = last_char (d ∷ cs)

-- A home directory ends in a separator.
unfoldable pub set_home_directory : WString → UserNode → Outcome UserNode
set_home_directory dir u = do
  c ← deref (last_char dir)
  ok (record u { home_directory = if c == b'\\' || c == b'/' then dir else dir ++ b'/' ∷ [] })
