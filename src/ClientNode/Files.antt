-- ===== src/ClientNode/Files.antt =====
-- jni/yftp/client_node.cpp: the handlers on files and directories, and TYPE.
use yftpserver.Prelude.{
  ℕ, ◌-◌, Bool, true, false, not, ◌&&◌, ◌||◌, WString, [], ◌∷◌, ◌++◌, Option, none, some,
  if◌then◌else◌, leb, ◌==◌, is_empty, lit, text_eq, length, drop, Outcome, ok, deref, ◌>>=◌,
}
use yftpserver.Platform.{Platform}
use yftpserver.FileSystem.{FileSystem, FileStatus}
use yftpserver.Reply.{decimal}
use yftpserver.Calendar.{mdtm_text}
use yftpserver.Common.{build_path, get_file_status}
use yftpserver.UserNode.{UserNode, UserPrivilege, has_privilege}
use yftpserver.UserManager.{is_directory_status}
use yftpserver.ClientNode.{Turn, set_client, answer, answer_text}

abbrev pub is_regular : Option FileStatus → Bool
is_regular none = false
is_regular (some st) = st.is_regular_file

abbrev pub exists : Option FileStatus → Bool
exists none = false
exists (some st) = true

-- The separator behind the home directory is the first character of the directory on view.
abbrev pub is_slash_at : WString → ℕ → Bool
is_slash_at s n = text_eq (drop n s) (b'/' ∷ [])

-- `current_directory_` after CWD to `tmp_path` under the home directory.
unfoldable pub directory_on_view : WString → WString → WString
directory_on_view home tmp_path =
    let home_dir_len = length home in
    let cut = if is_slash_at home (home_dir_len - 1) then home_dir_len - 1 else home_dir_len in
    let view = if leb (length tmp_path) home_dir_len then lit "/" else drop cut tmp_path in
    if is_empty view then lit "/" else view

-- The text before the last slash, if there is one.
unfoldable pub before_last_slash : WString → Option WString
before_last_slash [] = none
before_last_slash (c ∷ cs) = elim (before_last_slash cs) [
  | some front ↦ some (c ∷ front)
  | none ↦ if c == b'/' then some [] else none
]

-- The text without the slashes at its end.
unfoldable pub trim_slashes : WString → WString
trim_slashes [] = []
trim_slashes (c ∷ cs) =
    let rest = trim_slashes cs in if c == b'/' && is_empty rest then [] else c ∷ rest

unfoldable pub parent_directory : WString → WString
parent_directory dir =
    if text_eq dir (lit "/") then dir else elim (before_last_slash (trim_slashes dir)) [
      | none ↦ lit "/"
      | some [] ↦ lit "/"
      | some (c ∷ cs) ↦ c ∷ cs
    ]

module _ {F : Type 0} ⦃p : Platform⦄ where
  unfoldable pub process_type_cmd : WString → Turn F → Turn F
  process_type_cmd cmd_arg t =
      if is_empty cmd_arg
      then answer 501 "Invalid number of arguments." t
      else if text_eq cmd_arg (lit "A")
      then answer 200 "ASCII transfer mode active."
          (set_client (record t.client { binary_mode = false }) t)
      else if text_eq cmd_arg (lit "I")
      then answer 200 "Binary transfer mode active."
          (set_client (record t.client { binary_mode = true }) t)
      else answer 550 "Error - unknown binary mode." t

  unfoldable pub process_cdup_cmd : Turn F → Turn F
  process_cdup_cmd t = answer 250 "CDUP command successful." (
      set_client
        (record t.client { current_directory = parent_directory t.client.current_directory }) t)

module _ {F : Type 0} ⦃p : Platform⦄ ⦃os : FileSystem F⦄ (user : Option UserNode) where
  -- `build_path(user_->get_home_directory(), current_directory_, cmd_arg, bcanonical)`.
  unfoldable pub client_path : Bool → WString → Turn F → Outcome WString
  client_path bcanonical cmd_arg t = do
    u ← deref user
    ok (build_path t.system u.home_directory t.client.current_directory cmd_arg bcanonical)

  -- A handler that wants a privilege, and then an argument.
  unfoldable pub permitted :
      UserPrivilege → (UserNode → Outcome (Turn F)) → Turn F → Outcome (Turn F)
  permitted privilege body t = do
    u ← deref user
    if not (has_privilege privilege u) then ok (answer 550 "Permission denied." t) else body u

  abbrev pub path_status : WString → Turn F → Option FileStatus
  path_status path t = if is_empty path then none else get_file_status t.system path

  unfoldable pub process_cwd_cmd : WString → Turn F → Outcome (Turn F)
  process_cwd_cmd cmd_arg t =
      if is_empty cmd_arg then ok (answer 501 "Invalid number of arguments." t) else do
        u ← deref user
        tmp_path ← client_path true cmd_arg t
        ok (
            if is_directory_status (path_status tmp_path t)
            then answer 250 "CWD command successful." (
                set_client
                  (record t.client {
                    current_directory = directory_on_view u.home_directory tmp_path;
                  })
                  t)
            else answer 550 "No such file or directory." t)

  unfoldable pub process_mdtm_cmd : WString → Turn F → Outcome (Turn F)
  process_mdtm_cmd cmd_arg t =
      if is_empty cmd_arg then ok (answer 501 "Invalid number of arguments." t) else do
        tmp_path ← client_path true cmd_arg t
        ok
            (elim (if exists (path_status tmp_path t)
              then os.last_write_time t.system tmp_path
              else none) [
                | some last ↦ answer_text 213 (mdtm_text last) t
                | none ↦ answer 550 "No such file or directory." t
              ])

  unfoldable pub process_size_cmd : WString → Turn F → Outcome (Turn F)
  process_size_cmd cmd_arg t =
      if is_empty cmd_arg then ok (answer 501 "Syntax error in arguments." t) else do
        tmp_path ← client_path true cmd_arg t
        ok (elim (if is_empty tmp_path then none else os.file_size t.system tmp_path) [
          | some size ↦ answer_text 213 (decimal size ++ b'\r' ∷ b'\n' ∷ []) t
          | none ↦ answer 550 "No such file." t
        ])

  unfoldable pub process_del_cmd : WString → Turn F → Outcome (Turn F)
  process_del_cmd cmd_arg t =
      permitted UserPrivilege.delete_file
        (λ u. if is_empty cmd_arg then ok (answer 501 "Syntax error in arguments." t) else do
          tmp_path ← client_path true cmd_arg t
          let (sys, removed) = os.remove tmp_path t.system
          ok (
              if not (is_regular (path_status tmp_path t))
              then answer 550 "No such file." t
              else if removed
              then answer 250 "DELE command successful." (record t { system = sys })
              else answer 550 "Can' t Remove or Access Error." (record t { system = sys })))
        t

  unfoldable pub process_rnfr_cmd : WString → Turn F → Outcome (Turn F)
  process_rnfr_cmd cmd_arg t =
      permitted UserPrivilege.delete_file
        (λ u. if is_empty cmd_arg then ok (answer 501 "Syntax error in arguments." t) else do
          tmp_path ← client_path true cmd_arg t
          ok (
              if exists (path_status tmp_path t)
              then answer 350 "File or directory exists, ready for destination name."
                  (set_client (record t.client { rename_from_path = tmp_path }) t)
              else answer 550 "No such file or directory." t))
        t

  unfoldable pub process_rnto_cmd : WString → Turn F → Outcome (Turn F)
  process_rnto_cmd cmd_arg t =
      if is_empty cmd_arg
      then ok (answer 501 "Syntax error in arguments." t)
      else if is_empty t.client.rename_from_path
      then ok (answer 503 "Bad sequence of commands." t)
      else do
        tmp_path ← client_path false cmd_arg t
        let forgotten = set_client (record t.client { rename_from_path = [] }) t
        let (sys, renamed) = os.rename t.client.rename_from_path tmp_path t.system
        ok (
            if is_empty tmp_path
            then answer 550 "Rename failure." forgotten
            else if renamed
            then answer 250 "Rename successful." (record forgotten { system = sys })
            else answer 550 "Rename failure." (record forgotten { system = sys }))

  unfoldable pub process_mkd_cmd : WString → Turn F → Outcome (Turn F)
  process_mkd_cmd cmd_arg t =
      permitted UserPrivilege.create_dir
        (λ u. if is_empty cmd_arg then ok (answer 501 "Syntax error in arguments." t) else do
          tmp_path ← client_path false cmd_arg t
          let (sys, made) = os.create_directory tmp_path t.system
          ok (
              if is_empty tmp_path || exists (get_file_status t.system tmp_path)
              then answer 550 "Directory Already Exists." t
              else if made
              then answer 250 "Directory created successful." (record t { system = sys })
              else answer 550 "Internal error creating the directory." (record t { system = sys })))
        t

  unfoldable pub process_rmd_cmd : WString → Turn F → Outcome (Turn F)
  process_rmd_cmd cmd_arg t =
      permitted UserPrivilege.delete_dir
        (λ u. if is_empty cmd_arg then ok (answer 501 "Syntax error in arguments." t) else do
          tmp_path ← client_path false cmd_arg t
          let (sys, removed) = os.remove tmp_path t.system
          ok (
              if not (is_directory_status (path_status tmp_path t))
              then answer 550 "Directory not found." t
              else if removed
              then answer 250 "Directory deleted successfully." (record t { system = sys })
              else answer 450 "Internal error deleting the directory." (record t { system = sys })))
        t
