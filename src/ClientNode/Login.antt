-- ===== src/ClientNode/Login.antt =====
-- jni/yftp/client_node.cpp: `process_user_cmd`, `process_password_cmd`, `process_rein_cmd` and `end`.
-- These change the lists of the accounts, so they run on the user manager and the client node,
-- whose address is `me`.
use yftpserver.Prelude.{
  ℕ, Bool, true, false, ◌&&◌, ◌||◌, String, WString, [], Option, none, some, if◌then◌else◌,
  is_empty, lit, text_eq, Outcome, ok, deref, ◌>>=◌,
}
use yftpserver.Platform.{Platform}
use yftpserver.Reply.{Reply, create}
use yftpserver.UserNode.{add_client, delete_client}
use yftpserver.UserManager.{UserManager, find_user, set_node}
use yftpserver.ClientNode.{ClientNode, DataMode}

pub record Login : Type 0 where
  pub users : UserManager
  pub client : ClientNode
  pub reply : Reply
  pub ret : Bool

-- `user_->get_client_manager().delete_client(shared_from_this())`.
unfoldable pub leave_user : ℕ → Login → Outcome Login
leave_user me s = do
  a ← deref s.client.user
  ok (record s { users = set_node a (delete_client me (s.users.node a)) s.users })

-- `user->add_client(shared_from_this())`.
unfoldable pub enter_user : ℕ → ℕ → Login → Login × Bool
enter_user me a s =
    let (u, room) = add_client me (s.users.node a) in
    (record s { users = set_node a u s.users }, room)

abbrev pub set_user_of : Option ℕ → Login → Login
set_user_of user s = record s { client = record s.client { user = user } }

-- A client that has logged in is logged out first.
unfoldable pub log_out : ℕ → Login → Outcome Login
log_out me s =
    if s.client.is_logged
    then (leave_user me (record s { client = record s.client { is_logged = false } }) >>= λ t.
        ok (set_user_of none t))
    else ok s

-- `user_ && user_->is_enable() == false` makes `user_` null.
unfoldable pub enabled_user : UserManager → WString → Option ℕ
enabled_user users name = elim (find_user name users) [
  | none ↦ none
  | some a ↦ if (users.node a).is_enable then some a else none
]

module _ ⦃p : Platform⦄ where
  abbrev pub login_answer : ℕ → String → Login → Login
  login_answer code text s = record s { reply = create code (lit text) s.reply }

  unfoldable pub user_anonymous : ℕ → Login → Login
  user_anonymous me s = elim (find_user (lit "anonymous") s.users) [
    | none ↦ s
    | some a ↦
        let (t, room) = enter_user me a s in
        if room
        then login_answer 230 "User Logged In." (record t {
          client = record t.client { is_logged = true; is_anonymous = true; user = some a };
        })
        else login_answer 421 "Too many users logged in for this account."
            (record t { ret = false })
  ]

  -- The client points at the account that was found, and enters it if there is room.
  unfoldable pub enter_named : ℕ → Option ℕ → Login → Login
  enter_named me none s = login_answer 331 "Password required for this user." (set_user_of none s)
  enter_named me (some a) s =
      let (t, room) = enter_user me a (set_user_of (some a) s) in
      if room
      then login_answer 331 "Password required for this user." t
      else login_answer 550 "Internal Error-Can't add client." (record t { ret = false })

  unfoldable pub user_named : ℕ → WString → Login → Login
  user_named me name s = enter_named me (enabled_user s.users name) s

  unfoldable pub process_user_cmd : Bool → ℕ → WString → Login → Outcome Login
  process_user_cmd is_allow_anonymous me cmd_arg s = do
    t ← log_out me s
    ok (
        if is_empty cmd_arg
        then login_answer 501 "Invalid number of arguments." t
        else if is_allow_anonymous
            && (text_eq cmd_arg (lit "anonymous") || text_eq cmd_arg (lit "ftp"))
        then user_anonymous me t
        else user_named me cmd_arg t)

  -- A client that is refused leaves the user that it named, if any.
  unfoldable pub refuse : ℕ → ℕ → String → Login → Login
  refuse me code text s = elim s.client.user [
    | none ↦ login_answer code text s
    | some a ↦ login_answer code text (
        set_user_of none
          (record s { users = set_node a (delete_client me (s.users.node a)) s.users }))
  ]

  abbrev pub password_matches : WString → Login → Bool
  password_matches cmd_arg s = elim s.client.user [
    | none ↦ false
    | some a ↦ (s.users.node a).is_enable && text_eq cmd_arg (s.users.node a).user_password
  ]

  unfoldable pub process_password_cmd : ℕ → WString → Login → Login
  process_password_cmd me cmd_arg s =
      let logged = record s { client = record s.client { is_logged = true } } in
      if s.client.is_anonymous
      then login_answer 230 "User Logged In." logged
      else if is_empty cmd_arg
      then refuse me 501 "Invalid number of arguments." s
      else if password_matches cmd_arg s
      then login_answer 230 "User Logged In." logged
      else refuse me 530 "Please login with valid USER and PASS." s

  unfoldable pub process_rein_cmd : ℕ → Login → Login
  process_rein_cmd me s =
      let reset = record s.client {
        user = none;
        is_logged = false;
        binary_mode = true;
        is_anonymous = false;
        current_directory = lit "/";
        cur_data_mode = DataMode.mode_none;
        rename_from_path = [];
      } in
      let left : UserManager = elim s.client.user [
        | none ↦ s.users
        | some a ↦ set_node a (delete_client me (s.users.node a)) s.users
      ] in
      login_answer 200 "Reinitialize Successful." (record s { users = left; client = reset })

-- `end`, when the control connection is closed. The reference that the account gives up may be the last:
-- the node is then destroyed when the caller's own ends.
unfoldable pub end_client : ℕ → Login → Outcome Login
end_client me s =
    leave_user me (record s { client = record s.client { is_ctrl_canal_open = false } })
