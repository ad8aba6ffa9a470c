-- ===== src/ClientNode/Authentication.antt =====
-- Who is logged in after USER, PASS and REIN.
use yftpserver.Prelude.{
  ℕ, ◌≡◌, ◌≢◌, refl, ◌∙◌, Bool, true, false, not, ◌&&◌, ◌||◌, WString, [], ◌∷◌, List, none, some,
  is_empty, lit, text_eq, update, ok, arith,
}
use yftpserver.Platform.{Platform}
use yftpserver.UserNode.{UserNode, add_client, delete_client}
use yftpserver.UserManager.{UserManager, find_in, find_user, set_node}
use yftpserver.ClientNode.Login.{
  Login, leave_user, enter_user, set_user_of, log_out, enabled_user, login_answer, enter_named,
  user_named, process_user_cmd, refuse, password_matches, process_password_cmd,
}

pub find_in-update :
    (node : ℕ → UserNode) (a : ℕ) (u : UserNode) (name : WString) (l : List ℕ)
    → u.user_name ≡ (node a).user_name
    → find_in (update node a u) name l ≡ find_in node name l
unfolding find_in
find_in-update node a u name [] kept = refl
find_in-update node a u name (b ∷ rest) kept =
    ground (arith, find_in-update node a u name rest kept)

-- Changes of another node do not matter to the search for an account.
enabled_user-set_node :
    (b : ℕ) (u : UserNode) (name : WString) (m : UserManager) (a : ℕ)
    → u.user_name ≡ (m.node b).user_name
    → a ≢ b
    → enabled_user m name ≡ some a
    → enabled_user (set_node b u m) name ≡ some a
unfolding enabled_user find_user
enabled_user-set_node b u name m a kept apart e =
    ground (arith, find_in-update m.node b u name m.ftp_user_list kept)

module _ ⦃p : Platform⦄ where
  -- PASS logs a client in exactly when the client was logged in before, has once logged in as
  -- anonymous, or names an enabled account and gives its password, which is not empty.
  pub process_password_cmd-is_logged :
      (me : ℕ) (cmd_arg : WString) (s : Login)
      → (process_password_cmd me cmd_arg s).client.is_logged ≡ (
          s.client.is_logged
          || (s.client.is_anonymous || (not (is_empty cmd_arg) && password_matches cmd_arg s)))
  unfolding process_password_cmd refuse
  process_password_cmd-is_logged me cmd_arg s = ground arith

  -- Once the flag for anonymous login is set, any password, even none, logs in as the user that the
  -- client points at, whoever that is.
  pub process_password_cmd_anonymous :
      (me : ℕ) (cmd_arg : WString) (s : Login)
      → s.client.is_anonymous ≡ true
      → ((process_password_cmd me cmd_arg s).client.is_logged ≡ true)
        × ((process_password_cmd me cmd_arg s).client.user ≡ s.client.user)
  unfolding process_password_cmd
  process_password_cmd_anonymous me cmd_arg s h = ground arith

  pub log_out_returns :
      (me b : ℕ) (s : Login)
      → s.client.is_logged ≡ true
      → s.client.user ≡ some b
      → log_out me s
        ≡ ok (record s {
          users = set_node b (delete_client me (s.users.node b)) s.users;
          client = record s.client { is_logged = false; user = none };
        })
  unfolding log_out leave_user
  log_out_returns me b s logged at = rw (logged, at)

  enter_user_room :
      (me a : ℕ) (s : Login)
      → (add_client me (s.users.node a)).1 ≡ true
      → enter_user me a s
        ≡ (record s { users = set_node a (add_client me (s.users.node a)).0 s.users }, true)
  unfolding enter_user
  enter_user_room me a s room = rw room

  pub user_named_room :
      (me a : ℕ) (name : WString) (s : Login)
      → enabled_user s.users name ≡ some a
      → (add_client me (s.users.node a)).1 ≡ true
      → user_named me name s
        ≡ login_answer 331 "Password required for this user." (record s {
          users = set_node a (add_client me (s.users.node a)).0 s.users;
          client = record s.client { user = some a };
        })
  unfolding user_named enter_named
  user_named_room me a name s at room = rw (at, enter_user_room me a (set_user_of (some a) s) room)

  -- A name for which USER asks for a password.
  abbrev pub IsNamed : Bool → WString → Type 0
  IsNamed is_allow_anonymous name =
      (is_empty name ≡ false)
      × ((is_allow_anonymous && (text_eq name (lit "anonymous") || text_eq name (lit "ftp")))
          ≡ false)

  pub process_user_cmd_named :
      (anon : Bool) (me : ℕ) (name : WString) (s t : Login)
      → IsNamed anon name
      → log_out me s ≡ ok t
      → process_user_cmd anon me name s ≡ ok (user_named me name t)
  unfolding process_user_cmd
  process_user_cmd_named anon me name s t named out = rw out (ground arith)

  -- A client that has logged in as anonymous, and then names another enabled account with room, is
  -- logged in to that account by any password.
  pub anonymous_bypass :
      (anon : Bool) (me a b : ℕ) (name password : WString) (s : Login)
      → s.client.is_logged ≡ true
      → s.client.is_anonymous ≡ true
      → s.client.user ≡ some b
      → a ≢ b
      → IsNamed anon name
      → enabled_user s.users name ≡ some a
      → (add_client me (s.users.node a)).1 ≡ true
      → (t : Login) × (process_user_cmd anon me name s ≡ ok t)
        × ((process_password_cmd me password t).client.is_logged ≡ true)
        × ((process_password_cmd me password t).client.user ≡ some a)
  anonymous_bypass anon me a b name password s logged flag at apart named known room =
      let out = record s {
        users = set_node b (delete_client me (s.users.node b)) s.users;
        client = record s.client { is_logged = false; user = none };
      } in
      let same : (out.users.node a) ≡ s.users.node a = ground arith in
      let known' : enabled_user out.users name ≡ some a =
        enabled_user-set_node b (delete_client me (s.users.node b)) name s.users a refl apart
          known in
      let after = user_named me name out in
      let entered = user_named_room me a name out known' (rw same room) in
      let passed = process_password_cmd_anonymous me password after (rw entered flag) in
      (
        after,
        process_user_cmd_named anon me name s out named (log_out_returns me b s logged at),
        passed.0,
        passed.1 ∙ rw entered,
      )
