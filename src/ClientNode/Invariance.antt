-- ===== src/ClientNode/Invariance.antt =====
-- What USER, PASS, REIN and the end of a connection do to the accounts: a client enters an account or
-- leaves one, and nothing else. So they keep all that entering and leaving keep.
use yftpserver.Prelude.{
  ℕ, ◌≡◌, refl, inl, inr, Bool, true, false, ◌&&◌, ◌||◌, String, WString, Option, Option-cases,
  none, some, if◌then◌else◌, Bool-cases, is_empty, lit, text_eq, Outcome, ok, fault, thrown,
  running, ◌>>=◌, Returns,
}
use yftpserver.Platform.{Platform}
use yftpserver.UserNode.{add_client, delete_client}
use yftpserver.UserManager.{UserManager, set_node, find_user}
use yftpserver.ClientNode.Login.{
  Login, leave_user, enter_user, set_user_of, log_out, enabled_user, login_answer, user_anonymous,
  enter_named, user_named, process_user_cmd, refuse, password_matches, process_password_cmd,
  process_rein_cmd, end_client,
}

-- A predicate on the accounts that a client may enter and leave under.
pub record SeatInvariant (P : UserManager → Type 0) : Type 0 where
  pub entered : (me a : ℕ) (m : UserManager) → P m → P (set_node a (add_client me (m.node a)).0 m)
  pub left : (me a : ℕ) (m : UserManager) → P m → P (set_node a (delete_client me (m.node a)) m)

-- A handler that returns keeps the predicate; it neither throws nor loops, and uses a null pointer only
-- where the client is logged in and points at no account.
abbrev pub KeepsSeats : (P : UserManager → Type 0) → Login → Outcome Login → Type 0
KeepsSeats P s (ok t) = P t.users
KeepsSeats P s fault = (s.client.is_logged ≡ true) × (s.client.user ≡ none)
KeepsSeats P s thrown = ⊥
KeepsSeats P s running = ⊥

module _ {P : UserManager → Type 0} (inv : SeatInvariant P) where
  enter_user-Kept : (me a : ℕ) (s : Login) → P s.users → P (enter_user me a s).0.users
  unfolding enter_user
  enter_user-Kept me a s h = inv.entered me a s.users h

  leave_user-Kept :
      (me a : ℕ) (m : UserManager) → P m → P (set_node a (delete_client me (m.node a)) m)
  leave_user-Kept = inv.left

  -- The end of a connection.
  pub end_client-Kept :
      (me : ℕ) (s : Login) → P s.users → Returns (λ t. P t.users) (end_client me s)
  unfolding end_client leave_user
  end_client-Kept me s h = elim (Option-cases s.client.user) [
    | inl gone ↦ rw gone tt
    | inr (a, at) ↦ rw at (inv.left me a s.users h)
  ]

module _ {P : UserManager → Type 0} (inv : SeatInvariant P) ⦃p : Platform⦄ where
  user_anonymous-Kept : (me : ℕ) (s : Login) → P s.users → P (user_anonymous me s).users
  unfolding user_anonymous
  user_anonymous-Kept me s all = elim (Option-cases (find_user (lit "anonymous") s.users)) [
    | inl e ↦ rw (e, user_anonymous) all
    | inr (a, e) ↦
        let h = enter_user-Kept inv me a s all in
        elim (Bool-cases (enter_user me a s).1) [
          | inl room ↦ rw (e, user_anonymous, room) h
          | inr full ↦ rw (e, user_anonymous, full) h
        ]
  ]

  enter_named-Kept : (me : ℕ) (o : Option ℕ) (s : Login) → P s.users → P (enter_named me o s).users
  unfolding enter_named
  enter_named-Kept me none s all = all
  enter_named-Kept me (some a) s all =
      let h = enter_user-Kept inv me a (set_user_of (some a) s) all in
      elim (Bool-cases (enter_user me a (set_user_of (some a) s)).1) [
        | inl room ↦ rw room h
        | inr full ↦ rw full h
      ]

  log_out-KeepsSeats : (me : ℕ) (s : Login) → P s.users → KeepsSeats P s (log_out me s)
  unfolding log_out leave_user
  log_out-KeepsSeats me s all = elim (Bool-cases s.client.is_logged) [
    | inr out ↦ rw out all
    | inl logged ↦ elim (Option-cases s.client.user) [
      | inl e ↦ rw (logged, e) (refl, refl)
      | inr (a, e) ↦ rw (logged, e) (leave_user-Kept inv me a s.users all)
    ]
  ]

  pub process_user_cmd-KeepsSeats :
      (anon : Bool) (me : ℕ) (cmd_arg : WString) (s : Login)
      → P s.users
      → KeepsSeats P s (process_user_cmd anon me cmd_arg s)
  unfolding process_user_cmd
  process_user_cmd-KeepsSeats anon me cmd_arg s all =
      behind (log_out me s) (log_out-KeepsSeats me s all)
    where
      named : (t : Login) → P t.users → P (user_named me cmd_arg t).users
      named t h = unfold user_named in enter_named-Kept me (enabled_user t.users cmd_arg) t h

      chosen :
          (empty anonymous : Bool) (t : Login)
          → P t.users
          → P
              (if empty
                then login_answer 501 "Invalid number of arguments." t
                else if anonymous
                then user_anonymous me t
                else user_named me cmd_arg t).users
      chosen true _ t h = h
      chosen false true t h = user_anonymous-Kept me t h
      chosen false false t h = named t h

      behind :
          (x : Outcome Login)
          → KeepsSeats P s x
          → KeepsSeats P s (
              x >>= λ t. ok (
                if is_empty cmd_arg
                then login_answer 501 "Invalid number of arguments." t
                else if anon && (text_eq cmd_arg (lit "anonymous") || text_eq cmd_arg (lit "ftp"))
                then user_anonymous me t
                else user_named me cmd_arg t))
      behind (ok t) h =
          chosen (is_empty cmd_arg)
            (anon && (text_eq cmd_arg (lit "anonymous") || text_eq cmd_arg (lit "ftp"))) t h
      behind fault h = h
      behind thrown h = h
      behind running h = h

  refuse-Kept :
      (me code : ℕ) (text : String) (s : Login) → P s.users → P (refuse me code text s).users
  unfolding refuse
  refuse-Kept me code text s all = elim (Option-cases s.client.user) [
    | inl e ↦ rw (e, refuse) all
    | inr (a, e) ↦ rw (e, refuse) (leave_user-Kept inv me a s.users all)
  ]

  pub process_password_cmd-Kept :
      (me : ℕ) (cmd_arg : WString) (s : Login)
      → P s.users
      → P (process_password_cmd me cmd_arg s).users
  unfolding process_password_cmd
  process_password_cmd-Kept me cmd_arg s all =
      chosen s.client.is_anonymous (is_empty cmd_arg) (password_matches cmd_arg s)
    where
      chosen :
          (anonymous empty right : Bool)
          → P
              (if anonymous
                then login_answer 230 "User Logged In."
                    (record s { client = record s.client { is_logged = true } })
                else if empty
                then refuse me 501 "Invalid number of arguments." s
                else if right
                then login_answer 230 "User Logged In."
                    (record s { client = record s.client { is_logged = true } })
                else refuse me 530 "Please login with valid USER and PASS." s).users
      chosen true _ _ = all
      chosen false true _ = refuse-Kept me 501 _ s all
      chosen false false true = all
      chosen false false false = refuse-Kept me 530 _ s all

  pub process_rein_cmd-Kept : (me : ℕ) (s : Login) → P s.users → P (process_rein_cmd me s).users
  unfolding process_rein_cmd
  process_rein_cmd-Kept me s all = elim (Option-cases s.client.user) [
    | inl e ↦ rw (e, process_rein_cmd) all
    | inr (a, e) ↦ rw (e, process_rein_cmd) (leave_user-Kept inv me a s.users all)
  ]
