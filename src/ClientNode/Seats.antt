-- ===== src/ClientNode/Seats.antt =====
-- The client lists of the accounts: how many places USER, PASS and REIN take and give back.
use yftpserver.Prelude.{
  ℕ, suc, ◌-◌, ◌≡◌, Bool, true, false, ==_refl, WString, [], ◌∷◌, some, if◌then◌else◌, ◌==◌, count,
  count-append, Outcome, arith,
}
use yftpserver.Platform.{Platform}
use yftpserver.UserNode.{UserNode, add_client, delete_client}
use yftpserver.UserNode.Limits.{
  WithinLimit, count-erase_client, add_client-WithinLimit, delete_client-WithinLimit,
}
use yftpserver.UserManager.{UserManager, set_node}
use yftpserver.ClientNode.Invariance.{
  SeatInvariant, KeepsSeats, process_user_cmd-KeepsSeats, process_password_cmd-Kept,
  process_rein_cmd-Kept,
}
use yftpserver.ClientNode.Authentication.{user_named_room}
use yftpserver.ClientNode.Login.{
  Login, enabled_user, user_named, process_user_cmd, process_password_cmd, process_rein_cmd,
}

abbrev pub AllWithin : UserManager → Type 0
AllWithin m = (a : ℕ) → WithinLimit (m.node a)

pub set_node-AllWithin :
    (a : ℕ) (u : UserNode) (m : UserManager)
    → WithinLimit u
    → AllWithin m
    → AllWithin (set_node a u m)
set_node-AllWithin a u m w all b = at (a == b)
  where
    at : (t : Bool) → WithinLimit (if t then u else m.node b)
    at true = w
    at false = all b

pub AllWithin-SeatInvariant : SeatInvariant AllWithin
AllWithin-SeatInvariant = record {
  entered = λ me a m all.
      set_node-AllWithin a (add_client me (m.node a)).0 m
        (add_client-WithinLimit me (m.node a) (all a)) all;
  left = λ me a m all.
      set_node-AllWithin a (delete_client me (m.node a)) m
        (delete_client-WithinLimit me (m.node a) (all a)) all;
}

-- A handler that returns keeps every account within its limit; it neither throws nor loops, and
-- uses a null pointer only where the client is logged in and points at no account.
abbrev pub KeepsLimits : Login → Outcome Login → Type 0
KeepsLimits = KeepsSeats AllWithin

module _ ⦃p : Platform⦄ where
  -- If all accounts are within their limits of clients, USER keeps them so, and it returns, unless the
  -- client is logged in and points at no account, where it uses a null pointer.
  pub process_user_cmd-KeepsLimits :
      (anon : Bool) (me : ℕ) (cmd_arg : WString) (s : Login)
      → AllWithin s.users
      → KeepsLimits s (process_user_cmd anon me cmd_arg s)
  process_user_cmd-KeepsLimits = process_user_cmd-KeepsSeats AllWithin-SeatInvariant

  -- PASS keeps every account within its limit of clients, if all are.
  pub process_password_cmd-AllWithin :
      (me : ℕ) (cmd_arg : WString) (s : Login)
      → AllWithin s.users
      → AllWithin (process_password_cmd me cmd_arg s).users
  process_password_cmd-AllWithin = process_password_cmd-Kept AllWithin-SeatInvariant

  -- REIN keeps every account within its limit of clients, if all are.
  pub process_rein_cmd-AllWithin :
      (me : ℕ) (s : Login) → AllWithin s.users → AllWithin (process_rein_cmd me s).users
  process_rein_cmd-AllWithin = process_rein_cmd-Kept AllWithin-SeatInvariant

  -- A client that names an account takes a place in it each time, also where it has one: as long as
  -- there is room, one connection can fill the account. REIN gives back one place.
  pub user_named_takes_place :
      (me a : ℕ) (name : WString) (s : Login)
      → enabled_user s.users name ≡ some a
      → (add_client me (s.users.node a)).1 ≡ true
      → (count me ((user_named me name s).users.node a).ftp_client_list
          ≡ suc (count me (s.users.node a).ftp_client_list))
        × (count me ((process_rein_cmd me (user_named me name s)).users.node a).ftp_client_list
            ≡ count me (s.users.node a).ftp_client_list)
  user_named_takes_place me a name s at room =
      let taken : count me ((user_named me name s).users.node a).ftp_client_list
          ≡ suc (count me (s.users.node a).ftp_client_list) =
        rw (user_named_room me a name s at room) (
          unfold add_client in
          ground (
            arith,
            count-append me (s.users.node a).ftp_client_list (me ∷ []),
            ==_refl me,
            ==_refl a,
          )) in
      let left : count me
            ((process_rein_cmd me (user_named me name s)).users.node a).ftp_client_list
          ≡ count me ((user_named me name s).users.node a).ftp_client_list - 1 =
        rw (user_named_room me a name s at room) (
          unfold process_rein_cmd in
          ground (
            arith,
            count-erase_client me (add_client me (s.users.node a)).0.ftp_client_list,
            ==_refl a,
          )) in
      (taken, omega arith)
