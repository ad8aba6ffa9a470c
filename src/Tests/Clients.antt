-- ===== src/Tests/Clients.antt =====
-- Handlers of a client node on concrete clients.
use yftpserver.Prelude.{◌≡◌, refl, true, false, ◌∷◌, ◌++◌, some, text_eq, lit, ok, arith}
use yftpserver.UserNode.{add_client}
use yftpserver.UserManager.{find_in, find_user}
use yftpserver.ClientNode.{ClientNode, start_client}
use yftpserver.ClientNode.Login.{Login, enabled_user, process_user_cmd, process_password_cmd}
use yftpserver.ClientNode.Authentication.{process_password_cmd-is_logged, anonymous_bypass}
use yftpserver.ClientNode.Seats.{AllWithin}
use yftpserver.ClientNode.Files.{client_path}
use yftpserver.ClientNode.DataPort.{try_ports}
use yftpserver.ClientNode.PassivePorts.{IsInRange, try_ports-IsInRange}
use yftpserver.Common.{build_path, joined_path}
use yftpserver.Tests.{
  ascii, disk, sockets, ann, bob, nobody, home, account_of, two_users, named_client, logged_client,
  anonymous_client, login_of, turn_of,
}

all_within : AllWithin two_users
all_within a = ground arith

room_of_ann : (add_client 3 (two_users.node 0)).1 ≡ true
unfolding add_client
room_of_ann = refl

ann_found : enabled_user two_users ann ≡ some 0
unfolding enabled_user find_user find_in text_eq
ann_found = refl

process_password_cmd-is_logged_example :
    (process_password_cmd 3 ann (login_of named_client)).client.is_logged ≡ false
unfolding text_eq start_client
process_password_cmd-is_logged_example =
    process_password_cmd-is_logged 3 ann (login_of named_client)

anonymous_bypass_example :
    (t : Login) × (process_user_cmd false 3 ann (login_of anonymous_client) ≡ ok t)
    × ((process_password_cmd 3 nobody t).client.is_logged ≡ true)
    × ((process_password_cmd 3 nobody t).client.user ≡ some 0)
anonymous_bypass_example =
    anonymous_bypass false 3 0 1 ann nobody (login_of anonymous_client) refl refl refl
      (λ e. ground arith) (refl, refl) ann_found room_of_ann

bound_at_second_try : (try_ports 10 2000 10 2010 (turn_of logged_client)).1 ≡ true
unfolding try_ports
bound_at_second_try = refl

try_ports-IsInRange_example :
    IsInRange 2000 10 (try_ports 10 2000 10 2010 (turn_of logged_client)).0.client.data_port
try_ports-IsInRange_example =
    try_ports-IsInRange 10 2000 10 2010 (turn_of logged_client) (omega arith)
      (omega arith, omega arith) bound_at_second_try

abbrev remembering : ClientNode
remembering = record logged_client { rename_from_path = home ++ ann }

path_of_bob :
    client_path (some (account_of bob)) false (b'/' ∷ bob) (turn_of remembering)
    ≡ ok (home ++ b'/' ∷ b'/' ∷ bob)
unfolding client_path build_path joined_path start_client lit
path_of_bob = refl
