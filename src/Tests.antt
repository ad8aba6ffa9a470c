-- ===== src/Tests.antt =====
-- Sample data for the tests: a platform, files and sockets over a counter, accounts, clients and a
-- server.
pub mod Parser
pub mod Accounts
pub mod Clients
pub mod DataModes
pub mod Server
pub mod Transfers
pub mod Service
pub mod Flows
pub mod Whole
use yftpserver.Prelude.{
  ℕ, suc, Bool, true, false, WString, Bytes, [], ◌∷◌, ◌++◌, ltb, Option, none, some, is_empty, lit,
  pos, update,
}
use yftpserver.Platform.{Platform, ascii_only}
use yftpserver.FileSystem.{FileSystem, FileStatus}
use yftpserver.Network.{Network, end_of_stream}
use yftpserver.Reply.{Reply, new_reply}
use yftpserver.RequestParser.{RequestParser, new_parser}
use yftpserver.UserNode.{UserNode, new_user_node}
use yftpserver.UserManager.{UserManager}
use yftpserver.ClientNode.{ClientNode, start_client, ClientStatus, Turn}
use yftpserver.ClientNode.Login.{Login}
use yftpserver.FtpServer.{World}

instance abbrev pub ascii : Platform
ascii = ascii_only false

-- Every path names a directory; the state counts the changes.
instance abbrev pub disk : FileSystem ℕ
disk = record {
  initial_path = λ n. b'/' ∷ [];
  set_current_path = λ path n. some n;
  join = λ a b. a ++ b'/' ∷ b;
  generic_wstring = λ path. path;
  canonical = λ n path. some path;
  status =
      λ n path. some (record { is_directory = true; is_regular_file = false; permissions = 0 });
  file_size = λ n path. some 0;
  last_write_time = λ n path. some 0;
  remove = λ path n. (suc n, true);
  rename = λ old_path new_path n. (suc n, true);
  create_directory = λ path n. (suc n, true);
  draw = λ n. (n, suc n);
  entries = λ n path. [];
  now = λ n. 0;
  read_file = λ n path. none;
  open_out = λ append path n. (suc n, true);
  write_out = λ path bytes n. (suc n, true);
  close_out = λ path s. s;
}

-- A port can be bound from the second try on.
instance abbrev pub sockets : Network ℕ
sockets = record {
  local_ip = λ socket n. 2130706433;
  remote_ip = λ socket n. 2130706433;
  ctrl_is_ssl = λ n. false;
  ctrl_handshake = λ n. suc n;
  open_acceptor = λ n. (n, true);
  bind_listen = λ ip port n. (suc n, ltb 0 n);
  local_port = λ n. 2000;
  accept = λ n. (n, true);
  close_acceptor = λ n. n;
  open_data = λ n. (n, true);
  connect = λ ip port n. (n, true);
  data_handshake = λ n. (n, true);
  shut_down_data = λ n. n;
  close_data = λ n. n;
  start_thread = λ n. (n, true);
  ctrl_write = λ n. true;
  data_read = λ size n. (n, end_of_stream);
  data_write = λ bytes n. (n, true);
}

abbrev pub ann : WString
ann = b'a' ∷ b'n' ∷ b'n' ∷ []

abbrev pub bob : WString
bob = b'b' ∷ b'o' ∷ b'b' ∷ []

abbrev pub nobody : WString
nobody = b'n' ∷ b'o' ∷ []

-- `/f`, with and without the slash behind it.
abbrev pub home : WString
home = b'/' ∷ b'f' ∷ b'/' ∷ []

abbrev pub account_of : WString → UserNode
account_of name = record new_user_node {
  user_name = name;
  user_password = name;
  home_directory = home;
}

-- ann at address 0, and bob, who may read only, at 1.
abbrev pub two_users : UserManager
two_users = record {
  node = update (update (λ a. new_user_node) 0 (account_of ann)) 1 (account_of bob);
  ftp_user_list = 0 ∷ 1 ∷ [];
  next = 2;
  last_error = 0;
}

abbrev pub fresh_client : ClientNode
fresh_client = start_client 7 2130706433 2130706433

-- A client that has named bob.
abbrev pub named_client : ClientNode
named_client = record fresh_client { user = some 1 }

abbrev pub logged_client : ClientNode
logged_client = record named_client { is_logged = true }

abbrev pub anonymous_client : ClientNode
anonymous_client = record logged_client { is_anonymous = true }

abbrev pub login_of : ClientNode → Login
login_of c = record { users = two_users; client = c; reply = new_reply; ret = true }

abbrev pub turn_of : ClientNode → Turn ℕ
turn_of c = record {
  client = c;
  system = 0;
  sent = [];
  started = [];
  reply = new_reply;
  cur_end_port = none;
  ret = true;
}

abbrev pub busy_client : ClientNode
busy_client = record logged_client { cur_status = ClientStatus.status_downloading }

-- The client at address 3, which bob's account lists.
abbrev pub world_of : ClientNode → World ℕ
world_of c = record {
  users = record two_users {
    node = update two_users.node 1 (record (account_of bob) { ftp_client_list = 3 ∷ [] });
  };
  clients = λ a. c;
  next_client = 4;
  is_allow_anonymous = true;
  last_error = 0;
  data_port_start = 2000;
  data_port_num = 10;
  cur_end_port = none;
  system = 0;
}
