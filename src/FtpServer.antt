-- ===== src/FtpServer.antt =====
-- jni/yftp/ftp_server.h and jni/yftp/ftp_server.cpp: the server, its configuration and the processing
-- of one piece of input.
pub mod Dispatch
pub mod Configuration
pub mod Access
pub mod Disconnect
pub mod Permissions
pub mod Jobs
pub mod Accounts
pub mod Limits
pub mod Listing
pub mod Errors
pub mod NewClients
pub mod StalePort
use yftpserver.Prelude.{
  ℕ, suc, ◌+◌, ◌%◌, Bool, true, false, not, ◌&&◌, ◌||◌, WString, Bytes, [], ◌∷◌, ◌++◌, List, Option,
  none, some, map, if◌then◌else◌, leb, ltb, ◌==◌, is_empty, update, lit, text_eq, count, Outcome,
  ok, fault, ◌>>=◌,
}
use yftpserver.Platform.{Platform}
use yftpserver.FileSystem.{FileSystem}
use yftpserver.Network.{Network}
use yftpserver.Reply.{Reply, new_reply, create, set_code_type}
use yftpserver.Commands.{Commands, TCommand}
use yftpserver.RequestParser.{Parsed, set_status, parse}
use yftpserver.UserNode.{UserNode}
use yftpserver.UserManager.{UserManager}
use yftpserver.ClientNode.{ClientNode, start_client, Turn, Job}
use yftpserver.ClientNode.Login.{Login, end_client}
use Dispatch.{Config, Handler, turn_handler, login_handler, dispatch}

unfoldable pub start_work : ⦃p : Platform⦄ → Reply → Reply
start_work = create 220 (lit "Welcome to yyt_hac's ftp server,current version is 1.2")

-- The server and the world that it runs in. Client nodes are shared objects: `clients` holds them by
-- address, and addresses from `next_client` on are free. Between two calls the `shared_ptr`s in the
-- lists of the accounts are all that keep a node alive; a node in no list has been destroyed, and what
-- the table says of it is read by nobody (`is_owned`).
pub record World (F : Type 0) : Type 0 where
  pub users : UserManager
  pub clients : ℕ → ClientNode
  pub next_client : ℕ
  pub is_allow_anonymous : Bool
  pub last_error : ℕ
  pub data_port_start : ℕ
  pub data_port_num : ℕ
  pub cur_end_port : Option ℕ
  pub system : F

-- The client nodes of the accounts, each account's list in its order.
unfoldable pub find_in_list : (ℕ → ClientNode) → ℕ → List ℕ → Option ℕ
find_in_list clients socket [] = none
find_in_list clients socket (c ∷ cs) =
    if (clients c).ctrl_socket == socket then some c else find_in_list clients socket cs

abbrev pub or_else {ℓ} : {A : Type ℓ} → Option A → Option A → Option A
or_else none b = b
or_else (some a) b = some a

unfoldable pub find_in_users : (ℕ → ClientNode) → ℕ → (ℕ → UserNode) → List ℕ → Option ℕ
find_in_users clients socket node [] = none
find_in_users clients socket node (a ∷ rest) =
    or_else (find_in_list clients socket (node a).ftp_client_list)
      (find_in_users clients socket node rest)

-- How many `shared_ptr`s the lists of these accounts hold on a client node.
unfoldable pub references : ℕ → (ℕ → UserNode) → List ℕ → ℕ
references me node [] = 0
references me node (a ∷ rest) = count me (node a).ftp_client_list + references me node rest

-- What `process_command` returns: the world, the reply to send, what was sent and started in the
-- meantime, and whether the connection goes on.
pub record Served (F : Type 0) : Type 0 where
  pub world : World F
  pub reply : Reply
  pub sent : List Bytes
  pub started : List Job
  pub ret : Bool

module _ {F : Type 0} where
  -- `user_manager_.find_client(ctrl_socket)`.
  unfoldable pub find_client : ℕ → World F → Option ℕ
  find_client socket w = find_in_users w.clients socket w.users.node w.users.ftp_user_list

  -- The client node is alive between two calls.
  unfoldable pub is_owned : ℕ → World F → Bool
  is_owned me w = not (references me w.users.node w.users.ftp_user_list == 0)

  abbrev pub set_client_at : ℕ → ClientNode → World F → World F
  set_client_at me c w = record w { clients = update w.clients me c }

  -- The client node of a socket: that of the account it has entered, or a new one.
  unfoldable pub client_of : ⦃net : Network F⦄ → ℕ → World F → ℕ × World F
  client_of ⦃net⦄ socket w =
      let fresh =
        start_client socket (net.local_ip socket w.system) (net.remote_ip socket w.system) in
      elim (find_client socket w) [
        | some me ↦ (me, w)
        | none ↦ (
          w.next_client,
          record (set_client_at w.next_client fresh w) { next_client = suc w.next_client },
        )
      ]

  -- The account that a client points at.
  abbrev pub user_of : ClientNode → World F → Option UserNode
  user_of c w = elim c.user [ none ↦ none | some a ↦ some (w.users.node a) ]

  -- A handler runs on the client node at `me`.
  unfoldable pub handle : Handler F → ℕ → Reply → World F → Outcome (Served F)
  handle (turn_handler h) me r w = do
    t ← h (user_of (w.clients me) w) (record {
      client = w.clients me;
      system = w.system;
      sent = [];
      started = [];
      reply = r;
      cur_end_port = w.cur_end_port;
      ret = true;
    })
    ok (record {
      world = record (set_client_at me t.client w) {
        system = t.system;
        cur_end_port = t.cur_end_port;
      };
      reply = t.reply;
      sent = t.sent;
      started = t.started;
      ret = t.ret;
    })
  handle (login_handler h) me r w = do
    s ← h me (record { users = w.users; client = w.clients me; reply = r; ret = true })
    ok (record {
      world = record (set_client_at me s.client w) { users = s.users };
      reply = s.reply;
      sent = [];
      started = [];
      ret = s.ret;
    })

  unfoldable pub end_work : ℕ → World F → Outcome (World F)
  end_work socket w = elim (find_client socket w) [
    | none ↦ ok w
    | some me ↦ do
      s ←
          end_client me
            (record { users = w.users; client = w.clients me; reply = new_reply; ret = true })
      ok (record (set_client_at me s.client w) { users = s.users })
  ]

  abbrev pub config_of : ℕ → World F → Config
  config_of fuel w = record {
    is_allow_anonymous = w.is_allow_anonymous;
    data_port_start = w.data_port_start;
    data_port_num = w.data_port_num;
    fuel = fuel;
  }

module _ {F : Type 0} ⦃p : Platform⦄ ⦃os : FileSystem F⦄ ⦃net : Network F⦄ where
  -- What is done with the outcome of `parse`.
  unfoldable pub execute : ℕ → ℕ → Parsed → Reply → World F → Outcome (Served F)
  execute fuel me (Parsed.complete cmd) r w = handle (dispatch (config_of fuel w) cmd.id cmd) me r w
  execute fuel me _ r w = ok (record { world = w; reply = r; sent = []; started = []; ret = true })

  -- `fuel` bounds the search of STOU for a free name.
  unfoldable pub process_command : ℕ → ℕ → Bytes → Reply → World F → Outcome (Served F)
  process_command fuel socket pdata ftpreply w =
      let (me, w') = client_of socket w in
      let c = w'.clients me in
      let r = set_code_type c.code_type (create 0 [] ftpreply) in
      parse pdata (set_status c.is_logged c.parser) r >>= λ (x, q, r').
      execute fuel me x r' (set_client_at me (record c { parser = q }) w')
