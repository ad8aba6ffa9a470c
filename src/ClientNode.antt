-- ===== src/ClientNode.antt =====
-- jni/yftp/client_node.h: the state of one control connection. Each handler of jni/yftp/client_node.cpp
-- is a function on a `Turn`, the state of the world while one command is processed.
pub mod Login
pub mod Authentication
pub mod Invariance
pub mod Seats
pub mod Directories
pub mod Renaming
pub mod PassivePorts
pub mod PassiveMode
pub mod Reconnecting
pub mod Scan
pub mod DataPort
pub mod PortRoundTrip
pub mod Files
pub mod Transfer
pub mod Secure
pub mod Site
pub mod Threads
pub mod Launching
pub mod Downloads
pub mod Uploads
use yftpserver.Prelude.{
  ℕ, Bool, true, false, String, WString, Bytes, [], ◌∷◌, ◌++◌, List, Option, none, some, lit,
  Outcome, ok, ℤ, pos, is_empty, if◌then◌else◌,
}
use yftpserver.Platform.{Platform}
use yftpserver.Reply.{Reply, CodeType, create, new_reply, create_as}
use yftpserver.Commands.{TCommand}
use yftpserver.RequestParser.{RequestParser, new_parser}

-- `ftp_data_mode` and `ftp_client_status`.
pub data DataMode : Type 0 where
  mode_none mode_pasv mode_port : DataMode

pub data ClientStatus : Type 0 where
  status_waiting status_listing status_uploading status_downloading : ClientStatus

abbrev pub is_waiting : ClientStatus → Bool
is_waiting ClientStatus.status_waiting = true
is_waiting _ = false

abbrev pub is_none : DataMode → Bool
is_none DataMode.mode_none = true
is_none _ = false

-- The members. `ctrl_socket` is the native handle of the control socket; the two `has_` fields say
-- that the shared pointer is not null.
pub record ClientNode : Type 0 where
  pub parser : RequestParser
  pub ctrl_socket : ℕ
  pub has_data_socket : Bool
  pub has_data_acceptor : Bool
  pub has_ssl_socket : Bool
  pub data_use_ssl : Bool
  pub server_ip : ℕ
  pub client_ip : ℕ
  pub binary_mode : Bool
  pub code_type : CodeType
  pub restart_at : ℤ
  pub transfer_path : WString
  pub user : Option ℕ
  pub is_logged : Bool
  pub is_anonymous : Bool
  pub cur_data_mode : DataMode
  pub cur_status : ClientStatus
  pub data_ip : ℕ
  pub data_port : ℕ
  pub rename_from_path : WString
  pub current_directory : WString
  pub is_ctrl_canal_open : Bool

-- The constructor and `start`, on a socket with its two addresses.
unfoldable pub start_client : ℕ → ℕ → ℕ → ClientNode
start_client socket server_ip client_ip = record {
  parser = new_parser;
  ctrl_socket = socket;
  has_data_socket = false;
  has_data_acceptor = false;
  has_ssl_socket = false;
  data_use_ssl = false;
  server_ip = server_ip;
  client_ip = client_ip;
  binary_mode = true;
  code_type = CodeType.utf8;
  restart_at = pos 0;
  transfer_path = [];
  user = none;
  is_logged = false;
  is_anonymous = false;
  cur_data_mode = DataMode.mode_none;
  cur_status = ClientStatus.status_waiting;
  data_ip = 0;
  data_port = 0;
  rename_from_path = [];
  current_directory = lit "/";
  is_ctrl_canal_open = true;
}

-- A thread that a handler starts: `list_thread`, `store_thread` or `retrieve_thread`.
pub data Job : Type 0 where
  list_job : TCommand → Job
  store_job retrieve_job : Job

-- The state while a command is processed. `sent` holds what went out on the control connection in
-- the meantime, `ret` the result of the handler, and `cur_end_port` the static variable of
-- `process_pasv_cmd`, which has no value before its first use.
pub record Turn (F : Type 0) : Type 0 where
  pub client : ClientNode
  pub system : F
  pub sent : List Bytes
  pub started : List Job
  pub reply : Reply
  pub cur_end_port : Option ℕ
  pub ret : Bool

module _ {F : Type 0} ⦃p : Platform⦄ where
  -- `ftpreply.create(code, text)`.
  abbrev pub answer_text : ℕ → WString → Turn F → Turn F
  answer_text code text t = record t { reply = create code text t.reply }

  abbrev pub answer : ℕ → String → Turn F → Turn F
  answer code text = answer_text code (lit text)

  -- `send_reply(ftpreply)`: an empty text is not sent.
  abbrev pub send_bytes : Bytes → Turn F → Turn F
  send_bytes bytes t = record t { sent = if is_empty bytes then t.sent else t.sent ++ bytes ∷ [] }

  abbrev pub send_reply : Turn F → Turn F
  send_reply t = send_bytes t.reply.content t

  -- `send_reply(status_code, reply_string)`.
  abbrev pub send_status : ℕ → String → Turn F → Turn F
  send_status code text t =
      send_bytes (create_as code (lit text) t.client.code_type new_reply).content t

abbrev pub set_client : {F : Type 0} → ClientNode → Turn F → Turn F
set_client c t = record t { client = c }
