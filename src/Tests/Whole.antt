-- ===== src/Tests/Whole.antt =====
-- A whole download and a whole upload, over a network that keeps what it is given.
use yftpserver.Prelude.{
  ◌≡◌, refl, true, false, WString, Bytes, [], ◌∷◌, ◌++◌, none, some, lit, text_eq, ok, pos, arith,
}
use yftpserver.FileSystem.{FileSystem, InFile}
use yftpserver.Network.{Network, end_of_stream}
use yftpserver.Common.{build_path, joined_path, canonical_path, get_file_status}
use yftpserver.ClientNode.{ClientNode, ClientStatus, DataMode, Turn, Job, start_client, send_status}
use yftpserver.ClientNode.DataPort.{open_data_connection, open_port, secure_data}
use yftpserver.ClientNode.Files.{client_path}
use yftpserver.ClientNode.Transfer.{connected, process_retr_cmd}
use yftpserver.ClientNode.Threads.Delivery.{Delivers}
use yftpserver.ClientNode.Threads.Retrieve.{retrieve_thread}
use yftpserver.ClientNode.Launching.{as_thread}
use yftpserver.ClientNode.Downloads.{delivered_whole}
use yftpserver.Reply.{new_reply}
use yftpserver.UserNode.{UserNode, has_privilege}
use yftpserver.Commands.{Commands, TCommand}
use yftpserver.ClientNode.Transfer.{process_stor_cmd}
use yftpserver.ClientNode.Threads.Store.{block, closed, contents, store_thread}
use yftpserver.ClientNode.Uploads.{stored_whole}
use yftpserver.Tests.Transfers.{Store, one_file, one_block, transfer, one_file-KeepsFiles}
use yftpserver.Tests.{ascii, ann, bob, home, account_of, logged_client}

-- A disk on which every path names the same file. The state is what the peer has been sent.
abbrev two_letters : InFile
two_letters = record { content = b'a' ∷ b'b' ∷ []; broken = false }

abbrev letters : FileSystem Bytes
letters = record {
  initial_path = λ s. b'/' ∷ [];
  set_current_path = λ path s. some s;
  join = λ a b. a ++ b;
  generic_wstring = λ path. path;
  canonical = λ s path. some path;
  status =
      λ s path. some (record { is_directory = false; is_regular_file = true; permissions = 0 });
  file_size = λ s path. some 2;
  last_write_time = λ s path. none;
  remove = λ path s. (s, false);
  rename = λ old_path new_path s. (s, false);
  create_directory = λ path s. (s, false);
  draw = λ s. (0, s);
  entries = λ s path. [];
  now = λ s. 0;
  read_file = λ s path. some two_letters;
  open_out = λ append path s. (s, false);
  write_out = λ path bytes s. (s, false);
  close_out = λ path s. s;
}

abbrev wire : Network Bytes
wire = record {
  local_ip = λ socket s. 0;
  remote_ip = λ socket s. 0;
  ctrl_is_ssl = λ s. false;
  ctrl_handshake = λ s. s;
  open_acceptor = λ s. (s, true);
  bind_listen = λ ip port s. (s, true);
  local_port = λ s. 0;
  accept = λ s. (s, true);
  close_acceptor = λ s. s;
  open_data = λ s. (s, true);
  connect = λ ip port s. (s, true);
  data_handshake = λ s. (s, true);
  shut_down_data = λ s. s;
  close_data = λ s. s;
  start_thread = λ s. (s, true);
  ctrl_write = λ s. true;
  data_read = λ size s. (s, end_of_stream);
  data_write = λ bytes s. (s ++ bytes, true);
}

abbrev wire_delivers : Delivers Bytes ⦃net = wire⦄
wire_delivers = record {
  log = λ s. s;
  taken = λ bytes s. refl;
  logged = λ bytes s. refl;
  shut_apart = λ s. refl;
  close_apart = λ s. refl;
}

-- A client that has sent PORT, and REST with 1.
abbrev ready_client : ClientNode
ready_client = record logged_client { cur_data_mode = DataMode.mode_port; restart_at = pos 1 }

abbrev asked : Turn Bytes
asked = record {
  client = ready_client;
  system = [];
  sent = [];
  started = [];
  reply = new_reply;
  cur_end_port = none;
  ret = true;
}

delivered_whole_example :
    (s : Turn Bytes) × (process_retr_cmd ⦃os = letters⦄ ⦃net = wire⦄
        (some (account_of bob))
        bob
        asked
      ≡ ok s)
    × (s.started ≡ (connected ⦃net = wire⦄ asked).0.started ++ Job.retrieve_job ∷ [])
    × (s.client.cur_status ≡ ClientStatus.status_downloading)
    × (e : Turn Bytes) × (retrieve_thread ⦃os = letters⦄ ⦃net = wire⦄ 2 (as_thread s) ≡ ok e)
    × (e.system ≡ s.system ++ b'b' ∷ [])
    × (e.sent ≡ (send_status 226 "Transfer complete." (as_thread s)).sent)
    × (e.client.cur_status ≡ ClientStatus.status_waiting)
    × (e.client.cur_data_mode ≡ DataMode.mode_none)
unfolding start_client connected open_data_connection open_port secure_data client_path build_path
    joined_path canonical_path lit text_eq get_file_status has_privilege
delivered_whole_example =
    delivered_whole ⦃os = letters⦄ ⦃net = wire⦄ wire_delivers 2 (account_of bob) bob
      (build_path ⦃os = letters⦄ [] home (b'/' ∷ []) bob true) two_letters asked refl refl refl refl
      refl refl refl refl refl refl (omega arith)

-- ann, with every privilege.
abbrev writer : UserNode
writer = record (account_of ann) { user_privilege = 255 }

abbrev stor_bob : TCommand
stor_bob = record { id = Commands.stor; args = bob; has_args = true; valid_before_logon = false }

-- A client that goes on behind the first byte.
abbrev resuming : Turn Store
resuming = record transfer { client = ready_client }

abbrev bobs_path : WString
bobs_path = build_path ⦃os = one_file⦄ resuming.system home (b'/' ∷ []) bob false

stored_whole_example :
    (s : Turn Store) × (process_stor_cmd ⦃os = one_file⦄ ⦃net = one_block⦄
        (some writer)
        1
        stor_bob
        resuming
      ≡ ok s)
    × (s.started ≡ (connected ⦃net = one_block⦄ resuming).0.started ++ Job.store_job ∷ [])
    × (s.client.cur_status ≡ ClientStatus.status_uploading)
    × (e : Turn Store) × (store_thread ⦃os = one_file⦄ ⦃net = one_block⦄ 5 (as_thread s) ≡ ok e)
    × (contents ⦃os = one_file⦄ bobs_path e.system ≡ (b'a' ∷ b'b' ∷ []) ++ b'x' ∷ b'y' ∷ [])
    × (e.sent ≡ (send_status 226 "Transfer complete." (as_thread s)).sent)
    × (e.client.cur_status ≡ ClientStatus.status_waiting)
    × (e.client.cur_data_mode ≡ DataMode.mode_none)
unfolding start_client connected open_data_connection open_port secure_data build_path joined_path
    canonical_path lit text_eq get_file_status has_privilege
stored_whole_example =
    stored_whole ⦃os = one_file⦄ ⦃net = one_block⦄ ⦃k = one_file-KeepsFiles⦄ 1 5 writer stor_bob
      resuming bobs_path (pos 1) (b'a' ∷ b'b' ∷ [], true) ((b'x' ∷ b'y' ∷ []) ∷ [])
      (b'a' ∷ b'b' ∷ b'x' ∷ b'y' ∷ [], false) refl refl refl refl refl refl refl refl refl refl refl
      (block (b'x' ∷ b'y' ∷ []) (b'a' ∷ b'b' ∷ [], true) refl refl refl
        (closed (b'a' ∷ b'b' ∷ b'x' ∷ b'y' ∷ [], false) refl))
      (omega arith)
