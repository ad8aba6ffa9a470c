-- ===== src/Tests/Transfers.antt =====
-- Transfers on a disk of one file, over a connection that delivers one block.
use yftpserver.Prelude.{
  ℕ, ◌≡◌, refl, Bool, true, false, Bytes, [], ◌∷◌, ◌++◌, List, none, some, lit, text_eq, concat,
  All, if◌then◌else◌, ok, thrown, ◌>>=◌, ◌&&◌, arith,
}
use yftpserver.FileSystem.{FileSystem, DirectoryEntry, InFile}
use yftpserver.Network.{Network, received, end_of_stream}
use yftpserver.Reply.{new_reply}
use yftpserver.Common.{build_path, joined_path, canonical_path, get_file_status}
use yftpserver.Commands.{Commands, TCommand}
use yftpserver.ClientNode.{ClientNode, DataMode, start_client, Turn}
use yftpserver.ClientNode.DataPort.{set_system}
use yftpserver.ClientNode.Transfer.{connected}
use yftpserver.ClientNode.Threads.{release_data, finish_transfer}
use yftpserver.ClientNode.Threads.Retrieve.{
  IsBlock, send_all, retrieve_thread, retrieve_thread-blocks,
}
use yftpserver.ClientNode.Threads.Store.{
  KeepsFiles, contents, closed, block, store_thread, store_thread-contents,
}
use yftpserver.ClientNode.Threads.ListOptions.{no_options, list_options}
use yftpserver.ClientNode.Threads.Listing.{list_entries, list_thread}
use yftpserver.ClientNode.Threads.NameList.{
  crlf, send_each, list_entries-nlst, list_thread_above_home,
}
use yftpserver.ClientNode.Threads.Interruption.{restart_elsewhere, late_end, late_end_forgets_port}
use yftpserver.Tests.{ascii, disk, sockets, bob, home, account_of, busy_client, turn_of}
use yftpserver.Tests.DataModes.{address, target}

-- The content of the file, and whether the block is still to come.
abbrev pub Store : Type 0
Store = Bytes × Bool

abbrev pub one_file : FileSystem Store
one_file = record {
  initial_path = λ s. b'/' ∷ [];
  set_current_path = λ path s. some s;
  join = λ a b. a ++ b;
  generic_wstring = λ path. path;
  canonical = λ s path. some path;
  status = λ s path. none;
  file_size = λ s path. none;
  last_write_time = λ s path. none;
  remove = λ path s. (s, false);
  rename = λ old_path new_path s. (s, false);
  create_directory = λ path s. (s, false);
  draw = λ s. (0, s);
  entries = λ s path. [];
  now = λ s. 0;
  read_file = λ s path. some (record { content = s.0; broken = false });
  open_out = λ append path s. ((if append then s.0 else [], s.1), true);
  write_out = λ path bytes s. ((s.0 ++ bytes, s.1), true);
  close_out = λ path s. s;
}

abbrev pub one_block : Network Store
one_block = record {
  local_ip = λ socket s. 0;
  remote_ip = λ socket s. 0;
  ctrl_is_ssl = λ s. false;
  ctrl_handshake = λ s. s;
  open_acceptor = λ s. (s, true);
  bind_listen = λ ip port s. (s, true);
  local_port = λ s. 0;
  accept = λ s. (s, true);
  close_acceptor = λ s. s;
  open_data = λ s. (s, true);
  connect = λ ip port s. (s, true);
  data_handshake = λ s. (s, true);
  shut_down_data = λ s. s;
  close_data = λ s. s;
  start_thread = λ s. (s, true);
  ctrl_write = λ s. true;
  data_read =
      λ size s. if s.1 then ((s.0, false), received (b'x' ∷ b'y' ∷ [])) else (s, end_of_stream);
  data_write = λ bytes s. (s, true);
}

pub one_file-KeepsFiles : KeepsFiles Store ⦃os = one_file⦄ ⦃net = one_block⦄
one_file-KeepsFiles = record {
  truncated = λ path sys e. refl;
  kept = λ path sys e. refl;
  written = λ path bytes sys e. refl;
  closed_out = λ path sys. refl;
  read_apart = λ path n sys. ground arith;
  shut_apart = λ path sys. refl;
  close_apart = λ path sys. refl;
}

abbrev pub with_stream : ClientNode
with_stream = record busy_client { has_data_socket = true; cur_data_mode = DataMode.mode_port }

abbrev pub transfer : Turn Store
transfer = record {
  client = with_stream;
  system = (b'a' ∷ b'b' ∷ [], true);
  sent = [];
  started = [];
  reply = new_reply;
  cur_end_port = none;
  ret = true;
}

abbrev sent_file : InFile
sent_file = record { content = b'a' ∷ b'b' ∷ []; broken = false }

retrieve_thread-blocks_example :
    (bs : List Bytes) × (concat bs ≡ b'a' ∷ b'b' ∷ [])
    × All IsBlock bs
    × (retrieve_thread ⦃os = one_file⦄ ⦃net = one_block⦄ 5 transfer ≡ (
        send_all ⦃os = one_file⦄ ⦃net = one_block⦄ with_stream bs (b'a' ∷ b'b' ∷ [], true)
        >>= λ (sys, sent).
            release_data ⦃net = one_block⦄ (set_system ⦃net = one_block⦄ sys transfer)
            >>= λ released. ok (
                finish_transfer ⦃net = one_block⦄ (sent && true) "550 Can 't Send File." released)))
unfolding start_client
retrieve_thread-blocks_example =
    retrieve_thread-blocks ⦃os = one_file⦄ ⦃net = one_block⦄ 5 sent_file transfer refl (omega arith)

store_thread-contents_example :
    (t' : Turn Store) × (store_thread ⦃os = one_file⦄ ⦃net = one_block⦄ 5 transfer
      ≡ ok (finish_transfer ⦃net = one_block⦄ true "Can 't receive file." t'))
    × (t'.client ≡ with_stream)
    × (t'.sent ≡ [])
    × (contents ⦃os = one_file⦄ [] t'.system ≡ [] ++ b'x' ∷ b'y' ∷ [])
unfolding start_client
store_thread-contents_example =
    store_thread-contents ⦃os = one_file⦄ ⦃net = one_block⦄ ⦃k = one_file-KeepsFiles⦄ 5 transfer
      ((b'x' ∷ b'y' ∷ []) ∷ []) (b'x' ∷ b'y' ∷ [], false) refl refl
      (block (b'x' ∷ b'y' ∷ []) ([], true) refl refl refl (closed (b'x' ∷ b'y' ∷ [], false) refl))
      (omega arith)

abbrev bobs_file : DirectoryEntry
bobs_file = record { path = home ++ bob; filename = bob }

list_entries-nlst_example :
    list_entries Commands.nlst no_options home (bobs_file ∷ []) (turn_of with_stream) ≡ (
      send_each with_stream ((bob ++ crlf) ∷ []) 0 >>= λ sys.
      ok (set_system sys (turn_of with_stream)))
list_entries-nlst_example =
    list_entries-nlst no_options home (bobs_file ∷ []) (bob ∷ []) (turn_of with_stream) refl

-- A disk whose directories hold an entry of the root directory.
abbrev root_entry : DirectoryEntry
root_entry = record { path = b'/' ∷ []; filename = [] }

abbrev shallow_disk : FileSystem ℕ
shallow_disk = record disk { entries = λ n path. root_entry ∷ [] }

abbrev nlst_command : TCommand
nlst_command = record {
  id = Commands.nlst;
  args = [];
  has_args = false;
  valid_before_logon = false;
}

list_thread_above_home_example :
    list_thread ⦃os = shallow_disk⦄ nlst_command (some (account_of bob)) (turn_of with_stream)
    ≡ thrown
unfolding list_options get_file_status build_path joined_path start_client canonical_path lit
    text_eq
list_thread_above_home_example =
    list_thread_above_home ⦃os = shallow_disk⦄ nlst_command (account_of bob) (turn_of with_stream)
      no_options [] (build_path ⦃os = shallow_disk⦄ 0 home (b'/' ∷ []) [] true)
      (record { is_directory = true; is_regular_file = false; permissions = 0 }) root_entry [] refl
      refl refl refl refl refl refl refl (omega arith)

late_end_forgets_port_example :
    (s : Turn ℕ) × (s' : Turn ℕ) × (restart_elsewhere address (turn_of with_stream) ≡ ok s)
    × (s.client.cur_data_mode ≡ DataMode.mode_port)
    × (late_end true "" s ≡ ok s')
    × ((connected s').1 ≡ false)
unfolding start_client
late_end_forgets_port_example =
    late_end_forgets_port address (16909060, 1286) true "" (turn_of with_stream) refl refl refl refl
      target
