-- ===== src/Tests/Flows.antt =====
-- Transfers among other events, the console program, and what PASV, SITE and the conversions do.
use yftpserver.Prelude.{
  ℕ, zero, suc, ◌+◌, ◌/◌, ◌≤◌, ◌≡◌, ◌≢◌, refl, Bool, true, false, WString, Bytes, [], ◌∷◌, ◌++◌,
  List, Option, none, some, lit, text_eq, length, take, drop, concat, update, bit_and, Outcome, ok,
  fault, ℤ, pos, arith,
}
use yftpserver.Platform.{Platform, ascii_only, byte_library}
use yftpserver.Conversion.{TwoBytes, ws2s, s2ws, until_nul, conversions_return, ws2s_result}
use yftpserver.FileSystem.{FileSystem}
use yftpserver.Network.{Network}
use yftpserver.UserNode.{UserNode, set_home_directory, last_char}
use yftpserver.UserManager.{find_user, find_in}
use yftpserver.UserManager
use yftpserver.Common.{simplify_path, get_file_status}
use yftpserver.ClientNode.Threads.{send_data}
use yftpserver.ClientNode.{start_client, Turn}
use yftpserver.ClientNode.DataPort.{port_target, pasv_text}
use yftpserver.ClientNode.PortRoundTrip.{port_target-pasv_text}
use yftpserver.ClientNode.Secure.{process_prot_cmd}
use yftpserver.ClientNode.Site.{extracmd_exec, process_site_cmd, process_site_cmd_safe}
use yftpserver.ClientNode.Threads.Steps.{sending, shutting, finishing, Stepped, retrieve_step}
use yftpserver.ClientNode.Threads.Interruption.{prot_during_download}
use yftpserver.FtpServer.{World, references, is_owned}
use yftpserver.FtpServer.Configuration.{allow_anonymous, permit_anonymous}
use yftpserver.FtpServer.Listing.{IsListed}
use yftpserver.FtpServer.Jobs.{turn_at, job_step}
use yftpserver.Connection.Reachable.{new_world, outside, allows, made, after}
use yftpserver.Connection.Anonymous.{Reachable-IsBacked}
use yftpserver.Connection.Interleaving.{begins, works, meanwhile, Download-in_order}
use yftpserver.Console.{Started, console_start}
use yftpserver.Console.Setup.{new_native}
use yftpserver.Console.Serving.{Serves, console_start-Serves}
use yftpserver.Tests.{ascii, disk, sockets, bob, home, account_of, fresh_client, turn_of, two_users}
use yftpserver.Tests.Service.{acceptor, acceptor-ListensWhereBound}
use yftpserver.Tests.Transfers.{Store, one_file, one_block, with_stream}

port_target-pasv_text_example :
    port_target (drop 23 (pasv_text 16909060 1286)) ≡ some (16909060, 1286)
port_target-pasv_text_example =
    port_target-pasv_text 16909060 1286 (omega arith) (omega arith) (omega arith) (omega arith)

-- A server on which anonymous login was allowed.
abbrev at_first : World ℕ
at_first = new_world (λ a. fresh_client) 0

abbrev world_in : Outcome (World ℕ × Bool) → World ℕ
world_in (ok (w, ret)) = w
world_in _ = at_first

abbrev open_world : World ℕ
open_world = world_in (allow_anonymous true home 1 at_first)

opened : allow_anonymous true home 1 at_first ≡ ok (open_world, true)
unfolding allow_anonymous permit_anonymous UserManager.add_user UserManager.requested_directory
    UserManager.checked_directory UserManager.proccess_home_directory UserManager.register_user
    set_home_directory find_user find_in lit text_eq simplify_path get_file_status last_char
opened = refl

on : open_world.is_allow_anonymous ≡ true
unfolding allow_anonymous permit_anonymous UserManager.add_user UserManager.requested_directory
    UserManager.checked_directory UserManager.proccess_home_directory UserManager.register_user
    set_home_directory find_user find_in lit text_eq simplify_path get_file_status last_char
on = refl

Reachable-IsBacked_example : IsListed (lit "anonymous") open_world.users
Reachable-IsBacked_example =
    Reachable-IsBacked (after (made (λ a. fresh_client) 0) (allows true home 1 opened)) on

-- A download of two bytes on the client at address 0, which bob's account lists, during which the world
-- outside changes.
abbrev store_world : Bool → World Store
store_world pending = record (new_world (λ a. with_stream) (b'a' ∷ b'b' ∷ [], pending)) {
  users = record two_users {
    node = update two_users.node 1 (record (account_of bob) { ftp_client_list = 0 ∷ [] });
  };
}

abbrev first_block : Stepped Store
first_block = record {
  point = shutting true;
  turn = turn_at ⦃os = one_file⦄ ⦃net = one_block⦄ 0 (store_world false);
  taken = (b'a' ∷ b'b' ∷ []) ∷ [];
}

abbrev two_bytes : Bytes
two_bytes = b'a' ∷ b'b' ∷ []

sent_at_once :
    job_step ⦃os = one_file⦄ ⦃net = one_block⦄
      (retrieve_step ⦃os = one_file⦄ ⦃net = one_block⦄ (sending false (b'a' ∷ b'b' ∷ [])))
      0
      (store_world false)
    ≡ ok first_block
unfolding job_step is_owned references retrieve_step send_data start_client
sent_at_once = refl

Download-in_order_example :
    ((rest : Bytes) × (concat (two_bytes ∷ []) ++ rest ≡ two_bytes))
    × (shutting true ≡ finishing true → (concat (two_bytes ∷ []) ≡ two_bytes) × (false ≡ false))
    × (1 ≤ length two_bytes / 8192 + 4)
Download-in_order_example =
    Download-in_order ⦃os = one_file⦄ ⦃net = one_block⦄ two_bytes false {me = 0}
      {w = store_world true}
      (works first_block (meanwhile begins (outside (two_bytes, false))) (omega arith) sent_at_once)

-- A server with TLS whose control connections are encrypted.
abbrev with_tls : Platform
with_tls = record (ascii_only false) { server_app = true; ssl_context = true }

abbrev tls_sockets : Network ℕ
tls_sockets = record sockets { ctrl_is_ssl = λ n. true }

abbrev protected : Turn ℕ
protected = process_prot_cmd ⦃p = with_tls⦄ ⦃net = tls_sockets⦄ (lit "P") (turn_of with_stream)

prot_during_download_example :
    (protected.client.data_use_ssl ≡ true)
    × (retrieve_step ⦃p = with_tls⦄ ⦃net = tls_sockets⦄ (sending false (b'a' ∷ [])) protected
        ≡ fault)
unfolding start_client
prot_during_download_example =
    prot_during_download ⦃p = with_tls⦄ ⦃net = tls_sockets⦄ false (b'a' ∷ []) (turn_of with_stream)
      refl refl refl refl refl

length-take_le : (n : ℕ) (s : List ℕ) → length (take n s) ≤ length s
length-take_le zero s = omega arith
length-take_le (suc n) [] = omega arith
length-take_le (suc n) (c ∷ s) = omega (arith, length-take_le n s)

byte_library-TwoBytes : TwoBytes byte_library (lit "chs")
byte_library-TwoBytes = record {
  narrows = λ size ws. omega (arith, length-take_le size ws);
  widens = λ size s. length-take_le size s;
}

conversions_return_example :
    (ws2s byte_library bob (lit "C") ≡ ok (until_nul (take 7 (until_nul bob)), lit "C"))
    × (s2ws byte_library bob (lit "C") ≡ ok (until_nul (take 4 (until_nul bob)), lit "C"))
conversions_return_example =
    conversions_return byte_library bob bob (lit "C") byte_library-TwoBytes refl refl refl

-- Files for any state of the world: every path names a directory.
abbrev directories : FileSystem (Option (ℕ × ℕ) × (ℕ × ℕ))
directories = record {
  initial_path = λ s. b'/' ∷ [];
  set_current_path = λ path s. some s;
  join = λ a b. a ++ b'/' ∷ b;
  generic_wstring = λ path. path;
  canonical = λ s path. some path;
  status =
      λ s path. some (record { is_directory = true; is_regular_file = false; permissions = 0 });
  file_size = λ s path. some 0;
  last_write_time = λ s path. some 0;
  remove = λ path s. (s, true);
  rename = λ old_path new_path s. (s, true);
  create_directory = λ path s. (s, true);
  draw = λ s. (0, s);
  entries = λ s path. [];
  now = λ s. 0;
  read_file = λ s path. none;
  open_out = λ append path s. (s, true);
  write_out = λ path bytes s. (s, true);
  close_out = λ path s. s;
}

abbrev fixed_port : Bytes → Option ℤ
fixed_port text = some (pos 2121)

console_start-Serves_example :
    (s : Started (Option (ℕ × ℕ) × (ℕ × ℕ))) × (console_start ⦃os = directories⦄ byte_library true
        fixed_port
        ((b'2' ∷ []) ∷ home ∷ [])
        (new_native (λ a. fresh_client) (none, (0, 0)))
      ≡ ok s)
    × Serves ⦃os = directories⦄ acceptor-ListensWhereBound byte_library true
        (λ a. fresh_client)
        (none, (0, 0))
        (some (2121, home))
        s
console_start-Serves_example =
    console_start-Serves ⦃os = directories⦄ acceptor-ListensWhereBound byte_library true
      (λ a. fresh_client) (none, (0, 0)) fixed_port ((b'2' ∷ []) ∷ home ∷ []) byte_library-TwoBytes
      refl refl

-- An account that may execute commands, and the command `SITE EXEC a`.
abbrev operator : UserNode
operator = record (account_of bob) { extra_cmd = 1 }

abbrev site_line : WString
site_line = lit "EXEC " ++ b'a' ∷ []

abbrev count_up : Bytes → ℕ → ℕ
count_up command n = suc n

process_site_cmd_safe_example :
    (s : Turn ℕ) × (process_site_cmd count_up (some operator) site_line (turn_of with_stream)
      ≡ ok s)
    × (s.client ≡ with_stream)
    × (s.system ≢ 0
        → (bit_and operator.extra_cmd extracmd_exec ≡ extracmd_exec)
          × (take 5 site_line ≡ lit "EXEC ")
          × (s.system ≡ count_up (ws2s_result byte_library (drop 5 site_line)) 0))
process_site_cmd_safe_example =
    process_site_cmd_safe count_up operator site_line (turn_of with_stream)
