-- ===== src/Tests/DataModes.antt =====
-- PORT and PASV on concrete clients.
use yftpserver.Prelude.{
  ℕ, suc, drop, lit, arith, ◌≡◌, refl, true, false, WString, [], ◌∷◌, some, ok, fault, ◌>>=◌,
}
use yftpserver.Platform.{Platform, ascii_only}
use yftpserver.ClientNode.{ClientNode, start_client, Turn}
use yftpserver.ClientNode.Scan.{skip_spaces, read_digits, scan_uint, scan_more, scan_six}
use yftpserver.ClientNode.DataPort.{
  port_target, pasv_text, open_data_connection, process_port_cmd, process_pasv_cmd,
}
use yftpserver.ClientNode.Reconnecting.{process_port_cmd_connects, port_twice_under_tls}
use yftpserver.ClientNode.PassiveMode.{PasvAnswer, process_pasv_cmd_answers}
use yftpserver.Reply.{create, new_reply}
use yftpserver.Network.{Network}
use yftpserver.Commands.{Commands, TCommand}
use yftpserver.FtpServer.{World}
use yftpserver.FtpServer.Configuration.{set_data_port_range}
use yftpserver.Tests.{world_of, ascii, disk, sockets, logged_client, turn_of}

-- `1,2,3,4,5,6`.
abbrev pub address : WString
address = b'1' ∷ b',' ∷ b'2' ∷ b',' ∷ b'3' ∷ b',' ∷ b'4' ∷ b',' ∷ b'5' ∷ b',' ∷ b'6' ∷ []

pub target : port_target address ≡ some (16909060, 1286)
unfolding port_target scan_six scan_more scan_uint skip_spaces read_digits
target = refl

process_port_cmd_connects_example :
    (s : Turn ℕ) × (process_port_cmd (drop 23 (pasv_text 16909060 1286)) (turn_of logged_client)
      ≡ ok s)
    × (s.reply ≡ create 200 (lit "PORT command successful.") new_reply)
    × ((open_data_connection s).1 ≡ true)
    × ((open_data_connection s).0.system ≡ s.system)
unfolding start_client
process_port_cmd_connects_example =
    process_port_cmd_connects 16909060 1286 (turn_of logged_client) (omega arith) (omega arith)
      (omega arith) (omega arith) refl refl

process_pasv_cmd_answers_example :
    (s : Turn ℕ) × (process_pasv_cmd 2000 10 (turn_of logged_client) ≡ ok s)
    × PasvAnswer 10 (turn_of logged_client) s
unfolding start_client
process_pasv_cmd_answers_example =
    process_pasv_cmd_answers 2000 10 (turn_of logged_client) refl refl

-- A build with TLS.
abbrev tls_build : Platform
tls_build = record (ascii_only false) { server_app = true; ssl_context = true }

abbrev protected_client : ClientNode
protected_client = record logged_client { data_use_ssl = true }

port_twice_under_tls_example :
    (process_port_cmd ⦃p = tls_build⦄ address (turn_of protected_client)
      >>= process_port_cmd ⦃p = tls_build⦄ address)
    ≡ fault
unfolding start_client
port_twice_under_tls_example =
    port_twice_under_tls ⦃p = tls_build⦄ address address (16909060, 1286) (16909060, 1286)
      (turn_of protected_client) refl refl refl refl refl target target

-- A system on which every port is free.
abbrev free_sockets : Network ℕ
free_sockets = record sockets { bind_listen = λ ip port n. (suc n, true) }

-- A server that has given ports from 2000 on, of which 2005 is the next.
abbrev earlier_world : World ℕ
earlier_world = record (world_of logged_client) { cur_end_port = some 2005 }

abbrev later_world : World ℕ
later_world = (set_data_port_range 3000 10 earlier_world).0

abbrev pasv : TCommand
pasv = record { id = Commands.pasv; args = []; has_args = false; valid_before_logon = false }
