-- ===== src/ClientNode/Threads/Interruption.antt =====
-- What handlers do while a transfer runs, and what its end makes of it.
use yftpserver.Prelude.{
  Bytes, [], ◌∷◌, take, is_empty, lit, text_eq, fault, ℕ, ◌≡◌, refl, Bool, true, false, String,
  WString, some, Outcome, ok, ◌>>=◌, arith,
}
use yftpserver.Platform.{Platform}
use yftpserver.FileSystem.{FileSystem}
use yftpserver.Network.{Network}
use yftpserver.ClientNode.{
  ClientNode, DataMode, ClientStatus, is_waiting, Turn, set_client, answer, send_status,
}
use yftpserver.ClientNode.DataPort.{
  set_system, close_data_socket, reset_data_mode, port_target, process_port_cmd,
}
use yftpserver.ClientNode.Transfer.{process_abor_cmd, connected}
use yftpserver.ClientNode.Secure.{process_prot_cmd}
use yftpserver.ClientNode.Threads.Steps.{sending, retrieve_step}
use yftpserver.ClientNode.Threads.{
  send_data, has_stream, shut_down_data_socket, release_data, finish_transfer,
}

module _ {F : Type 0} ⦃p : Platform⦄ ⦃net : Network F⦄ where
  -- ABOR, then PORT, while a store or retrieve thread runs.
  abbrev pub restart_elsewhere : WString → Turn F → Outcome (Turn F)
  restart_elsewhere cmd_arg t = process_abor_cmd t >>= process_port_cmd cmd_arg

  -- The end of that thread.
  abbrev pub late_end : Bool → String → Turn F → Outcome (Turn F)
  late_end done failure t = release_data t >>= λ s. ok (finish_transfer done failure s)

  close_data_socket-ok :
      (t : Turn F)
      → t.client.data_use_ssl ≡ false
      → t.client.has_data_socket ≡ true
      → close_data_socket t ≡ ok (set_system (net.close_data t.system) t)
  unfolding close_data_socket
  close_data_socket-ok t plain there = ground arith

  release_data-ok :
      (t : Turn F)
      → t.client.data_use_ssl ≡ false
      → t.client.has_data_socket ≡ true
      → release_data t ≡ ok (set_system (net.close_data (net.shut_down_data t.system)) t)
  unfolding release_data shut_down_data_socket close_data_socket
  release_data-ok t plain there = ground arith

  finish_transfer_disconnects :
      (done : Bool) (failure : String) (t : Turn F)
      → t.client.is_ctrl_canal_open ≡ true
      → (connected (finish_transfer done failure t)).1 ≡ false
  unfolding finish_transfer connected
  finish_transfer_disconnects true failure t up = rw up refl
  finish_transfer_disconnects false failure t up = rw up refl

  -- A client with an open control connection, that does not encrypt its data connection, aborts a transfer
  -- and names a new address by PORT before the thread of the old transfer has ended: PORT is accepted,
  -- but the end of the old thread, in success or failure, resets the data mode, and the next transfer
  -- finds no data connection.
  pub late_end_forgets_port :
      (cmd_arg : WString) (target : ℕ × ℕ) (done : Bool) (failure : String) (t : Turn F)
      → is_waiting t.client.cur_status ≡ false
      → t.client.data_use_ssl ≡ false
      → t.client.has_data_socket ≡ true
      → t.client.is_ctrl_canal_open ≡ true
      → port_target cmd_arg ≡ some target
      → (s : Turn F) × (s' : Turn F) × (restart_elsewhere cmd_arg t ≡ ok s)
        × (s.client.cur_data_mode ≡ DataMode.mode_port)
        × (late_end done failure s ≡ ok s')
        × ((connected s').1 ≡ false)
  unfolding process_abor_cmd process_port_cmd reset_data_mode
  late_end_forgets_port cmd_arg target done failure t busy plain there up aimed =
      let stopped = aborted t in
      let s = aimed_at target stopped in
      let s' =
        finish_transfer done failure
          (set_system (net.close_data (net.shut_down_data s.system)) s) in
      (
        s,
        s',
        rw (busy, close_data_socket-ok t plain there, aimed) refl,
        refl,
        rw (release_data-ok s plain refl) refl,
        finish_transfer_disconnects done failure _ up,
      )
    where
      aborted : Turn F → Turn F
      aborted t =
          let closed = set_system (net.close_data t.system) t in
          let idle = record closed.client {
            cur_status = ClientStatus.status_waiting;
            cur_data_mode = DataMode.mode_none;
          } in
          answer 226 "ABOR command successful." (
            send_status 426 "Previous command has been finished abnormally."
              (set_client idle closed))

      aimed_at : ℕ × ℕ → Turn F → Turn F
      aimed_at (ip, port) t =
          let c = record t.client {
            has_data_socket = true;
            cur_data_mode = DataMode.mode_port;
            data_ip = ip;
            data_port = port;
          } in
          answer 200 "PORT command successful." (set_client c t)

module _ {F : Type 0} ⦃p : Platform⦄ ⦃os : FileSystem F⦄ ⦃net : Network F⦄ where
  send_fault :
      (c : ClientNode) (bytes : Bytes) (sys : F)
      → has_stream c ≡ false
      → send_data c bytes sys ≡ fault
  unfolding send_data
  send_fault c bytes sys gone = rw gone refl

  -- A server with TLS sends a file over a data connection that is not encrypted, for a client whose
  -- control connection is. PROT P between two blocks is accepted, and the next block goes to the
  -- encrypted socket, which is not there: the thread follows a null pointer, if anything is left to send.
  pub prot_during_download :
      (broken : Bool) (rest : Bytes) (t : Turn F)
      → p.server_app ≡ true
      → net.ctrl_is_ssl t.system ≡ true
      → t.client.data_use_ssl ≡ false
      → t.client.has_ssl_socket ≡ false
      → is_empty rest ≡ false
      → ((process_prot_cmd (lit "P") t).client.data_use_ssl ≡ true)
        × (retrieve_step (sending broken rest) (process_prot_cmd (lit "P") t) ≡ fault)
  unfolding process_prot_cmd retrieve_step lit text_eq
  prot_during_download broken [] t app ctrl plain bare left = cc
  prot_during_download broken (x ∷ rest) t app ctrl plain bare left = (
    ground arith,
    rw (send_fault (process_prot_cmd (lit "P") t).client (x ∷ take 8191 rest) _ (ground arith))
        refl,
  )
