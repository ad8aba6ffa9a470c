-- ===== src/ClientNode/Threads/Delivery.antt =====
-- jni/yftp/client_node.cpp: a download over a connection that takes all that is written to it.
use yftpserver.Prelude.{
  ℕ, ◌<◌, ◌≡◌, refl, sym, ap, ◌∙◌, true, false, Bytes, [], ◌∷◌, ◌++◌, List, some, concat, length,
  ok,
}
use mathlib.Core.List.{append-nil, append_assoc}
use yftpserver.Platform.{Platform}
use yftpserver.FileSystem.{FileSystem, InFile}
use yftpserver.Network.{Network}
use yftpserver.ClientNode.{ClientNode, ClientStatus, DataMode, Turn, send_status}
use yftpserver.ClientNode.DataPort.{set_system}
use yftpserver.ClientNode.Threads.{has_stream, send_data, finish_transfer}
use yftpserver.ClientNode.Threads.Retrieve.{
  from_position, send_all, retrieve_thread, retrieve_thread-blocks,
}
use yftpserver.ClientNode.Threads.Store.{
  release_data_returns, finish_transfer-system, finish_transfer_done,
}

-- A network that takes every write to the data connection: `log` is what the peer has been sent.
pub record Delivers (F : Type 0) ⦃net : Network F⦄ : Type 0 where
  pub log : F → Bytes
  pub taken : (bytes : Bytes) (sys : F) → (net.data_write bytes sys).1 ≡ true
  pub logged : (bytes : Bytes) (sys : F) → log (net.data_write bytes sys).0 ≡ log sys ++ bytes
  pub shut_apart : (sys : F) → log (net.shut_down_data sys) ≡ log sys
  pub close_apart : (sys : F) → log (net.close_data sys) ≡ log sys

module _ {F : Type 0} ⦃p : Platform⦄ ⦃os : FileSystem F⦄ ⦃net : Network F⦄ (d : Delivers F) where
  send_all-Delivers :
      (c : ClientNode) (bs : List Bytes) (sys : F)
      → has_stream c ≡ true
      → (sys' : F) × (send_all c bs sys ≡ ok (sys', true)) × (d.log sys' ≡ d.log sys ++ concat bs)
  unfolding send_all send_data
  send_all-Delivers c [] sys there = (sys, refl, sym (append-nil (d.log sys)))
  send_all-Delivers c (b ∷ bs) sys there =
      let (sys', sent, log) = send_all-Delivers c bs (net.data_write b sys).0 there in
      (
        sys',
        rw (there, d.taken b sys) sent,
        log ∙ ap (λ l. l ++ concat bs) (d.logged b sys) ∙ append_assoc (d.log sys) b (concat bs),
      )

  -- Over a data connection that is there and takes every write, with the control connection open:
  -- `retrieve_thread` returns for a file that opens and can be read to its end. The peer has then been
  -- sent what the file has from the restart position on, the client is told so by the reply 226, and its
  -- node is ready for another transfer. The fuel is larger than the number of bytes.
  pub retrieve_thread-Delivers :
      (fuel : ℕ) (f : InFile) (t : Turn F)
      → os.read_file t.system t.client.transfer_path ≡ some f
      → f.broken ≡ false
      → has_stream t.client ≡ true
      → t.client.is_ctrl_canal_open ≡ true
      → length (from_position t.client.restart_at f.content) < fuel
      → (s : Turn F) × (retrieve_thread fuel t ≡ ok s)
        × (d.log s.system ≡ d.log t.system ++ from_position t.client.restart_at f.content)
        × (s.sent ≡ (send_status 226 "Transfer complete." t).sent)
        × (s.client.cur_status ≡ ClientStatus.status_waiting)
        × (s.client.cur_data_mode ≡ DataMode.mode_none)
  retrieve_thread-Delivers fuel f t readable whole there up h =
      let (bs, content, small, run) = retrieve_thread-blocks fuel f t readable h in
      let (sys, sent, log) = send_all-Delivers t.client bs t.system there in
      let released = set_system (net.close_data (net.shut_down_data sys)) t in
      let (told, waiting, idle) = finish_transfer_done "550 Can 't Send File." released up in
      (
        finish_transfer true "550 Can 't Send File." released,
        run ∙ rw (sent, whole, release_data_returns (set_system sys t) there) refl,
        ap d.log (finish_transfer-system true "550 Can 't Send File." released)
            ∙ d.close_apart (net.shut_down_data sys)
            ∙ d.shut_apart sys
            ∙ log
            ∙ ap (λ bytes. d.log t.system ++ bytes) content,
        told,
        waiting,
        idle,
      )
