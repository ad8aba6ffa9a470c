-- ===== src/ClientNode/Threads.antt =====
-- jni/yftp/client_node.cpp: what `store_thread`, `retrieve_thread` and `list_thread` share: the data
-- connection, and the end of a transfer. A thread runs on the client node while the handlers do; each
-- function here is a part of it that no handler interrupts.
pub mod Retrieve
pub mod Store
pub mod ListOptions
pub mod Listing
pub mod NameList
pub mod Interruption
pub mod Steps
pub mod Delivery
use yftpserver.Prelude.{
  ℕ, Bool, true, false, not, ◌&&◌, String, Bytes, [], if◌then◌else◌, Outcome, ok, fault, ◌>>=◌, pos,
}
use yftpserver.Platform.{Platform}
use yftpserver.Network.{Network, Received}
use yftpserver.ClientNode.{ClientNode, DataMode, ClientStatus, Turn, set_client, send_status}
use yftpserver.ClientNode.DataPort.{set_system, close_data_socket}

-- `CFTPSERVER_TRANSFER_BUFFER_SIZE`.
abbrev pub transfer_buffer_size : ℕ
transfer_buffer_size = 8192

-- The socket of the data connection, encrypted or not, is there.
abbrev pub has_stream : ⦃p : Platform⦄ → ClientNode → Bool
has_stream ⦃p⦄ c = if p.server_app && c.data_use_ssl then c.has_ssl_socket else c.has_data_socket

module _ {F : Type 0} ⦃p : Platform⦄ ⦃net : Network F⦄ where
  unfoldable pub read_data : ClientNode → F → Outcome (F × Received)
  read_data c sys = if has_stream c then ok (net.data_read transfer_buffer_size sys) else fault

  -- `send_data(…, false)`.
  unfoldable pub send_data : ClientNode → Bytes → F → Outcome (F × Bool)
  send_data c bytes sys = if has_stream c then ok (net.data_write bytes sys) else fault

  unfoldable pub shut_down_data_socket : Turn F → Outcome (Turn F)
  shut_down_data_socket t =
      if has_stream t.client then ok (set_system (net.shut_down_data t.system) t) else fault

  unfoldable pub release_data : Turn F → Outcome (Turn F)
  release_data t = shut_down_data_socket t >>= close_data_socket

  -- The end of a store or retrieve thread, under the lock.
  unfoldable pub finish_transfer : Bool → String → Turn F → Turn F
  finish_transfer done failure t =
      let idle = record t.client {
        restart_at = pos 0;
        transfer_path = [];
        cur_data_mode = DataMode.mode_none;
        cur_status = ClientStatus.status_waiting;
      } in
      if not t.client.is_ctrl_canal_open
      then t
      else if done
      then send_status 226 "Transfer complete." (set_client idle t)
      else send_status 550 failure (set_client idle t)
