-- ===== src/ClientNode/Launching.antt =====
-- jni/yftp/client_node.cpp: the data connection and the thread that a transfer starts with.
use yftpserver.Prelude.{arith, ◌≡◌, refl, true, WString, [], ◌∷◌, ◌++◌}
use yftpserver.Platform.{Platform}
use yftpserver.Network.{Network}
use yftpserver.Reply.{new_reply}
use yftpserver.ClientNode.{Turn, Job}
use yftpserver.ClientNode.DataPort.{secure_data, open_pasv, open_port, open_data_connection}
use yftpserver.ClientNode.Transfer.{connected, launch}
use yftpserver.ClientNode.Threads.{has_stream}

-- What the handler has left, for the thread that it has started.
abbrev pub as_thread : {F : Type 0} → Turn F → Turn F
as_thread t = record t { sent = []; started = []; reply = new_reply }

module _ {F : Type 0} ⦃p : Platform⦄ ⦃net : Network F⦄ where
  secure_data-has_stream :
      (t : Turn F)
      → t.client.has_data_socket ≡ true
      → (secure_data t).1 ≡ true
      → has_stream (secure_data t).0.client ≡ true
  unfolding secure_data
  secure_data-has_stream t there done = ground arith

  pub connected-has_stream :
      (t : Turn F) → (connected t).1 ≡ true → has_stream (connected t).0.client ≡ true
  unfolding connected open_data_connection open_pasv open_port secure_data
  connected-has_stream t ready = ground arith

  pub connected-keeps :
      (t : Turn F)
      → ((connected t).0.client.is_ctrl_canal_open ≡ t.client.is_ctrl_canal_open)
        × ((connected t).0.client.restart_at ≡ t.client.restart_at)
  unfolding connected open_data_connection open_pasv open_port secure_data
  connected-keeps t = ground arith

  pub launch-Starts :
      (text : WString) (job : Job) (t : Turn F)
      → (net.start_thread t.system).1 ≡ true
      → ((launch text job t).client ≡ t.client)
        × ((launch text job t).system ≡ (net.start_thread t.system).0)
        × ((launch text job t).started ≡ t.started ++ job ∷ [])
  unfolding launch
  launch-Starts text job t joinable = rw (joinable) (refl, refl, refl)
