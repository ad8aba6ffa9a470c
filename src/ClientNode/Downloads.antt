-- ===== src/ClientNode/Downloads.antt =====
-- jni/yftp/client_node.cpp: a whole download, from the RETR that starts the thread to the reply at its end.
use yftpserver.Prelude.{
  ap, ◌∙◌, ℕ, ◌<◌, ◌≡◌, refl, sym, subst, true, false, WString, [], ◌∷◌, ◌++◌, some, is_empty, lit,
  length, ok,
}
use yftpserver.Platform.{Platform}
use yftpserver.FileSystem.{FileSystem, InFile}
use yftpserver.Network.{Network}
use yftpserver.UserNode.{UserNode, UserPrivilege, has_privilege}
use yftpserver.ClientNode.{
  ClientNode, ClientStatus, DataMode, is_waiting, Turn, Job, set_client, send_status,
}
use yftpserver.ClientNode.Files.{client_path, permitted, path_status, exists}
use yftpserver.ClientNode.Transfer.{connected, launch, process_retr_cmd}
use yftpserver.ClientNode.Threads.Retrieve.{from_position, retrieve_thread}
use yftpserver.ClientNode.Threads.Delivery.{Delivers, retrieve_thread-Delivers}
use yftpserver.ClientNode.Launching.{
  as_thread, connected-has_stream, connected-keeps, launch-Starts,
}

module _ {F : Type 0} ⦃p : Platform⦄ ⦃os : FileSystem F⦄ ⦃net : Network F⦄ where
  -- The client node that RETR leaves to its thread, and what the thread works on.
  abbrev downloading : WString → Turn F → ClientNode
  downloading path opened = record opened.client {
    cur_status = ClientStatus.status_downloading;
    transfer_path = path;
  }

  retr_starts :
      (u : UserNode) (arg path : WString) (t : Turn F)
      → has_privilege UserPrivilege.read_file u ≡ true
      → is_empty arg ≡ false
      → is_waiting t.client.cur_status ≡ true
      → (connected t).1 ≡ true
      → client_path (some u) true arg (connected t).0 ≡ ok path
      → exists (path_status (some u) path (connected t).0) ≡ true
      → process_retr_cmd (some u) arg t
        ≡ ok (
            launch
              (lit "Opening data connection.")
              Job.retrieve_job
              (set_client (downloading path (connected t).0) (connected t).0))
  unfolding process_retr_cmd permitted
  retr_starts u arg path t may given free ready at there =
      rw (may, given, free, ready, at, there) refl

module _ {F : Type 0} ⦃p : Platform⦄ ⦃os : FileSystem F⦄ ⦃net : Network F⦄ (d : Delivers F) where
  -- RETR of a client node that waits, whose control connection is open, for an account that may read
  -- files, with an argument, where the data connection is made, the path exists, the thread starts and
  -- opens a file at the path that can be read to its end, over a network that takes every write to the
  -- data connection: the handler returns with a retrieve thread started and the node in a download. On
  -- what the handler leaves, that thread returns. The peer has then been sent what the file has from the
  -- restart position on, the client is told so by the reply 226, and its node waits with no data mode.
  -- The fuel is larger than the number of bytes.
  pub delivered_whole :
      (fuel : ℕ) (u : UserNode) (arg path : WString) (f : InFile) (t : Turn F)
      → has_privilege UserPrivilege.read_file u ≡ true
      → is_empty arg ≡ false
      → is_waiting t.client.cur_status ≡ true
      → t.client.is_ctrl_canal_open ≡ true
      → (connected t).1 ≡ true
      → client_path (some u) true arg (connected t).0 ≡ ok path
      → exists (path_status (some u) path (connected t).0) ≡ true
      → (net.start_thread (connected t).0.system).1 ≡ true
      → os.read_file (net.start_thread (connected t).0.system).0 path ≡ some f
      → f.broken ≡ false
      → length (from_position t.client.restart_at f.content) < fuel
      → (s : Turn F) × (process_retr_cmd (some u) arg t ≡ ok s)
        × (s.started ≡ (connected t).0.started ++ Job.retrieve_job ∷ [])
        × (s.client.cur_status ≡ ClientStatus.status_downloading)
        × (e : Turn F) × (retrieve_thread fuel (as_thread s) ≡ ok e)
        × (d.log e.system ≡ d.log s.system ++ from_position t.client.restart_at f.content)
        × (e.sent ≡ (send_status 226 "Transfer complete." (as_thread s)).sent)
        × (e.client.cur_status ≡ ClientStatus.status_waiting)
        × (e.client.cur_data_mode ≡ DataMode.mode_none)
  delivered_whole fuel u arg path f t may given free up ready at there thread readable whole
        enough =
      let opened = (connected t).0 in
      let s =
        launch (lit "Opening data connection.") Job.retrieve_job
          (set_client (downloading path opened) opened) in
      let (kept, system, started) =
        launch-Starts (lit "Opening data connection.") Job.retrieve_job
          (set_client (downloading path opened) opened) thread in
      let (open_still, position) = connected-keeps t in
      let place = ap (λ c. c.restart_at) kept ∙ position in
      let (e, run, log, told, waiting, idle) =
        retrieve_thread-Delivers d fuel f (as_thread s) (rw (kept, system) readable) whole
          (rw (kept) (connected-has_stream t ready))
          (ap (λ c. c.is_ctrl_canal_open) kept ∙ open_still ∙ up)
          (subst (λ at. length (from_position at f.content) < fuel) (sym place) enough) in
      (
        s,
        retr_starts u arg path t may given free ready at there,
        started,
        ap (λ c. c.cur_status) kept,
        e,
        run,
        log ∙ ap (λ at. d.log s.system ++ from_position at f.content) place,
        told,
        waiting,
        idle,
      )
