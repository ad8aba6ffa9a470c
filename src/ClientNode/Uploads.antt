-- ===== src/ClientNode/Uploads.antt =====
-- jni/yftp/client_node.cpp: a whole upload, from the STOR or APPE that starts the thread to the reply at
-- its end.
use yftpserver.Prelude.{
  ap, ◌∙◌, ℤ, ℕ, ◌<◌, ◌≡◌, refl, sym, true, false, WString, Bytes, [], ◌∷◌, ◌++◌, List, some,
  is_empty, lit, length, if◌then◌else◌, ok,
}
use yftpserver.Platform.{Platform}
use yftpserver.FileSystem.{FileSystem}
use yftpserver.Network.{Network}
use yftpserver.Commands.{TCommand}
use yftpserver.UserNode.{UserNode, UserPrivilege, has_privilege}
use yftpserver.ClientNode.{
  ClientNode, ClientStatus, DataMode, is_waiting, Turn, Job, set_client, send_status,
}
use yftpserver.ClientNode.Files.{permitted}
use yftpserver.ClientNode.Transfer.{
  connected, launch, process_stor_cmd, target_path, resume_at, is_stou,
}
use yftpserver.ClientNode.Threads.{finish_transfer, has_stream}
use yftpserver.ClientNode.Threads.Store.{
  is_positive, KeepsFiles, Upload, contents, store_thread, store_thread-contents,
  finish_transfer-system, finish_transfer_done,
}
use yftpserver.Common.{build_path}
use yftpserver.Prelude.{concat}
use yftpserver.ClientNode.Launching.{
  as_thread, connected-has_stream, connected-keeps, launch-Starts,
}

module _ {F : Type 0} ⦃p : Platform⦄ ⦃os : FileSystem F⦄ ⦃net : Network F⦄ where
  -- The path of STOR and APPE.
  abbrev argument_path : UserNode → TCommand → Turn F → WString
  argument_path u cmd t =
      build_path t.system u.home_directory t.client.current_directory cmd.args false

  -- The client node that STOR or APPE leaves to its thread, and what the thread works on.
  abbrev uploading : UserNode → TCommand → Turn F → ClientNode
  uploading u cmd opened = record opened.client {
    cur_status = ClientStatus.status_uploading;
    restart_at = resume_at (some u) cmd (argument_path u cmd opened) opened;
    transfer_path = argument_path u cmd opened;
  }

  stor_starts :
      (tries : ℕ) (u : UserNode) (cmd : TCommand) (t : Turn F)
      → has_privilege UserPrivilege.write_file u ≡ true
      → is_empty cmd.args ≡ false
      → is_stou cmd.id ≡ false
      → is_waiting t.client.cur_status ≡ true
      → (connected t).1 ≡ true
      → is_empty (argument_path u cmd (connected t).0) ≡ false
      → process_stor_cmd (some u) tries cmd t
        ≡ ok (
            launch
              (lit "Opening data connection.")
              Job.store_job
              (set_client (uploading u cmd (connected t).0) (connected t).0))
  unfolding process_stor_cmd permitted target_path
  stor_starts tries u cmd t may given own free ready there =
      rw (may, given, own, free, ready, there) refl

  held_as :
      (t : Turn F) (path : WString) (at : ℤ) (begun : F) (bs : List Bytes) (after : F)
      → t.client.transfer_path ≡ path
      → t.client.restart_at ≡ at
      → t.system ≡ begun
      → contents t.client.transfer_path after
        ≡ (if is_positive t.client.restart_at then contents t.client.transfer_path t.system else [])
          ++ concat bs
      → contents path after ≡ (if is_positive at then contents path begun else []) ++ concat bs
  held_as t path at begun bs after named place world held =
      rw (sym named, sym place, sym world) held

  -- The thread, by the position, the path and the files that it has.
  stored_under :
      ⦃k : KeepsFiles F⦄ (fuel : ℕ) (path : WString) (at : ℤ) (begun : F) (bs : List Bytes)
      (sys : F) (t : Turn F)
      → t.client.transfer_path ≡ path
      → t.client.restart_at ≡ at
      → t.system ≡ begun
      → has_stream t.client ≡ true
      → t.client.is_ctrl_canal_open ≡ true
      → (os.open_out (is_positive at) path begun).1 ≡ true
      → Upload path (os.open_out (is_positive at) path begun).0 bs sys
      → length bs < fuel
      → (e : Turn F) × (store_thread fuel t ≡ ok e)
        × (contents path e.system
            ≡ (if is_positive at then contents path begun else []) ++ concat bs)
        × (e.sent ≡ (send_status 226 "Transfer complete." t).sent)
        × (e.client.cur_status ≡ ClientStatus.status_waiting)
        × (e.client.cur_data_mode ≡ DataMode.mode_none)
  stored_under fuel path at begun bs sys t named place world stream up writable taken enough =
      let (t', run, kept, quiet, held) =
        store_thread-contents fuel t bs sys stream (rw (named, place, world) writable)
          (rw (named, place, world) taken) enough in
      let (told, waiting, idle) =
        finish_transfer_done "Can 't receive file." t' (ap (λ c. c.is_ctrl_canal_open) kept ∙ up) in
      (
        finish_transfer true "Can 't receive file." t',
        run,
        held_as t path at begun bs (finish_transfer true "Can 't receive file." t').system named
            place world
            (ap (contents t.client.transfer_path)
                (finish_transfer-system true "Can 't receive file." t')
              ∙ held),
        told ∙ rw (kept, quiet) refl,
        waiting,
        idle,
      )

  -- STOR or APPE of a client node that waits, whose control connection is open, for an account that may
  -- write files, with an argument, where the data connection is made, the path is not empty, the thread
  -- starts and opens the file, and the blocks of the peer all arrive and can be written: the handler
  -- returns with a store thread started and the node in an upload. On what the handler leaves, that
  -- thread returns. The file at the path then holds the blocks in their order, behind what it held if the
  -- position of the restart, or for APPE the size of a file that is there, is positive, and alone
  -- otherwise; the client is told so by the reply 226, and its node waits with no data mode. The fuel is
  -- larger than the number of blocks.
  pub stored_whole :
      ⦃k : KeepsFiles F⦄ (tries fuel : ℕ) (u : UserNode) (cmd : TCommand) (t : Turn F)
      (path : WString) (at : ℤ) (begun : F) (bs : List Bytes) (sys : F)
      → has_privilege UserPrivilege.write_file u ≡ true
      → is_empty cmd.args ≡ false
      → is_stou cmd.id ≡ false
      → is_waiting t.client.cur_status ≡ true
      → t.client.is_ctrl_canal_open ≡ true
      → (connected t).1 ≡ true
      → argument_path u cmd (connected t).0 ≡ path
      → resume_at (some u) cmd path (connected t).0 ≡ at
      → is_empty path ≡ false
      → net.start_thread (connected t).0.system ≡ (begun, true)
      → (os.open_out (is_positive at) path begun).1 ≡ true
      → Upload path (os.open_out (is_positive at) path begun).0 bs sys
      → length bs < fuel
      → (s : Turn F) × (process_stor_cmd (some u) tries cmd t ≡ ok s)
        × (s.started ≡ (connected t).0.started ++ Job.store_job ∷ [])
        × (s.client.cur_status ≡ ClientStatus.status_uploading)
        × (e : Turn F) × (store_thread fuel (as_thread s) ≡ ok e)
        × (contents path e.system
            ≡ (if is_positive at then contents path begun else []) ++ concat bs)
        × (e.sent ≡ (send_status 226 "Transfer complete." (as_thread s)).sent)
        × (e.client.cur_status ≡ ClientStatus.status_waiting)
        × (e.client.cur_data_mode ≡ DataMode.mode_none)
  stored_whole tries fuel u cmd t path at begun bs sys may given own free up ready to from there
        thread writable taken enough =
      let opened = (connected t).0 in
      let begins = set_client (uploading u cmd opened) opened in
      let s = launch (lit "Opening data connection.") Job.store_job begins in
      let (kept, system, started) =
        launch-Starts (lit "Opening data connection.") Job.store_job begins
          (ap (λ x. x.1) thread) in
      let (open_still, position) = connected-keeps t in
      let place =
        ap (λ c. c.restart_at) kept ∙ ap (λ a. resume_at (some u) cmd a opened) to ∙ from in
      let named = ap (λ c. c.transfer_path) kept ∙ to in
      let at_system = system ∙ ap (λ x. x.0) thread in
      let (e, run, written, told, waiting, idle) =
        stored_under fuel path at begun bs sys (as_thread s) named place at_system
          (rw (kept) (connected-has_stream t ready))
          (ap (λ c. c.is_ctrl_canal_open) kept ∙ open_still ∙ up) writable taken enough in
      (
        s,
        stor_starts tries u cmd t may given own free ready (rw (to) there),
        started,
        ap (λ c. c.cur_status) kept,
        e,
        run,
        written,
        told,
        waiting,
        idle,
      )
