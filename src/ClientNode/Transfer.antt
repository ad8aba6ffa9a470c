-- ===== src/ClientNode/Transfer.antt =====
-- jni/yftp/client_node.cpp: the handlers that start, prepare and stop transfers.
use yftpserver.Prelude.{
  ℕ, zero, suc, Bool, true, false, not, ◌&&◌, WString, [], ◌∷◌, ◌++◌, Option, none, some,
  if◌then◌else◌, is_empty, lit, Outcome, ok, or_running, ◌>>=◌, ℤ, pos,
}
use yftpserver.Platform.{Platform}
use yftpserver.FileSystem.{FileSystem}
use yftpserver.Network.{Network}
use yftpserver.Reply.{decimal, create}
use yftpserver.Commands.{Commands, TCommand}
use yftpserver.Common.{build_path, get_file_status}
use yftpserver.UserNode.{UserNode, UserPrivilege}
use yftpserver.ClientNode.{
  DataMode, ClientStatus, is_waiting, is_none, Turn, Job, set_client, answer, answer_text,
  send_reply, send_status,
}
use yftpserver.ClientNode.Scan.{wcstoll}
use yftpserver.ClientNode.DataPort.{close_data_socket, open_data_connection}
use yftpserver.ClientNode.Files.{client_path, permitted, path_status, exists}

abbrev pub is_stou : Commands → Bool
is_stou Commands.stou = true
is_stou _ = false

abbrev pub is_appe : Commands → Bool
is_appe Commands.appe = true
is_appe _ = false

abbrev pub is_stat : Commands → Bool
is_stat Commands.stat = true
is_stat _ = false

module _ {F : Type 0} ⦃p : Platform⦄ where
  unfoldable pub process_rest_cmd : WString → Turn F → Turn F
  process_rest_cmd cmd_arg t =
      if not (is_empty cmd_arg) && is_waiting t.client.cur_status
      then answer 350 "REST command successful."
          (set_client (record t.client { restart_at = wcstoll cmd_arg }) t)
      else answer 501 "Syntax error in arguments." t

  unfoldable pub process_abor_cmd : ⦃net : Network F⦄ → Turn F → Outcome (Turn F)
  process_abor_cmd t = do
    stopped ←
        if is_waiting t.client.cur_status
        then ok t
        else (close_data_socket t >>= λ closed.
            let idle = record closed.client {
              cur_status = ClientStatus.status_waiting;
              cur_data_mode = DataMode.mode_none;
            } in
            ok (
              send_status 426 "Previous command has been finished abnormally."
                (set_client idle closed)))
    ok (answer 226 "ABOR command successful." stopped)

  -- `cur_data_mode_ == mode_none || !open_data_connection()`, with what opening has done.
  unfoldable pub connected : ⦃net : Network F⦄ → Turn F → Turn F × Bool
  connected t = if is_none t.client.cur_data_mode then (t, false) else open_data_connection t

  -- Announces the transfer, and starts its thread.
  unfoldable pub launch : ⦃net : Network F⦄ → WString → Job → Turn F → Turn F
  launch ⦃net = net⦄ text job t =
      let told = send_reply (answer_text 150 text t) in
      let silent = record told { reply = create 0 [] told.reply } in
      let (sys, joinable) = net.start_thread silent.system in
      if joinable
      then record silent { system = sys; started = silent.started ++ job ∷ [] }
      else answer 425 "Opening data connection failed." (record silent {
        system = sys;
        client = record silent.client {
          restart_at = pos 0;
          transfer_path = [];
          cur_status = ClientStatus.status_waiting;
        };
      })

module _ {F : Type 0} ⦃p : Platform⦄ ⦃os : FileSystem F⦄ ⦃net : Network F⦄
    (user : Option UserNode) where
  -- The directory is listed by a thread of its own.
  unfoldable pub process_list_cmd : TCommand → Turn F → Outcome (Turn F)
  process_list_cmd cmd t =
      permitted user UserPrivilege.list_dir
        (λ u.
          let (opened, ready) = connected t in
          let there = if is_stat cmd.id then t else opened in
          let (sys, joinable) = net.start_thread there.system in
          ok (
            if not (is_stat cmd.id) && not (is_waiting t.client.cur_status)
            then answer 425 "You're already connected." t
            else if not (is_stat cmd.id) && not ready
            then answer 425 "Can't open data connection." opened
            else if joinable
            then record there { system = sys; started = there.started ++ Job.list_job cmd ∷ [] }
            else answer 425 "425 Can't open data connection." (record there { system = sys })))
        t

  unfoldable pub process_retr_cmd : WString → Turn F → Outcome (Turn F)
  process_retr_cmd cmd_arg t =
      permitted user UserPrivilege.read_file
        (λ u.
          let (opened, ready) = connected t in
          if is_empty cmd_arg
          then ok (answer 501 "501 Syntax error in arguments." t)
          else if not (is_waiting t.client.cur_status)
          then ok (answer 425 "You're already connected." t)
          else if not ready
          then ok (answer 425 "Can't open data connection." opened)
          else do
            tmp_path ← client_path user true cmd_arg opened
            ok (
                if exists (path_status user tmp_path opened)
                then launch (lit "Opening data connection.") Job.retrieve_job (
                    set_client
                      (record opened.client {
                        cur_status = ClientStatus.status_downloading;
                        transfer_path = tmp_path;
                      })
                      opened)
                else answer 550 "File not found." opened))
        t

  -- The loop that looks for a name that is not there; `none` if the fuel has run out.
  unfoldable pub unique_path : ℕ → UserNode → Turn F → Option (WString × Turn F)
  unique_path zero u t = none
  unique_path (suc fuel) u t =
      let (n, sys) = os.draw t.system in
      let drawn = record t { system = sys } in
      let path =
        build_path sys u.home_directory t.client.current_directory (lit "file." ++ decimal n)
          true in
      let again = unique_path fuel u drawn in
      if exists (get_file_status sys path) then again else some (path, drawn)

  -- The path that is written to: the new name of STOU, or the argument.
  unfoldable pub target_path : ℕ → UserNode → TCommand → Turn F → Outcome (WString × Turn F)
  target_path fuel u cmd t =
      let named = λ (s : Turn F).
        build_path s.system u.home_directory s.client.current_directory cmd.args false in
      if is_stou cmd.id
      then (or_running (unique_path fuel u t) >>= λ x.
          ok (if is_empty x.0 then named x.1 else x.0, x.1))
      else ok (named t, t)

  -- APPE goes on where the file ends.
  abbrev pub resume_at : TCommand → WString → Turn F → ℤ
  resume_at cmd path t =
      if not (is_appe cmd.id)
      then t.client.restart_at
      else elim (if exists (get_file_status t.system path)
          then os.file_size t.system path
          else none) [ some size ↦ pos size | none ↦ pos 0 ]

  unfoldable pub process_stor_cmd : ℕ → TCommand → Turn F → Outcome (Turn F)
  process_stor_cmd fuel cmd t =
      permitted user UserPrivilege.write_file
        (λ u.
          let (opened, ready) = connected t in
          if is_empty cmd.args && not (is_stou cmd.id)
          then ok (answer 501 "501 Syntax error in arguments." t)
          else if not (is_waiting t.client.cur_status)
          then ok (answer 425 "You're already connected." t)
          else if not ready
          then ok (answer 425 "Can't open data connection." opened)
          else do
            (path, found) ← target_path fuel u cmd opened
            let writing = record found.client {
              cur_status = ClientStatus.status_uploading;
              restart_at = resume_at cmd path found;
              transfer_path = path;
            }
            let text =
                if is_stou cmd.id then lit "FILE: " ++ path else lit "Opening data connection."
            ok (
                if is_empty path
                then found
                else launch text Job.store_job (set_client writing found)))
        t
