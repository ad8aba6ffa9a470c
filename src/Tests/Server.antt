-- ===== src/Tests/Server.antt =====
-- The server on concrete worlds.
use yftpserver.Prelude.{
  ℕ, ◌≡◌, refl, Bytes, true, false, [], ◌∷◌, none, some, arith, text_eq, lit, ok, fault,
}
use yftpserver.Reply.{new_reply, create}
use yftpserver.Commands.{Commands, TCommand}
use yftpserver.UserNode.{UserPrivilege, has_privilege}
use yftpserver.UserManager.{find_in, find_user}
use yftpserver.ClientNode.{start_client, Job}
use yftpserver.ClientNode.Threads.Steps.{sending, retrieve_step}
use yftpserver.Connection.{Handled, handle_read}
use yftpserver.Connection.Lifetime.{thread_after_end, thread_after_rein}
use yftpserver.FtpServer.Jobs.{run_job, job_step}
use yftpserver.ClientNode.Login.{enabled_user, process_user_cmd}
use yftpserver.FtpServer.{
  Served, references, find_in_list, find_in_users, find_client, set_client_at, handle, end_work,
  config_of,
}
use yftpserver.FtpServer.Dispatch.{login_handler, dispatch}
use yftpserver.FtpServer.Disconnect.{end_work_after_unknown_user}
use yftpserver.FtpServer.Permissions.{on_turn, LeavesAlone, dispatch_denied, dispatch_busy}
use yftpserver.Tests.{
  ascii, disk, sockets, bob, nobody, account_of, named_client, logged_client, busy_client, turn_of,
  world_of,
}

abbrev quit : Bytes
quit = b'Q' ∷ b'U' ∷ b'I' ∷ b'T' ∷ b'\r' ∷ b'\n' ∷ []

found_client : find_client 7 (world_of named_client) ≡ some 3
unfolding find_client find_in_users find_in_list start_client
found_client = refl

end_work_after_unknown_user_example :
    (s : Served ℕ) × (handle
        (login_handler (λ a. process_user_cmd true a nobody))
        3
        new_reply
        (world_of named_client)
      ≡ ok s)
    × (s.ret ≡ true)
    × (end_work 7 s.world ≡ fault)
unfolding text_eq lit start_client enabled_user find_user find_in
end_work_after_unknown_user_example =
    end_work_after_unknown_user true 7 3 nobody new_reply (world_of named_client) found_client refl
      (refl, refl) refl

abbrev dele : TCommand
dele = record { id = Commands.dele; args = bob; has_args = true; valid_before_logon = false }

abbrev retr : TCommand
retr = record { id = Commands.retr; args = bob; has_args = true; valid_before_logon = false }

dispatch_denied_example :
    handle
      (dispatch (config_of 5 (world_of logged_client)) Commands.dele dele)
      3
      new_reply
      (world_of logged_client)
    ≡ ok (record {
      world = set_client_at 3 logged_client (world_of logged_client);
      reply = create 550 (lit "Permission denied.") new_reply;
      sent = [];
      started = [];
      ret = true;
    })
unfolding has_privilege
dispatch_denied_example =
    dispatch_denied (config_of 5 (world_of logged_client)) Commands.dele dele
      UserPrivilege.delete_file (record (account_of bob) { ftp_client_list = 3 ∷ [] }) 3 new_reply
      (world_of logged_client) refl refl refl

dispatch_busy_example : LeavesAlone (turn_of busy_client) (
    on_turn
      (dispatch (config_of 5 (world_of busy_client)) Commands.retr retr)
      (some (account_of bob))
      (turn_of busy_client))
dispatch_busy_example =
    dispatch_busy (config_of 5 (world_of busy_client)) Commands.retr retr (account_of bob)
      (turn_of busy_client) refl refl refl

-- The connection of a client that downloads ends.
thread_after_end_example :
    (h : Handled ℕ) × (handle_read 5 7 none (world_of busy_client) ≡ ok h)
    × (job_step (retrieve_step (sending false bob)) 3 h.world ≡ fault)
    × (run_job 5 3 Job.retrieve_job h.world ≡ fault)
unfolding references find_client find_in_users find_in_list start_client
thread_after_end_example =
    thread_after_end 5 7 3 1 5 (world_of busy_client) (retrieve_step (sending false bob))
      Job.retrieve_job refl refl (omega arith) (omega arith) refl

abbrev rein : TCommand
rein = record { id = Commands.rein; args = []; has_args = false; valid_before_logon = false }

thread_after_rein_example :
    (s : Served ℕ) × (handle
        (dispatch (config_of 5 (world_of busy_client)) Commands.rein rein)
        3
        new_reply
        (world_of busy_client)
      ≡ ok s)
    × (s.ret ≡ true)
    × (s.reply ≡ create 200 (lit "Reinitialize Successful.") new_reply)
    × (job_step (retrieve_step (sending false bob)) 3 s.world ≡ fault)
unfolding references start_client
thread_after_rein_example =
    thread_after_rein (config_of 5 (world_of busy_client)) rein 3 1 new_reply (world_of busy_client)
      (retrieve_step (sending false bob)) refl (omega arith) (omega arith) refl
