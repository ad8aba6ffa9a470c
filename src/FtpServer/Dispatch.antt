-- ===== src/FtpServer/Dispatch.antt =====
-- jni/yftp/ftp_server.cpp: the switch of `process_command`.
use yftpserver.Prelude.{
  ℕ, Bool, ◌||◌, WString, ◌∷◌, ◌++◌, Option, map, if◌then◌else◌, is_empty, lit, text_eq, Outcome,
  ok,
}
use yftpserver.Platform.{Platform}
use yftpserver.FileSystem.{FileSystem}
use yftpserver.Network.{Network}
use yftpserver.Commands.{Commands, TCommand}
use yftpserver.RequestParser.{toupper}
use yftpserver.UserNode.{UserNode}
use yftpserver.ClientNode.{Turn, answer, answer_text}
use yftpserver.ClientNode.Login.{Login, process_user_cmd, process_password_cmd, process_rein_cmd}
use yftpserver.ClientNode.DataPort.{process_port_cmd, process_pasv_cmd}
use yftpserver.ClientNode.Files.{
  process_type_cmd, process_cwd_cmd, process_mdtm_cmd, process_cdup_cmd, process_size_cmd,
  process_del_cmd, process_rnfr_cmd, process_rnto_cmd, process_mkd_cmd, process_rmd_cmd,
}
use yftpserver.ClientNode.Transfer.{
  process_list_cmd, process_abor_cmd, process_rest_cmd, process_retr_cmd, process_stor_cmd,
}
use yftpserver.ClientNode.Secure.{process_prot_cmd, process_auth_cmd}

-- What the switch reads of the server, and the fuel for STOU.
pub record Config : Type 0 where
  pub is_allow_anonymous : Bool
  pub data_port_start : ℕ
  pub data_port_num : ℕ
  pub fuel : ℕ

-- A case of the switch: it runs on the client and its account, or on the client and all accounts.
pub data Handler (F : Type 0) : Type 0 where
  turn_handler : (Option UserNode → Turn F → Outcome (Turn F)) → Handler F
  login_handler : (ℕ → Login → Outcome Login) → Handler F

-- The reply to FEAT.
unfoldable pub features : WString
features =
    lit "211-Features:\r\n MDTM\r\n SIZE\r\n UTF8\r\n AUTH TLS\r\n PBSZ\r\n PROT\r\n211 End\r\n"

module _ {F : Type 0} ⦃p : Platform⦄ where
  -- A case that only changes the turn.
  abbrev pub plain : (Turn F → Turn F) → Handler F
  plain h = turn_handler (λ _ t. ok (h t))

  unfoldable pub structure : WString → Turn F → Turn F
  structure args t =
      if is_empty args
      then answer 501 "Invalid number of arguments." t
      else if text_eq (map toupper args) (lit "F")
      then answer 200 "STRU Command Successful." t
      else answer 504 "STRU failled. Parametre not implemented." t

  unfoldable pub transfer_mode : WString → Turn F → Turn F
  transfer_mode args t =
      let mode = map toupper args in
      if is_empty args
      then answer 501 "Invalid number of arguments." t
      else if text_eq mode (lit "S")
      then answer 200 "Mode set to S." t
      else if text_eq mode (lit "C")
      then answer 502 "MODE non-implemented." t
      else answer_text 504 (b'"' ∷ (mode ++ lit "\": Unsupported transfer MODE.")) t

  unfoldable pub buffer_size : WString → Turn F → Turn F
  buffer_size args t =
      if is_empty args
      then answer 501 "Syntax error in arguments." t
      else answer_text 200 (lit "PROTECTION BUFFER SIZE set to " ++ args) t

  unfoldable pub options : WString → Turn F → Turn F
  options args t =
      if text_eq args (lit "UTF8 ON") || text_eq args (lit "UTF-8 ON")
      then answer 202 "UTF8 mode is always enabled. No need to send this command." t
      else if text_eq args (lit "UTF8 OFF") || text_eq args (lit "UTF-8 OFF")
      then answer 504 "UTF8 mode cannot be disabled." t
      else answer 501 "Option not understood" t

  unfoldable pub working_directory : Turn F → Turn F
  working_directory t =
      answer_text 257 (b'"' ∷ (t.client.current_directory ++ lit "\" is current directory.")) t

module _ {F : Type 0} ⦃p : Platform⦄ ⦃os : FileSystem F⦄ ⦃net : Network F⦄ where
  -- The cases from PROT on.
  unfoldable pub dispatch_files : Config → Commands → TCommand → Handler F
  dispatch_files k Commands.prot cmd = plain (process_prot_cmd cmd.args)
  dispatch_files k Commands.auth cmd = plain (process_auth_cmd cmd.args)
  dispatch_files k Commands.mdtm cmd = turn_handler (λ u. process_mdtm_cmd u cmd.args)
  dispatch_files k Commands.pwd cmd = plain working_directory
  dispatch_files k Commands.cdup cmd = plain process_cdup_cmd
  dispatch_files k Commands.stat cmd =
      if is_empty cmd.args
      then plain (answer 211 ":: ftp_server / Browser FTP Server:: yyt_hac@163.com")
      else turn_handler (λ u. process_list_cmd u cmd)
  dispatch_files k Commands.abor cmd = turn_handler (λ _. process_abor_cmd)
  dispatch_files k Commands.rest cmd = plain (process_rest_cmd cmd.args)
  dispatch_files k Commands.retr cmd = turn_handler (λ u. process_retr_cmd u cmd.args)
  dispatch_files k Commands.stor cmd = turn_handler (λ u. process_stor_cmd u k.fuel cmd)
  dispatch_files k Commands.appe cmd = turn_handler (λ u. process_stor_cmd u k.fuel cmd)
  dispatch_files k Commands.stou cmd = turn_handler (λ u. process_stor_cmd u k.fuel cmd)
  dispatch_files k Commands.size cmd = turn_handler (λ u. process_size_cmd u cmd.args)
  dispatch_files k Commands.dele cmd = turn_handler (λ u. process_del_cmd u cmd.args)
  dispatch_files k Commands.rnfr cmd = turn_handler (λ u. process_rnfr_cmd u cmd.args)
  dispatch_files k Commands.rnto cmd = turn_handler (λ u. process_rnto_cmd u cmd.args)
  dispatch_files k Commands.mkd cmd = turn_handler (λ u. process_mkd_cmd u cmd.args)
  dispatch_files k Commands.rmd cmd = turn_handler (λ u. process_rmd_cmd u cmd.args)
  dispatch_files k Commands.opts cmd = plain (options cmd.args)
  dispatch_files k _ cmd = plain (answer 500 "Command not understood.")

  unfoldable pub dispatch : Config → Commands → TCommand → Handler F
  unfolding dispatch_files
  dispatch k Commands.quit cmd = plain (answer 221 "Goodbye.")
  dispatch k Commands.user cmd =
      login_handler (λ me. process_user_cmd k.is_allow_anonymous me cmd.args)
  dispatch k Commands.pass cmd = login_handler (λ me s. ok (process_password_cmd me cmd.args s))
  dispatch k Commands.noop cmd = plain (answer 200 "NOOP Command Successful.")
  dispatch k Commands.allo cmd = plain (answer 200 "NOOP Command Successful.")
  dispatch k Commands.help cmd = plain (answer 500 "No Help Available.")
  dispatch k Commands.rein cmd = login_handler (λ me s. ok (process_rein_cmd me s))
  dispatch k Commands.syst cmd = plain (answer 215 "UNIX Type: L8")
  dispatch k Commands.stru cmd = plain (structure cmd.args)
  dispatch k Commands.mode cmd = plain (transfer_mode cmd.args)
  dispatch k Commands.type cmd = plain (process_type_cmd cmd.args)
  dispatch k Commands.port cmd = turn_handler (λ _. process_port_cmd cmd.args)
  dispatch k Commands.pasv cmd =
      turn_handler (λ _. process_pasv_cmd k.data_port_start k.data_port_num)
  dispatch k Commands.list cmd = turn_handler (λ u. process_list_cmd u cmd)
  dispatch k Commands.nlst cmd = turn_handler (λ u. process_list_cmd u cmd)
  dispatch k Commands.mlsd cmd = turn_handler (λ u. process_list_cmd u cmd)
  dispatch k Commands.cwd cmd = turn_handler (λ u. process_cwd_cmd u cmd.args)
  dispatch k Commands.feat cmd = plain (answer_text 0 features)
  dispatch k Commands.pbsz cmd = plain (buffer_size cmd.args)
  dispatch k id cmd = dispatch_files k id cmd
