-- ===== src/ClientNode/Secure.antt =====
-- jni/yftp/client_node.cpp: `process_prot_cmd` and `process_auth_cmd`.
use yftpserver.Prelude.{
  true, false, not, ◌&&◌, ◌||◌, WString, ◌++◌, if◌then◌else◌, is_empty, lit, text_eq,
}
use yftpserver.Platform.{Platform}
use yftpserver.Network.{Network}
use yftpserver.Reply.{clear}
use yftpserver.ClientNode.{Turn, set_client, answer, answer_text, send_reply}

module _ {F : Type 0} ⦃p : Platform⦄ ⦃net : Network F⦄ where
  abbrev pub level_set : WString → Turn F → Turn F
  level_set level = answer_text 200 (lit "DATA CHANNEL PROTECTION LEVEL set to " ++ level)

  abbrev pub level_refused : WString → Turn F → Turn F
  level_refused level =
      answer_text 534 (lit "DATA CHANNEL PROTECTION LEVEL " ++ (level ++ lit " is not support"))

  unfoldable pub process_prot_cmd : WString → Turn F → Turn F
  process_prot_cmd cmd_arg t =
      if is_empty cmd_arg
      then answer 501 "Syntax error in arguments." t
      else if text_eq cmd_arg (lit "C")
      then if not t.client.data_use_ssl
        then answer 431 "DATA CHANNEL PROTECTION LEVEL is already set to C" t
        else level_set cmd_arg (set_client (record t.client { data_use_ssl = false }) t)
      else if text_eq cmd_arg (lit "P") && p.server_app
      then if t.client.data_use_ssl
        then answer 431 "DATA CHANNEL PROTECTION LEVEL is already set to P" t
        else if net.ctrl_is_ssl t.system
        then level_set cmd_arg (set_client (record t.client { data_use_ssl = true }) t)
        else level_refused cmd_arg t
      else level_refused cmd_arg t

  unfoldable pub process_auth_cmd : WString → Turn F → Turn F
  process_auth_cmd cmd_arg t =
      let told = send_reply (answer 234 "Using authentication type TLS" t) in
      if is_empty cmd_arg
      then answer 501 "Syntax error in arguments." t
      else if not (p.server_app && p.ssl_context)
      then answer 502 "Cmd not supported" t
      else if net.ctrl_is_ssl t.system
      then answer 534 "Authentication type already set to SSL" t
      else if text_eq cmd_arg (lit "SSL") || text_eq cmd_arg (lit "TLS")
      then record told { reply = clear told.reply; system = net.ctrl_handshake told.system }
      else answer 504 "Auth type not supported" t
