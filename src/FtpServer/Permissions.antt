-- ===== src/FtpServer/Permissions.antt =====
-- Privileges of the accounts, and commands that meet a transfer that is under way.
use yftpserver.Prelude.{
  ℕ, ◌≡◌, refl, inl, inr, Bool, true, false, not, ◌&&◌, String, WString, [], Option, none, some,
  if◌then◌else◌, Bool-cases, is_empty, lit, Outcome, ok, fault, arith,
}
use yftpserver.Platform.{Platform}
use yftpserver.FileSystem.{FileSystem}
use yftpserver.Network.{Network}
use yftpserver.Reply.{Reply, create}
use yftpserver.Commands.{Commands, TCommand}
use yftpserver.UserNode.{UserNode, UserPrivilege, has_privilege}
use yftpserver.ClientNode.{is_waiting, Turn, answer}
use yftpserver.ClientNode.DataPort.{process_port_cmd, process_pasv_cmd}
use yftpserver.ClientNode.Files.{
  permitted, process_del_cmd, process_rnfr_cmd, process_mkd_cmd, process_rmd_cmd,
}
use yftpserver.ClientNode.Transfer.{
  is_stat, is_stou, process_list_cmd, process_retr_cmd, process_stor_cmd,
}
use yftpserver.FtpServer.{World, set_client_at, user_of, handle}
use yftpserver.FtpServer.Dispatch.{
  Config, Handler, turn_handler, login_handler, dispatch, dispatch_files,
}

-- The privilege that a command wants, by what it does to the files.
abbrev pub required_privilege : Commands → WString → Option UserPrivilege
required_privilege Commands.retr args = some UserPrivilege.read_file
required_privilege Commands.stor args = some UserPrivilege.write_file
required_privilege Commands.appe args = some UserPrivilege.write_file
required_privilege Commands.stou args = some UserPrivilege.write_file
required_privilege Commands.dele args = some UserPrivilege.delete_file
required_privilege Commands.rnfr args = some UserPrivilege.delete_file
required_privilege Commands.list args = some UserPrivilege.list_dir
required_privilege Commands.nlst args = some UserPrivilege.list_dir
required_privilege Commands.mlsd args = some UserPrivilege.list_dir
required_privilege Commands.stat args = if is_empty args then none else some UserPrivilege.list_dir
required_privilege Commands.mkd args = some UserPrivilege.create_dir
required_privilege Commands.rmd args = some UserPrivilege.delete_dir
required_privilege _ args = none

-- The commands that set up, open or use the data connection.
abbrev pub wants_data : Commands → Bool
wants_data Commands.port = true
wants_data Commands.pasv = true
wants_data Commands.list = true
wants_data Commands.nlst = true
wants_data Commands.mlsd = true
wants_data Commands.retr = true
wants_data Commands.stor = true
wants_data Commands.appe = true
wants_data Commands.stou = true
wants_data _ = false

module _ {F : Type 0} ⦃p : Platform⦄ ⦃os : FileSystem F⦄ ⦃net : Network F⦄ where
  permitted_denied :
      (privilege : UserPrivilege) (u : UserNode) (body : UserNode → Outcome (Turn F)) (t : Turn F)
      → has_privilege privilege u ≡ false
      → permitted (some u) privilege body t ≡ ok (answer 550 "Permission denied." t)
  unfolding permitted
  permitted_denied privilege u body t lacks = rw lacks

  -- A turn handler that only answers, on the client node and account that it finds.
  handle_answered :
      (h : Option UserNode → Turn F → Outcome (Turn F)) (u : UserNode) (code : ℕ) (text : String)
      (me : ℕ) (r : Reply) (w : World F)
      → user_of (w.clients me) w ≡ some u
      → ((t : Turn F) → h (some u) t ≡ ok (answer code text t))
      → handle (turn_handler h) me r w
        ≡ ok (record {
          world = set_client_at me (w.clients me) w;
          reply = create code (lit text) r;
          sent = [];
          started = [];
          ret = true;
        })
  unfolding handle
  handle_answered h u code text me r w at says = rw (at, says _)

  -- A command that wants a privilege which the account lacks is answered 550, and does nothing.
  pub dispatch_denied :
      (k : Config) (id : Commands) (cmd : TCommand) (privilege : UserPrivilege) (u : UserNode)
      (me : ℕ) (r : Reply) (w : World F)
      → user_of (w.clients me) w ≡ some u
      → required_privilege id cmd.args ≡ some privilege
      → has_privilege privilege u ≡ false
      → handle (dispatch k id cmd) me r w
        ≡ ok (record {
          world = set_client_at me (w.clients me) w;
          reply = create 550 (lit "Permission denied.") r;
          sent = [];
          started = [];
          ret = true;
        })
  unfolding dispatch dispatch_files process_retr_cmd process_stor_cmd process_del_cmd
      process_rnfr_cmd process_list_cmd process_mkd_cmd process_rmd_cmd
  dispatch_denied k Commands.retr cmd privilege u me r w at needs lacks =
      handle_answered _ u 550 "Permission denied." me r w at
        (λ t. permitted_denied UserPrivilege.read_file u _ t (ground arith))
  dispatch_denied k Commands.stor cmd privilege u me r w at needs lacks =
      handle_answered _ u 550 "Permission denied." me r w at
        (λ t. permitted_denied UserPrivilege.write_file u _ t (ground arith))
  dispatch_denied k Commands.appe cmd privilege u me r w at needs lacks =
      handle_answered _ u 550 "Permission denied." me r w at
        (λ t. permitted_denied UserPrivilege.write_file u _ t (ground arith))
  dispatch_denied k Commands.stou cmd privilege u me r w at needs lacks =
      handle_answered _ u 550 "Permission denied." me r w at
        (λ t. permitted_denied UserPrivilege.write_file u _ t (ground arith))
  dispatch_denied k Commands.dele cmd privilege u me r w at needs lacks =
      handle_answered _ u 550 "Permission denied." me r w at
        (λ t. permitted_denied UserPrivilege.delete_file u _ t (ground arith))
  dispatch_denied k Commands.rnfr cmd privilege u me r w at needs lacks =
      handle_answered _ u 550 "Permission denied." me r w at
        (λ t. permitted_denied UserPrivilege.delete_file u _ t (ground arith))
  dispatch_denied k Commands.list cmd privilege u me r w at needs lacks =
      handle_answered _ u 550 "Permission denied." me r w at
        (λ t. permitted_denied UserPrivilege.list_dir u _ t (ground arith))
  dispatch_denied k Commands.nlst cmd privilege u me r w at needs lacks =
      handle_answered _ u 550 "Permission denied." me r w at
        (λ t. permitted_denied UserPrivilege.list_dir u _ t (ground arith))
  dispatch_denied k Commands.mlsd cmd privilege u me r w at needs lacks =
      handle_answered _ u 550 "Permission denied." me r w at
        (λ t. permitted_denied UserPrivilege.list_dir u _ t (ground arith))
  dispatch_denied k Commands.mkd cmd privilege u me r w at needs lacks =
      handle_answered _ u 550 "Permission denied." me r w at
        (λ t. permitted_denied UserPrivilege.create_dir u _ t (ground arith))
  dispatch_denied k Commands.rmd cmd privilege u me r w at needs lacks =
      handle_answered _ u 550 "Permission denied." me r w at
        (λ t. permitted_denied UserPrivilege.delete_dir u _ t (ground arith))
  dispatch_denied k Commands.stat cmd privilege u me r w at needs lacks =
      elim (Bool-cases (is_empty cmd.args)) [
        | inl none_given ↦ absurd (ground arith)
        | inr given ↦ rw given (
            handle_answered _ u 550 "Permission denied." me r w at
              (λ t. permitted_denied UserPrivilege.list_dir u _ t (ground arith)))
      ]
  dispatch_denied k _ cmd privilege u me r w at needs lacks = cc

  -- A handler that returns, and leaves the client node, the world outside and the threads alone.
  abbrev pub LeavesAlone : Turn F → Outcome (Turn F) → Type 0
  LeavesAlone t (ok s) =
      (s.client ≡ t.client) × (s.system ≡ t.system) × (s.started ≡ t.started) × (s.sent ≡ t.sent)
  LeavesAlone t _ = ⊥

  permitted_alone :
      (privilege : UserPrivilege) (u : UserNode) (body : UserNode → Outcome (Turn F)) (t : Turn F)
      → LeavesAlone t (body u)
      → LeavesAlone t (permitted (some u) privilege body t)
  unfolding permitted
  permitted_alone privilege u body t h = elim (Bool-cases (has_privilege privilege u)) [
    | inl granted ↦ rw granted h
    | inr lacks ↦ rw lacks (refl, refl, refl, refl)
  ]

  list_alone :
      (u : UserNode) (cmd : TCommand) (t : Turn F)
      → is_stat cmd.id ≡ false
      → is_waiting t.client.cur_status ≡ false
      → LeavesAlone t (process_list_cmd (some u) cmd t)
  unfolding process_list_cmd
  list_alone u cmd t listed busy =
      permitted_alone UserPrivilege.list_dir u _ t (rw (listed, busy) (refl, refl, refl, refl))

  retr_alone :
      (u : UserNode) (args : WString) (t : Turn F)
      → is_waiting t.client.cur_status ≡ false
      → LeavesAlone t (process_retr_cmd (some u) args t)
  unfolding process_retr_cmd
  retr_alone u args t busy =
      permitted_alone UserPrivilege.read_file u _ t (elim (Bool-cases (is_empty args)) [
        | inl blank ↦ rw blank (refl, refl, refl, refl)
        | inr given ↦ rw (given, busy) (refl, refl, refl, refl)
      ])

  stor_alone :
      (fuel : ℕ) (u : UserNode) (cmd : TCommand) (t : Turn F)
      → is_waiting t.client.cur_status ≡ false
      → LeavesAlone t (process_stor_cmd (some u) fuel cmd t)
  unfolding process_stor_cmd
  stor_alone fuel u cmd t busy =
      permitted_alone UserPrivilege.write_file u _ t
        (elim (Bool-cases (is_empty cmd.args && not (is_stou cmd.id))) [
          | inl blank ↦ rw blank (refl, refl, refl, refl)
          | inr given ↦ rw (given, busy) (refl, refl, refl, refl)
        ])

  -- What a turn of the switch does to a turn, where the case runs on one.
  abbrev pub on_turn : Handler F → Option UserNode → Turn F → Outcome (Turn F)
  on_turn (turn_handler h) u t = h u t
  on_turn (login_handler h) u t = fault

  -- While a transfer is under way, a command for the data connection returns and leaves the client
  -- node, the world outside and the threads alone, whatever its arguments and the privileges are.
  pub dispatch_busy :
      (k : Config) (id : Commands) (cmd : TCommand) (u : UserNode) (t : Turn F)
      → cmd.id ≡ id
      → wants_data id ≡ true
      → is_waiting t.client.cur_status ≡ false
      → LeavesAlone t (on_turn (dispatch k id cmd) (some u) t)
  unfolding dispatch dispatch_files
  dispatch_busy k Commands.port cmd u t same data_command busy =
      unfold process_port_cmd in rw busy (refl, refl, refl, refl)
  dispatch_busy k Commands.pasv cmd u t same data_command busy =
      unfold process_pasv_cmd in rw busy (refl, refl, refl, refl)
  dispatch_busy k Commands.list cmd u t same data_command busy = list_alone u cmd t (rw same) busy
  dispatch_busy k Commands.nlst cmd u t same data_command busy = list_alone u cmd t (rw same) busy
  dispatch_busy k Commands.mlsd cmd u t same data_command busy = list_alone u cmd t (rw same) busy
  dispatch_busy k Commands.retr cmd u t same data_command busy = retr_alone u cmd.args t busy
  dispatch_busy k Commands.stor cmd u t same data_command busy = stor_alone k.fuel u cmd t busy
  dispatch_busy k Commands.appe cmd u t same data_command busy = stor_alone k.fuel u cmd t busy
  dispatch_busy k Commands.stou cmd u t same data_command busy = stor_alone k.fuel u cmd t busy
  dispatch_busy k _ cmd u t same data_command busy = cc
