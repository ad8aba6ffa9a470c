-- ===== src/ClientNode/DataPort.antt =====
-- jni/yftp/client_node.cpp: `process_port_cmd`, `process_pasv_cmd`, `open_data_connection`, and the
-- ways to close what they open.
use yftpserver.Prelude.{
  ℕ, zero, suc, ◌+◌, ◌-◌, ◌*◌, ◌/◌, ◌%◌, Bool, true, false, not, ◌&&◌, ◌||◌, WString, [], ◌∷◌, ◌++◌,
  Option, none, some, if◌then◌else◌, leb, ltb, ◌==◌, lit, bit_or, Outcome, ok, fault, ◌>>=◌,
}
use yftpserver.Platform.{Platform}
use yftpserver.Network.{Network}
use yftpserver.Reply.{decimal}
use yftpserver.Common.{get_or}
use yftpserver.ClientNode.{DataMode, is_waiting, is_none, Turn, set_client, answer, answer_text}
use yftpserver.ClientNode.Scan.{scan_six}

-- `iIp1 <= 255 && … && (iIp1 | iIp2 | iIp3 | iIp4) != 0 && (iPort1 | iPort2) != 0`.
abbrev pub is_address : ℕ → ℕ → ℕ → ℕ → ℕ → ℕ → Bool
is_address h1 h2 h3 h4 p1 p2 =
    leb h1 255
    && (leb h2 255
        && (leb h3 255
            && (leb h4 255
                && (leb p1 255
                    && (leb p2 255
                        && (not (bit_or (bit_or (bit_or h1 h2) h3) h4 == 0)
                            && not (bit_or p1 p2 == 0)))))))

-- The address and the port that a PORT argument names.
unfoldable pub port_target : WString → Option (ℕ × ℕ)
port_target cmd_arg = elim (scan_six cmd_arg) [
  | some (h1 ∷ h2 ∷ h3 ∷ h4 ∷ p1 ∷ p2 ∷ []) ↦
      if is_address h1 h2 h3 h4 p1 p2
      then some (((h1 * 256 + h2) * 256 + h3) * 256 + h4, (p1 * 256 + p2) % 65536)
      else none
  | _ ↦ none
]

-- The text of the reply 227.
unfoldable pub pasv_text : ℕ → ℕ → WString
pasv_text ip port =
    lit "Entering Passive Mode ("
    ++ (decimal (ip / 16777216 % 256)
        ++ b','
          ∷ (decimal (ip / 65536 % 256)
              ++ b','
                ∷ (decimal (ip / 256 % 256)
                    ++ b','
                      ∷ (decimal (ip % 256)
                          ++ b','
                            ∷ (decimal ((port - port % 256) / 256)
                                ++ b',' ∷ (decimal (port % 256) ++ lit ")."))))))

-- `cur_end_port > data_port_start + data_port_num`, where a number from 2 ^ 31 on is a negative `int`.
abbrev pub past_end : ℕ → ℕ → ℕ → Bool
past_end start num port =
    if ltb num 2147483648 then ltb (start + num) port else ltb (start + num) (port + 4294967296)

module _ {F : Type 0} ⦃net : Network F⦄ where
  abbrev pub set_system : F → Turn F → Turn F
  set_system sys t = record t { system = sys }

  -- `close_socket(data_acceptor_)`.
  abbrev pub close_acceptor : Turn F → Turn F
  close_acceptor t = set_system (net.close_acceptor t.system) t

  -- The socket that is closed is the one below TLS, where the data connection is to be encrypted; it
  -- must be there.
  unfoldable pub close_data_socket : ⦃p : Platform⦄ → Turn F → Outcome (Turn F)
  close_data_socket ⦃p⦄ t =
      let there =
        if p.server_app && t.client.data_use_ssl
        then t.client.has_ssl_socket
        else t.client.has_data_socket in
      if there then ok (set_system (net.close_data t.system) t) else fault

  -- What PORT and PASV do with the sockets of an earlier data mode.
  unfoldable pub reset_data_mode : ⦃p : Platform⦄ → Turn F → Outcome (Turn F)
  reset_data_mode t = if is_none t.client.cur_data_mode then ok t else do
    let closed = if t.client.has_data_acceptor then close_acceptor t else t
    shut ← if t.client.has_data_socket then close_data_socket closed else ok closed
    ok (set_client (record shut.client { cur_data_mode = DataMode.mode_none }) shut)

  -- `ssl_socket_` exists, or can be made; then the handshake.
  unfoldable pub secure_data : ⦃p : Platform⦄ → Turn F → Turn F × Bool
  secure_data ⦃p⦄ t =
      if not (p.server_app && t.client.data_use_ssl)
      then (t, true)
      else if not (t.client.has_ssl_socket || p.ssl_context)
      then (t, false)
      else let (sys, done) = net.data_handshake t.system in
        (record t { client = record t.client { has_ssl_socket = true }; system = sys }, done)

  unfoldable pub open_pasv : ⦃p : Platform⦄ → Turn F → Turn F × Bool
  open_pasv t =
      let (sys, accepted) = net.accept t.system in
      let closed = set_system (net.close_acceptor sys) t in
      if accepted then secure_data closed else (closed, false)

  unfoldable pub open_port : ⦃p : Platform⦄ → Turn F → Turn F × Bool
  open_port t =
      let (sys, opened) = net.open_data t.system in
      let (sys', connected) = net.connect t.client.data_ip t.client.data_port sys in
      if not opened
      then (set_system sys t, false)
      else if connected
      then secure_data (set_system sys' t)
      else (set_system sys' t, false)

  unfoldable pub open_data_connection : ⦃p : Platform⦄ → Turn F → Turn F × Bool
  open_data_connection t =
      let made = set_client (record t.client { has_data_socket = true }) t in
      elim t.client.cur_data_mode [
        | DataMode.mode_none ↦ (t, false)
        | DataMode.mode_pasv ↦ open_pasv made
        | DataMode.mode_port ↦ open_port made
      ]

  unfoldable pub process_port_cmd : ⦃p : Platform⦄ → WString → Turn F → Outcome (Turn F)
  process_port_cmd cmd_arg t =
      if not (is_waiting t.client.cur_status)
      then ok (answer 425 "You're already connected." t)
      else elim (port_target cmd_arg) [
        | none ↦ ok (answer 501 "Syntax error in arguments." t)
        | some (ip, port) ↦ do
          s ← reset_data_mode t
          let c = record s.client {
            has_data_socket = true;
            cur_data_mode = DataMode.mode_port;
            data_ip = ip;
            data_port = port;
          }
          ok (answer 200 "PORT command successful." (set_client c s))
      ]

  -- The loop over the ports of the range: `tries` are left, `cur` is the static variable. The result
  -- says whether a port could be bound.
  unfoldable pub try_ports : ℕ → ℕ → ℕ → ℕ → Turn F → Turn F × Bool
  try_ports zero start num cur t = (close_acceptor (record t { cur_end_port = some cur }), false)
  try_ports (suc tries) start num cur t =
      let following = (cur + 1) % 65536 in
      let next = if past_end start num following then start else following in
      let (sys, bound) = net.bind_listen t.client.server_ip cur t.system in
      let tried = record t {
        client = record t.client { data_port = cur };
        system = sys;
        cur_end_port = some next;
      } in
      let again = try_ports tries start num next tried in if bound then (tried, true) else again

  -- `data_port_num == 0`: the system chooses the port.
  unfoldable pub any_port : Turn F → Turn F × Bool
  any_port t =
      let (sys, bound) = net.bind_listen t.client.server_ip 0 t.system in
      if bound
      then (
        record t { client = record t.client { data_port = net.local_port sys }; system = sys },
        true,
      )
      else (
        record t { client = record t.client { data_port = 0 }; system = net.close_acceptor sys },
        false,
      )

  -- `process_pasv_cmd` from the making of the acceptor on.
  unfoldable pub listen_on_port : ⦃p : Platform⦄ → ℕ → ℕ → Turn F → Turn F
  listen_on_port port_start port_num s =
      let made = set_client (record s.client { has_data_acceptor = true }) s in
      let (sys, opened) = net.open_acceptor made.system in
      let ready = set_system sys made in
      let (bound, done) =
        if port_num == 0
        then any_port ready
        else try_ports 10 port_start port_num (get_or ready.cur_end_port port_start) ready in
      if not opened
      then answer 451 "451 Internal error - open socket fail." ready
      else if done
      then answer_text 227 (pasv_text bound.client.server_ip bound.client.data_port)
          (set_client (record bound.client { cur_data_mode = DataMode.mode_pasv }) bound)
      else if port_num == 0
      then answer 451 "Internal error - Binding Or Listening failed." bound
      else answer 451 "Internal error - No more data port available." bound

  unfoldable pub process_pasv_cmd : ⦃p : Platform⦄ → ℕ → ℕ → Turn F → Outcome (Turn F)
  process_pasv_cmd port_start port_num t =
      if not (is_waiting t.client.cur_status)
      then ok (answer 425 "You're already connected." t)
      else do s ← reset_data_mode t; ok (listen_on_port port_start port_num s)
