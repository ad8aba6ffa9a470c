-- ===== src/ClientNode/Reconnecting.antt =====
-- jni/yftp/client_node.cpp: PORT, and how PORT and PASV close what an earlier data mode has opened.
use yftpserver.Prelude.{
  ℕ, ◌<◌, ◌≡◌, refl, ap, ◌∙◌, Bool, true, false, ◌&&◌, WString, drop, lit, some, ok, fault, ◌>>=◌,
  Bool-cases, inl, inr, if◌then◌else◌, arith,
}
use yftpserver.Platform.{Platform}
use yftpserver.Network.{Network}
use yftpserver.Reply.{create}
use yftpserver.ClientNode.{DataMode, is_none, is_waiting, Turn, answer, set_client}
use yftpserver.ClientNode.DataPort.{
  set_system, close_acceptor, close_data_socket, reset_data_mode, secure_data, open_port,
  open_data_connection, port_target, pasv_text, process_port_cmd,
}
use yftpserver.ClientNode.PortRoundTrip.{port_target-pasv_text}

is_none-eq : (m : DataMode) → is_none m ≡ true → m ≡ DataMode.mode_none
is_none-eq DataMode.mode_none e = refl
is_none-eq DataMode.mode_pasv e = cc
is_none-eq DataMode.mode_port e = cc

module _ {F : Type 0} ⦃p : Platform⦄ ⦃net : Network F⦄ where
  same_client : (b : Bool) (t : Turn F) → (if b then close_acceptor t else t).client ≡ t.client
  same_client true t = refl
  same_client false t = refl

  -- The client with no data mode, in another state of the world.
  abbrev pub reset_to : F → Turn F → Turn F
  reset_to sys t = record t {
    client = record t.client { cur_data_mode = DataMode.mode_none };
    system = sys;
  }

  acceptor_closed :
      (b : Bool) (t : Turn F) → (sys : F) × ((if b then close_acceptor t else t) ≡ set_system sys t)
  acceptor_closed true t = (_, refl)
  acceptor_closed false t = (_, refl)

  close_data_socket_plain :
      (t : Turn F)
      → t.client.data_use_ssl ≡ false
      → t.client.has_data_socket ≡ true
      → close_data_socket t ≡ ok (set_system (net.close_data t.system) t)
  unfolding close_data_socket
  close_data_socket_plain t plain connected = ground arith

  data_closed :
      (t closed : Turn F) (sys : F)
      → closed ≡ set_system sys t
      → t.client.data_use_ssl ≡ false
      → (there : Bool) → t.client.has_data_socket ≡ there
      → (sys' : F) × ((if there then close_data_socket closed else ok closed)
          ≡ ok (set_system sys' t))
  data_closed t closed sys same plain true there = (
    net.close_data closed.system,
    close_data_socket_plain closed (ap (λ s. s.client.data_use_ssl) same ∙ plain)
          (ap (λ s. s.client.has_data_socket) same ∙ there)
        ∙ ap (λ s. ok (set_system (net.close_data closed.system) s)) same,
  )
  data_closed t closed sys same plain false there = (sys, ap (λ s. ok s) same)

  -- Where the data connection is not encrypted, an earlier data mode is given up, whatever it was.
  pub reset_data_mode_returns :
      (t : Turn F)
      → t.client.data_use_ssl ≡ false
      → (sys : F) × (reset_data_mode t ≡ ok (reset_to sys t))
  unfolding reset_data_mode
  reset_data_mode_returns t plain =
      let (before, same) = acceptor_closed t.client.has_data_acceptor t in
      let (sys, e) =
        data_closed t (if t.client.has_data_acceptor then close_acceptor t else t) before same plain
          t.client.has_data_socket refl in
      elim (Bool-cases (is_none t.client.cur_data_mode)) [
        | inl fresh ↦ (
          t.system,
          rw fresh (
              ap (λ m. ok (record t { client = record t.client { cur_data_mode = m } }))
                (is_none-eq t.client.cur_data_mode fresh)),
        )
        | inr used ↦ (sys, rw (used, e) refl)
      ]

  close_data_socket_bare :
      (t closed : Turn F)
      → closed.client ≡ t.client
      → p.server_app ≡ true
      → t.client.data_use_ssl ≡ true
      → t.client.has_ssl_socket ≡ false
      → close_data_socket closed ≡ fault
  unfolding close_data_socket
  close_data_socket_bare t closed same server tls bare =
      let tls' = ap (λ c. c.data_use_ssl) same ∙ tls in
      let bare' = ap (λ c. c.has_ssl_socket) same ∙ bare in ground arith

  -- PORT on a client that has a data mode and a data socket, but no TLS socket for its encryption.
  port_under_tls :
      (cmd_arg : WString) (a : ℕ × ℕ) (t : Turn F)
      → p.server_app ≡ true
      → t.client.data_use_ssl ≡ true
      → t.client.has_ssl_socket ≡ false
      → is_none t.client.cur_data_mode ≡ false
      → t.client.has_data_socket ≡ true
      → is_waiting t.client.cur_status ≡ true
      → port_target cmd_arg ≡ some a
      → process_port_cmd cmd_arg t ≡ fault
  unfolding process_port_cmd reset_data_mode
  port_under_tls cmd_arg a t server tls bare used connected waiting target =
      let e =
        close_data_socket_bare t (if t.client.has_data_acceptor then close_acceptor t else t)
          (same_client t.client.has_data_acceptor t) server tls bare in
      rw (waiting, target, used, e, connected) refl

  -- What an accepted PORT leaves, once an earlier data mode is given up.
  abbrev ported : ℕ → ℕ → Turn F → Turn F
  ported ip port s = answer 200 "PORT command successful." (
      set_client
        (record s.client {
          has_data_socket = true;
          cur_data_mode = DataMode.mode_port;
          data_ip = ip;
          data_port = port;
        })
        s)

  -- PORT with an address and a port that are not 0, written as the reply of PASV writes them, on a client
  -- that transfers nothing and does not encrypt its data connection: it returns, with the reply 200. The
  -- data connection that is opened next then connects to that address and port; it is made exactly if its
  -- socket can be opened and the connection succeeds.
  pub process_port_cmd_connects :
      (ip port : ℕ) (t : Turn F)
      → 0 < ip
      → ip < 4294967296
      → 0 < port
      → port < 65536
      → is_waiting t.client.cur_status ≡ true
      → t.client.data_use_ssl ≡ false
      → (s : Turn F) × (process_port_cmd (drop 23 (pasv_text ip port)) t ≡ ok s)
        × (s.reply ≡ create 200 (lit "PORT command successful.") t.reply)
        × ((open_data_connection s).1
            ≡ ((net.open_data s.system).1 && (net.connect ip port (net.open_data s.system).0).1))
        × ((open_data_connection s).0.system ≡ (
            if (net.open_data s.system).1
            then (net.connect ip port (net.open_data s.system).0).0
            else (net.open_data s.system).0))
  unfolding process_port_cmd open_data_connection open_port secure_data
  process_port_cmd_connects ip port t a b c d waiting plain =
      let target = port_target-pasv_text ip port a b c d in
      let (sys, e) = reset_data_mode_returns t plain in
      (
        ported ip port (reset_to sys t),
        rw (waiting, target, e) refl,
        refl,
        ground (arith, plain),
        ground (arith, plain),
      )

  -- A client that encrypts its data connection, and has not opened one yet, makes the server follow a
  -- null pointer by two PORT commands in a row.
  pub port_twice_under_tls :
      (first second : WString) (a b : ℕ × ℕ) (t : Turn F)
      → p.server_app ≡ true
      → t.client.data_use_ssl ≡ true
      → t.client.has_ssl_socket ≡ false
      → is_none t.client.cur_data_mode ≡ true
      → is_waiting t.client.cur_status ≡ true
      → port_target first ≡ some a
      → port_target second ≡ some b
      → (process_port_cmd first t >>= process_port_cmd second) ≡ fault
  unfolding process_port_cmd reset_data_mode
  port_twice_under_tls first second a b t server tls bare none_yet waiting ea eb =
      rw (waiting, ea, none_yet) (port_under_tls second b _ server tls bare refl refl waiting eb)
