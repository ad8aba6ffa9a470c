-- ===== src/ClientNode/PassiveMode.antt =====
-- Passive mode: what `process_pasv_cmd` of jni/yftp/client_node.cpp answers, and what the client node and
-- the system have come to.
use yftpserver.Prelude.{
  ℕ, zero, suc, ◌%◌, ◌+◌, ◌≡◌, refl, Bool, true, false, not, ◌⊎◌, inl, inr, String, lit, Option,
  some, if◌then◌else◌, ◌==◌, Bool-cases, ok, arith,
}
use yftpserver.Platform.{Platform}
use yftpserver.Network.{Network}
use yftpserver.Reply.{create}
use yftpserver.Common.{get_or}
use yftpserver.ClientNode.{DataMode, is_waiting, Turn, answer, answer_text, set_client}
use yftpserver.ClientNode.DataPort.{
  past_end, pasv_text, try_ports, any_port, listen_on_port, process_pasv_cmd,
}
use yftpserver.ClientNode.Reconnecting.{reset_to, reset_data_mode_returns}

module _ {F : Type 0} ⦃net : Network F⦄ where
  -- What the loop over the ports of a range changes, and what it says of it.
  data Tried (t : Turn F) : Turn F × Bool → Type 0 where
    bound :
        (port next : ℕ) (sys : F)
        → (net.bind_listen t.client.server_ip port sys).1 ≡ true
        → Tried t (
          record t {
            client = record t.client { data_port = port };
            system = (net.bind_listen t.client.server_ip port sys).0;
            cur_end_port = some next;
          },
          true,
        )
    unbound :
        (port : ℕ) (cursor : Option ℕ) (sys : F)
        → Tried t (
          record t {
            client = record t.client { data_port = port };
            system = sys;
            cur_end_port = cursor;
          },
          false,
        )

  Tried-later :
      (t : Turn F) (port : ℕ) (cursor : Option ℕ) (sys : F) (r : Turn F × Bool)
      → Tried
          (record t {
            client = record t.client { data_port = port };
            system = sys;
            cur_end_port = cursor;
          })
          r
      → Tried t r
  Tried-later t port cursor sys r (bound port' next sys' e) = bound port' next sys' e
  Tried-later t port cursor sys r (unbound port' cursor' sys') = unbound port' cursor' sys'

  try_ports-Tried :
      (tries start num cur : ℕ) (t : Turn F) → Tried t (try_ports tries start num cur t)
  unfolding try_ports
  try_ports-Tried zero start num cur t = unbound t.client.data_port (some cur) _
  try_ports-Tried (suc tries) start num cur t =
      let next = if past_end start num ((cur + 1) % 65536) then start else (cur + 1) % 65536 in
      elim (Bool-cases (net.bind_listen t.client.server_ip cur t.system).1) [
        | inl done ↦ rw done (bound cur next t.system done)
        | inr refused ↦ rw refused (
            Tried-later t cur (some next) (net.bind_listen t.client.server_ip cur t.system).0 _
              (try_ports-Tried tries start num next _))
      ]

  first_refused :
      (tries start num cur : ℕ) (t : Turn F)
      → (try_ports (suc tries) start num cur t).1 ≡ false
      → (net.bind_listen t.client.server_ip cur t.system).1 ≡ false
  unfolding try_ports
  first_refused tries start num cur t e = ground arith

module _ {F : Type 0} ⦃p : Platform⦄ ⦃net : Network F⦄ where
  -- A client that is told where the server listens, in passive mode; or one that is told that it does not,
  -- where the system has refused an acceptor or a port.
  pub data PasvAnswer (num : ℕ) (t s : Turn F) : Type 0 where
    listens :
        (port : ℕ) (sys : F)
        → (net.bind_listen t.client.server_ip port sys).1 ≡ true
        → s.system ≡ (net.bind_listen t.client.server_ip port sys).0
        → port ≡ (if num == 0 then 0 else port)
        → s.client.data_port ≡ (if num == 0 then net.local_port s.system else port)
        → s.client.cur_data_mode ≡ DataMode.mode_pasv
        → s.reply ≡ create 227 (pasv_text t.client.server_ip s.client.data_port) t.reply
        → PasvAnswer num t s
    refused :
        (port : ℕ) (sys : F) (text : String)
        → ((net.open_acceptor sys).1 ≡ false)
          ⊎ ((net.bind_listen t.client.server_ip port sys).1 ≡ false)
        → s.client.cur_data_mode ≡ DataMode.mode_none
        → s.reply ≡ create 451 (lit text) t.reply
        → PasvAnswer num t s

  -- What `listen_on_port` makes of the result of the loop.
  abbrev pub after_ports : Turn F × Bool → Turn F
  after_ports (b, done) =
      if done
      then answer_text 227 (pasv_text b.client.server_ip b.client.data_port)
          (set_client (record b.client { cur_data_mode = DataMode.mode_pasv }) b)
      else answer 451 "Internal error - No more data port available." b

  -- What it makes of a port of the system's choice.
  abbrev after_any : Turn F × Bool → Turn F
  after_any (b, done) =
      if done
      then answer_text 227 (pasv_text b.client.server_ip b.client.data_port)
          (set_client (record b.client { cur_data_mode = DataMode.mode_pasv }) b)
      else answer 451 "Internal error - Binding Or Listening failed." b

  -- A client without a data mode, with an acceptor.
  abbrev pub ready : F → Turn F → Turn F
  ready sys t = record t {
    client = record t.client { cur_data_mode = DataMode.mode_none; has_data_acceptor = true };
    system = sys;
  }

  -- What it makes of the opening of the acceptor.
  abbrev pub after_opening : Turn F → F → Bool → Turn F → Turn F
  after_opening t sys opened s =
      if not opened then answer 451 "451 Internal error - open socket fail." (ready sys t) else s

  listen_on_any :
      (start num : ℕ) (sys : F) (t : Turn F)
      → (num == 0) ≡ true
      → listen_on_port start num (reset_to sys t)
        ≡ after_opening t
            (net.open_acceptor sys).0
            (net.open_acceptor sys).1
            (after_any (any_port (ready (net.open_acceptor sys).0 t)))
  unfolding listen_on_port
  listen_on_any start num sys t any = rw any refl

  pub listen_on_range :
      (start num : ℕ) (sys : F) (t : Turn F)
      → (num == 0) ≡ false
      → listen_on_port start num (reset_to sys t)
        ≡ after_opening t (net.open_acceptor sys).0 (net.open_acceptor sys).1 (
            after_ports (
              try_ports 10 start num
                (get_or t.cur_end_port start)
                (ready (net.open_acceptor sys).0 t)))
  unfolding listen_on_port
  listen_on_range start num sys t ranged = rw ranged refl

  opening-PasvAnswer :
      (num : ℕ) (t : Turn F) (sys : F) (s : Turn F)
      → PasvAnswer num t s
      → PasvAnswer num t (after_opening t (net.open_acceptor sys).0 (net.open_acceptor sys).1 s)
  opening-PasvAnswer num t sys s answered = elim (Bool-cases (net.open_acceptor sys).1) [
    | inr shut ↦ rw shut (refused 0 sys _ (inl shut) refl refl)
    | inl up ↦ rw up answered
  ]

  any_PasvAnswer :
      (num : ℕ) (sys : F) (t : Turn F)
      → (num == 0) ≡ true
      → PasvAnswer num t (after_any (any_port (ready sys t)))
  unfolding any_port
  any_PasvAnswer num sys t any = elim (Bool-cases (net.bind_listen t.client.server_ip 0 sys).1) [
    | inl done ↦ rw done (listens 0 sys done refl (rw any refl) (rw any refl) refl refl)
    | inr no_port ↦ rw no_port (refused 0 sys _ (inr no_port) refl refl)
  ]

  ports-PasvAnswer :
      (num : ℕ) (t : Turn F) (sys : F) (cur : ℕ) (r : Turn F × Bool)
      → (num == 0) ≡ false
      → Tried (ready sys t) r
      → (r.1 ≡ true) ⊎ ((net.bind_listen t.client.server_ip cur sys).1 ≡ false)
      → PasvAnswer num t (after_ports r)
  ports-PasvAnswer num t sys cur r ranged (bound port next sys' e) why =
      listens port sys' e refl (rw ranged refl) (rw ranged refl) refl refl
  ports-PasvAnswer num t sys cur r ranged (unbound port cursor sys') (inl done) = cc
  ports-PasvAnswer num t sys cur r ranged (unbound port cursor sys') (inr no_port) =
      refused cur sys _ (inr no_port) refl refl

  range_PasvAnswer :
      (num : ℕ) (t : Turn F) (sys : F) (start cur : ℕ)
      → (num == 0) ≡ false
      → PasvAnswer num t (after_ports (try_ports 10 start num cur (ready sys t)))
  range_PasvAnswer num t sys start cur ranged =
      ports-PasvAnswer num t sys cur _ ranged (try_ports-Tried 10 start num cur (ready sys t))
        (elim (Bool-cases (try_ports 10 start num cur (ready sys t)).1) [
          | inl done ↦ inl done
          | inr none_free ↦ inr (first_refused 9 start num cur (ready sys t) none_free)
        ])

  -- PASV, on a client that transfers nothing and does not encrypt its data connection, returns. Either the
  -- server has bound its acceptor to the address of the control connection, at a port of its own choice if
  -- a range is set and at any port if none is; the client is then in passive mode, and is told the address
  -- and the port by the reply 227. Or the system has refused an acceptor or a port; the client then has no
  -- data mode and is told so by the reply 451.
  pub process_pasv_cmd_answers :
      (start num : ℕ) (t : Turn F)
      → is_waiting t.client.cur_status ≡ true
      → t.client.data_use_ssl ≡ false
      → (s : Turn F) × (process_pasv_cmd start num t ≡ ok s) × PasvAnswer num t s
  unfolding process_pasv_cmd
  process_pasv_cmd_answers start num t waiting plain =
      let (sys, e) = reset_data_mode_returns t plain in
      (
        listen_on_port start num (reset_to sys t),
        rw (waiting, e) refl,
        elim (Bool-cases (num == 0)) [
          | inl any ↦
              rw (listen_on_any start num sys t any)
                (opening-PasvAnswer num t sys _ (any_PasvAnswer num _ t any))
          | inr ranged ↦
              rw (listen_on_range start num sys t ranged)
                (opening-PasvAnswer num t sys _ (range_PasvAnswer num t _ start _ ranged))
        ],
      )
