-- ===== src/Tests/Service.antt =====
-- The server as a whole, its listener, and the ways in which it is configured.
use yftpserver.Platform.{byte_library}
use yftpserver.Prelude.{
  ℕ, zero, suc, ◌+◌, ◌<◌, ◌≡◌, refl, Bool, true, false, not, [], ◌∷◌, List, Option, none, some,
  is_empty, lit, text_eq, pos, ok, if◌then◌else◌, ◌==◌, arith,
}
use yftpserver.Network.{Acceptor, ListensWhereBound}
use yftpserver.Reply.{decimal, decimal_digits}
use yftpserver.FtpServer.{World, find_client, find_in_users, end_work}
use yftpserver.FtpServer.Configuration.{set_data_port_range}
use yftpserver.Connection.{Handled, handle_read}
use yftpserver.Connection.Reachable.{new_world, reads, ranges, Reachable, made, after}
use yftpserver.Connection.Soundness.{Holds}
use yftpserver.Connection.Invariant.{Reachable-Holds}
use yftpserver.Listener.{Listener, new_listener, stop_listening, start_listening}
use yftpserver.Listener.Refinement.{start_listening_outcome, stop_listening_outcome}
use yftpserver.Listener.Accepting.{accept_all, accept_all-before_failure}
use yftpserver.Native.{Native}
use yftpserver.ConfigFile.{ConfigSource, user_info, load_users}
use yftpserver.ConfigFile.Loading.{user_lines, load_lines, load_users-load_lines}
use yftpserver.Tests.{
  ascii, disk, sockets, ann, bob, two_users, fresh_client, named_client, world_of,
}

-- A server whose passive ports were set, and to which an unknown connection was lost.
abbrev first_world : World ℕ
first_world = new_world (λ a. fresh_client) 0

abbrev ranged_world : World ℕ
ranged_world = record first_world { data_port_start = 2000; data_port_num = 10 }

abbrev lost : Handled ℕ
lost = record { world = ranged_world; sent = []; started = []; reads_on = false }

ranged : Reachable ranged_world
unfolding set_data_port_range
ranged = after (made (λ a. fresh_client) 0) (ranges 2000 10)

nothing_lost : handle_read 5 7 none ranged_world ≡ ok lost
unfolding handle_read end_work find_client find_in_users
nothing_lost = refl

Reachable-Holds_example : Holds ranged_world
Reachable-Holds_example = Reachable-Holds (after ranged (reads 5 7 none lost nothing_lost))

-- An acceptor that cannot be bound to port 21: where it listens, and where it was bound.
instance abbrev pub acceptor : Acceptor (Option (ℕ × ℕ) × (ℕ × ℕ))
acceptor = record {
  open_socket = λ s. (s, true);
  reuse_address = λ s. (s, true);
  bind = λ addr port s. (if port == 21 then (s, false) else ((s.0, (addr, port)), true));
  listen = λ s. ((some s.1, s.1), true);
  is_open = λ s. true;
  cancel = λ s. s;
  close = λ s. ((none, s.1), true);
  endpoint = λ s. s.0;
  bound = λ s. s.1;
}

pub acceptor-ListensWhereBound : ListensWhereBound acceptor
acceptor-ListensWhereBound = record {
  open_keeps = λ sys. refl;
  reuse_keeps = λ sys. refl;
  bind_keeps = λ addr port sys. ground arith;
  bind_binds = λ addr port sys e. ground arith;
  listen_listens = λ sys e. refl;
  listen_fails = λ sys e. cc;
  close_closes = λ sys. refl;
}

abbrev listening : Listener
listening = record new_listener { is_listening = true }

abbrev up_at : Option (ℕ × ℕ) × (ℕ × ℕ)
up_at = (some (0, 2121), (0, 2121))

-- A server that listens is started at a port that is taken.
start_listening_outcome_example :
    let (l', sys', ret) = start_listening ⦃a = acceptor⦄ 0 21 listening up_at in
    (ret ≡ false)
    × (acceptor.endpoint sys' ≡ none)
    × (l'.is_listening ≡ false)
    × (l'.port ≡ listening.port)
start_listening_outcome_example =
    start_listening_outcome acceptor-ListensWhereBound 0 21 listening up_at (λ e. cc)

-- An acceptor whose `close` reports an error.
abbrev failing : Acceptor (Option (ℕ × ℕ) × (ℕ × ℕ))
failing = record acceptor { close = λ s. ((none, s.1), false) }

failing-ListensWhereBound : ListensWhereBound failing
failing-ListensWhereBound = record {
  open_keeps = λ sys. refl;
  reuse_keeps = λ sys. refl;
  bind_keeps = λ addr port sys. ground arith;
  bind_binds = λ addr port sys e. ground arith;
  listen_listens = λ sys e. refl;
  listen_fails = λ sys e. cc;
  close_closes = λ sys. refl;
}

stop_listening_outcome_example :
    let (l', sys', ret) = stop_listening ⦃a = failing⦄ listening up_at in
    (failing.endpoint sys' ≡ none) × (ret ≡ false) × (l'.is_listening ≡ not ret)
stop_listening_outcome_example =
    stop_listening_outcome ⦃a = failing⦄ failing-ListensWhereBound listening up_at (λ e. cc)

abbrev ends : List Bool
ends = false ∷ false ∷ true ∷ false ∷ []

accept_all-before_failure_example :
    ((accept_all ends (record new_listener { pending = 1 })).1 ≡ 2)
    × ((accept_all ends (record new_listener { pending = 1 })).0.is_listening ≡ false)
accept_all-before_failure_example =
    accept_all-before_failure ends (record new_listener { pending = 1 }) refl

abbrev app : Native ℕ
app = record {
  g_listen_port = 21;
  g_start_dir = [];
  g_priv = 1;
  g_allow_anonymous = true;
  g_username = ann;
  g_password = ann;
  server = record (world_of named_client) { users = two_users };
  listener = new_listener;
}

-- A configuration file with one user.
abbrev one_user : ConfigSource
one_user = record {
  get_string = λ key default. if text_eq key (lit "ftp.server.user1") then ann else [];
  split = λ compress separators text. bob ∷ bob ∷ [] ∷ (b'r' ∷ []) ∷ [];
  c_library = byte_library;
  atoi = λ text. pos 0;
}

one_line : (k : ℕ) → k < 1 → is_empty (user_info one_user (1 + k)) ≡ false
unfolding user_info lit text_eq decimal decimal_digits
one_line zero h = refl
one_line (suc k) h = absurd (omega arith)

load_users-load_lines_example :
    load_users one_user 5 1 [] false first_world
    ≡ load_lines one_user [] (user_lines one_user 1 1) false first_world
unfolding user_info lit text_eq decimal decimal_digits
load_users-load_lines_example =
    load_users-load_lines one_user [] 1 5 1 false first_world (omega arith) one_line refl
