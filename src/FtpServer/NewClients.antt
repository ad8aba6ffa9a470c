-- ===== src/FtpServer/NewClients.antt =====
-- jni/yftp/client_manager.cpp: `client_manager::add_client` on a socket, and `find_client` after it. The
-- server does not call it; it makes its client nodes by `client_node::start`.
use yftpserver.Prelude.{
  ℕ, ◌<◌, ◌≡◌, refl, Bool, true, false, [], ◌∷◌, ◌++◌, List, Option, none, some, if◌then◌else◌,
  ◌==◌, update, lit, All, arith,
}
use yftpserver.Reply.{CodeType}
use yftpserver.ClientNode.{ClientNode, start_client}
use yftpserver.FtpServer.{find_in_list}

-- The constructor `client_node::client_node`.
unfoldable pub new_client_node : ClientNode
new_client_node = record (start_client 0 0 0) { is_ctrl_canal_open = false }

-- On a list of clients and the table that it points into: whether the socket is open, its handle, its two
-- addresses, and a free address of the table. The result is the new table and list, and the client.
unfoldable pub add_client_of_socket :
    Bool → ℕ → ℕ → ℕ → ℕ → (ℕ → ClientNode) → List ℕ → (ℕ → ClientNode) × List ℕ × Option ℕ
add_client_of_socket is_open socket local_ip remote_ip free clients l =
    let at_local = record new_client_node { ctrl_socket = socket; server_ip = local_ip } in
    let new_client = record at_local {
      server_ip = remote_ip;
      code_type = CodeType.utf8;
      current_directory = lit "/";
    } in
    if is_open
    then (update clients free new_client, l ++ free ∷ [], some free)
    else (clients, l, none)

-- A client of another socket, at another address.
abbrev pub IsApart : (ℕ → ClientNode) → ℕ → ℕ → ℕ → Type 0
IsApart clients socket free a = (a < free) × (((clients a).ctrl_socket == socket) ≡ false)

find-append :
    (clients : ℕ → ClientNode) (socket free : ℕ) (c : ClientNode) (l : List ℕ)
    → c.ctrl_socket ≡ socket
    → All (IsApart clients socket free) l
    → find_in_list (update clients free c) socket (l ++ free ∷ []) ≡ some free
unfolding find_in_list
find-append clients socket free c [] e h = ground arith
find-append clients socket free c (a ∷ l) e h =
    ground (arith, find-append clients socket free c l e h.1)

-- A client that is added for an open socket is found by that socket, if no client before it had the socket
-- and its address is free. The address that it holds for the server is that of the peer, and the one that
-- it holds for the peer is 0.
pub find-add_client_of_socket :
    (socket local_ip remote_ip free : ℕ) (clients : ℕ → ClientNode) (l : List ℕ)
    → All (IsApart clients socket free) l
    → let made = add_client_of_socket true socket local_ip remote_ip free clients l in
      (find_in_list made.0 socket made.1 ≡ some free)
      × ((made.0 free).server_ip ≡ remote_ip)
      × ((made.0 free).client_ip ≡ 0)
unfolding add_client_of_socket new_client_node start_client
find-add_client_of_socket socket local_ip remote_ip free clients l h =
    (find-append clients socket free _ l refl h, ground arith, ground arith)
