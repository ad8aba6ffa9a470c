-- ===== src/FtpServer/Disconnect.antt =====
-- The end of a connection whose client node is still listed by an account that it no longer points at.
use yftpserver.Prelude.{
  ℕ, ◌≡◌, refl, ◌∙◌, inl, inr, Bool, true, false, WString, [], ◌∷◌, List, Option-cases, none, some,
  update, ==_refl, ok, fault, arith,
}
use yftpserver.Platform.{Platform}
use yftpserver.Reply.{Reply}
use yftpserver.UserNode.{UserNode, delete_client}
use yftpserver.UserManager.{set_node}
use yftpserver.ClientNode.{ClientNode}
use yftpserver.ClientNode.Login.{
  leave_user, log_out, login_answer, enabled_user, enter_named, user_named, process_user_cmd,
  end_client,
}
use yftpserver.ClientNode.Authentication.{IsNamed}
use yftpserver.FtpServer.{
  World, Served, find_in_list, find_in_users, find_client, set_client_at, handle, end_work,
}
use yftpserver.FtpServer.Dispatch.{login_handler}

find_in_list-update :
    (clients : ℕ → ClientNode) (me : ℕ) (c : ClientNode) (socket : ℕ) (l : List ℕ)
    → c.ctrl_socket ≡ (clients me).ctrl_socket
    → find_in_list (update clients me c) socket l ≡ find_in_list clients socket l
unfolding find_in_list
find_in_list-update clients me c socket [] same = refl
find_in_list-update clients me c socket (x ∷ l) same =
    ground (arith, find_in_list-update clients me c socket l same)

find_in_users-update :
    (clients : ℕ → ClientNode) (me : ℕ) (c : ClientNode) (socket : ℕ) (node : ℕ → UserNode)
    (l : List ℕ)
    → c.ctrl_socket ≡ (clients me).ctrl_socket
    → find_in_users (update clients me c) socket node l ≡ find_in_users clients socket node l
unfolding find_in_users
find_in_users-update clients me c socket node [] same = refl
find_in_users-update clients me c socket node (a ∷ rest) same = rw (
  find_in_list-update clients me c socket (node a).ftp_client_list same,
  find_in_users-update clients me c socket node rest same,
)

-- A change of a client node that keeps its socket does not change which node a socket has.
pub find_client-set_client_at :
    {F : Type 0} (me : ℕ) (c : ClientNode) (socket : ℕ) (w : World F)
    → c.ctrl_socket ≡ (w.clients me).ctrl_socket
    → find_client socket (set_client_at me c w) ≡ find_client socket w
unfolding find_client
find_client-set_client_at me c socket w same =
    find_in_users-update w.clients me c socket w.users.node w.users.ftp_user_list same

-- A connection ends well if its node points at an account, or is listed by none.
pub end_work_returns :
    {F : Type 0} (socket : ℕ) (w : World F)
    → ((me : ℕ) → find_client socket w ≡ some me → (a : ℕ) × ((w.clients me).user ≡ some a))
    → (w' : World F) × (end_work socket w ≡ ok w')
unfolding end_work end_client leave_user
end_work_returns socket w points = elim (Option-cases (find_client socket w)) [
  | inl e ↦ (w, rw (e, end_work))
  | inr (me, e) ↦
      let (a, at) = points me e in
      let users = set_node a (delete_client me (w.users.node a)) w.users in
      let c = record (w.clients me) { is_ctrl_canal_open = false } in
      (record (set_client_at me c w) { users = users }, rw (e, end_work, at))
]

end_work_faults :
    {F : Type 0} (socket me : ℕ) (w : World F)
    → find_client socket w ≡ some me
    → (w.clients me).user ≡ none
    → end_work socket w ≡ fault
unfolding end_work end_client leave_user
end_work_faults socket me w found at = rw (found, end_work, at)

-- A client that has named an account, has not logged in, and then names one that does not exist is
-- answered as ever; when its connection ends, the server follows a null pointer.
pub end_work_after_unknown_user :
    {F : Type 0} ⦃p : Platform⦄ (anon : Bool) (socket me : ℕ) (name : WString) (r : Reply)
    (w : World F)
    → find_client socket w ≡ some me
    → (w.clients me).is_logged ≡ false
    → IsNamed anon name
    → enabled_user w.users name ≡ none
    → (s : Served F) × (handle (login_handler (λ a. process_user_cmd anon a name)) me r w ≡ ok s)
      × (s.ret ≡ true)
      × (end_work socket s.world ≡ fault)
unfolding handle process_user_cmd log_out user_named enter_named
end_work_after_unknown_user {F} anon socket me name r w found out named unknown =
    let c = record (w.clients me) { user = none } in
    let t =
      login_answer 331 "Password required for this user."
        (record { users = w.users; client = c; reply = r; ret = true }) in
    let s : Served F = record {
      world = record (set_client_at me c w) { users = w.users };
      reply = t.reply;
      sent = [];
      started = [];
      ret = true;
    } in
    (
      s,
      rw (out, named.0, named.1, unknown),
      refl,
      end_work_faults socket me s.world (find_client-set_client_at me c socket w refl ∙ found)
          (rw (==_refl me)),
    )
