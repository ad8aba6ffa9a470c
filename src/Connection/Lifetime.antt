-- ===== src/Connection/Lifetime.antt =====
-- How long a client node lives, jni/yftp/client_node.cpp: the threads hold its address, the accounts alone
-- the references that keep it alive.
use yftpserver.Prelude.{
  ℕ, ◌-◌, ◌≤◌, ◌<◌, ◌≡◌, refl, true, false, [], ◌∷◌, List, none, some, update, count, if◌then◌else◌,
  ◌==◌, Bool-cases, inl, inr, lit, Outcome, ok, fault, arith,
}
use yftpserver.Platform.{Platform}
use yftpserver.FileSystem.{FileSystem}
use yftpserver.Network.{Network}
use yftpserver.Reply.{Reply, create}
use yftpserver.Commands.{Commands, TCommand}
use yftpserver.UserNode.{UserNode, delete_client}
use yftpserver.UserNode.Limits.{count-erase_client}
use yftpserver.UserManager.{set_node}
use yftpserver.ClientNode.{Turn, Job}
use yftpserver.ClientNode.Login.{leave_user, end_client, process_rein_cmd}
use yftpserver.ClientNode.Threads.Steps.{Stepped}
use yftpserver.FtpServer.{World, Served, handle, find_client, references, is_owned, end_work}
use yftpserver.FtpServer.Dispatch.{Config, dispatch}
use yftpserver.FtpServer.Jobs.{run_job, job_step}
use yftpserver.Connection.{Handled, handle_read}

module _ (me a : ℕ) (node : ℕ → UserNode) where
  -- The accounts once the client has left the one at `a`.
  abbrev left : ℕ → UserNode
  left = update node a (delete_client me (node a))

  count-left :
      (b : ℕ)
      → count me (left b).ftp_client_list ≡ (
          if a == b
          then count me (node a).ftp_client_list - 1
          else count me (node b).ftp_client_list)
  count-left b = ground (arith, count-erase_client me (node a).ftp_client_list)

  references-le : (l : List ℕ) → references me left l ≤ references me node l
  unfolding references
  references-le [] = omega arith
  references-le (b ∷ l) = ground (arith, count-left b, references-le l)

  -- A list that is shared by no other account gives a reference back.
  references-lt :
      (l : List ℕ)
      → 0 < count a l
      → 0 < count me (node a).ftp_client_list
      → references me left l < references me node l
  unfolding references
  references-lt [] listed seat = absurd (omega arith)
  references-lt (b ∷ l) listed seat = elim (Bool-cases (b == a)) [
    | inl hit ↦ ground (arith, count-left b, references-le l)
    | inr other ↦
        let later : 0 < count a l = ground arith in
        ground (arith, count-left b, references-lt l later seat)
  ]

module _ {F : Type 0} ⦃p : Platform⦄ ⦃os : FileSystem F⦄ ⦃net : Network F⦄ where
  -- The world when the connection of the client node at `me` has ended, which used the account at `a`.
  abbrev pub without : ℕ → ℕ → World F → World F
  without me a w = record w {
    users = set_node a (delete_client me (w.users.node a)) w.users;
    clients = update w.clients me (record (w.clients me) { is_ctrl_canal_open = false });
  }

  ended :
      (fuel socket me a : ℕ) (w : World F)
      → find_client socket w ≡ some me
      → (w.clients me).user ≡ some a
      → handle_read fuel socket none w
        ≡ ok (record { world = without me a w; sent = []; started = []; reads_on = false })
  unfolding handle_read end_work end_client leave_user
  ended fuel socket me a w found at = rw (found, end_work) (rw at refl)

  freed :
      (me a : ℕ) (w : World F)
      → 0 < count a w.users.ftp_user_list
      → 0 < count me (w.users.node a).ftp_client_list
      → references me w.users.node w.users.ftp_user_list ≡ 1
      → is_owned me (without me a w) ≡ false
  unfolding is_owned
  freed me a w listed seat last =
      let fewer = references-lt me a w.users.node w.users.ftp_user_list listed seat in
      ground (arith, fewer)

  -- A connection ends whose client node has one place, in the account that it points at, and in no other
  -- list, while a thread of the node is at work. The node is then destroyed: the next step of the thread,
  -- whatever it is, and a thread that was started and has not begun, use an object that is gone.
  pub thread_after_end :
      (fuel socket me a blocks : ℕ) (w : World F) (step : Turn F → Outcome (Stepped F)) (job : Job)
      → find_client socket w ≡ some me
      → (w.clients me).user ≡ some a
      → 0 < count a w.users.ftp_user_list
      → 0 < count me (w.users.node a).ftp_client_list
      → references me w.users.node w.users.ftp_user_list ≡ 1
      → (h : Handled F) × (handle_read fuel socket none w ≡ ok h)
        × (job_step step me h.world ≡ fault)
        × (run_job blocks me job h.world ≡ fault)
  unfolding job_step run_job
  thread_after_end fuel socket me a blocks w step job found at listed seat last =
      let gone = freed me a w listed seat last in
      (_, ended fuel socket me a w found at, rw gone refl, rw gone refl)

  -- REIN is accepted while a thread of the client node is at work. If the node has one place, in the account
  -- that it points at, and in no other list, it is then destroyed, although the connection goes on: the next
  -- step of the thread, whatever it is, uses an object that is gone.
  pub thread_after_rein :
      (k : Config) (cmd : TCommand) (me a : ℕ) (r : Reply) (w : World F)
      (step : Turn F → Outcome (Stepped F))
      → (w.clients me).user ≡ some a
      → 0 < count a w.users.ftp_user_list
      → 0 < count me (w.users.node a).ftp_client_list
      → references me w.users.node w.users.ftp_user_list ≡ 1
      → (s : Served F) × (handle (dispatch k Commands.rein cmd) me r w ≡ ok s)
        × (s.ret ≡ true)
        × (s.reply ≡ create 200 (lit "Reinitialize Successful.") r)
        × (job_step step me s.world ≡ fault)
  unfolding handle dispatch process_rein_cmd job_step is_owned
  thread_after_rein k cmd me a r w step at listed seat last =
      let gone = freed me a w listed seat last in (_, refl, refl, refl, rw at (rw gone refl))
