-- ===== src/FtpServer/Accounts.antt =====
-- What commands, threads and the end of a connection do to the accounts.
use yftpserver.Prelude.{
  ℕ, ◌≡◌, Bool, true, Bytes, Option, Option-cases, inl, inr, Bool-cases, is_empty, Outcome, ok,
  fault, thrown, running, Returns, Returns-bind, Returns-last,
}
use yftpserver.Platform.{Platform}
use yftpserver.FileSystem.{FileSystem}
use yftpserver.Network.{Network}
use yftpserver.Reply.{Reply, new_reply}
use yftpserver.Commands.{Commands, TCommand}
use yftpserver.RequestParser.{Parsed, parse}
use yftpserver.UserNode.{UserNode}
use yftpserver.UserManager.{UserManager}
use yftpserver.ClientNode.{Turn, Job, list_job, store_job, retrieve_job}
use yftpserver.ClientNode.Login.{Login, process_user_cmd, end_client}
use yftpserver.ClientNode.Invariance.{
  SeatInvariant, KeepsSeats, process_user_cmd-KeepsSeats, process_password_cmd-Kept,
  process_rein_cmd-Kept, end_client-Kept,
}
use yftpserver.FtpServer.{
  World, Served, find_client, is_owned, client_of, handle, execute, process_command, end_work,
  config_of,
}
use yftpserver.FtpServer.Dispatch.{Config, turn_handler, login_handler, dispatch, dispatch_files}
use yftpserver.FtpServer.Jobs.{thread_of, run_job}

KeepsSeats-Returns :
    (P : UserManager → Type 0) (s : Login) (x : Outcome Login)
    → KeepsSeats P s x
    → Returns (λ t. P t.users) x
KeepsSeats-Returns P s (ok t) h = h
KeepsSeats-Returns P s fault h = tt
KeepsSeats-Returns P s thrown h = tt
KeepsSeats-Returns P s running h = tt

-- What the configuration operations alone change.
abbrev pub settings : {F : Type 0} → World F → Bool × ℕ × ℕ
settings w = (w.is_allow_anonymous, w.data_port_start, w.data_port_num)

-- A world like `v` in its settings, with accounts of which the predicate holds.
abbrev pub Kept : {F : Type 0} → (UserManager → Type 0) → World F → World F → Type 0
Kept P v w = P w.users × (settings w ≡ settings v)

module _ (P : UserManager → Type 0) (inv : SeatInvariant P) {F : Type 0} (v : World F) where
  abbrev pub KeepsUsers : Outcome (Served F) → Type 0
  KeepsUsers = Returns (λ s. Kept P v s.world)

  login-KeepsUsers :
      (h : ℕ → Login → Outcome Login) (me : ℕ) (r : Reply) (w : World F)
      → ((s : Login) → P s.users → Returns (λ t. P t.users) (h me s))
      → Kept P v w
      → KeepsUsers (handle (login_handler h) me r w)
  unfolding handle
  login-KeepsUsers h me r w kept good =
      let s : Login = record { users = w.users; client = w.clients me; reply = r; ret = true } in
      Returns-bind (λ t. P t.users) (λ s. Kept P v s.world) (h me s) _ (kept s good.0)
        (λ t k. (k, good.1))

  -- A handler on one client leaves the accounts alone.
  turn-KeepsUsers :
      (h : Option UserNode → Turn F → Outcome (Turn F)) (me : ℕ) (r : Reply) (w : World F)
      → Kept P v w
      → KeepsUsers (handle (turn_handler h) me r w)
  unfolding handle
  turn-KeepsUsers h me r w good = Returns-last (λ s. Kept P v s.world) (h _ _) _ (λ t. good)

  pub end_work-Kept :
      (socket : ℕ) (w : World F) → Kept P v w → Returns (λ w'. Kept P v w') (end_work socket w)
  unfolding end_work
  end_work-Kept socket w good = elim (Option-cases (find_client socket w)) [
    | inl e ↦ rw (e, end_work) good
    | inr (me, e) ↦
        let s : Login = record {
          users = w.users;
          client = w.clients me;
          reply = new_reply;
          ret = true;
        } in
        rw (e, end_work)
          (Returns-bind (λ t. P t.users) (λ w'. Kept P v w') (end_client me s) _
            (end_client-Kept inv me s good.0) (λ t k. (k, good.1)))
  ]

module _ (P : UserManager → Type 0) (inv : SeatInvariant P) {F : Type 0} ⦃p : Platform⦄
    ⦃os : FileSystem F⦄ ⦃net : Network F⦄ (v : World F) where
  dispatch-KeepsUsers :
      (k : Config) (id : Commands) (cmd : TCommand) (me : ℕ) (r : Reply) (w : World F)
      → Kept P v w
      → KeepsUsers P inv v (handle (dispatch k id cmd) me r w)
  unfolding dispatch dispatch_files
  dispatch-KeepsUsers k Commands.user cmd me r w good =
      login-KeepsUsers P inv v (λ me. process_user_cmd k.is_allow_anonymous me cmd.args) me r w
        (λ s h.
          KeepsSeats-Returns P s _
            (process_user_cmd-KeepsSeats inv k.is_allow_anonymous me cmd.args s h))
        good
  dispatch-KeepsUsers k Commands.pass cmd me r w good =
      login-KeepsUsers P inv v _ me r w (λ s h. process_password_cmd-Kept inv me cmd.args s h) good
  dispatch-KeepsUsers k Commands.rein cmd me r w good =
      login-KeepsUsers P inv v _ me r w (λ s h. process_rein_cmd-Kept inv me s h) good
  dispatch-KeepsUsers k Commands.stat cmd me r w good = elim (Bool-cases (is_empty cmd.args)) [
    | inl e ↦ rw e (turn-KeepsUsers P inv v _ me r w good)
    | inr e ↦ rw e (turn-KeepsUsers P inv v _ me r w good)
  ]
  dispatch-KeepsUsers k _ cmd me r w good = turn-KeepsUsers P inv v _ me r w good

  client_of-Kept : (socket : ℕ) (w : World F) → Kept P v w → Kept P v (client_of socket w).1
  unfolding client_of
  client_of-Kept socket w good = elim (Option-cases (find_client socket w)) [
    | inl e ↦ rw (e, client_of) good
    | inr (me, e) ↦ rw (e, client_of) good
  ]

  execute-KeepsUsers :
      (fuel me : ℕ) (x : Parsed) (r : Reply) (w : World F)
      → Kept P v w
      → KeepsUsers P inv v (execute fuel me x r w)
  unfolding execute
  execute-KeepsUsers fuel me (Parsed.complete cmd) r w good =
      dispatch-KeepsUsers (config_of fuel w) cmd.id cmd me r w good
  execute-KeepsUsers fuel me Parsed.indeterminate r w good = good
  execute-KeepsUsers fuel me Parsed.invalid r w good = good

  -- Whatever the bytes, the command that they complete keeps what entering and leaving an account keep.
  pub process_command-KeepsUsers :
      (fuel socket : ℕ) (pdata : Bytes) (r : Reply) (w : World F)
      → Kept P v w
      → KeepsUsers P inv v (process_command fuel socket pdata r w)
  unfolding process_command
  process_command-KeepsUsers fuel socket pdata r w good =
      let there = client_of-Kept socket w good in
      Returns-last (λ s. Kept P v s.world) (parse pdata _ _) _
        (λ (x, q, r'). execute-KeepsUsers fuel _ x r' _ there)

  thread-KeepsUsers :
      (fuel me : ℕ) (job : Job) (w : World F)
      → Kept P v w
      → KeepsUsers P inv v (handle (thread_of fuel job) me new_reply w)
  unfolding thread_of
  thread-KeepsUsers fuel me (list_job cmd) w good = turn-KeepsUsers P inv v _ me new_reply w good
  thread-KeepsUsers fuel me store_job w good = turn-KeepsUsers P inv v _ me new_reply w good
  thread-KeepsUsers fuel me retrieve_job w good = turn-KeepsUsers P inv v _ me new_reply w good

  pub run_job-KeepsUsers :
      (fuel me : ℕ) (job : Job) (w : World F)
      → Kept P v w
      → KeepsUsers P inv v (run_job fuel me job w)
  unfolding run_job
  run_job-KeepsUsers fuel me job w good = elim (Bool-cases (is_owned me w)) [
    | inl owned ↦ rw owned (thread-KeepsUsers fuel me job w good)
    | inr freed ↦ rw freed tt
  ]
