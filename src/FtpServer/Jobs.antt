-- ===== src/FtpServer/Jobs.antt =====
-- jni/yftp/client_node.cpp: the threads of the transfers, each on the client node that started it.
use yftpserver.Prelude.{ℕ, ◌≡◌, true, [], if◌then◌else◌, Outcome, ok, fault, arith}
use yftpserver.Platform.{Platform}
use yftpserver.FileSystem.{FileSystem}
use yftpserver.Network.{Network}
use yftpserver.Reply.{new_reply}
use yftpserver.ClientNode.{Turn, Job, list_job, store_job, retrieve_job}
use yftpserver.ClientNode.Threads.Listing.{list_thread}
use yftpserver.ClientNode.Threads.Store.{store_thread}
use yftpserver.ClientNode.Threads.Retrieve.{retrieve_thread}
use yftpserver.ClientNode.Threads.Steps.{Stepped}
use yftpserver.FtpServer.{World, Served, is_owned, handle, set_client_at}
use yftpserver.FtpServer.Dispatch.{Handler, turn_handler}

module _ {F : Type 0} ⦃p : Platform⦄ ⦃os : FileSystem F⦄ ⦃net : Network F⦄ where
  -- The body of a thread. `fuel` bounds the blocks that it transfers.
  unfoldable pub thread_of : ℕ → Job → Handler F
  thread_of fuel (list_job cmd) = turn_handler (list_thread cmd)
  thread_of fuel store_job = turn_handler (λ _. store_thread fuel)
  thread_of fuel retrieve_job = turn_handler (λ _. retrieve_thread fuel)

  -- What a thread sees of the server when it goes on, on the client node at `me`, and what it leaves.
  -- A thread makes replies of its own.
  abbrev pub turn_at : ℕ → World F → Turn F
  turn_at me w = record {
    client = w.clients me;
    system = w.system;
    sent = [];
    started = [];
    reply = new_reply;
    cur_end_port = w.cur_end_port;
    ret = true;
  }

  abbrev pub put_back : ℕ → Turn F → World F → World F
  put_back me t w = record (set_client_at me t.client w) {
    system = t.system;
    cur_end_port = t.cur_end_port;
  }

  -- A thread holds no `shared_ptr` on its client node, only the node's address: on a node that no list
  -- holds any more, it uses an object that was destroyed.
  unfoldable pub run_job : ℕ → ℕ → Job → World F → Outcome (Served F)
  run_job fuel me job w =
      if is_owned me w then handle (thread_of fuel job) me new_reply w else fault

  unfoldable pub job_step : (Turn F → Outcome (Stepped F)) → ℕ → World F → Outcome (Stepped F)
  job_step step me w = if is_owned me w then step (turn_at me w) else fault

  pub job_step-ok :
      (step : Turn F → Outcome (Stepped F)) (me : ℕ) (w : World F) {s : Stepped F}
      → job_step step me w ≡ ok s
      → step (turn_at me w) ≡ ok s
  unfolding job_step
  job_step-ok step me w e = ground arith
