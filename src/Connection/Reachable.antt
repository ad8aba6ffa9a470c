-- ===== src/Connection/Reachable.antt =====
-- The states that the server can reach: by what connections send, by its threads, by the application
-- that configures it, and by the world outside.
use yftpserver.Prelude.{ℕ, ◌≡◌, Bool, false, WString, Bytes, Option, none, ok}
use yftpserver.Platform.{Platform}
use yftpserver.FileSystem.{FileSystem}
use yftpserver.Network.{Network}
use yftpserver.UserManager.{new_user_manager}
use yftpserver.ClientNode.{ClientNode, Job}
use yftpserver.ClientNode.Threads.Steps.{Point, Stepped, retrieve_step, store_step}
use yftpserver.FtpServer.{World, Served}
use yftpserver.FtpServer.Configuration.{
  set_data_port_range, set_user_privilege, set_user_password, set_user_home_directory, add_user,
  allow_anonymous,
}
use yftpserver.FtpServer.Jobs.{run_job, job_step, put_back}
use yftpserver.Connection.{Handled, handle_read}

-- A server as it is made, on a table of client nodes of which none is in use.
abbrev pub new_world : {F : Type 0} → (ℕ → ClientNode) → F → World F
new_world clients sys = record {
  users = new_user_manager;
  clients = clients;
  next_client = 0;
  is_allow_anonymous = false;
  last_error = 0;
  data_port_start = 0;
  data_port_num = 0;
  cur_end_port = none;
  system = sys;
}

module _ {F : Type 0} ⦃p : Platform⦄ ⦃os : FileSystem F⦄ ⦃net : Network F⦄ where
  -- One event: input of a connection, or its end; a thread, on any client node that is alive, as a whole or,
  -- for a download and an upload, one step of it; a call of the application; or a change of the world outside.
  pub data Step : World F → World F → Type 0 where
    reads :
        {w : World F} (fuel socket : ℕ) (e : Option Bytes) (h : Handled F)
        → handle_read fuel socket e w ≡ ok h
        → Step w h.world
    runs :
        {w : World F} (fuel me : ℕ) (job : Job) (s : Served F)
        → run_job fuel me job w ≡ ok s
        → Step w s.world
    sends :
        {w : World F} (me : ℕ) (pt : Point) (s : Stepped F)
        → job_step (retrieve_step pt) me w ≡ ok s
        → Step w (put_back me s.turn w)
    receives :
        {w : World F} (me : ℕ) (pt : Point) (s : Stepped F)
        → job_step (store_step pt) me w ≡ ok s
        → Step w (put_back me s.turn w)
    adds :
        {w w' : World F} {ret : Bool} (name password home_dir : WString) (priv : ℕ)
        → add_user name password home_dir priv w ≡ ok (w', ret)
        → Step w w'
    moves :
        {w w' : World F} {ret : Bool} (name home_dir : WString)
        → set_user_home_directory name home_dir w ≡ ok (w', ret)
        → Step w w'
    allows :
        {w w' : World F} {ret : Bool} (do_allow : Bool) (home_dir : WString) (priv : ℕ)
        → allow_anonymous do_allow home_dir priv w ≡ ok (w', ret)
        → Step w w'
    grants : {w : World F} (name : WString) (priv : ℕ) → Step w (set_user_privilege name priv w).0
    renews : {w : World F} (name password : WString) → Step w (set_user_password name password w).0
    ranges :
        {w : World F} (port_start number : ℕ) → Step w (set_data_port_range port_start number w).0
    outside : {w : World F} (sys : F) → Step w (record w { system = sys })

  pub data Reachable : World F → Type 0 where
    made : (clients : ℕ → ClientNode) (sys : F) → Reachable (new_world clients sys)
    after : {w w' : World F} → Reachable w → Step w w' → Reachable w'
