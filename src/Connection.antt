-- ===== src/Connection.antt =====
-- jni/yftp/connection.h and jni/yftp/connection.cpp: one connection reads pieces of input, hands each to
-- the server, and sends the reply; jni/yftp/main.cpp does the same under `SERVER_APP`. A piece has at
-- most the 8192 bytes of `buffer_`.
pub mod Reachable
pub mod Soundness
pub mod Invariant
pub mod Anonymous
pub mod Interleaving
pub mod Lifetime
use yftpserver.Prelude.{
  ℕ, Bool, true, false, Bytes, [], ◌∷◌, ◌++◌, List, Option, none, some, if◌then◌else◌, is_empty,
  Outcome, ok, ◌>>=◌,
}
use yftpserver.Platform.{Platform}
use yftpserver.FileSystem.{FileSystem}
use yftpserver.Network.{Network}
use yftpserver.Reply.{new_reply}
use yftpserver.ClientNode.{Job}
use yftpserver.FtpServer.{World, Served, start_work, process_command, end_work}

-- What a connection has done with one event: the world, what it sends, the threads that were started, and
-- whether it reads again.
pub record Handled (F : Type 0) : Type 0 where
  pub world : World F
  pub sent : List Bytes
  pub started : List Job
  pub reads_on : Bool

-- `ftpreply.empty() == false`: only such a reply is sent.
abbrev pub reply_bytes : Bytes → List Bytes
reply_bytes bytes = if is_empty bytes then [] else bytes ∷ []

module _ {F : Type 0} ⦃p : Platform⦄ where
  -- `connection::start`.
  unfoldable pub start : World F → Handled F
  start w = record {
    world = w;
    sent = reply_bytes (start_work new_reply).content;
    started = [];
    reads_on = true;
  }

module _ {F : Type 0} ⦃p : Platform⦄ ⦃os : FileSystem F⦄ ⦃net : Network F⦄ where
  unfoldable pub after_command : ℕ → Served F → Outcome (Handled F)
  after_command socket s = (if s.ret then ok s.world else end_work socket s.world) >>= λ w.
      ok (record {
        world = w;
        sent = s.sent ++ reply_bytes s.reply.content;
        started = s.started;
        reads_on = s.ret;
      })

  -- `connection::handle_read`, with the bytes that were read, or `none` where the read failed.
  unfoldable pub handle_read : ℕ → ℕ → Option Bytes → World F → Outcome (Handled F)
  handle_read fuel socket none w = end_work socket w >>= λ w'.
      ok (record { world = w'; sent = []; started = []; reads_on = false })
  handle_read fuel socket (some bytes) w =
      process_command fuel socket bytes new_reply w >>= after_command socket

  -- `FtpServerApp::on_process_data`: here the connection is closed when it does not go on, and
  -- `on_close` ends its work once more.
  unfoldable pub on_process_data : ℕ → ℕ → Bytes → World F → Outcome (Handled F)
  on_process_data fuel socket bytes w = do
    h ← handle_read fuel socket (some bytes) w
    w' ← if h.reads_on then ok h.world else end_work socket h.world
    ok (record h { world = w' })
