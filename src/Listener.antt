-- ===== src/Listener.antt =====
-- jni/yftp/server.h and jni/yftp/server.cpp: the server that listens for connections. `run` starts the
-- threads of the io_service and waits for them; a call of a handler is one step here.
pub mod Refinement
pub mod Accepting
use yftpserver.Prelude.{ℕ, suc, ◌-◌, ◌%◌, Bool, true, false, not, ◌&&◌, ◌||◌, if◌then◌else◌, ◌==◌}
use yftpserver.Network.{Acceptor}

-- `bIsListening`, `usPort_` and `is_stopped`; `pending` counts the accepts that were started and whose
-- `handle_accept` has not run.
pub record Listener : Type 0 where
  pub is_listening : Bool
  pub port : ℕ
  pub is_stopped : Bool
  pub pending : ℕ

-- `INADDR_NONE`.
abbrev pub inaddr_none : ℕ
inaddr_none = 0xFFFFFFFF

-- `init`.
abbrev pub new_listener : Listener
new_listener = record { is_listening = false; port = 21; is_stopped = true; pending = 0 }

unfoldable pub set_listening_port : ℕ → Listener → Listener
set_listening_port port l = record l { port = port % 65536 }

unfoldable pub start_accept : Listener → Listener
start_accept l = record l { pending = suc l.pending }

-- `handle_accept`, with whether the accept failed: the listener, and whether a connection starts.
unfoldable pub handle_accept : Bool → Listener → Listener × Bool
handle_accept failed l =
    let done = record l { pending = l.pending - 1 } in
    if failed then (done, false) else (start_accept done, true)

-- `run`, up to the threads that it starts, and from their end on.
unfoldable pub begin_run : Listener → Listener
begin_run l = record l { is_stopped = false }

unfoldable pub end_run : Listener → Listener
end_run l = record l { is_stopped = true }

module _ {F : Type 0} ⦃a : Acceptor F⦄ where
  unfoldable pub stop_listening : Listener → F → Listener × F × Bool
  stop_listening l sys =
      let (closed, done) = a.close (a.cancel sys) in
      if l.is_listening
      then if done then (record l { is_listening = false }, closed, true) else (l, closed, false)
      else (l, sys, true)

  -- `open`, `set_option`, `bind` and `listen`: each throws where it fails.
  unfoldable pub open_and_listen : ℕ → ℕ → F → F × Bool
  open_and_listen addr port sys =
      let (s1, opened) = a.open_socket sys in
      let (s2, shared) = a.reuse_address s1 in
      let (s3, bound) = a.bind addr port s2 in
      let (s4, listens) = a.listen s3 in
      if not opened
      then (s1, false)
      else if not shared
      then (s2, false)
      else if not bound
      then (s3, false)
      else (s4, listens)

  -- The handler of the exception.
  unfoldable pub close_if_open : F → F
  close_if_open sys = if a.is_open sys then (a.close sys).0 else sys

  -- `StartListening` once the earlier listening has ended.
  unfoldable pub listen_at : ℕ → ℕ → Listener → F → Listener × F × Bool
  listen_at addr us_port l sys =
      let port = if us_port == 0 then l.port else us_port in
      let (sys', listens) = open_and_listen addr port sys in
      if listens
      then (start_accept (record l { is_listening = true; port = port }), sys', true)
      else (l, close_if_open sys', l.is_listening)

  unfoldable pub start_listening : ℕ → ℕ → Listener → F → Listener × F × Bool
  start_listening addr us_port l sys =
      if addr == inaddr_none || us_port == 0 && l.port == 0
      then (l, sys, false)
      else let (l', sys', stopped) = stop_listening l sys in
        if l.is_listening && not stopped then (l', sys', false) else listen_at addr us_port l' sys'
