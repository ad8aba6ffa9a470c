-- ===== src/Console/Serving.antt =====
-- What the console program has set up when it waits for clients, and why it ends before.
use yftpserver.Prelude.{
  ℕ, zero, suc, ◌%◌, ◌<◌, ◌≡◌, refl, sym, ◌∙◌, subst, inl, inr, Bool, true, false, not, Bytes, [],
  ◌∷◌, List, Option, none, some, if◌then◌else◌, ◌==◌, Bool-cases, lit, Outcome, ok, fault, thrown,
  running, ◌>>=◌, Ends, ℤ, pos, negsuc, arith,
}
use yftpserver.FileSystem.{FileSystem}
use yftpserver.Network.{Acceptor, ListensWhereBound}
use yftpserver.Conversion.{CLibrary, TwoBytes, conversions_return, s2ws_result}
use yftpserver.UserNode.{priv_all}
use yftpserver.ClientNode.{ClientNode}
use yftpserver.Listener.{
  Listener, new_listener, start_listening, stop_listening, listen_at, open_and_listen, start_accept,
  set_listening_port,
}
use yftpserver.Listener.Refinement.{open_and_listen_endpoint}
use yftpserver.Native.{Native, init_ftp_server, start_ftp_server}
use yftpserver.Console.{
  Started, shows_usage, exits, serving, arguments, start_serving, caught, console_start,
}
use yftpserver.Console.Setup.{new_native, Allowed, Ready, init_ftp_server-Ready}

-- A port that can be asked for.
abbrev positive : Option ℤ → Option ℕ
positive (some (pos (suc k))) = some (suc k)
positive _ = none

abbrev with_directory : Bytes → Option ℕ → Option (ℕ × Bytes)
with_directory dir none = none
with_directory dir (some port) = some (port, dir)

-- The port and the directory that the arguments ask for: port 21 and the current directory, unless they say
-- otherwise; none, where they are more than two or the first is no positive number.
abbrev pub asked : (Bytes → Option ℤ) → List Bytes → Option (ℕ × Bytes)
asked lexical_int [] = some (21, lit ".")
asked lexical_int (a ∷ []) = with_directory (lit ".") (positive (lexical_int a))
asked lexical_int (a ∷ dir ∷ []) = with_directory dir (positive (lexical_int a))
asked lexical_int (a ∷ dir ∷ more ∷ args) = none

abbrev accepted : ℤ × Bytes → Option (ℕ × Bytes)
accepted (pos (suc k), dir) = some (suc k, dir)
accepted (pos zero, dir) = none
accepted (negsuc k, dir) = none

accepted-read :
    (dir : Bytes) (x : Option ℤ)
    → with_directory dir (positive x)
      ≡ accepted (elim x [ none ↦ (negsuc 0, []) | some port ↦ (port, dir) ])
accepted-read dir none = refl
accepted-read dir (some (pos zero)) = refl
accepted-read dir (some (pos (suc k))) = refl
accepted-read dir (some (negsuc k)) = refl

asked-arguments :
    (lexical_int : Bytes → Option ℤ) (args : List Bytes)
    → asked lexical_int args ≡ accepted (arguments lexical_int args)
unfolding arguments
asked-arguments lexical_int [] = refl
asked-arguments lexical_int (a ∷ []) = accepted-read (lit ".") (lexical_int a)
asked-arguments lexical_int (a ∷ dir ∷ []) = accepted-read dir (lexical_int a)
asked-arguments lexical_int (a ∷ dir ∷ more ∷ args) = refl

module _ {F : Type 0} ⦃os : FileSystem F⦄ ⦃a : Acceptor F⦄ (law : ListensWhereBound a) where
  -- The listener listens at all addresses, at a port.
  abbrev pub ListensAt : ℕ → Listener → F → Type 0
  ListensAt port l sys =
      (a.endpoint sys ≡ some (0, port)) × (l.is_listening ≡ true) × (l.port ≡ port)

  listen_at-ListensAt :
      (l : Listener) (sys : F)
      → (listen_at 0 0 l sys).2 ≡ true
      → l.is_listening ≡ false
      → ListensAt l.port (listen_at 0 0 l sys).0 (listen_at 0 0 l sys).1
  unfolding listen_at start_accept
  listen_at-ListensAt l sys done off = elim (Bool-cases (open_and_listen 0 l.port sys).1) [
    | inl up ↦
        let there : a.endpoint (open_and_listen 0 l.port sys).0 ≡ some (0, l.port) =
          open_and_listen_endpoint law 0 l.port sys ∙ rw up refl in
        rw up (there, refl, refl)
    | inr down ↦ absurd (ground arith)
  ]

  -- A listener that does not listen yet listens at its port if it is started with success.
  start_listening-ListensAt :
      (port : ℕ) (sys : F)
      → let l = set_listening_port port new_listener in
        (start_listening 0 0 l sys).2 ≡ true
        → ListensAt (port % 65536) (start_listening 0 0 l sys).0 (start_listening 0 0 l sys).1
  unfolding start_listening stop_listening set_listening_port
  start_listening-ListensAt port sys done = elim (Bool-cases (port % 65536 == 0)) [
    | inl bad ↦ absurd (ground arith)
    | inr good ↦
        rw good
          (listen_at-ListensAt (set_listening_port port new_listener) sys (rw good at done) refl)
  ]

  module _ (c : CLibrary) (joinable : Bool) (clients : ℕ → ClientNode) (sys : F) where
    -- The set-up of the server, from the application as it starts.
    abbrev set_up : ℕ → Bytes → Outcome (Native F × Bool)
    set_up port root_dir =
        init_ftp_server true [] [] (s2ws_result c root_dir) priv_all port (new_native clients sys)

    -- Why `main` ends with an exit code: the set-up failed, or threw, or the server that was set up could
    -- not be started.
    pub data Fails (port : ℕ) (root_dir : Bytes) (code : ℤ) : Type 0 where
      refused :
          (m : Native F)
          → set_up port root_dir ≡ ok (m, false)
          → code ≡ negsuc 0
          → Fails port root_dir code
      threw : set_up port root_dir ≡ thrown → code ≡ pos 0 → Fails port root_dir code
      deaf :
          (m : Native F)
          → set_up port root_dir ≡ ok (m, true)
          → (start_ftp_server joinable m).1 ≡ false
          → code ≡ negsuc 0
          → Fails port root_dir code

    -- How `main` may go on, where the arguments ask for a port and a directory, or for none.
    unfoldable pub Serves : Option (ℕ × Bytes) → Started F → Type 0
    Serves wanted shows_usage = wanted ≡ none
    Serves wanted (exits code) =
        (port : ℕ) × (root_dir : Bytes) × (wanted ≡ some (port, root_dir))
        × Fails port root_dir code
    Serves wanted (serving port root_dir m) =
        (wanted ≡ some (port, root_dir))
        × Allowed m.server
        × ListensAt (port % 65536) m.listener m.server.system

    -- What `main` does once the server is set up.
    abbrev served : ℕ → Bytes → Native F → Bool → Started F
    served port root_dir m ready =
        if not ready
        then exits (negsuc 0)
        else if (start_ftp_server joinable m).1
        then serving port root_dir (start_ftp_server joinable m).0
        else exits (negsuc 0)

    both : (x y : Bool) → (if x then y else false) ≡ true → x ≡ true
    both true y e = refl
    both false y e = cc

    started-ListensAt :
        (port : ℕ) (m : Native F)
        → m.listener ≡ set_listening_port port new_listener
        → (start_ftp_server joinable m).1 ≡ true
        → ListensAt
            (port % 65536)
            (start_ftp_server joinable m).0.listener
            (start_ftp_server joinable m).0.server.system
    unfolding start_ftp_server
    started-ListensAt port m same done =
        subst
          (λ l.
            (start_listening 0 0 l m.server.system).2 ≡ true
            → ListensAt (port % 65536) (start_listening 0 0 l m.server.system).0
                (start_listening 0 0 l m.server.system).1)
          (sym same) (start_listening-ListensAt port m.server.system) (both _ joinable done)

    started-Allowed :
        (m : Native F) → Allowed m.server → Allowed (start_ftp_server joinable m).0.server
    unfolding start_ftp_server
    started-Allowed m allowed = allowed

    goes_on :
        (port : ℕ) (root_dir : Bytes) (x : Outcome (Native F × Bool))
        → set_up port root_dir ≡ x
        → Ends (λ (m, ret). Ready m ret (set_listening_port port new_listener)) x
        → (s : Started F) × (caught c joinable
              (x >>= λ (m, ready). ok (served port root_dir m ready))
            ≡ ok s)
          × Serves (some (port, root_dir)) s
    unfolding Serves
    goes_on port root_dir (ok (m, false)) e r =
        (exits (negsuc 0), refl, (port, root_dir, refl, refused m e refl))
    goes_on port root_dir (ok (m, true)) e r = elim (Bool-cases (start_ftp_server joinable m).1) [
      | inl up ↦ (
        serving port root_dir (start_ftp_server joinable m).0,
        rw up refl,
        (refl, started-Allowed m (r.allowed refl), started-ListensAt port m r.listens up),
      )
      | inr down ↦ (exits (negsuc 0), rw down refl, (port, root_dir, refl, deaf m e down refl))
    ]
    goes_on port root_dir thrown e r = (exits (pos 0), refl, (port, root_dir, refl, threw e refl))
    goes_on port root_dir fault e r = absurd r
    goes_on port root_dir running e r = absurd r

    start_serving-Serves :
        (port : ℕ) (root_dir : Bytes)
        → TwoBytes c (lit "chs")
        → c.available (lit "chs") ≡ true
        → c.available (lit "C") ≡ true
        → 0 < port
        → (s : Started F) × (caught c joinable
              (start_serving c joinable port root_dir (new_native clients sys))
            ≡ ok s)
          × Serves (some (port, root_dir)) s
    unfolding start_serving
    start_serving-Serves port root_dir small chs plain h =
        rw (conversions_return c [] root_dir (lit "C") small chs plain plain).1 (
          goes_on port root_dir (set_up port root_dir) refl
            (init_ftp_server-Ready (s2ws_result c root_dir) port clients sys h))

    -- From the application as it starts, with a C library whose locales "chs" and "C" can be selected and
    -- whose "chs" takes at most two bytes for a character: `main` shows its usage exactly where the
    -- arguments ask for no port and directory. Else it comes to its loop or to an exit code. In the loop
    -- the port and the directory are those that were asked for, anonymous login is allowed, there is an
    -- account for it, and the acceptor listens at all addresses, at that port taken modulo 65536. The exit
    -- code is -1 where the set-up failed or the server could not be started, and 0 where the set-up threw.
    pub console_start-Serves :
        (lexical_int : Bytes → Option ℤ) (args : List Bytes)
        → TwoBytes c (lit "chs")
        → c.available (lit "chs") ≡ true
        → c.available (lit "C") ≡ true
        → (s : Started F) × (console_start c joinable lexical_int args (new_native clients sys)
            ≡ ok s)
          × Serves (asked lexical_int args) s
    unfolding console_start Serves
    console_start-Serves lexical_int args small chs plain =
        rw (asked-arguments lexical_int args) (at_port (arguments lexical_int args).0)
      where
        n : Native F
        n = new_native clients sys

        root_dir : Bytes
        root_dir = (arguments lexical_int args).1

        at_port :
            (port : ℤ)
            → (s : Started F) × ((elim port [
              | negsuc k ↦ ok shows_usage
              | pos zero ↦ ok shows_usage
              | pos (suc k) ↦ caught c joinable (start_serving c joinable (suc k) root_dir n)
            ])
                ≡ ok s)
              × Serves (accepted (port, root_dir)) s
        at_port (negsuc k) = (shows_usage, refl, refl)
        at_port (pos zero) = (shows_usage, refl, refl)
        at_port (pos (suc k)) = start_serving-Serves (suc k) root_dir small chs plain (omega arith)
