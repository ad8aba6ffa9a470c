-- ===== src/Console/Setup.antt =====
-- jni/yftp/ftpserve_native.cpp: `init_ftp_server` as the console program calls it, first of all and for
-- anonymous clients.
use yftpserver.Prelude.{
  ℕ, ◌<◌, ◌≡◌, refl, ap, inl, inr, Bool, true, false, WString, [], if◌then◌else◌, ◌==◌, Bool-cases,
  text_eq, lit, ok, Ends, Ends-bind, Ends-and, text_eq_refl, arith,
}
use yftpserver.FileSystem.{FileSystem}
use yftpserver.UserNode.{UserNode, priv_all}
use yftpserver.UserManager.{
  UserManager, new_user_manager, assign_directory, proccess_home_directory,
}
use yftpserver.UserManager
use yftpserver.UserManager.Invariant.{IsValid, set_user-IsValid, new_user_manager-IsValid}
use yftpserver.UserManager.Registration.{add_user-Keeps, set_user_home_directory-Keeps}
use yftpserver.ClientNode.{ClientNode}
use yftpserver.FtpServer.{World}
use yftpserver.FtpServer.Configuration.{
  allow_anonymous, permit_anonymous, set_user_home_directory, set_user_privilege, take_over,
}
use yftpserver.FtpServer.Listing.{
  IsListed, Adds, add_user-Adds, set_user_home_directory-Moves, set_user-IsListed,
}
use yftpserver.Connection.Reachable.{new_world}
use yftpserver.Listener.{Listener, new_listener, set_listening_port}
use yftpserver.Native.{
  Native, set_server, init_anonymous, init_port, init_user, init_directory, init_privilege,
  init_ftp_server,
}
use yftpserver.Native.Settings.{Keeps-Ends}

-- The application as it starts.
abbrev pub new_native : {F : Type 0} → (ℕ → ClientNode) → F → Native F
new_native clients sys = record {
  g_listen_port = 0;
  g_start_dir = [];
  g_priv = 0;
  g_allow_anonymous = false;
  g_username = [];
  g_password = [];
  server = new_world clients sys;
  listener = new_listener;
}

-- Anonymous login is allowed, and there is an account for it.
abbrev pub Allowed : {F : Type 0} → World F → Type 0
Allowed w = (w.is_allow_anonymous ≡ true) × IsListed (lit "anonymous") w.users

-- What the steps of `init_ftp_server` keep.
pub record Ready {F : Type 0} (n : Native F) (ret : Bool) (l : Listener) : Type 0 where
  pub valid : IsValid n.server.users
  pub allowed : ret ≡ true → Allowed n.server
  pub unnamed : n.g_username ≡ []
  pub blank : n.g_password ≡ []
  pub listens : n.listener ≡ l

module _ {F : Type 0} ⦃os : FileSystem F⦄ where
  -- What a call that registers or allows leaves of the server.
  Opened : World F × Bool → Type 0
  Opened (w, ret) = IsValid w.users × (ret ≡ true → Allowed w)

  permit_anonymous-Opened :
      (dir : WString) (priv : ℕ) (w : World F)
      → IsValid w.users
      → Ends Opened (permit_anonymous dir priv w)
  unfolding permit_anonymous Opened Adds
  permit_anonymous-Opened dir priv w v =
      Ends-bind (λ y. IsValid y.2 × Adds (lit "anonymous") (lit "anonymous") w.users y) Opened
        (UserManager.add_user (lit "anonymous") [] dir priv w.system w.users) _
        (Ends-and (λ y. IsValid y.2) (Adds (lit "anonymous") (lit "anonymous") w.users) _
          (Keeps-Ends _ (add_user-Keeps (lit "anonymous") [] dir priv w.system w.users v))
          (add_user-Adds (lit "anonymous") (lit "anonymous") [] dir priv w.system w.users v))
        (λ (ret, sys, users) h. opened ret sys users h.0 h.1)
    where
      opened :
          (ret : Bool) (sys : F) (users : UserManager)
          → IsValid users
          → Adds (lit "anonymous") (lit "anonymous") w.users (ret, sys, users)
          → Opened (
              let (taken, ret) = take_over w (ret, sys, users) in
              if ret then (record taken { is_allow_anonymous = true }, true) else (taken, false))
      opened true sys users v added =
          (v, λ _. (refl, added.1 (text_eq_refl (lit "anonymous")) refl))
      opened false sys users v added = (v, λ e. cc)

  init_anonymous-Ready :
      (dir : WString) (priv : ℕ) (clients : ℕ → ClientNode) (sys : F)
      → Ends
          (λ (m, ret). Ready m ret new_listener × (m.g_listen_port ≡ 0))
          (init_anonymous true dir priv (new_native clients sys))
  unfolding init_anonymous allow_anonymous Opened
  init_anonymous-Ready dir priv clients sys =
      Ends-bind Opened (λ (m, ret). Ready m ret new_listener × (m.g_listen_port ≡ 0))
        (permit_anonymous dir priv (new_world clients sys)) _
        (permit_anonymous-Opened dir priv (new_world clients sys) new_user_manager-IsValid)
        (λ (w, ret) h. kept w ret h.0 h.1)
    where
      kept :
          (w : World F) (ret : Bool)
          → IsValid w.users
          → (ret ≡ true → Allowed w)
          → (λ (x : Native F × Bool). Ready x.0 x.1 new_listener × (x.0.g_listen_port ≡ 0))
              (let m = set_server w (new_native clients sys) in
                if ret
                then (record m { g_allow_anonymous = true; g_priv = priv }, true)
                else (m, false))
      kept w true v h =
          (record { valid = v; allowed = h; unnamed = refl; blank = refl; listens = refl }, refl)
      kept w false v h =
          (record { valid = v; allowed = h; unnamed = refl; blank = refl; listens = refl }, refl)

  set_user_home_directory-Ready :
      (dir : WString) (w : World F) (ret : Bool)
      → IsValid w.users
      → (ret ≡ true → Allowed w)
      → Ends
          (λ (w', done). IsValid w'.users × (ret ≡ true → Allowed w'))
          (set_user_home_directory [] dir w)
  unfolding set_user_home_directory
  set_user_home_directory-Ready dir w ret v h =
      Ends-bind (λ y. IsValid y.2 × (ret ≡ true → IsListed (lit "anonymous") y.2))
        (λ (w', done). IsValid w'.users × (ret ≡ true → Allowed w'))
        (UserManager.set_user_home_directory [] dir w.system w.users) _
        (Ends-and (λ y. IsValid y.2) (λ y. ret ≡ true → IsListed (lit "anonymous") y.2) _
          (Keeps-Ends _ (set_user_home_directory-Keeps [] dir w.system w.users v))
          (set_user_home_directory-Moves ret (lit "anonymous") [] dir w.system w.users
            (λ on. (h on).1)))
        (λ y k. (k.0, λ on. ((h on).0, k.1 on)))

  init_directory-Ready :
      (dir : WString) (n : Native F) (ret : Bool) (l : Listener)
      → Ready n ret l
      → Ends (λ m. Ready m ret l) (init_directory dir n)
  unfolding init_directory
  init_directory-Ready dir n ret l r = elim (Bool-cases (text_eq n.g_start_dir dir)) [
    | inl same ↦ rw same r
    | inr new ↦ rw new (
        Ends-bind (λ (w, done). IsValid w.users × (ret ≡ true → Allowed w)) (λ m. Ready m ret l)
          (set_user_home_directory [] dir n.server) _
          (set_user_home_directory-Ready dir n.server ret r.valid r.allowed)
          (λ (w, done) h. kept w done h.0 h.1))
  ]
    where
      kept :
          (w : World F) (done : Bool)
          → IsValid w.users
          → (ret ≡ true → Allowed w)
          → Ready
              (if done then record (set_server w n) { g_start_dir = dir } else set_server w n)
              ret
              l
      kept w true v h = record {
        valid = v;
        allowed = h;
        unnamed = r.unnamed;
        blank = r.blank;
        listens = r.listens;
      }
      kept w false v h = record {
        valid = v;
        allowed = h;
        unnamed = r.unnamed;
        blank = r.blank;
        listens = r.listens;
      }

init_privilege-Ready :
    {F : Type 0} ⦃os : FileSystem F⦄ (priv : ℕ) (n : Native F) (ret : Bool) (l : Listener)
    → Ready n ret l
    → Ready (init_privilege priv n) ret l
unfolding init_privilege set_user_privilege UserManager.set_user_privilege
init_privilege-Ready priv n ret l r = elim (Bool-cases (n.g_priv == priv)) [
  | inl same ↦ rw same r
  | inr new ↦ elim (Bool-cases (set_user_privilege [] priv n.server).1) [
    | inl done ↦ rw (new, done) (kept priv)
    | inr failed ↦ rw (new, failed) (kept n.g_priv)
  ]
]
  where
    f : UserNode → UserNode
    f u = record u { user_privilege = priv }

    kept :
        (g : ℕ)
        → Ready (record (set_server (set_user_privilege [] priv n.server).0 n) { g_priv = g }) ret l
    kept g = record {
      valid = set_user-IsValid f (λ u. refl) [] n.server.users r.valid;
      allowed = λ on. (
        (r.allowed on).0,
        set_user-IsListed f [] (lit "anonymous") n.server.users (λ u. refl) (r.allowed on).1,
      );
      unnamed = r.unnamed;
      blank = r.blank;
      listens = r.listens;
    }

module _ {F : Type 0} ⦃os : FileSystem F⦄ where
  init_user_none :
      (dir : WString) (priv : ℕ) (n : Native F)
      → n.g_username ≡ []
      → n.g_password ≡ []
      → init_user [] [] dir priv n ≡ ok n
  unfolding init_user text_eq
  init_user_none dir priv n unnamed blank = rw (unnamed, blank) refl

  init_port-Ready :
      (port : ℕ) (n : Native F) (ret : Bool)
      → 0 < port
      → Ready n ret new_listener × (n.g_listen_port ≡ 0)
      → Ready (init_port port n) ret (set_listening_port port new_listener)
  unfolding init_port set_listening_port
  init_port-Ready port n ret h (r, unset) = rw (other unset) (record {
    valid = r.valid;
    allowed = r.allowed;
    unnamed = r.unnamed;
    blank = r.blank;
    listens = ap (set_listening_port port) r.listens;
  })
    where
      other : n.g_listen_port ≡ 0 → (n.g_listen_port == port) ≡ false
      other e = ground arith

  pub init_ftp_server-Ready :
      (dir : WString) (port : ℕ) (clients : ℕ → ClientNode) (sys : F)
      → 0 < port
      → Ends
          (λ (m, ret). Ready m ret (set_listening_port port new_listener))
          (init_ftp_server true [] [] dir priv_all port (new_native clients sys))
  unfolding init_ftp_server
  init_ftp_server-Ready dir port clients sys h =
      Ends-bind (λ (m, ret). Ready m ret new_listener × (m.g_listen_port ≡ 0)) _
        (init_anonymous true dir priv_all (new_native clients sys)) _
        (init_anonymous-Ready dir priv_all clients sys)
        (λ (n, ret) r.
          let l = set_listening_port port new_listener in
          let m = init_port port n in
          let ready : Ready m ret l = init_port-Ready port n ret h r in
          rw (init_user_none dir priv_all m ready.unnamed ready.blank) (
            Ends-bind (λ k. Ready k ret l) _ (init_directory dir m) _
              (init_directory-Ready dir m ret l ready)
              (λ k r'. init_privilege-Ready priv_all k ret l r')))
