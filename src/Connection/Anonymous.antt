-- ===== src/Connection/Anonymous.antt =====
-- jni/yftp/ftp_server.h and jni/yftp/ftp_server.cpp: the flag that allows anonymous login, and the
-- account that it stands for.
use yftpserver.Prelude.{
  ℕ, ◌≡◌, refl, inl, inr, ap, sym, ◌∙◌, Bool, true, false, not, ◌||◌, WString, [], Option-cases,
  Bool-cases, leb, ◌==◌, lit, text_eq, ok, Returns, Returns-bind, Returns-ok, text_eq_refl,
  if◌then◌else◌,
}
use yftpserver.Platform.{Platform}
use yftpserver.FileSystem.{FileSystem}
use yftpserver.Network.{Network}
use yftpserver.UserManager.{
  UserManager, find_user, register_user, assign_directory, set_user, set_matching, delete_user,
  set_node,
}
use yftpserver.UserManager
use yftpserver.UserManager.Invariant.{IsValid}
use yftpserver.ClientNode.Invariance.{SeatInvariant}
use yftpserver.FtpServer.Listing.{
  IsListed, IsListed-SeatInvariant, set_user-IsListed, Adds, set_user_home_directory-Moves,
  add_user-Adds,
}
use yftpserver.FtpServer.{World}
use yftpserver.FtpServer.Accounts.{Kept, run_job-KeepsUsers}
use yftpserver.Connection.Soundness.{Holds}
use yftpserver.Connection.Invariant.{Reachable-Holds, handle_read-Kept}
use yftpserver.Connection.Reachable.{
  Step, reads, runs, sends, receives, adds, moves, allows, grants, renews, ranges, outside,
  Reachable, made, after,
}
use yftpserver.FtpServer.Configuration.{
  set_data_port_range, set_user_privilege, set_user_password, set_user_home_directory, add_user,
  allow_anonymous, permit_anonymous, forbid_anonymous, take_over,
}

-- Anonymous login is allowed only while there is an account for it.
abbrev pub Backs : Bool → UserManager → Type 0
Backs allowed m = allowed ≡ true → IsListed (lit "anonymous") m

module _ {F : Type 0} ⦃os : FileSystem F⦄ where
  abbrev pub IsBacked : World F → Type 0
  IsBacked w = Backs w.is_allow_anonymous w.users

  either :
      (b : Bool) (x y : World F × Bool)
      → IsBacked x.0
      → IsBacked y.0
      → IsBacked (if b then x else y).0
  either true x y hx hy = hx
  either false x y hx hy = hy

  add_user-IsBacked :
      (name password home_dir : WString) (priv : ℕ) (w : World F)
      → IsValid w.users
      → IsBacked w
      → Returns (λ (w', ret). IsBacked w') (add_user name password home_dir priv w)
  unfolding add_user Adds
  add_user-IsBacked name password home_dir priv w v h =
      elim (Bool-cases (text_eq name (lit "anonymous") || text_eq name (lit "ftp"))) [
        | inl reserved ↦ rw reserved h
        | inr free ↦ rw free (
            Returns-bind (Adds (lit "anonymous") name w.users) (λ (w', ret). IsBacked w')
              (UserManager.add_user name password home_dir priv w.system w.users) _
              (add_user-Adds (lit "anonymous") name password home_dir priv w.system w.users v)
              (λ (ret, sys, users) added.
                either ret _ _ (λ on. added.0 (h on)) (λ on. added.0 (h on))))
      ]

  permit_anonymous-IsBacked :
      (home_dir : WString) (priv : ℕ) (w : World F)
      → IsValid w.users
      → IsBacked w
      → Returns (λ (w', ret). IsBacked w') (permit_anonymous home_dir priv w)
  unfolding permit_anonymous Adds
  permit_anonymous-IsBacked home_dir priv w v h =
      Returns-bind (Adds (lit "anonymous") (lit "anonymous") w.users) (λ (w', ret). IsBacked w')
        (UserManager.add_user (lit "anonymous") [] home_dir priv w.system w.users) _
        (add_user-Adds (lit "anonymous") (lit "anonymous") [] home_dir priv w.system w.users v)
        (λ y added. turned_on y added)
    where
      turned_on :
          (y : Bool × F × UserManager)
          → Adds (lit "anonymous") (lit "anonymous") w.users y
          → Returns
              (λ (x : World F × Bool). IsBacked x.0)
              (let (taken, ret) = take_over w y in
                ok (
                  if ret
                  then (record taken { is_allow_anonymous = true }, true)
                  else (taken, false)))
      turned_on (true, sys, users) added = λ _. added.1 (text_eq_refl (lit "anonymous")) refl
      turned_on (false, sys, users) added = λ on. added.0 (h on)

  forbid_anonymous-IsBacked : (w : World F) → IsBacked w → IsBacked (forbid_anonymous w).0
  unfolding forbid_anonymous delete_user
  forbid_anonymous-IsBacked w h = elim (Option-cases (find_user (lit "anonymous") w.users)) [
    | inl e ↦ rw (e, forbid_anonymous, delete_user) (λ on. cc)
    | inr (a, e) ↦ rw (e, forbid_anonymous, delete_user) (λ on. cc)
  ]

  allow_anonymous-IsBacked :
      (do_allow : Bool) (home_dir : WString) (priv : ℕ) (w : World F)
      → IsValid w.users
      → IsBacked w
      → Returns (λ (w', ret). IsBacked w') (allow_anonymous do_allow home_dir priv w)
  unfolding allow_anonymous
  allow_anonymous-IsBacked do_allow home_dir priv w v h = chosen do_allow w.is_allow_anonymous
    where
      clean : World F
      clean = record w { last_error = 0 }

      chosen :
          (do_allow on : Bool)
          → Returns
              (λ (w', ret). IsBacked w')
              (if do_allow
                then if not on then permit_anonymous home_dir priv clean else ok (clean, true)
                else if on
                then ok (forbid_anonymous clean)
                else ok (clean, true))
      chosen true true = h
      chosen true false = permit_anonymous-IsBacked home_dir priv clean v h
      chosen false true = forbid_anonymous-IsBacked clean h
      chosen false false = h

  set_user_home_directory-IsBacked :
      (name home_dir : WString) (w : World F)
      → IsBacked w
      → Returns (λ (w', ret). IsBacked w') (set_user_home_directory name home_dir w)
  unfolding set_user_home_directory
  set_user_home_directory-IsBacked name home_dir w h =
      Returns-bind (λ y. Backs w.is_allow_anonymous y.2) (λ (w', ret). IsBacked w')
        (UserManager.set_user_home_directory name home_dir w.system w.users) _
        (set_user_home_directory-Moves w.is_allow_anonymous (lit "anonymous") name home_dir w.system
          w.users h)
        (λ y listed. listed)

  set_data_port_range-IsBacked :
      (port_start number : ℕ) (w : World F)
      → IsBacked w
      → IsBacked (set_data_port_range port_start number w).0
  unfolding set_data_port_range
  set_data_port_range-IsBacked port_start number w h =
      elim (Bool-cases (leb port_start 1024 || number == 0)) [
        | inl bad ↦ rw bad h
        | inr good ↦ rw good h
      ]

module _ {F : Type 0} ⦃p : Platform⦄ ⦃os : FileSystem F⦄ ⦃net : Network F⦄ where
  Kept-IsBacked : (w w' : World F) → Kept (Backs w.is_allow_anonymous) w w' → IsBacked w'
  Kept-IsBacked w w' (listed, same) on = listed (ap (λ k. k.0) (sym same) ∙ on)

  backed : (w : World F) → SeatInvariant (Backs w.is_allow_anonymous)
  backed w = record {
    entered = λ me a m h on. (IsListed-SeatInvariant (lit "anonymous")).entered me a m (h on);
    left = λ me a m h on. (IsListed-SeatInvariant (lit "anonymous")).left me a m (h on);
  }

  Step-IsBacked : {w w' : World F} → Step w w' → Holds w → IsBacked w → IsBacked w'
  unfolding set_user_privilege set_user_password UserManager.set_user_privilege
      UserManager.set_user_password
  Step-IsBacked {w} (reads fuel socket e out returned) v h = Kept-IsBacked w out.world (
      Returns-ok (λ h. Kept (Backs w.is_allow_anonymous) w h.world)
        (handle_read-Kept (Backs w.is_allow_anonymous) (backed w) fuel socket e w h) returned)
  Step-IsBacked {w} (runs fuel me job s returned) v h = Kept-IsBacked w s.world (
      Returns-ok (λ s. Kept (Backs w.is_allow_anonymous) w s.world)
        (run_job-KeepsUsers (Backs w.is_allow_anonymous) (backed w) w fuel me job w (h, refl))
        returned)
  Step-IsBacked {w} (sends me pt s returned) v h = h
  Step-IsBacked {w} (receives me pt s returned) v h = h
  Step-IsBacked {w} (adds name password home_dir priv returned) v h =
      Returns-ok (λ (w', ret). IsBacked w')
        (add_user-IsBacked name password home_dir priv w v.accounts.valid h) returned
  Step-IsBacked {w} (moves name home_dir returned) v h =
      Returns-ok (λ (w', ret). IsBacked w') (set_user_home_directory-IsBacked name home_dir w h)
        returned
  Step-IsBacked {w} (allows do_allow home_dir priv returned) v h =
      Returns-ok (λ (w', ret). IsBacked w')
        (allow_anonymous-IsBacked do_allow home_dir priv w v.accounts.valid h) returned
  Step-IsBacked {w} (grants name priv) v h = λ on.
      set_user-IsListed (λ u. record u { user_privilege = priv }) name (lit "anonymous") w.users
        (λ u. refl) (h on)
  Step-IsBacked {w} (renews name password) v h = λ on.
      set_user-IsListed (λ u. record u { user_password = password }) name (lit "anonymous") w.users
        (λ u. refl) (h on)
  Step-IsBacked {w} (ranges port_start number) v h =
      set_data_port_range-IsBacked port_start number w h
  Step-IsBacked {w} (outside sys) v h = h

  -- In every state that the server can reach, whatever its connections send, its threads do and the
  -- application configures, in any order: if anonymous login is allowed, an account of the name
  -- "anonymous" is listed.
  pub Reachable-IsBacked :
      {w : World F} → Reachable w → w.is_allow_anonymous ≡ true → IsListed (lit "anonymous") w.users
  Reachable-IsBacked (made clients sys) = λ on. cc
  Reachable-IsBacked (after r step) = Step-IsBacked step (Reachable-Holds r) (Reachable-IsBacked r)
