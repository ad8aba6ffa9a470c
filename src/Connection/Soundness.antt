-- ===== src/Connection/Soundness.antt =====
-- What holds of the server between two events, and that configuring it keeps it so.
use yftpserver.Prelude.{
  ℕ, ◌<◌, ◌≡◌, ◌⊎◌, refl, inl, inr, Bool, true, false, not, ◌||◌, WString, [], Bool-cases, leb,
  ◌==◌, lit, text_eq, Outcome, ok, fault, thrown, running, Returns, Returns-bind, arith,
  if◌then◌else◌,
}
use yftpserver.FileSystem.{FileSystem}
use yftpserver.UserNode.{UserNode, add_client, delete_client}
use yftpserver.UserNode.Limits.{WithinLimit}
use yftpserver.UserManager.{UserManager, new_user_manager, set_user, set_node, error_user_not_found}
use yftpserver.UserManager
use yftpserver.UserManager.Invariant.{IsValid, names-update, set_user-IsValid, delete_user-IsValid}
use yftpserver.UserManager.Registration.{Keeps, add_user-Keeps, set_user_home_directory-Keeps}
use yftpserver.ClientNode.Invariance.{SeatInvariant}
use yftpserver.ClientNode.Seats.{AllWithin, AllWithin-SeatInvariant}
use yftpserver.FtpServer.{World}
use yftpserver.FtpServer.Configuration.{
  set_data_port_range, set_user_privilege, set_user_password, set_user_home_directory, add_user,
  allow_anonymous, permit_anonymous, forbid_anonymous, take_over,
}
use yftpserver.FtpServer.Limits.{
  KeepsWithin, set_user-AllWithin, delete_user-AllWithin, add_user-KeepsWithin,
  set_user_home_directory-KeepsWithin,
}

-- The accounts have distinct names, are in use, and are within their limits of clients.
pub record Sound (m : UserManager) : Type 0 where
  pub valid : IsValid m
  pub within : AllWithin m

IsValid-SeatInvariant : SeatInvariant IsValid
IsValid-SeatInvariant = record {
  entered = λ me a m v. record {
    allocated = v.allocated;
    distinct =
        rw
          (names-update m.node a (add_client me (m.node a)).0 m.ftp_user_list
            (unfold add_client in ground arith))
          v.distinct;
  };
  left = λ me a m v. record {
    allocated = v.allocated;
    distinct =
        rw (names-update m.node a (delete_client me (m.node a)) m.ftp_user_list refl) v.distinct;
  };
}

pub Sound-SeatInvariant : SeatInvariant Sound
Sound-SeatInvariant = record {
  entered = λ me a m s. record {
    valid = IsValid-SeatInvariant.entered me a m s.valid;
    within = AllWithin-SeatInvariant.entered me a m s.within;
  };
  left = λ me a m s. record {
    valid = IsValid-SeatInvariant.left me a m s.valid;
    within = AllWithin-SeatInvariant.left me a m s.within;
  };
}

set_user-Sound :
    (f : UserNode → UserNode) (name : WString) (m : UserManager)
    → ((u : UserNode) → (f u).user_name ≡ u.user_name)
    → ((u : UserNode) → WithinLimit u → WithinLimit (f u))
    → Sound m
    → Sound (set_user f name m).0
set_user-Sound f name m named limited s = record {
  valid = set_user-IsValid f named name m s.valid;
  within = set_user-AllWithin f name m limited s.within;
}

module _ {F : Type 0} where
  both :
      (x : Outcome (Bool × F × UserManager)) → Keeps x → KeepsWithin x → Returns (λ y. Sound y.2) x
  both (ok y) v all = record { valid = v; within = all }
  both fault v all = tt
  both thrown v all = tt
  both running v all = tt

abbrev pub IsPorts : ℕ → ℕ → Type 0
IsPorts port_start number = (number ≡ 0) ⊎ (1024 < port_start)

-- What holds of the server between two events.
pub record Holds {F : Type 0} (w : World F) : Type 0 where
  pub accounts : Sound w.users
  pub ports : IsPorts w.data_port_start w.data_port_num

module _ {F : Type 0} ⦃os : FileSystem F⦄ where
  either : (b : Bool) (x y : World F × Bool) → Holds x.0 → Holds y.0 → Holds (if b then x else y).0
  either true x y hx hy = hx
  either false x y hx hy = hy

  added :
      (name password home_dir : WString) (priv : ℕ) (w : World F)
      → Holds w
      → Returns (λ y. Sound y.2) (UserManager.add_user name password home_dir priv w.system w.users)
  added name password home_dir priv w h =
      both _ (add_user-Keeps name password home_dir priv w.system w.users h.accounts.valid)
        (add_user-KeepsWithin name password home_dir priv w.system w.users h.accounts.within)

  take_over-Holds :
      (w : World F) (y : Bool × F × UserManager) → Holds w → Sound y.2 → Holds (take_over w y).0
  take_over-Holds w (ret, sys, users) h s =
      either ret _ _ (record { accounts = s; ports = h.ports })
        (record { accounts = s; ports = h.ports })

  pub add_user-Holds :
      (name password home_dir : WString) (priv : ℕ) (w : World F)
      → Holds w
      → Returns (λ (w', ret). Holds w') (add_user name password home_dir priv w)
  unfolding add_user
  add_user-Holds name password home_dir priv w h =
      elim (Bool-cases (text_eq name (lit "anonymous") || text_eq name (lit "ftp"))) [
        | inl reserved ↦ rw reserved (record { accounts = h.accounts; ports = h.ports })
        | inr free ↦ rw free (
            Returns-bind (λ y. Sound y.2) (λ (w', ret). Holds w')
              (UserManager.add_user name password home_dir priv w.system w.users) _
              (added name password home_dir priv w h)
              (λ y s.
                take_over-Holds (record w { last_error = 0 }) y
                  (record { accounts = h.accounts; ports = h.ports }) s))
      ]

  pub moves-Holds :
      (name home_dir : WString) (w : World F)
      → Holds w
      → Returns (λ (w', ret). Holds w') (set_user_home_directory name home_dir w)
  unfolding set_user_home_directory
  moves-Holds name home_dir w h =
      Returns-bind (λ y. Sound y.2) (λ (w', ret). Holds w')
        (UserManager.set_user_home_directory name home_dir w.system w.users) _
        (both _ (set_user_home_directory-Keeps name home_dir w.system w.users h.accounts.valid)
          (set_user_home_directory-KeepsWithin name home_dir w.system w.users h.accounts.within))
        (λ y s. record { accounts = s; ports = h.ports })

  permit_anonymous-Holds :
      (home_dir : WString) (priv : ℕ) (w : World F)
      → Holds w
      → Returns (λ (w', ret). Holds w') (permit_anonymous home_dir priv w)
  unfolding permit_anonymous
  permit_anonymous-Holds home_dir priv w h =
      Returns-bind (λ y. Sound y.2) (λ (w', ret). Holds w')
        (UserManager.add_user (lit "anonymous") [] home_dir priv w.system w.users) _
        (added (lit "anonymous") [] home_dir priv w h)
        (λ y s.
          let after = take_over-Holds w y h s in
          either (take_over w y).1 _ _ (record { accounts = after.accounts; ports = after.ports })
            after)

  forbid_anonymous-Holds : (w : World F) → Holds w → Holds (forbid_anonymous w).0
  unfolding forbid_anonymous
  forbid_anonymous-Holds w h =
      let s : Sound (UserManager.delete_user (lit "anonymous") w.users).0 = record {
        valid = delete_user-IsValid (lit "anonymous") w.users h.accounts.valid;
        within = delete_user-AllWithin (lit "anonymous") w.users h.accounts.within;
      } in
      either _ _ _ (record { accounts = s; ports = h.ports })
        (record { accounts = s; ports = h.ports })

  pub allows-Holds :
      (do_allow : Bool) (home_dir : WString) (priv : ℕ) (w : World F)
      → Holds w
      → Returns (λ (w', ret). Holds w') (allow_anonymous do_allow home_dir priv w)
  unfolding allow_anonymous
  allows-Holds do_allow home_dir priv w h =
      chosen do_allow w.is_allow_anonymous (record { accounts = h.accounts; ports = h.ports })
    where
      chosen :
          (do_allow on : Bool)
          → Holds (record w { last_error = 0 })
          → Returns
              (λ (w', ret). Holds w')
              (if do_allow
                then if not on
                  then permit_anonymous home_dir priv (record w { last_error = 0 })
                  else ok (record w { last_error = 0 }, true)
                else if on
                then ok (forbid_anonymous (record w { last_error = 0 }))
                else ok (record w { last_error = 0 }, true))
      chosen true true clean = clean
      chosen true false clean = permit_anonymous-Holds home_dir priv _ clean
      chosen false true clean = forbid_anonymous-Holds _ clean
      chosen false false clean = clean

  pub set_data_port_range-Holds :
      (port_start number : ℕ) (w : World F)
      → Holds w
      → Holds (set_data_port_range port_start number w).0
  unfolding set_data_port_range
  set_data_port_range-Holds port_start number w h =
      elim (Bool-cases (leb port_start 1024 || number == 0)) [
        | inl bad ↦ rw bad h
        | inr good ↦ rw good (record { accounts = h.accounts; ports = inr (ground arith) })
      ]

  pub grants-Holds :
      (name : WString) (priv : ℕ) (w : World F) → Holds w → Holds (set_user_privilege name priv w).0
  unfolding set_user_privilege UserManager.set_user_privilege
  grants-Holds name priv w h = record {
    accounts =
        set_user-Sound (λ u. record u { user_privilege = priv }) name w.users (λ u. refl) (λ u k. k)
          h.accounts;
    ports = h.ports;
  }

  pub renews-Holds :
      (name password : WString) (w : World F)
      → Holds w
      → Holds (set_user_password name password w).0
  unfolding set_user_password UserManager.set_user_password
  renews-Holds name password w h = record {
    accounts =
        set_user-Sound (λ u. record u { user_password = password }) name w.users (λ u. refl)
          (λ u k. k) h.accounts;
    ports = h.ports;
  }
