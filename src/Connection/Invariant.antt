-- ===== src/Connection/Invariant.antt =====
-- What holds in every state that the server can reach.
use yftpserver.Prelude.{
  ℕ, refl, sym, inl, inr, subst, Bytes, Option, none, some, Bool-cases, ok, Returns, Returns-bind,
  Returns-ok, arith, if◌then◌else◌,
}
use yftpserver.Platform.{Platform}
use yftpserver.FileSystem.{FileSystem}
use yftpserver.Network.{Network}
use yftpserver.Reply.{new_reply}
use yftpserver.UserManager.{UserManager}
use yftpserver.ClientNode.Invariance.{SeatInvariant}
use yftpserver.UserManager.Invariant.{new_user_manager-IsValid}
use yftpserver.FtpServer.{World, Served, process_command, end_work}
use yftpserver.FtpServer.Accounts.{
  Kept, process_command-KeepsUsers, run_job-KeepsUsers, end_work-Kept,
}
use yftpserver.Connection.{handle_read, after_command}
use yftpserver.Connection.Reachable.{
  Step, reads, runs, sends, receives, adds, moves, allows, grants, renews, ranges, outside,
  Reachable, made, after,
}
use yftpserver.Connection.Soundness.{
  Sound, Sound-SeatInvariant, IsPorts, Holds, moves-Holds, add_user-Holds, allows-Holds,
  set_data_port_range-Holds, grants-Holds, renews-Holds,
}

module _ {F : Type 0} ⦃p : Platform⦄ ⦃os : FileSystem F⦄ ⦃net : Network F⦄ where
  Kept-Holds : (v w : World F) → Holds v → Kept Sound v w → Holds w
  Kept-Holds v w h (s, same) = record {
    accounts = s;
    ports = subst (λ k. IsPorts k.1 k.2) (sym same) h.ports;
  }

  -- What entering and leaving an account keep, an event of a connection keeps.
  pub handle_read-Kept :
      (P : UserManager → Type 0) (inv : SeatInvariant P) (fuel socket : ℕ) (e : Option Bytes)
      (w : World F)
      → P w.users
      → Returns (λ h. Kept P w h.world) (handle_read fuel socket e w)
  unfolding handle_read after_command
  handle_read-Kept P inv fuel socket none w s =
      Returns-bind (Kept P w) (λ h. Kept P w h.world) (end_work socket w) _
        (end_work-Kept P inv w socket w (s, refl)) (λ w' k. k)
  handle_read-Kept P inv fuel socket (some bytes) w s =
      Returns-bind (λ s. Kept P w s.world) (λ h. Kept P w h.world)
        (process_command fuel socket bytes new_reply w) _
        (process_command-KeepsUsers P inv w fuel socket bytes new_reply w (s, refl))
        (λ served k.
          Returns-bind (Kept P w) (λ h. Kept P w h.world)
            (if served.ret then ok served.world else end_work socket served.world) _
            (goes_on served k) (λ w' k. k))
    where
      goes_on :
          (served : Served F)
          → Kept P w served.world
          → Returns
              (Kept P w)
              (if served.ret then ok served.world else end_work socket served.world)
      goes_on served k = elim (Bool-cases served.ret) [
        | inl on ↦ rw on k
        | inr off ↦ rw off (end_work-Kept P inv w socket served.world k)
      ]

  Step-Holds : {w w' : World F} → Step w w' → Holds w → Holds w'
  Step-Holds {w} (reads fuel socket e out returned) h = Kept-Holds w out.world h (
      Returns-ok (λ h. Kept Sound w h.world)
        (handle_read-Kept Sound Sound-SeatInvariant fuel socket e w h.accounts) returned)
  Step-Holds {w} (runs fuel me job s returned) h = Kept-Holds w s.world h (
      Returns-ok (λ s. Kept Sound w s.world)
        (run_job-KeepsUsers Sound Sound-SeatInvariant w fuel me job w (h.accounts, refl)) returned)
  Step-Holds {w} (sends me pt s returned) h = record { accounts = h.accounts; ports = h.ports }
  Step-Holds {w} (receives me pt s returned) h = record { accounts = h.accounts; ports = h.ports }
  Step-Holds {w} (adds name password home_dir priv returned) h =
      Returns-ok (λ (w', ret). Holds w') (add_user-Holds name password home_dir priv w h) returned
  Step-Holds {w} (moves name home_dir returned) h =
      Returns-ok (λ (w', ret). Holds w') (moves-Holds name home_dir w h) returned
  Step-Holds {w} (allows do_allow home_dir priv returned) h =
      Returns-ok (λ (w', ret). Holds w') (allows-Holds do_allow home_dir priv w h) returned
  Step-Holds {w} (grants name priv) h = grants-Holds name priv w h
  Step-Holds {w} (renews name password) h = renews-Holds name password w h
  Step-Holds {w} (ranges port_start number) h = set_data_port_range-Holds port_start number w h
  Step-Holds {w} (outside sys) h = record { accounts = h.accounts; ports = h.ports }

  -- In every state that the server can reach, whatever its connections send, its threads do and the
  -- application configures, in any order: no two accounts have the same name, every account is at an
  -- address in use and holds no more clients than its limit, and the passive ports, if their number is
  -- not 0, begin above 1024.
  pub Reachable-Holds : {w : World F} → Reachable w → Holds w
  Reachable-Holds (made clients sys) = record {
    accounts = record { valid = new_user_manager-IsValid; within = λ a. omega arith };
    ports = inl refl;
  }
  Reachable-Holds (after r step) = Step-Holds step (Reachable-Holds r)
