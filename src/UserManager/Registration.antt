-- ===== src/UserManager/Registration.antt =====
-- Adding an account, and giving one another home directory, keep the names distinct.
use yftpserver.Prelude.{
  ℕ, suc, ◌<◌, ◌≡◌, ◌≢◌, refl, WString, Bool, false, not, ◌||◌, [], ◌∷◌, ◌++◌, List, Option, none,
  some, if◌then◌else◌, Bool-cases, Option-cases, inl, inr, ◌==◌, is_empty, update, All, All-append,
  arith, Outcome, ok, fault, thrown, running, ◌>>=◌,
}
use yftpserver.FileSystem.{FileSystem}
use yftpserver.Common.{get_app_dir, simplify_path, get_file_status}
use yftpserver.UserNode.{UserNode, new_user_node, last_char, set_home_directory}
use yftpserver.UserManager.{
  UserManager, find_user, add_node, set_error, error_path_invalid, is_directory_status,
  requested_directory, checked_directory, proccess_home_directory, register_user, assign_directory,
  set_user_home_directory, add_user,
}
use yftpserver.UserManager.Accounts.{
  account_in, Found, absent, present, find_in-Found, account_in-update_fresh,
}
use yftpserver.UserManager.Invariant.{IsValid, names-update, names-update_fresh, Distinct-add}

pub last_char_nonempty : (s : WString) → is_empty s ≡ false → (c : ℕ) × (last_char s ≡ some c)
unfolding last_char
last_char_nonempty [] h = cc
last_char_nonempty (c ∷ []) h = (c, refl)
last_char_nonempty (c ∷ d ∷ cs) h = last_char_nonempty (d ∷ cs) refl

-- A home directory that is not empty can be set: with a separator put behind it if it lacks one.
pub set_home_directory_returns :
    (dir : WString) (u : UserNode)
    → is_empty dir ≡ false
    → (home : WString) × (set_home_directory dir u ≡ ok (record u { home_directory = home }))
unfolding set_home_directory
set_home_directory_returns dir u h =
    let (c, e) = last_char_nonempty dir h in
    (if c == b'\\' || c == b'/' then dir else dir ++ b'/' ∷ [], rw e)

All-below_suc : (n : ℕ) (l : List ℕ) → All (λ a. a < n) l → All (λ a. a < suc n) l
All-below_suc n [] h = tt
All-below_suc n (a ∷ l) h = (omega arith, All-below_suc n l h.1)

add_node-IsValid :
    (u : UserNode) (m : UserManager)
    → IsValid m
    → account_in m.node u.user_name m.ftp_user_list ≡ none
    → IsValid (add_node u m)
add_node-IsValid u m v new = record {
  allocated =
      All-append (λ a. a < suc m.next) m.ftp_user_list (m.next ∷ [])
        (All-below_suc m.next m.ftp_user_list v.allocated) (omega arith);
  distinct =
      let self : update m.node m.next u m.next ≡ u = ground arith in
      Distinct-add (update m.node m.next u) m.next m.ftp_user_list
        (rw (self, account_in-update_fresh m.node m.next u u.user_name m.ftp_user_list v.allocated)
          new)
        (rw (names-update_fresh m.node m.next u m.ftp_user_list v.allocated) v.distinct);
}

-- What `proccess_home_directory` comes to: it never uses what is not there, and a directory that it
-- returns is not empty.
pub data Processed (F : Type 0) (m : UserManager)
    : Outcome (Option WString × F × UserManager) → Type 0 where
  threw : Processed F m thrown
  refused : (fs : F) → Processed F m (ok (none, fs, set_error error_path_invalid m))
  accepted :
      (path : WString) (fs : F) → is_empty path ≡ false → Processed F m (ok (some path, fs, m))

-- An operation with a result that may throw, and returns a valid manager if it does not.
abbrev pub Keeps : {F : Type 0} → Outcome (Bool × F × UserManager) → Type 0
Keeps (ok x) = IsValid x.2
Keeps thrown = Unit
Keeps fault = ⊥
Keeps running = ⊥

pub find_user-none :
    (name : WString) (m : UserManager)
    → find_user name m ≡ none
    → account_in m.node name m.ftp_user_list ≡ none
unfolding find_user
find_user-none name m e = none_absent (find_in-Found m.node name m.ftp_user_list) e
  where
    none_absent :
        {o : Option ℕ}
        → Found m.node name m.ftp_user_list o
        → o ≡ none
        → account_in m.node name m.ftp_user_list ≡ none
    none_absent (absent h) e = h
    none_absent (present a h k) e = cc

-- The second halves of the two operations that take a directory.
register_user-Keeps :
    {F : Type 0} (name password : WString) (priv : ℕ) (m : UserManager)
    → IsValid m
    → {x : Outcome (Option WString × F × UserManager)} → Processed F m x
    → Keeps (x >>= register_user name password priv)
unfolding register_user
register_user-Keeps name password priv m v threw = tt
register_user-Keeps name password priv m v (refused fs) = record {
  allocated = v.allocated;
  distinct = v.distinct;
}
register_user-Keeps name password priv m v (accepted path fs ne) =
    elim (Option-cases (find_user name m)) [
      | inr (a, e) ↦
          rw (e, register_user) (record { allocated = v.allocated; distinct = v.distinct })
      | inl e ↦
          let blank = record new_user_node { user_name = name; user_password = password } in
          let (home, set) = set_home_directory_returns path blank ne in
          rw (e, register_user, set)
            (add_node-IsValid (record blank { home_directory = home; user_privilege = priv }) m v
              (find_user-none name m e))
    ]

assign_directory-Keeps :
    {F : Type 0} (name : WString) (m : UserManager)
    → IsValid m
    → {x : Outcome (Option WString × F × UserManager)} → Processed F m x
    → Keeps (x >>= assign_directory name)
unfolding assign_directory
assign_directory-Keeps name m v threw = tt
assign_directory-Keeps name m v (refused fs) = record {
  allocated = v.allocated;
  distinct = v.distinct;
}
assign_directory-Keeps name m v (accepted path fs ne) = elim (Option-cases (find_user name m)) [
  | inl e ↦ rw (e, assign_directory) (record { allocated = v.allocated; distinct = v.distinct })
  | inr (a, e) ↦
      let (home, set) = set_home_directory_returns path (m.node a) ne in
      rw (e, assign_directory, set)
        (record {
          allocated = v.allocated;
          distinct =
              rw
                (names-update m.node a (record (m.node a) { home_directory = home }) m.ftp_user_list
                  refl)
                v.distinct;
        })
]

module _ {F : Type 0} ⦃os : FileSystem F⦄ where
  -- A call that looks up a directory cannot use what is not there.
  requested_directory_ends :
      (dir : WString) (fs : F)
      → (requested_directory dir fs ≢ fault) × (requested_directory dir fs ≢ running)
  unfolding requested_directory get_app_dir
  requested_directory_ends dir fs = (λ e. ground arith, λ e. ground arith)

  checked_directory-Processed :
      (m : UserManager) (x : WString × F) → Processed F m (checked_directory m x)
  unfolding checked_directory
  checked_directory-Processed m (temp, fs) =
      let path = if is_empty temp then temp else simplify_path fs temp in
      elim (Bool-cases (is_empty path || not (is_directory_status (get_file_status fs path)))) [
        | inl bad ↦ rw bad (refused fs)
        | inr good ↦ rw good (accepted path fs (ground arith))
      ]

  pub proccess_home_directory-Processed :
      (home_dir : WString) (fs : F) (m : UserManager)
      → Processed F m (proccess_home_directory home_dir fs m)
  unfolding proccess_home_directory
  proccess_home_directory-Processed home_dir fs m =
      bound (requested_directory home_dir fs) (requested_directory_ends home_dir fs)
    where
      bound :
          (x : Outcome (WString × F))
          → (x ≢ fault) × (x ≢ running)
          → Processed F m (x >>= checked_directory m)
      bound (ok x) h = checked_directory-Processed m x
      bound fault h = absurd (h.0 refl)
      bound running h = absurd (h.1 refl)
      bound thrown h = threw

  -- From accounts with distinct names and listed nodes, `add_user` returns such accounts again, whatever
  -- it is given and whether it succeeds, or throws because no directory could be looked up; it uses no
  -- null pointer, and always ends.
  pub add_user-Keeps :
      (name password home_dir : WString) (priv : ℕ) (fs : F) (m : UserManager)
      → IsValid m
      → Keeps (add_user name password home_dir priv fs m)
  unfolding add_user
  add_user-Keeps name password home_dir priv fs m v = elim (Bool-cases (is_empty name)) [
    | inl blank ↦ rw blank (record { allocated = v.allocated; distinct = v.distinct })
    | inr given ↦ rw given (
        register_user-Keeps name password priv m v
          (proccess_home_directory-Processed home_dir fs m))
  ]

  -- From accounts with distinct names and listed nodes, `set_user_home_directory` returns such accounts
  -- again, whether it succeeds or not, or throws because no directory could be looked up; it uses no null
  -- pointer, and always ends.
  pub set_user_home_directory-Keeps :
      (name home_dir : WString) (fs : F) (m : UserManager)
      → IsValid m
      → Keeps (set_user_home_directory name home_dir fs m)
  unfolding set_user_home_directory
  set_user_home_directory-Keeps name home_dir fs m v =
      assign_directory-Keeps name m v (proccess_home_directory-Processed home_dir fs m)
