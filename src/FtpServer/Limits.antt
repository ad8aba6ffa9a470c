-- ===== src/FtpServer/Limits.antt =====
-- Configuring the server keeps every account within its limit of clients.
use yftpserver.Prelude.{
  ℕ, ◌||◌, not, WString, Bool, [], ◌∷◌, List, Option, Option-cases, none, some, inl, inr,
  Bool-cases, ℤ, pos, negsuc, zero, suc, is_empty, update, text_eq, Outcome, Returns, Returns-bind,
  Returns-last, arith, if◌then◌else◌,
}
use yftpserver.FileSystem.{FileSystem}
use yftpserver.Common.{simplify_path, get_file_status}
use yftpserver.UserNode.{UserNode, new_user_node, delete_all_client, set_home_directory, last_char}
use yftpserver.UserNode.Limits.{Allows, WithinLimit}
use yftpserver.UserManager.{
  UserManager, find_user, set_matching, set_user, delete_user, assign_directory, register_user,
  requested_directory, checked_directory, proccess_home_directory, is_directory_status,
  set_user_home_directory, add_user,
}
use yftpserver.ClientNode.Seats.{AllWithin, set_node-AllWithin}

Allows-no_client : (z : ℤ) → Allows z 0
Allows-no_client (pos max) = omega arith
Allows-no_client (negsuc zero) = tt
Allows-no_client (negsuc (suc m)) = omega arith

set_matching-WithinLimit :
    (f : UserNode → UserNode) (name : WString) (l : List ℕ) (node : ℕ → UserNode)
    → ((u : UserNode) → WithinLimit u → WithinLimit (f u))
    → ((a : ℕ) → WithinLimit (node a))
    → (a : ℕ) → WithinLimit ((set_matching f name l node).0 a)
unfolding set_matching
set_matching-WithinLimit f name [] node kept all b = all b
set_matching-WithinLimit f name (a ∷ rest) node kept all b =
    let m : UserManager = record { node = node; ftp_user_list = []; next = 0; last_error = 0 } in
    let changed = set_node-AllWithin a (f (node a)) m (kept (node a) (all a)) all in
    elim (Bool-cases (is_empty name)) [
      | inl every ↦
          rw every
            (set_matching-WithinLimit f name rest (update node a (f (node a))) kept changed b)
      | inr one ↦ elim (Bool-cases (text_eq (node a).user_name name)) [
        | inl hit ↦ rw (one, hit) (changed b)
        | inr miss ↦ rw (one, miss) (set_matching-WithinLimit f name rest node kept all b)
      ]
    ]

pub set_user-AllWithin :
    (f : UserNode → UserNode) (name : WString) (m : UserManager)
    → ((u : UserNode) → WithinLimit u → WithinLimit (f u))
    → AllWithin m
    → AllWithin (set_user f name m).0
unfolding set_user
set_user-AllWithin f name m kept all =
    let result = set_matching f name m.ftp_user_list m.node in
    let h = set_matching-WithinLimit f name m.ftp_user_list m.node kept all in
    elim (Bool-cases result.1) [ inl hit ↦ rw hit h | inr miss ↦ rw miss h ]

pub delete_user-AllWithin :
    (name : WString) (m : UserManager) → AllWithin m → AllWithin (delete_user name m).0
unfolding delete_user
delete_user-AllWithin name m all = elim (Option-cases (find_user name m)) [
  | inl e ↦ rw (e, delete_user) all
  | inr (a, e) ↦
      rw (e, delete_user)
        (set_node-AllWithin a (delete_all_client (m.node a)) m
          (Allows-no_client (m.node a).max_client_num) all)
]

set_home_directory-WithinLimit :
    (dir : WString) (u : UserNode) → WithinLimit u → Returns WithinLimit (set_home_directory dir u)
unfolding set_home_directory
set_home_directory-WithinLimit dir u w = elim (Option-cases (last_char dir)) [
  | inl e ↦ rw e tt
  | inr (c, e) ↦ rw e w
]

-- What an operation on the accounts returns, with its result and the files.
abbrev pub KeepsWithin : {F : Type 0} → Outcome (Bool × F × UserManager) → Type 0
KeepsWithin = Returns (λ x. AllWithin x.2)

module _ {F : Type 0} where
  assign_directory-KeepsWithin :
      (name : WString) (x : Option WString × F × UserManager)
      → AllWithin x.2
      → KeepsWithin (assign_directory name x)
  unfolding assign_directory
  assign_directory-KeepsWithin name (none, fs, m) all = all
  assign_directory-KeepsWithin name (some path, fs, m) all =
      elim (Option-cases (find_user name m)) [
        | inl e ↦ rw (e, assign_directory) all
        | inr (a, e) ↦
            rw (e, assign_directory)
              (Returns-bind WithinLimit (λ x. AllWithin x.2) (set_home_directory path (m.node a)) _
                (set_home_directory-WithinLimit path (m.node a) (all a))
                (λ u w. set_node-AllWithin a u m w all))
      ]

  register_user-KeepsWithin :
      (name password : WString) (priv : ℕ) (x : Option WString × F × UserManager)
      → AllWithin x.2
      → KeepsWithin (register_user name password priv x)
  unfolding register_user
  register_user-KeepsWithin name password priv (none, fs, m) all = all
  register_user-KeepsWithin name password priv (some path, fs, m) all =
      let blank = record new_user_node { user_name = name; user_password = password } in
      elim (Option-cases (find_user name m)) [
        | inr (a, e) ↦ rw (e, register_user) all
        | inl e ↦
            rw (e, register_user)
              (Returns-bind WithinLimit (λ x. AllWithin x.2) (set_home_directory path blank) _
                (set_home_directory-WithinLimit path blank (omega arith))
                (λ u w. set_node-AllWithin m.next (record u { user_privilege = priv }) m w all))
      ]

module _ {F : Type 0} ⦃os : FileSystem F⦄ where
  proccess_home_directory-KeepsWithin :
      (home_dir : WString) (fs : F) (m : UserManager)
      → AllWithin m
      → Returns (λ x. AllWithin x.2) (proccess_home_directory home_dir fs m)
  unfolding proccess_home_directory checked_directory
  proccess_home_directory-KeepsWithin home_dir fs m all =
      Returns-last (λ x. AllWithin x.2) (requested_directory home_dir fs) (checked_directory m)
        checked
    where
      checked : (x : WString × F) → Returns (λ x. AllWithin x.2) (checked_directory m x)
      checked (temp, fs) =
          let path = if is_empty temp then temp else simplify_path fs temp in
          elim (Bool-cases (is_empty path || not (is_directory_status (get_file_status fs path)))) [
            | inl bad ↦ rw bad all
            | inr good ↦ rw good all
          ]

  pub add_user-KeepsWithin :
      (name password home_dir : WString) (priv : ℕ) (fs : F) (m : UserManager)
      → AllWithin m
      → KeepsWithin (add_user name password home_dir priv fs m)
  unfolding add_user
  add_user-KeepsWithin name password home_dir priv fs m all = elim (Bool-cases (is_empty name)) [
    | inl blank ↦ rw blank all
    | inr given ↦ rw given (
        Returns-bind (λ x. AllWithin x.2) (λ x. AllWithin x.2)
          (proccess_home_directory home_dir fs m) _
          (proccess_home_directory-KeepsWithin home_dir fs m all)
          (λ x h. register_user-KeepsWithin name password priv x h))
  ]

  pub set_user_home_directory-KeepsWithin :
      (name home_dir : WString) (fs : F) (m : UserManager)
      → AllWithin m
      → KeepsWithin (set_user_home_directory name home_dir fs m)
  unfolding set_user_home_directory
  set_user_home_directory-KeepsWithin name home_dir fs m all =
      Returns-bind (λ x. AllWithin x.2) (λ x. AllWithin x.2) (proccess_home_directory home_dir fs m)
        _ (proccess_home_directory-KeepsWithin home_dir fs m all)
        (λ x h. assign_directory-KeepsWithin name x h)
