-- ===== src/UserManager/Membership.antt =====
-- Which accounts there are after one was deleted or added.
use yftpserver.Prelude.{
  ℕ, ◌≡◌, ◌≢◌, refl, ap, ◌∙◌, WString, Bool, true, false, not, ◌&&◌, ◌||◌, ◌==◌, [], ◌∷◌, ◌++◌,
  List, none, some, if◌then◌else◌, is_some, Bool-cases, Option-cases, inl, inr, is_empty, update,
  text_eq, text_eq_iff, subst, All, arith, ok,
}
use yftpserver.UserNode.{UserNode, new_user_node, delete_all_client, last_char, set_home_directory}
use yftpserver.UserManager.{
  UserManager, find_in, find_user, erase_address, delete_user, add_node, set_error,
  error_user_exist, register_user,
}
use yftpserver.UserManager.Accounts.{
  account_in, account, account_in-update_ne, account_in-update-none, account_in-add,
  account_in-erase_ne,
}
use yftpserver.UserManager.Laws.{found_name, find_user-some, not_named}
use yftpserver.UserManager.Registration.{last_char_nonempty, find_user-none}
use yftpserver.UserManager.Invariant.{IsValid, names, Distinct}

-- In a list without double names, the name of a user that is taken out is gone.
erase-gone :
    (node : ℕ → UserNode) (a : ℕ) (name : WString) (l : List ℕ)
    → Distinct (names node l)
    → find_in node name l ≡ some a
    → account_in node name (erase_address a l) ≡ none
unfolding find_in erase_address
erase-gone node a name [] d e = cc
erase-gone node a name (b ∷ rest) d e = elim (Bool-cases (text_eq (node b).user_name name)) [
  | inl hit ↦ ground (
    arith,
    text_eq_iff (node b).user_name name,
    not_named node name rest
        (subst (λ n. All (λ k. n ≢ k) (names node rest)) ((text_eq_iff _ _).0 hit) d.0),
  )
  | inr miss ↦ ground (
    arith,
    text_eq_iff (node b).user_name name,
    erase-gone node a name rest d.1,
    found_name node name rest a,
  )
]

-- A deleted user is gone, the other accounts are as they were, and the result tells whether the user
-- was there.
pub delete_user-account :
    (name other : WString) (m : UserManager)
    → IsValid m
    → (account other (delete_user name m).0
        ≡ (if text_eq name other then none else account other m))
      × ((delete_user name m).1 ≡ is_some (account name m))
unfolding delete_user
delete_user-account name other m v = elim (Option-cases (find_user name m)) [
  | inl e ↦ rw (e, delete_user) (ground (arith, text_eq_iff name other, find_user-none name m e))
  | inr (a, e) ↦
      rw (e, delete_user) (deleted a (unfold find_user in e), rw (find_user-some name m a e))
]
  where
    deleted :
        (a : ℕ)
        → find_in m.node name m.ftp_user_list ≡ some a
        → account_in
            (update m.node a (delete_all_client (m.node a)))
            other
            (erase_address a m.ftp_user_list)
          ≡ (if text_eq name other then none else account other m)
    deleted a e = elim (Bool-cases (text_eq name other)) [
      | inl hit ↦
          rw (hit, ← (text_eq_iff name other).0 hit)
            (account_in-update-none m.node a (delete_all_client (m.node a)) name
              (erase_address a m.ftp_user_list) refl
              (erase-gone m.node a name m.ftp_user_list v.distinct e))
      | inr miss ↦
          let foreign : (m.node a).user_name ≢ other =
            ground (arith, text_eq_iff name other, found_name m.node name m.ftp_user_list a e) in
          rw miss (
            account_in-update_ne m.node a (delete_all_client (m.node a)) other
              (erase_address a m.ftp_user_list) refl foreign
            ∙ account_in-erase_ne m.node a other m.ftp_user_list foreign)
    ]

-- A directory with a separator at its end.
abbrev pub closed_directory : WString → WString
closed_directory [] = []
closed_directory (c ∷ []) = if c == b'\\' || c == b'/' then c ∷ [] else c ∷ b'/' ∷ []
closed_directory (c ∷ d ∷ cs) = c ∷ closed_directory (d ∷ cs)

closed_directory-last :
    (dir : WString) (c : ℕ)
    → last_char dir ≡ some c
    → (if c == b'\\' || c == b'/' then dir else dir ++ b'/' ∷ []) ≡ closed_directory dir
unfolding last_char
closed_directory-last [] c e = cc
closed_directory-last (d ∷ []) c e = ground arith
closed_directory-last (d ∷ k ∷ cs) c e =
    let rest = closed_directory-last (k ∷ cs) c e in
    elim (Bool-cases (c == b'\\' || c == b'/')) [
      | inl ends ↦ rw ends (ap (λ r. d ∷ r) (rw ends at rest))
      | inr open_end ↦ rw open_end (ap (λ r. d ∷ r) (rw open_end at rest))
    ]

set_home_directory_closed :
    (dir : WString) (u : UserNode)
    → is_empty dir ≡ false
    → set_home_directory dir u ≡ ok (record u { home_directory = closed_directory dir })
unfolding set_home_directory
set_home_directory_closed dir u h =
    let (c, e) = last_char_nonempty dir h in
    rw e (ap (λ home. ok (record u { home_directory = home })) (closed_directory-last dir c e))

-- A directory that was accepted: the account is made if the name is free, with the password and the
-- privilege given, the directory, ended by a separator, as its home, and room for ten clients. If the
-- name is taken, the call returns false and sets the error code for it. No other account changes.
pub register_user-account :
    {F : Type 0} (name other password path : WString) (priv : ℕ) (fs : F) (m : UserManager)
    → IsValid m
    → is_empty path ≡ false
    → (done : Bool) × (m' : UserManager) × (register_user name password priv (some path, fs, m)
        ≡ ok (done, fs, m'))
      × (done ≡ not (is_some (account name m)))
      × (m'.last_error ≡ (if done then m.last_error else error_user_exist))
      × (account other m' ≡ (
          if text_eq name other && done
          then some (record new_user_node {
            user_name = name;
            user_password = password;
            home_directory = closed_directory path;
            user_privilege = priv;
          })
          else account other m))
unfolding register_user
register_user-account name other password path priv fs m v ne =
    elim (Option-cases (find_user name m)) [
      | inl e ↦
          let blank = record new_user_node { user_name = name; user_password = password } in
          let u = record blank { home_directory = closed_directory path; user_privilege = priv } in
          (
            true,
            add_node u m,
            rw (e, register_user, set_home_directory_closed path blank ne),
            rw (find_user-none name m e),
            refl,
            rw (account_in-add m.node m.next u other m.ftp_user_list v.allocated)
                (ground (arith, text_eq_iff name other, find_user-none name m e)),
          )
      | inr (a, e) ↦ (
        false,
        set_error error_user_exist m,
        rw (e, register_user),
        rw (find_user-some name m a e),
        refl,
        ground arith,
      )
    ]
