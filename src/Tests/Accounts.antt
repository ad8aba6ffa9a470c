-- ===== src/Tests/Accounts.antt =====
-- The accounts on concrete names.
use yftpserver.Prelude.{
  ℕ, ◌≡◌, refl, Bool, true, if◌then◌else◌, [], ◌∷◌, none, some, text_eq, text_eq_iff, ok, arith,
}
use yftpserver.UserNode.{new_user_node}
use yftpserver.UserManager.{UserManager, delete_user, register_user}
use yftpserver.UserManager.Accounts.{account}
use yftpserver.UserManager.Invariant.{IsValid}
use yftpserver.UserManager.Membership.{delete_user-account, register_user-account}
use yftpserver.Tests.{ascii, disk, ann, bob, nobody, home, two_users}

pub two_users-IsValid : IsValid two_users
two_users-IsValid = record {
  allocated = (omega arith, (omega arith, tt));
  distinct = (((λ e. ground (arith, (text_eq_iff ann bob).1 e)), tt), (tt, tt));
}

delete_user-account_example :
    (account bob (delete_user ann two_users).0 ≡ account bob two_users)
    × ((delete_user ann two_users).1 ≡ true)
unfolding text_eq
delete_user-account_example = delete_user-account ann bob two_users two_users-IsValid

register_user-account_example :
    (done : Bool) × (m' : UserManager) × (register_user {F = ℕ} nobody ann 1
        (some (b'/' ∷ b'f' ∷ []), 0, two_users)
      ≡ ok (done, 0, m'))
    × (done ≡ true)
    × (m'.last_error ≡ (if done then 0 else 0xE0000002))
    × (account nobody m' ≡ (
        if done
        then some (record new_user_node {
          user_name = nobody;
          user_password = ann;
          home_directory = home;
          user_privilege = 1;
        })
        else none))
unfolding text_eq
register_user-account_example =
    register_user-account nobody nobody ann (b'/' ∷ b'f' ∷ []) 1 0 two_users two_users-IsValid refl
