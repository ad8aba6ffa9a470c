-- ===== src/FtpServer/Listing.antt =====
-- jni/yftp/user_manager.cpp: whether an account of a name is listed, after the operations on the accounts.
use yftpserver.Prelude.{
  ℕ, ◌≡◌, refl, inl, inr, ap, sym, subst, ◌∙◌, Bool, true, false, ◌||◌, WString, [], ◌∷◌, List,
  Option, Option-cases, Bool-cases, is_some, is_empty, text_eq, Outcome, ◌>>=◌, Returns,
  Returns-map, Returns-any, arith, update,
}
use yftpserver.FileSystem.{FileSystem}
use yftpserver.UserNode.{UserNode, add_client, delete_client}
use yftpserver.UserManager.{
  UserManager, find_user, register_user, assign_directory, set_user, set_matching, delete_user,
  set_node,
}
use yftpserver.UserManager
use yftpserver.UserManager.Accounts.{account_in, account}
use yftpserver.UserManager.Invariant.{IsValid, names, names-update, names-set_matching}
use yftpserver.UserManager.Registration.{
  Processed, threw, refused, accepted, proccess_home_directory-Processed,
  set_home_directory_returns,
}
use yftpserver.UserManager.Membership.{register_user-account}
use yftpserver.ClientNode.Invariance.{SeatInvariant}

-- An account of that name is listed.
abbrev pub IsListed : WString → UserManager → Type 0
IsListed name m = is_some (account name m) ≡ true

abbrev has : WString → List WString → Bool
has name [] = false
has name (n ∷ ns) = text_eq n name || has name ns

is_some-account_in :
    (node : ℕ → UserNode) (name : WString) (l : List ℕ)
    → is_some (account_in node name l) ≡ has name (names node l)
is_some-account_in node name [] = refl
is_some-account_in node name (a ∷ l) = ground (arith, is_some-account_in node name l)

-- Nodes that have the same names make the same accounts listed.
same_names :
    (node node' : ℕ → UserNode) (name : WString) (l : List ℕ)
    → names node' l ≡ names node l
    → is_some (account_in node name l) ≡ true
    → is_some (account_in node' name l) ≡ true
same_names node node' name l e h =
    is_some-account_in node' name l ∙ ap (has name) e ∙ sym (is_some-account_in node name l) ∙ h

pub IsListed-SeatInvariant : (name : WString) → SeatInvariant (IsListed name)
IsListed-SeatInvariant name = record {
  entered = λ me a m. same_names m.node _ name m.ftp_user_list (
      names-update m.node a (add_client me (m.node a)).0 m.ftp_user_list
        (unfold add_client in ground arith));
  left = λ me a m.
      same_names m.node _ name m.ftp_user_list
        (names-update m.node a (delete_client me (m.node a)) m.ftp_user_list refl);
}

pub set_user-IsListed :
    (f : UserNode → UserNode) (name n : WString) (m : UserManager)
    → ((u : UserNode) → (f u).user_name ≡ u.user_name)
    → IsListed n m
    → IsListed n (set_user f name m).0
unfolding set_user
set_user-IsListed f name n m kept h =
    let same =
      same_names m.node (set_matching f name m.ftp_user_list m.node).0 n m.ftp_user_list
        (names-set_matching f name m.ftp_user_list m.ftp_user_list m.node kept) h in
    elim (Bool-cases (set_matching f name m.ftp_user_list m.node).1) [
      | inl hit ↦ rw hit same
      | inr miss ↦ rw miss same
    ]

-- What adding a user, or moving its directory, does to the listed names.
unfoldable pub Adds :
    {F : Type 0} → WString → WString → UserManager → Bool × F × UserManager → Type 0
Adds n name m (ret, fs, m') =
    (IsListed n m → IsListed n m') × (text_eq name n ≡ true → ret ≡ true → IsListed n m')

register_user-Adds :
    {F : Type 0} (n name password : WString) (priv : ℕ) (m : UserManager)
    → IsValid m
    → {x : Outcome (Option WString × F × UserManager)} → Processed F m x
    → Returns (Adds n name m) (x >>= register_user name password priv)
unfolding register_user Adds
register_user-Adds n name password priv m v threw = tt
register_user-Adds n name password priv m v (refused fs) = (λ h. h, λ _ e. cc)
register_user-Adds n name password priv m v (accepted path fs ne) =
    let (done, m', e, d, error, acc) = register_user-account name n password path priv fs m v ne in
    subst (Returns (Adds n name m)) (sym e)
      (λ h. ground (arith, acc, h), λ same made. ground (arith, acc, same, made))

assign_directory-Adds :
    {F : Type 0} (n name : WString) (m : UserManager)
    → {x : Outcome (Option WString × F × UserManager)} → Processed F m x
    → IsListed n m
    → Returns (λ y. IsListed n y.2) (x >>= assign_directory name)
unfolding assign_directory
assign_directory-Adds n name m threw h = tt
assign_directory-Adds n name m (refused fs) h = h
assign_directory-Adds n name m (accepted path fs ne) h = elim (Option-cases (find_user name m)) [
  | inl e ↦ rw (e, assign_directory) h
  | inr (a, e) ↦
      let (home, set) = set_home_directory_returns path (m.node a) ne in
      let u = record (m.node a) { home_directory = home } in
      rw (e, assign_directory, set)
        (same_names m.node (update m.node a u) n m.ftp_user_list
          (names-update m.node a u m.ftp_user_list refl) h)
]

module _ {F : Type 0} ⦃os : FileSystem F⦄ where
  pub add_user-Adds :
      (n name password home_dir : WString) (priv : ℕ) (fs : F) (m : UserManager)
      → IsValid m
      → Returns (Adds n name m) (UserManager.add_user name password home_dir priv fs m)
  unfolding UserManager.add_user Adds
  add_user-Adds n name password home_dir priv fs m v = elim (Bool-cases (is_empty name)) [
    | inl blank ↦ rw blank (λ h. h, λ _ e. cc)
    | inr given ↦ rw given (
        register_user-Adds n name password priv m v
          (proccess_home_directory-Processed home_dir fs m))
  ]

  -- An account that is listed if a flag is set is so after a directory was moved.
  pub set_user_home_directory-Moves :
      (flag : Bool) (n name home_dir : WString) (fs : F) (m : UserManager)
      → (flag ≡ true → IsListed n m)
      → Returns
          (λ y. flag ≡ true → IsListed n y.2)
          (UserManager.set_user_home_directory name home_dir fs m)
  unfolding UserManager.set_user_home_directory
  set_user_home_directory-Moves true n name home_dir fs m h =
      Returns-map (λ y. IsListed n y.2) (λ y. true ≡ true → IsListed n y.2) _
        (λ y listed on. listed)
        (assign_directory-Adds n name m (proccess_home_directory-Processed home_dir fs m) (h refl))
  set_user_home_directory-Moves false n name home_dir fs m h =
      Returns-map (λ y. Unit) (λ y. false ≡ true → IsListed n y.2) _
        (λ y u on. absurd (ground arith)) (Returns-any _)
