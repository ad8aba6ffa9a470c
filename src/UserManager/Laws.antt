-- ===== src/UserManager/Laws.antt =====
-- The manager as a map from names to accounts: what a change of the users by name does to every
-- account.
use mathlib.Core.Option
use yftpserver.Prelude.{
  ℕ, ◌≡◌, ◌≢◌, refl, WString, Bool, true, false, ◌&&◌, [], ◌∷◌, List, Option, none, some,
  if◌then◌else◌, is_some, Bool-cases, Option-cases, inl, inr, ◌==◌, is_empty, update, text_eq,
  text_eq_iff, ==_refl, All, arith,
}
use yftpserver.UserNode.{UserNode}
use yftpserver.UserManager.{
  UserManager, find_in, find_user, set_matching, set_user, set_user_password, modify_user, ask_user,
  get_user_password,
}
use yftpserver.UserManager.Accounts.{
  account_in, account, Found, absent, present, find_in-Found, account_in-update_ne,
  account_in-update_self,
}
use yftpserver.UserManager.Registration.{find_user-none}
use yftpserver.UserManager.Invariant.{names}

-- With a name that is not empty the loop changes the first user of that name.
set_matching-named :
    (f : UserNode → UserNode) (name : WString) (l : List ℕ) (node : ℕ → UserNode)
    → is_empty name ≡ false
    → set_matching f name l node ≡ (elim (find_in node name l) [
      | none ↦ (node, false)
      | some a ↦ (update node a (f (node a)), true)
    ])
unfolding set_matching find_in
set_matching-named f name [] node h = refl
set_matching-named f name (a ∷ rest) node h = ground (arith, set_matching-named f name rest node h)

find_in-none :
    (name : WString) (m : UserManager)
    → find_in m.node name m.ftp_user_list ≡ none
    → account name m ≡ none
find_in-none name m e = unfold find_user in find_user-none name m e

module _ (f : UserNode → UserNode) (kept : (u : UserNode) → (f u).user_name ≡ u.user_name)
    (name other : WString) (m : UserManager) where
  -- The change of one account leaves the others.
  changed_at :
      (a : ℕ)
      → find_in m.node name m.ftp_user_list ≡ some a
      → account_in (update m.node a (f (m.node a))) other m.ftp_user_list
        ≡ (if text_eq name other then Option.map f (account name m) else account other m)
  changed_at a e = at_user (find_in-Found m.node name m.ftp_user_list) e
    where
      at_user :
          {o : Option ℕ}
          → Found m.node name m.ftp_user_list o
          → o ≡ some a
          → account_in (update m.node a (f (m.node a))) other m.ftp_user_list
            ≡ (if text_eq name other then Option.map f (account name m) else account other m)
      at_user (absent h) e' = cc
      at_user (present b h same) e' = elim (Bool-cases (text_eq name other)) [
        | inl hit ↦ ground (
          arith,
          text_eq_iff name other,
          account_in-update_self m.node a (f (m.node a)) name m.ftp_user_list,
          kept (m.node a),
        )
        | inr miss ↦ ground (
          arith,
          text_eq_iff name other,
          account_in-update_ne m.node a (f (m.node a)) other m.ftp_user_list (kept (m.node a)),
        )
      ]

  found_account :
      (a : ℕ) → find_in m.node name m.ftp_user_list ≡ some a → is_some (account name m) ≡ true
  found_account a e = at_user (find_in-Found m.node name m.ftp_user_list) e
    where
      at_user :
          {o : Option ℕ}
          → Found m.node name m.ftp_user_list o
          → o ≡ some a
          → is_some (account name m) ≡ true
      at_user (absent h) e' = cc
      at_user (present b h same) e' = rw h

  -- A change of one user by name is seen under that name alone, and reported where there is one.
  pub set_user-account :
      is_empty name ≡ false
      → (account other (set_user f name m).0
          ≡ (if text_eq name other then Option.map f (account name m) else account other m))
        × ((set_user f name m).1 ≡ is_some (account name m))
  unfolding set_user
  set_user-account given =
      rw (set_matching-named f name m.ftp_user_list m.node given)
        (elim (Option-cases (find_in m.node name m.ftp_user_list)) [
          | inl e ↦ ground (arith, text_eq_iff name other, find_in-none name m e)
          | inr (a, e) ↦ ground (arith, changed_at a e, found_account a e)
        ])

  pub modify_user-account :
      (account other (modify_user f name m).0
        ≡ (if text_eq name other then Option.map f (account name m) else account other m))
      × ((modify_user f name m).1 ≡ is_some (account name m))
  unfolding modify_user find_user
  modify_user-account = elim (Option-cases (find_in m.node name m.ftp_user_list)) [
    | inl e ↦ ground (arith, text_eq_iff name other, find_in-none name m e)
    | inr (a, e) ↦ ground (arith, changed_at a e, found_account a e)
  ]

-- The user that is found has the name, and no user is found where the name is not listed.
pub found_name :
    (node : ℕ → UserNode) (name : WString) (l : List ℕ) (a : ℕ)
    → find_in node name l ≡ some a
    → ((node a).user_name ≡ name) × (account_in node name l ≡ some (node a))
found_name node name l a e = at_user (find_in-Found node name l) e
  where
    at_user :
        {o : Option ℕ}
        → Found node name l o
        → o ≡ some a
        → ((node a).user_name ≡ name) × (account_in node name l ≡ some (node a))
    at_user (absent h) e' = cc
    at_user (present b h same) e' = ground (arith)

pub find_user-some :
    (name : WString) (m : UserManager) (a : ℕ)
    → find_user name m ≡ some a
    → account name m ≡ some (m.node a)
unfolding find_user
find_user-some name m a e = (found_name m.node name m.ftp_user_list a e).1

pub not_named :
    (node : ℕ → UserNode) (name : WString) (l : List ℕ)
    → All (λ k. name ≢ k) (names node l)
    → account_in node name l ≡ none
not_named node name [] h = refl
not_named node name (b ∷ rest) h = ground (
  arith,
  text_eq_iff (node b).user_name name,
  not_named node name rest h.1,
  λ (e : name ≡ (node b).user_name). h.0 e,
)

-- A question to a user is answered by its account.
pub ask_user-account {ℓ} :
    {A : Type ℓ} (get : UserNode → A) (default : A) (name : WString) (m : UserManager)
    → (ask_user get default name m).1 ≡ (elim (account name m) [ none ↦ default | some u ↦ get u ])
unfolding ask_user
ask_user-account get default name m = by_found (find_user name m) refl
  where
    by_found :
        (o : Option ℕ)
        → find_user name m ≡ o
        → (ask_user get default name m).1
          ≡ (elim (account name m) [ none ↦ default | some u ↦ get u ])
    by_found none e = rw (e, ask_user, find_user-none name m e)
    by_found (some a) e = rw (e, ask_user, find_user-some name m a e)

-- A password that is set for a user is read back for that user, and every other password is as it
-- was; for a user that is not there nothing changes.
pub get-set_user_password :
    (name other password : WString) (m : UserManager)
    → is_empty name ≡ false
    → (get_user_password other (set_user_password name password m).0).1 ≡ (
        if text_eq name other && is_some (account name m)
        then some password
        else (get_user_password other m).1)
unfolding get_user_password set_user_password
get-set_user_password name other password m given =
    let f : UserNode → UserNode = λ u. record u { user_password = password } in
    rw
      (
        ask_user-account (λ u. some u.user_password) none other (set_user f name m).0,
        ask_user-account (λ u. some u.user_password) none other m,
        (set_user-account f (λ u. refl) name other m given).0,
      )
      (ground (arith, text_eq_iff name other))

-- With the empty name every user of the list gets the password.
set_matching-all :
    (P : UserNode → Type 0) (f : UserNode → UserNode)
    → ((u : UserNode) → P (f u))
    → (l : List ℕ) (node : ℕ → UserNode) (a : ℕ) → P (node a)
    → P ((set_matching f [] l node).0 a)
unfolding set_matching
set_matching-all P f holds [] node a h = h
set_matching-all P f holds (b ∷ rest) node a h =
    set_matching-all P f holds rest (update node b (f (node b))) a (at (b == a) refl)
  where
    at : (t : Bool) → (b == a) ≡ t → P (if t then f (node b) else node a)
    at true e = holds (node b)
    at false e = h

pub set-All :
    (P : UserNode → Type 0) (f : UserNode → UserNode)
    → ((u : UserNode) → P (f u))
    → (l : List ℕ) (node : ℕ → UserNode) → All (λ a. P ((set_matching f [] l node).0 a)) l
unfolding set_matching
set-All P f holds [] node = tt
set-All P f holds (b ∷ rest) node =
    let changed = update node b (f (node b)) in
    let here : P (changed b) = rw (==_refl b) (holds (node b)) in
    (set_matching-all P f holds rest changed b here, set-All P f holds rest changed)

-- An empty name sets the password of every listed account.
pub set_user_password-All :
    (password : WString) (m : UserManager)
    → All
        (λ a. ((set_user_password [] password m).0.node a).user_password ≡ password)
        m.ftp_user_list
unfolding set_user_password
set_user_password-All password m =
    let f : UserNode → UserNode = λ u. record u { user_password = password } in
    let all = set-All (λ u. u.user_password ≡ password) f (λ u. refl) m.ftp_user_list m.node in
    unfold set_user in
    elim (Bool-cases (set_matching f [] m.ftp_user_list m.node).1) [
      | inl hit ↦ rw hit all
      | inr miss ↦ rw miss all
    ]
