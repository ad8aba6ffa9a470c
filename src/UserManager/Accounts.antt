-- ===== src/UserManager/Accounts.antt =====
-- The accounts as a map from names: what a change of one user does to the others.
use yftpserver.Prelude.{
  ℕ, ◌<◌, ◌≡◌, ◌≢◌, refl, WString, false, [], ◌∷◌, ◌++◌, List, Option, none, some, if◌then◌else◌,
  Bool-cases, inl, inr, update, text_eq, text_eq_iff, All, arith,
}
use yftpserver.UserNode.{UserNode}
use yftpserver.UserManager.{UserManager, find_in, erase_address}

-- The first account of a name.
abbrev pub account_in : (ℕ → UserNode) → WString → List ℕ → Option UserNode
account_in node name [] = none
account_in node name (a ∷ rest) =
    if text_eq (node a).user_name name then some (node a) else account_in node name rest

abbrev pub account : WString → UserManager → Option UserNode
account name m = account_in m.node name m.ftp_user_list

-- `find_in` finds the address of that account.
pub data Found (node : ℕ → UserNode) (name : WString) (l : List ℕ) : Option ℕ → Type 0 where
  absent : account_in node name l ≡ none → Found node name l none
  present :
      (a : ℕ)
      → account_in node name l ≡ some (node a)
      → (node a).user_name ≡ name
      → Found node name l (some a)

pub find_in-Found :
    (node : ℕ → UserNode) (name : WString) (l : List ℕ) → Found node name l (find_in node name l)
unfolding find_in
find_in-Found node name [] = absent refl
find_in-Found node name (a ∷ rest) = elim (Bool-cases (text_eq (node a).user_name name)) [
  | inl hit ↦ rw hit (present a (rw hit) ((text_eq_iff _ _).0 hit))
  | inr miss ↦ rw miss (skip (find_in-Found node name rest) miss)
]
  where
    skip :
        {o : Option ℕ}
        → Found node name rest o
        → text_eq (node a).user_name name ≡ false
        → Found node name (a ∷ rest) o
    skip (absent e) miss = absent (rw miss e)
    skip (present b e same) miss = present b (rw miss e) same

-- A change of the node at one address, the name kept, is seen under that name alone.
pub account_in-update_ne :
    (node : ℕ → UserNode) (a : ℕ) (u : UserNode) (name : WString) (l : List ℕ)
    → u.user_name ≡ (node a).user_name
    → (node a).user_name ≢ name
    → account_in (update node a u) name l ≡ account_in node name l
account_in-update_ne node a u name [] kept other = refl
account_in-update_ne node a u name (b ∷ rest) kept other = ground (
  arith,
  account_in-update_ne node a u name rest kept other,
  text_eq_iff (node a).user_name name,
  text_eq_iff u.user_name name,
)

-- A change at a free address is not seen.
pub account_in-update_fresh :
    (node : ℕ → UserNode) (n : ℕ) (u : UserNode) (name : WString) (l : List ℕ)
    → All (λ a. a < n) l
    → account_in (update node n u) name l ≡ account_in node name l
account_in-update_fresh node n u name [] h = refl
account_in-update_fresh node n u name (b ∷ rest) h =
    ground (arith, account_in-update_fresh node n u name rest h.1)

pub account_in-update_self :
    (node : ℕ → UserNode) (a : ℕ) (u : UserNode) (name : WString) (l : List ℕ)
    → u.user_name ≡ name
    → find_in node name l ≡ some a
    → account_in (update node a u) name l ≡ some u
unfolding find_in
account_in-update_self node a u name [] same e = cc
account_in-update_self node a u name (b ∷ rest) same e =
    ground (arith, account_in-update_self node a u name rest same, text_eq_iff u.user_name name)

-- A node that is added at a free address stands behind the others.
pub account_in-add :
    (node : ℕ → UserNode) (n : ℕ) (u : UserNode) (name : WString) (l : List ℕ)
    → All (λ a. a < n) l
    → account_in (update node n u) name (l ++ n ∷ []) ≡ (elim (account_in node name l) [
      | some v ↦ some v
      | none ↦ if text_eq u.user_name name then some u else none
    ])
account_in-add node n u name [] h = ground arith
account_in-add node n u name (b ∷ rest) h = ground (arith, account_in-add node n u name rest h.1)

-- Removing the address of one name leaves the others.
pub account_in-erase_ne :
    (node : ℕ → UserNode) (a : ℕ) (name : WString) (l : List ℕ)
    → (node a).user_name ≢ name
    → account_in node name (erase_address a l) ≡ account_in node name l
unfolding erase_address
account_in-erase_ne node a name [] other = refl
account_in-erase_ne node a name (b ∷ rest) other =
    ground (arith, account_in-erase_ne node a name rest other, text_eq_iff (node b).user_name name)

-- A name that no listed user has is not made by a change that keeps names.
pub account_in-update-none :
    (node : ℕ → UserNode) (a : ℕ) (u : UserNode) (name : WString) (l : List ℕ)
    → u.user_name ≡ (node a).user_name
    → account_in node name l ≡ none
    → account_in (update node a u) name l ≡ none
account_in-update-none node a u name [] kept h = refl
account_in-update-none node a u name (b ∷ rest) kept h = ground (
  arith,
  account_in-update-none node a u name rest kept,
  text_eq_iff (node b).user_name name,
  text_eq_iff u.user_name name,
)
