-- ===== src/UserManager/Invariant.antt =====
-- No two accounts share a name, and every operation keeps it so.
use yftpserver.Prelude.{
  ℕ, ◌<◌, ◌≡◌, ◌≢◌, refl, ◌∙◌, WString, [], ◌∷◌, ◌++◌, List, none, Bool-cases, Option-cases, inl,
  inr, ◌==◌, update, text_eq_iff, All, arith,
}
use yftpserver.UserNode.{UserNode, delete_all_client}
use yftpserver.UserManager.{
  UserManager, new_user_manager, find_user, set_matching, set_user, modify_user, erase_address,
  delete_user, delete_all_user, empty_all,
}
use yftpserver.UserManager.Accounts.{account_in}

abbrev pub names : (ℕ → UserNode) → List ℕ → List WString
names node [] = []
names node (a ∷ rest) = (node a).user_name ∷ names node rest

abbrev pub Distinct : List WString → Type 0
Distinct [] = Unit
Distinct (n ∷ ns) = All (λ k. n ≢ k) ns × Distinct ns

-- Every listed address is in use, and no name is listed twice.
pub record IsValid (m : UserManager) : Type 0 where
  pub allocated : All (λ a. a < m.next) m.ftp_user_list
  pub distinct : Distinct (names m.node m.ftp_user_list)

pub new_user_manager-IsValid : IsValid new_user_manager
new_user_manager-IsValid = record { allocated = tt; distinct = tt }

pub names-update :
    (node : ℕ → UserNode) (a : ℕ) (u : UserNode) (l : List ℕ)
    → u.user_name ≡ (node a).user_name
    → names (update node a u) l ≡ names node l
names-update node a u [] kept = refl
names-update node a u (b ∷ rest) kept = ground (arith, names-update node a u rest kept)

pub names-update_fresh :
    (node : ℕ → UserNode) (n : ℕ) (u : UserNode) (l : List ℕ)
    → All (λ a. a < n) l
    → names (update node n u) l ≡ names node l
names-update_fresh node n u [] h = refl
names-update_fresh node n u (b ∷ rest) h = ground (arith, names-update_fresh node n u rest h.1)

pub names-set_matching :
    (f : UserNode → UserNode) (name : WString) (l k : List ℕ) (node : ℕ → UserNode)
    → ((u : UserNode) → (f u).user_name ≡ u.user_name)
    → names (set_matching f name l node).0 k ≡ names node k
unfolding set_matching
names-set_matching f name [] k node kept = refl
names-set_matching f name (a ∷ rest) k node kept = ground (
  arith,
  names-set_matching f name rest k (update node a (f (node a))) kept,
  names-set_matching f name rest k node kept,
  names-update node a (f (node a)) k (kept (node a)),
)

names-empty_all : (l k : List ℕ) (node : ℕ → UserNode) → names (empty_all l node) k ≡ names node k
unfolding empty_all
names-empty_all [] k node = refl
names-empty_all (a ∷ rest) k node =
    names-empty_all rest k _ ∙ names-update node a (delete_all_client (node a)) k refl

-- Names and addresses that a list without one entry still has.
All-erase : (P : ℕ → Type 0) (a : ℕ) (l : List ℕ) → All P l → All P (erase_address a l)
unfolding erase_address
All-erase P a [] h = tt
All-erase P a (b ∷ rest) h = elim (Bool-cases (b == a)) [
  | inl hit ↦ rw hit h.1
  | inr miss ↦ rw miss (h.0, All-erase P a rest h.1)
]

All-names-erase :
    (P : WString → Type 0) (node : ℕ → UserNode) (a : ℕ) (l : List ℕ)
    → All P (names node l)
    → All P (names node (erase_address a l))
unfolding erase_address
All-names-erase P node a [] h = tt
All-names-erase P node a (b ∷ rest) h = elim (Bool-cases (b == a)) [
  | inl hit ↦ rw hit h.1
  | inr miss ↦ rw miss (h.0, All-names-erase P node a rest h.1)
]

Distinct-erase :
    (node : ℕ → UserNode) (a : ℕ) (l : List ℕ)
    → Distinct (names node l)
    → Distinct (names node (erase_address a l))
unfolding erase_address
Distinct-erase node a [] h = tt
Distinct-erase node a (b ∷ rest) h = elim (Bool-cases (b == a)) [
  | inl hit ↦ rw hit h.1
  | inr miss ↦ rw miss (
    All-names-erase (λ k. (node b).user_name ≢ k) node a rest h.0,
    Distinct-erase node a rest h.1,
  )
]

-- A name that no listed user has may be added.
pub Distinct-add :
    (node : ℕ → UserNode) (n : ℕ) (l : List ℕ)
    → account_in node (node n).user_name l ≡ none
    → Distinct (names node l)
    → Distinct (names node (l ++ n ∷ []))
Distinct-add node n [] none_yet h = (tt, tt)
Distinct-add node n (b ∷ rest) none_yet h =
    (apart rest h.0 other, Distinct-add node n rest (ground arith) h.1)
  where
    other : (node b).user_name ≢ (node n).user_name
    other e = ground (arith, text_eq_iff (node b).user_name (node n).user_name)

    apart :
        (k : List ℕ)
        → All (λ x. (node b).user_name ≢ x) (names node k)
        → (node b).user_name ≢ (node n).user_name
        → All (λ x. (node b).user_name ≢ x) (names node (k ++ n ∷ []))
    apart [] h o = (o, tt)
    apart (c ∷ k) h o = (h.0, apart k h.1 o)

module _ (f : UserNode → UserNode) (kept : (u : UserNode) → (f u).user_name ≡ u.user_name)
    (name : WString) (m : UserManager) (v : IsValid m) where
  pub set_user-IsValid : IsValid (set_user f name m).0
  unfolding set_user
  set_user-IsValid =
      let result = set_matching f name m.ftp_user_list m.node in
      let same : Distinct (names result.0 m.ftp_user_list) =
        rw (names-set_matching f name m.ftp_user_list m.ftp_user_list m.node kept) v.distinct in
      elim (Bool-cases result.1) [
        | inl hit ↦ rw hit (record { allocated = v.allocated; distinct = same })
        | inr miss ↦ rw miss (record { allocated = v.allocated; distinct = same })
      ]

  pub modify_user-IsValid : IsValid (modify_user f name m).0
  unfolding modify_user
  modify_user-IsValid = elim (Option-cases (find_user name m)) [
    | inl e ↦ rw (e, modify_user) (record { allocated = v.allocated; distinct = v.distinct })
    | inr (a, e) ↦
        rw (e, modify_user)
          (record {
            allocated = v.allocated;
            distinct =
                rw (names-update m.node a (f (m.node a)) m.ftp_user_list (kept (m.node a)))
                  v.distinct;
          })
  ]

-- Deleting a user of any name, known or not, from accounts with distinct names and listed nodes leaves
-- such accounts.
pub delete_user-IsValid :
    (name : WString) (m : UserManager) → IsValid m → IsValid (delete_user name m).0
unfolding delete_user
delete_user-IsValid name m v = elim (Option-cases (find_user name m)) [
  | inl e ↦ rw (e, delete_user) (record { allocated = v.allocated; distinct = v.distinct })
  | inr (a, e) ↦
      rw (e, delete_user)
        (record {
          allocated = All-erase (λ b. b < m.next) a m.ftp_user_list v.allocated;
          distinct =
              rw
                (names-update m.node a (delete_all_client (m.node a))
                  (erase_address a m.ftp_user_list) refl)
                (Distinct-erase m.node a m.ftp_user_list v.distinct);
        })
]

pub delete_all_user-IsValid : (m : UserManager) → IsValid m → IsValid (delete_all_user m)
unfolding delete_all_user
delete_all_user-IsValid m v = record { allocated = tt; distinct = tt }
