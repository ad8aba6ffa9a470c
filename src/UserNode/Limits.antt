-- ===== src/UserNode/Limits.antt =====
-- How many clients an account holds, and how many its limit allows.
use yftpserver.Prelude.{
  ℕ, zero, suc, ◌+◌, ◌-◌, ◌≤◌, ◌≡◌, refl, sym, inl, inr, true, ◌||◌, [], ◌∷◌, List, subst,
  Bool-cases, length, length-append, count, ℤ, pos, negsuc, lt_ℤ, is_minus_one, arith,
}
use yftpserver.UserNode.{UserNode, add_client, delete_client, erase_client}

-- The number of clients that a limit allows: none for a negative one but -1, any number for -1.
abbrev pub Allows : ℤ → ℕ → Type 0
Allows (pos max) n = n ≤ max
Allows (negsuc zero) n = Unit
Allows (negsuc (suc m)) n = n ≤ 0

abbrev pub WithinLimit : UserNode → Type 0
WithinLimit u = Allows u.max_client_num (length u.ftp_client_list)

Allows-fewer : (z : ℤ) (n k : ℕ) → k ≤ n → Allows z n → Allows z k
Allows-fewer (pos max) n k h w = omega arith
Allows-fewer (negsuc zero) n k h w = tt
Allows-fewer (negsuc (suc m)) n k h w = omega arith

Allows-room : (z : ℤ) (n : ℕ) → Allows z n → is_minus_one z || lt_ℤ n z ≡ true → Allows z (n + 1)
Allows-room (pos max) n w h = ground arith
Allows-room (negsuc zero) n w h = tt
Allows-room (negsuc (suc m)) n w h = cc

length-erase_client : (c : ℕ) (l : List ℕ) → length (erase_client c l) ≤ length l
unfolding erase_client
length-erase_client c [] = omega arith
length-erase_client c (x ∷ l) = ground (arith, length-erase_client c l)

pub count-erase_client : (c : ℕ) (l : List ℕ) → count c (erase_client c l) ≡ count c l - 1
unfolding erase_client
count-erase_client c [] = refl
count-erase_client c (x ∷ l) = ground (arith, count-erase_client c l)

pub delete_client-WithinLimit :
    (c : ℕ) (u : UserNode) → WithinLimit u → WithinLimit (delete_client c u)
delete_client-WithinLimit c u w =
    Allows-fewer u.max_client_num (length u.ftp_client_list) _
      (length-erase_client c u.ftp_client_list) w

-- `add_client` never takes an account that is within its limit of clients over it.
pub add_client-WithinLimit : (c : ℕ) (u : UserNode) → WithinLimit u → WithinLimit (add_client c u).0
unfolding add_client
add_client-WithinLimit c u w =
    elim (Bool-cases
      (is_minus_one u.max_client_num || lt_ℤ (length u.ftp_client_list) u.max_client_num)) [
        | inl room ↦ rw room (
            subst (Allows u.max_client_num) (sym (length-append u.ftp_client_list (c ∷ [])))
              (Allows-room u.max_client_num (length u.ftp_client_list) w room))
        | inr full ↦ rw full w
      ]
