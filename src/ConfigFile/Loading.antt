-- ===== src/ConfigFile/Loading.antt =====
-- jni/yftp/main.cpp: the loop over the users of a configuration file.
use yftpserver.Prelude.{
  ℕ, zero, suc, ◌+◌, ◌<◌, ◌≡◌, refl, ap, ◌∙◌, Bool, true, false, ◌||◌, Bytes, [], ◌∷◌, List,
  is_empty, Outcome, ok, ◌>>=◌, bind-congr, arith,
}
use yftpserver.FileSystem.{FileSystem}
use yftpserver.FtpServer.{World}
use yftpserver.ConfigFile.{ConfigSource, user_info, load_user, load_users}

-- The lines of `n` users, from the one of number `i` on.
abbrev pub user_lines : ConfigSource → ℕ → ℕ → List Bytes
user_lines source i zero = []
user_lines source i (suc n) = user_info source i ∷ user_lines source (suc i) n

at_start : (i : ℕ) → i ≡ i + 0
at_start i = omega arith

shift : (i k : ℕ) → suc i + k ≡ i + suc k
shift i k = omega arith

module _ {F : Type 0} ⦃os : FileSystem F⦄ (source : ConfigSource) (root : Bytes) where
  -- The users of a list of lines, one after the other.
  unfoldable pub load_lines : List Bytes → Bool → World F → Outcome (World F × Bool)
  load_lines [] have_user w = ok (w, have_user)
  load_lines (line ∷ lines) have_user w =
      load_user source root line w >>= λ (w', complete). load_lines lines (have_user || complete) w'

  -- If the file names `n` users from number `i` on, and none under the number after them, the loop over the
  -- users, with fuel for more than `n` of them, does what loading their lines one after the other, in
  -- order, does.
  pub load_users-load_lines :
      (n fuel i : ℕ) (have_user : Bool) (w : World F)
      → n < fuel
      → ((k : ℕ) → k < n → is_empty (user_info source (i + k)) ≡ false)
      → is_empty (user_info source (i + n)) ≡ true
      → load_users source fuel i root have_user w ≡ load_lines (user_lines source i n) have_user w
  unfolding load_users load_lines
  load_users-load_lines zero (suc fuel) i have_user w enough named ends =
      let here : is_empty (user_info source i) ≡ true =
        ap (λ k. is_empty (user_info source k)) (at_start i) ∙ ends in
      rw here refl
  load_users-load_lines n zero i have_user w enough named ends = absurd (omega arith)
  load_users-load_lines (suc n) (suc fuel) i have_user w enough named ends =
      let here : is_empty (user_info source i) ≡ false =
        ap (λ k. is_empty (user_info source k)) (at_start i) ∙ named 0 (omega arith) in
      rw here (
        bind-congr (load_user source root (user_info source i) w) _ _ (λ (w', complete).
          load_users-load_lines n fuel (suc i) (have_user || complete) w' (omega arith)
            (λ k below.
              ap (λ j. is_empty (user_info source j)) (shift i k) ∙ named (suc k) (omega arith))
            (ap (λ j. is_empty (user_info source j)) (shift i n) ∙ ends)))
