-- ===== src/Prelude/Text.antt =====
-- Text: `std::wstring` as a list of wide characters, `std::string` as a list of bytes.
use Prim.Native.Nat.{ℕ}
use Prim.Native.Char.{code}
use Prim.Native.String.{String}
use mathlib.Core.Path.{◌≡◌, refl}
use mathlib.Core.Logic.{◌↔◌}
use mathlib.Core.Bool.{Bool, true, false, ◌&&◌}
use mathlib.Core.List.{List, [], ◌∷◌}
use native.Mathlib.Omega.{arith}
use yftpserver.Prelude.Tests.{◌==◌}

-- `std::wstring`.
abbrev pub WString : Type 0
WString = List ℕ

-- `std::string`: bytes below 256.
abbrev pub Bytes : Type 0
Bytes = List ℕ

-- The characters of a literal of the source.
unfoldable pub lit : String → WString
lit String.[] = []
lit (String.◌∷◌ c s) = code c ∷ lit s

-- `operator==` of the two string types.
unfoldable pub text_eq : List ℕ → List ℕ → Bool
text_eq [] [] = true
text_eq (x ∷ xs) (y ∷ ys) = x == y && text_eq xs ys
text_eq _ _ = false

pub text_eq_iff : (a b : List ℕ) → (text_eq a b ≡ true) ↔ (a ≡ b)
unfolding text_eq
text_eq_iff (x ∷ a) (y ∷ b) = ground (arith, text_eq_iff a b)
text_eq_iff _ _ = ground arith

pub text_eq_refl : (a : List ℕ) → text_eq a a ≡ true
text_eq_refl a = (text_eq_iff a a).1 refl
