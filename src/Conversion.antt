-- ===== src/Conversion.antt =====
-- jni/yftp/conversion.cpp: text to bytes and back by the C library, which reads the locale of the
-- process. The two `wstring_convert` functions of that file are fields of `Platform`.
use yftpserver.Prelude.{
  ℕ, zero, suc, ◌+◌, ◌*◌, ◌≤◌, ◌<◌, ◌≡◌, refl, Bool, true, false, WString, Bytes, [], ◌∷◌, List,
  if◌then◌else◌, ◌==◌, Bool-cases, inl, inr, length, lit, Outcome, ok, fault, ◌>>=◌, All, arith,
}

-- What the C library does: whether `setlocale` knows a locale, and what `wcstombs` and `mbstowcs`, under a
-- locale and with room for so many elements, write for a text without a null character.
pub record CLibrary : Type 0 where
  pub available : Bytes → Bool
  pub wcstombs : Bytes → ℕ → WString → Bytes
  pub mbstowcs : Bytes → ℕ → Bytes → WString

-- The locale of the process after `setlocale(LC_ALL, name)`.
abbrev pub set_locale : CLibrary → Bytes → Bytes → Bytes
set_locale c name cur = if c.available name then name else cur

-- What a C function reads of a text.
unfoldable pub until_nul : List ℕ → List ℕ
until_nul [] = []
until_nul (c ∷ cs) = let rest = until_nul cs in if c == 0 then [] else c ∷ rest

-- The string in a buffer of that size which was filled with 0 and then written to from its start: a
-- buffer without a 0 is read beyond its end.
unfoldable pub c_string : ℕ → List ℕ → Outcome (List ℕ)
c_string zero written = fault
c_string (suc size) [] = ok []
c_string (suc size) (c ∷ cs) =
    let rest = c_string size cs in if c == 0 then ok [] else (rest >>= λ s. ok (c ∷ s))

module _ (c : CLibrary) where
  -- `ws2s` and `ws2utf8_1` under their locales: the bytes, and the locale that is left.
  unfoldable pub narrow : Bytes → WString → Bytes → Outcome (Bytes × Bytes)
  narrow name ws cur =
      let cur' = set_locale c name cur in
      let size = 2 * length ws + 1 in
      c_string size (c.wcstombs cur' size (until_nul ws)) >>= λ result.
      ok (result, set_locale c cur cur')

  abbrev pub ws2s : WString → Bytes → Outcome (Bytes × Bytes)
  ws2s = narrow (lit "chs")

  abbrev pub ws2utf8_1 : WString → Bytes → Outcome (Bytes × Bytes)
  ws2utf8_1 = narrow (lit "utf8")

  -- `s2ws` and `utf82ws_1`.
  unfoldable pub widen : Bytes → Bytes → Bytes → Outcome (WString × Bytes)
  widen name s cur =
      let cur' = set_locale c name cur in
      let size = length s + 1 in
      c_string size (c.mbstowcs cur' size (until_nul s)) >>= λ result.
      ok (result, set_locale c (lit "C") cur')

  abbrev pub s2ws : Bytes → Bytes → Outcome (WString × Bytes)
  s2ws = widen (lit "chs")

  abbrev pub utf82ws_1 : Bytes → Bytes → Outcome (WString × Bytes)
  utf82ws_1 = widen (lit "utf8")

-- A locale in which a wide character takes at most two bytes, and a byte makes at most one.
pub record TwoBytes (c : CLibrary) (locale : Bytes) : Type 0 where
  pub narrows : (size : ℕ) (ws : WString) → length (c.wcstombs locale size ws) ≤ 2 * length ws
  pub widens : (size : ℕ) (s : Bytes) → length (c.mbstowcs locale size s) ≤ length s

length-until_nul : (s : List ℕ) → length (until_nul s) ≤ length s
unfolding until_nul
length-until_nul [] = omega arith
length-until_nul (c ∷ cs) = ground (arith, length-until_nul cs)

c_string-fits :
    (size : ℕ) (written : List ℕ)
    → length written < size
    → c_string size written ≡ ok (until_nul written)
unfolding c_string until_nul
c_string-fits zero written h = absurd (omega arith)
c_string-fits (suc size) [] h = refl
c_string-fits (suc size) (c ∷ cs) h = elim (Bool-cases (c == 0)) [
  | inl nul ↦ rw nul refl
  | inr more ↦ rw more (rw (c_string-fits size cs (omega arith)) refl)
]

-- The results of `ws2s` and `s2ws` on a library for which they return.
abbrev pub ws2s_result : CLibrary → WString → Bytes
ws2s_result c ws = until_nul (c.wcstombs (lit "chs") (2 * length ws + 1) (until_nul ws))

abbrev pub s2ws_result : CLibrary → Bytes → WString
s2ws_result c s = until_nul (c.mbstowcs (lit "chs") (length s + 1) (until_nul s))

-- In a locale of at most two bytes a character, which the process can select as it can select the one it
-- is in, `ws2s` and `s2ws` stay within their buffers and return what the C library has written, up to a null
-- character. `ws2s` leaves the locale as it was; `s2ws` leaves the locale "C", whichever it was before.
pub conversions_return :
    (c : CLibrary) (ws : WString) (s cur : Bytes)
    → TwoBytes c (lit "chs")
    → c.available (lit "chs") ≡ true
    → c.available (lit "C") ≡ true
    → c.available cur ≡ true
    → (ws2s c ws cur ≡ ok (ws2s_result c ws, cur)) × (s2ws c s cur ≡ ok (s2ws_result c s, lit "C"))
unfolding narrow widen
conversions_return c ws s cur small chs plain here = (
  rw (chs, here)
      (rw
        (c_string-fits (2 * length ws + 1)
          (c.wcstombs (lit "chs") (2 * length ws + 1) (until_nul ws))
          (omega (arith, small.narrows (2 * length ws + 1) (until_nul ws), length-until_nul ws)))
        refl),
  rw (chs, plain)
      (rw
        (c_string-fits (length s + 1) (c.mbstowcs (lit "chs") (length s + 1) (until_nul s))
          (omega (arith, small.widens (length s + 1) (until_nul s), length-until_nul s)))
        refl),
)

c_string-full :
    (size : ℕ) (written : List ℕ)
    → size ≤ length written
    → All (λ b. 0 < b) written
    → c_string size written ≡ fault
unfolding c_string
c_string-full zero written h all = refl
c_string-full (suc size) [] h all = absurd (omega arith)
c_string-full (suc size) (c ∷ cs) h all =
    rw (positive c all.0) (rw (c_string-full size cs (omega arith) all.1) refl)
  where
    positive : (c : ℕ) → 0 < c → (c == 0) ≡ false
    positive c h = ground arith

-- The buffer of `ws2utf8_1` is too small for UTF-8: a text whose bytes fill it, as those of characters of
-- three bytes do, is read beyond the end of the buffer.
pub ws2utf8_1_overruns :
    (c : CLibrary) (ws : WString) (cur : Bytes)
    → c.available (lit "utf8") ≡ true
    → 2 * length ws < length (c.wcstombs (lit "utf8") (2 * length ws + 1) (until_nul ws))
    → All (λ b. 0 < b) (c.wcstombs (lit "utf8") (2 * length ws + 1) (until_nul ws))
    → ws2utf8_1 c ws cur ≡ fault
unfolding narrow
ws2utf8_1_overruns c ws cur known long nonzero = rw known (
    rw
      (c_string-full (2 * length ws + 1)
        (c.wcstombs (lit "utf8") (2 * length ws + 1) (until_nul ws)) (omega arith) nonzero)
      refl)
