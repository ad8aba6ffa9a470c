-- ===== src/ClientNode/Directories.antt =====
-- The directory on view: CWD shows the path below the home directory, CDUP goes up by one name.
use yftpserver.Prelude.{
  ℕ, zero, suc, ◌-◌, ◌≤◌, ◌≡◌, ◌≢◌, refl, true, false, WString, [], ◌∷◌, ◌++◌, none, some,
  if◌then◌else◌, leb, is_empty, lit, text_eq, text_eq_iff, length, length-append, drop, All, arith,
}
use yftpserver.ClientNode.Files.{
  directory_on_view, before_last_slash, trim_slashes, parent_directory,
}

drop-append : (xs ys : WString) → drop (length xs) (xs ++ ys) ≡ ys
drop-append [] ys = refl
drop-append (x ∷ xs) ys = drop-append xs ys

-- A path below the home directory is shown as what follows it, from its last slash on; the home
-- directory itself, with or without that slash, is shown as the root.
pub directory_on_view_below :
    (home rest : WString)
    → directory_on_view (home ++ b'/' ∷ []) (home ++ b'/' ∷ rest) ≡ b'/' ∷ rest
unfolding directory_on_view lit
directory_on_view_below home [] = ground (arith, length-append home (b'/' ∷ []))
directory_on_view_below home (c ∷ rest) =
    let len : length (home ++ b'/' ∷ []) ≡ suc (length home) =
      omega (arith, length-append home (b'/' ∷ [])) in
    let long : leb (length (home ++ b'/' ∷ c ∷ rest)) (suc (length home)) ≡ false =
      ground (arith, length-append home (b'/' ∷ c ∷ rest)) in
    let back : suc (length home) - 1 ≡ length home = omega arith in
    rw (
      len,
      back,
      drop-append home (b'/' ∷ []),
      text_eq_slash,
      long,
      drop-append home (b'/' ∷ c ∷ rest),
    )
  where
    text_eq_slash : text_eq (b'/' ∷ []) (b'/' ∷ []) ≡ true
    text_eq_slash = (text_eq_iff _ _).1 refl

-- A path that is no longer than the home directory is shown as the root, wherever it leads.
pub directory_on_view_short :
    (home path : WString) → length path ≤ length home → directory_on_view home path ≡ lit "/"
unfolding directory_on_view lit
directory_on_view_short home path h = ground arith

abbrev pub NoSlash : WString → Type 0
NoSlash = All (λ c. c ≢ b'/')

before_last_slash-none : (name : WString) → NoSlash name → before_last_slash name ≡ none
unfolding before_last_slash
before_last_slash-none [] h = refl
before_last_slash-none (c ∷ name) h = ground (arith, before_last_slash-none name h.1, h.0)

before_last_slash-some :
    (front name : WString) → NoSlash name → before_last_slash (front ++ b'/' ∷ name) ≡ some front
unfolding before_last_slash
before_last_slash-some [] name h = rw (before_last_slash-none name h)
before_last_slash-some (c ∷ front) name h = rw (before_last_slash-some front name h)

trim_slashes_name : (name : WString) → NoSlash name → trim_slashes name ≡ name
unfolding trim_slashes
trim_slashes_name [] h = refl
trim_slashes_name (c ∷ name) h = ground (arith, trim_slashes_name name h.1, h.0)

-- Slashes at the end do not count.
abbrev pub slashes : ℕ → WString
slashes zero = []
slashes (suc n) = b'/' ∷ slashes n

trim_slashes-slashes : (n : ℕ) → trim_slashes (slashes n) ≡ []
unfolding trim_slashes
trim_slashes-slashes zero = refl
trim_slashes-slashes (suc n) = rw (trim_slashes-slashes n)

trim_slashes_behind :
    (n : ℕ) (name : WString) → NoSlash name → trim_slashes (name ++ slashes n) ≡ name
unfolding trim_slashes
trim_slashes_behind n [] h = trim_slashes-slashes n
trim_slashes_behind n (c ∷ name) h = ground (arith, trim_slashes_behind n name h.1, h.0)

path_not_empty : (front name : WString) → is_empty (front ++ b'/' ∷ name) ≡ false
path_not_empty [] name = refl
path_not_empty (c ∷ front) name = refl

trim_slashes_path :
    (n : ℕ) (front name : WString)
    → is_empty name ≡ false
    → NoSlash name
    → trim_slashes (front ++ b'/' ∷ (name ++ slashes n)) ≡ front ++ b'/' ∷ name
unfolding trim_slashes
trim_slashes_path n [] name ne h = ground (arith, trim_slashes_behind n name h)
trim_slashes_path n (c ∷ front) name ne h =
    rw (trim_slashes_path n front name ne h) (ground (arith, path_not_empty front name))

not_root :
    (n : ℕ) (front name : WString)
    → is_empty name ≡ false
    → text_eq (front ++ b'/' ∷ (name ++ slashes n)) (lit "/") ≡ false
unfolding text_eq lit
not_root n [] [] ne = ground arith
not_root n [] (c ∷ name) ne = refl
not_root n (c ∷ []) name ne = ground arith
not_root n (c ∷ d ∷ front) name ne = ground arith

-- The parent of a directory `front/name`, whatever slashes follow, is `front`, or the root where
-- `front` is empty.
pub parent_directory_up :
    (n : ℕ) (front name : WString)
    → is_empty name ≡ false
    → NoSlash name
    → parent_directory (front ++ b'/' ∷ (name ++ slashes n))
      ≡ (if is_empty front then lit "/" else front)
unfolding parent_directory
parent_directory_up n front name ne h =
    rw
      (
        not_root n front name ne,
        trim_slashes_path n front name ne h,
        before_last_slash-some front name h,
      )
      (by_front front)
  where
    by_front :
        (f : WString)
        → (elim f [ [] ↦ lit "/" | c ∷ cs ↦ c ∷ cs ]) ≡ (if is_empty f then lit "/" else f)
    by_front [] = refl
    by_front (c ∷ cs) = refl
