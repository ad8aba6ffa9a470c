-- ===== src/Common.antt =====
-- jni/yftp/common.cpp: paths and file statuses.
use yftpserver.Prelude.{
  WString, Bool, false, not, ◌||◌, Option, none, some, [], ◌∷◌, if◌then◌else◌, ◌==◌, is_empty, lit,
  text_eq, Outcome, ok, or_throw, ◌>>=◌,
}
use yftpserver.FileSystem.{FileSystem, FileStatus}

abbrev pub get_or {ℓ} : {A : Type ℓ} → Option A → A → A
get_or none d = d
get_or (some a) d = a

-- `asked_path[0] == L'/' || asked_path[0] == L'\\'`.
abbrev pub is_rooted : WString → Bool
is_rooted [] = false
is_rooted (c ∷ cs) = c == b'/' || c == b'\\'

-- The three ways to join the paths by `operator/`.
unfoldable pub joined_path : (WString → WString → WString) → WString → WString → WString → WString
joined_path join start_path current_path asked_path =
    if is_empty asked_path
    then join start_path current_path
    else if is_rooted asked_path
    then join start_path asked_path
    else join (join start_path current_path) asked_path

module _ {F : Type 0} ⦃os : FileSystem F⦄ where
  -- The directory, empty if none was found, and the files: a path that is empty is set as the
  -- current path, which may throw.
  unfoldable pub get_app_dir : F → Outcome (WString × F)
  get_app_dir fs =
      let fullpath = os.initial_path fs in
      if not (is_empty fullpath)
      then ok (fullpath, fs)
      else do fs' ← or_throw (os.set_current_path fullpath fs); ok ([], fs')

  -- The path afterwards; it is left as it was where the call returns false.
  unfoldable pub simplify_path : F → WString → WString
  simplify_path fs path = elim (os.canonical fs path) [
    | none ↦ path
    | some abpath ↦ if is_empty path then path else os.generic_wstring abpath
  ]

  unfoldable pub get_file_status : F → WString → Option FileStatus
  get_file_status fs path = os.status fs path

  unfoldable pub canonical_path : F → WString → WString
  canonical_path fs repath =
      let path = if text_eq repath (lit "//") then lit "/" else repath in
      get_or (os.canonical fs path) path

  unfoldable pub build_path : F → WString → WString → WString → Bool → WString
  build_path fs start_path current_path asked_path bcanonical =
      let repath = joined_path os.join start_path current_path asked_path in
      if is_empty start_path || is_empty current_path
      then os.generic_wstring []
      else os.generic_wstring (if bcanonical then canonical_path fs repath else repath)
