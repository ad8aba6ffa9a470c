-- ===== src/FileSystem.antt =====
-- What the program asks of boost::filesystem, over the states `F` of the files: a parameter of the
-- model. jni/yftp/common.cpp builds its paths and reads its statuses through these calls. The random
-- numbers of the C library stand here too.
use yftpserver.Prelude.{Bytes, List, ℕ, WString, Bool, Option}

pub record FileStatus : Type 0 where
  pub is_directory : Bool
  pub is_regular_file : Bool
  pub permissions : ℕ

-- An entry of a directory: its whole path and its name.
pub record DirectoryEntry : Type 0 where
  pub path : WString
  pub filename : WString

-- A file opened to be read: the bytes that can be read, and whether the device fails behind them, where
-- the file would else end.
pub record InFile : Type 0 where
  pub content : Bytes
  pub broken : Bool

-- `none` and `false` stand for a call that sets its `error_code`, or throws.
pub record FileSystem (F : Type 0) : Type 0 where
  pub initial_path : F → WString
  pub set_current_path : WString → F → Option F
  -- `path::operator/` and `generic_wstring`.
  pub join : WString → WString → WString
  pub generic_wstring : WString → WString
  pub canonical : F → WString → Option WString
  pub status : F → WString → Option FileStatus
  pub file_size : F → WString → Option ℕ
  pub last_write_time : F → WString → Option ℕ
  pub remove : WString → F → F × Bool
  pub rename : WString → WString → F → F × Bool
  pub create_directory : WString → F → F × Bool
  -- A draw of `(int)((float)rand() * 99999 / RAND_MAX)`.
  pub draw : F → ℕ × F
  -- The entries that a `directory_iterator` visits: none where it cannot be made.
  pub entries : F → WString → List DirectoryEntry
  -- `time(nullptr)`.
  pub now : F → ℕ
  -- An `ifstream` of a path, if it opens.
  pub read_file : F → WString → Option InFile
  -- An `ofstream` of a path, with the flag `app` or `trunc`, and whether it opens.
  pub open_out : Bool → WString → F → F × Bool
  -- `write` to that stream, and whether the stream is good afterwards.
  pub write_out : WString → Bytes → F → F × Bool
  -- `close` of that stream, which writes out what its buffer holds; the source does not ask whether it
  -- could.
  pub close_out : WString → F → F
