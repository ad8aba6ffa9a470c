-- ===== src/Console.antt =====
-- jni/yftp/main.cpp: `main` of the build without `SERVER_APP`, a console program that serves anonymous
-- clients until a q is typed.
pub mod Setup
pub mod Serving
use yftpserver.Prelude.{
  ℕ, zero, suc, Bool, true, false, not, WString, Bytes, [], ◌∷◌, List, Option, none, some,
  if◌then◌else◌, ◌==◌, lit, Outcome, ok, fault, thrown, running, ◌>>=◌, ℤ, pos, negsuc,
}
use yftpserver.FileSystem.{FileSystem}
use yftpserver.Network.{Acceptor}
use yftpserver.Conversion.{CLibrary, s2ws}
use yftpserver.UserNode.{priv_all}
use yftpserver.Native.{Native, init_ftp_server, start_ftp_server, stop_ftp_server}

-- The port and the root directory of the arguments behind the program's name. `lexical_int` is
-- `boost::lexical_cast<int>`, and `none` its exception, which leaves the two as they were.
unfoldable pub arguments : (Bytes → Option ℤ) → List Bytes → ℤ × Bytes
arguments lexical_int [] = (pos 21, lit ".")
arguments lexical_int (a ∷ []) = elim (lexical_int a) [
  | none ↦ (negsuc 0, [])
  | some port ↦ (port, lit ".")
]
arguments lexical_int (a ∷ dir ∷ []) = elim (lexical_int a) [
  | none ↦ (negsuc 0, [])
  | some port ↦ (port, dir)
]
arguments lexical_int _ = (negsuc 0, [])

-- How far `main` comes: to an exit code, with the usage shown or not, or to the loop that waits for a q.
pub data Started (F : Type 0) : Type 0 where
  shows_usage : Started F
  exits : ℤ → Started F
  serving : ℕ → Bytes → Native F → Started F

module _ {F : Type 0} ⦃os : FileSystem F⦄ ⦃a : Acceptor F⦄ (c : CLibrary) (joinable : Bool) where
  unfoldable pub start_serving : ℕ → Bytes → Native F → Outcome (Started F)
  start_serving port root_dir n = do
    (dir, locale) ← s2ws c root_dir (lit "C")
    (m, ready) ← init_ftp_server true [] [] dir priv_all port n
    let (served, started) = start_ftp_server joinable m
    ok (
        if not ready
        then exits (negsuc 0)
        else if started
        then serving port root_dir served
        else exits (negsuc 0))

  -- An exception ends `main` with the code 0.
  abbrev pub caught : Outcome (Started F) → Outcome (Started F)
  caught (ok s) = ok s
  caught fault = fault
  caught thrown = ok (exits (pos 0))
  caught running = running

  unfoldable pub console_start : (Bytes → Option ℤ) → List Bytes → Native F → Outcome (Started F)
  console_start lexical_int args n =
      let root_dir = (arguments lexical_int args).1 in
      elim (arguments lexical_int args).0 [
        | negsuc k ↦ ok shows_usage
        | pos zero ↦ ok shows_usage
        | pos (suc k) ↦ caught (start_serving (suc k) root_dir n)
      ]

-- Whether a q is read; after the end of the input `getchar` is called for ever.
unfoldable pub wait_for_q : List ℕ → Outcome {0} Unit
wait_for_q [] = running
wait_for_q (k ∷ keys) = let later = wait_for_q keys in if k == b'q' then ok tt else later

module _ {F : Type 0} ⦃os : FileSystem F⦄ ⦃a : Acceptor F⦄ (c : CLibrary) (joinable : Bool) where
  -- The exit code, and the application's state if it got to serve; `is_stopped i` is what the thread of
  -- `run` shows after `i` pauses.
  unfoldable pub console_main :
      (Bytes → Option ℤ)
      → List Bytes
      → List ℕ
      → (ℕ → Bool)
      → Native F
      → Outcome (ℤ × Option (Native F))
  console_main lexical_int args keys is_stopped n =
      console_start c joinable lexical_int args n >>= λ s. elim s [
        | shows_usage ↦ ok (negsuc 0, none)
        | exits code ↦ ok (code, none)
        | serving port root_dir m ↦
            wait_for_q keys >>= λ q. ok (pos 1, some (stop_ftp_server is_stopped m).0)
      ]
