-- ===== src/ClientNode/Renaming.antt =====
-- Renaming: the pair RNFR and RNTO.
use yftpserver.Prelude.{
  Option, ◌≡◌, refl, false, WString, [], is_empty, ok, Bool-cases, inl, inr, if◌then◌else◌,
}
use yftpserver.Platform.{Platform}
use yftpserver.FileSystem.{FileSystem}
use yftpserver.ClientNode.{Turn, answer}
use yftpserver.UserNode.{UserNode}
use yftpserver.ClientNode.Files.{process_rnto_cmd, client_path}

module _ {F : Type 0} ⦃p : Platform⦄ ⦃os : FileSystem F⦄ (user : Option UserNode) where
  -- RNTO that follows no RNFR is answered by 503 and does nothing else.
  pub process_rnto_cmd_alone :
      (cmd_arg : WString) (t : Turn F)
      → is_empty cmd_arg ≡ false
      → t.client.rename_from_path ≡ []
      → process_rnto_cmd user cmd_arg t ≡ ok (answer 503 "Bad sequence of commands." t)
  unfolding process_rnto_cmd
  process_rnto_cmd_alone cmd_arg t given h = rw (given, h) refl

  -- RNTO with an argument, once it returns, has forgotten the path of RNFR, whether or not the
  -- renaming succeeded, and the files are as the one renaming of that path left them, or, where the new
  -- path is empty, as they were.
  pub process_rnto_cmd_forgets :
      (cmd_arg path : WString) (t : Turn F)
      → is_empty cmd_arg ≡ false
      → is_empty t.client.rename_from_path ≡ false
      → client_path user false cmd_arg t ≡ ok path
      → (t' : Turn F) × ((process_rnto_cmd user cmd_arg t ≡ ok t')
          × ((t'.client.rename_from_path ≡ [])
              × (t'.system ≡ (
                  if is_empty path
                  then t.system
                  else (os.rename t.client.rename_from_path path t.system).0))))
  unfolding process_rnto_cmd
  process_rnto_cmd_forgets cmd_arg path t given h e = elim (Bool-cases (is_empty path)) [
    | inl none_given ↦ rw (given, h, e, none_given) (_, (refl, (refl, refl)))
    | inr some_given ↦ elim (Bool-cases (os.rename t.client.rename_from_path path t.system).1) [
      | inl renamed ↦ rw (given, h, e, some_given, renamed) (_, (refl, (refl, refl)))
      | inr refused ↦ rw (given, h, e, some_given, refused) (_, (refl, (refl, refl)))
    ]
  ]
