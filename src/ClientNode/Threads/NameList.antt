-- ===== src/ClientNode/Threads/NameList.antt =====
-- NLST: the names that are sent, and the directories for which there are none.
use yftpserver.Prelude.{
  ℕ, ◌<◌, ◌≡◌, refl, Bool-cases, inl, inr, Bool, true, false, not, ◌&&◌, WString, [], ◌∷◌, ◌++◌,
  List, map, none, some, if◌then◌else◌, leb, is_empty, length, length-append, drop, Outcome, ok,
  fault, thrown, running, ◌>>=◌, arith,
}
use yftpserver.Platform.{Platform}
use yftpserver.FileSystem.{FileSystem, FileStatus, DirectoryEntry}
use yftpserver.Network.{Network}
use yftpserver.Reply.{encode}
use yftpserver.Commands.{Commands, TCommand}
use yftpserver.Common.{build_path, get_file_status}
use yftpserver.UserNode.{UserNode}
use yftpserver.ClientNode.{ClientNode, ClientStatus, Turn, set_client, send_status}
use yftpserver.ClientNode.DataPort.{set_system}
use yftpserver.ClientNode.Threads.{send_data}
use yftpserver.ClientNode.Threads.ListOptions.{ListOptions, no_options, list_options, start}
use yftpserver.ClientNode.Threads.Listing.{
  substr, entry_line, send_text, list_entries, list_path, announce_list, list_thread,
}

drop-append : (xs ys : WString) → drop (length xs) (xs ++ ys) ≡ ys
drop-append [] ys = refl
drop-append (x ∷ xs) ys = drop-append xs ys

substr-append : (home name : WString) → substr (length home) (home ++ name) ≡ some name
unfolding substr
substr-append home name =
    let fits : leb (length home) (length (home ++ name)) ≡ true =
      ground (arith, length-append home name) in
    rw (fits, drop-append home name) refl

substr_short : (n : ℕ) (s : WString) → length s < n → substr n s ≡ none
unfolding substr
substr_short n s h = ground arith

abbrev pub crlf : WString
crlf = b'\r' ∷ b'\n' ∷ []

module _ {F : Type 0} ⦃p : Platform⦄ ⦃os : FileSystem F⦄ ⦃net : Network F⦄ where
  -- Texts sent over the data connection one by one, whether or not an earlier one could be sent.
  unfoldable pub send_each : ClientNode → List WString → F → Outcome F
  send_each c [] sys = ok sys
  send_each c (s ∷ ss) sys =
      let bytes = encode c.code_type s in
      let more = send_each c ss in
      if is_empty bytes then more sys else (send_data c bytes sys >>= λ (sys', sent). more sys')

  entry_line-nlst :
      (o : ListOptions) (home name : WString) (e : DirectoryEntry) (sys : F)
      → e.path ≡ home ++ name
      → entry_line true o home e sys ≡ ok (some (name ++ crlf))
  unfolding entry_line
  entry_line-nlst o home name e sys same = rw (same, substr-append home name) refl

  in_order :
      (x : Outcome (F × Bool)) (t : Turn F) (more : Turn F → Outcome (Turn F))
      (rest : F → Outcome F)
      → ((sys : F) → more (set_system sys t) ≡ (rest sys >>= λ s. ok (set_system s t)))
      → ((x >>= λ (sys, sent). ok (set_system sys t, sent)) >>= λ (s, sent).
          if not sent && false then ok s else more s)
        ≡ ((x >>= λ (sys, sent). rest sys) >>= λ s. ok (set_system s t))
  in_order (ok (sys, true)) t more rest h = h sys
  in_order (ok (sys, false)) t more rest h = h sys
  in_order fault t more rest h = refl
  in_order thrown t more rest h = refl
  in_order running t more rest h = refl

  -- NLST sends, for a directory whose entries all lie below the home directory, what follows the home
  -- directory in the path of each entry, one a line and in the order of the entries, and goes on where
  -- a line cannot be sent.
  pub list_entries-nlst :
      (o : ListOptions) (home : WString) (es : List DirectoryEntry) (names : List WString)
      (t : Turn F)
      → map (λ e. e.path) es ≡ map (λ name. home ++ name) names
      → list_entries Commands.nlst o home es t ≡ (
          send_each t.client (map (λ name. name ++ crlf) names) t.system >>= λ sys.
          ok (set_system sys t))
  unfolding list_entries send_each send_text
  list_entries-nlst o home [] [] t same = refl
  list_entries-nlst o home [] (n ∷ names) t same = cc
  list_entries-nlst o home (e ∷ es) [] t same = cc
  list_entries-nlst o home (e ∷ es) (n ∷ names) t same =
      let head : e.path ≡ home ++ n = cc in
      let tail : map (λ e. e.path) es ≡ map (λ name. home ++ name) names = cc in
      let bytes = encode t.client.code_type (n ++ crlf) in
      rw (entry_line-nlst o home n e t.system head) (elim (Bool-cases (is_empty bytes)) [
        | inl blank ↦ rw (blank, send_text) (list_entries-nlst o home es names t tail)
        | inr given ↦
            rw (given, send_text)
              (in_order (send_data t.client bytes t.system) t (list_entries Commands.nlst o home es)
                (send_each t.client (map (λ name. name ++ crlf) names))
                (λ sys. list_entries-nlst o home es names (set_system sys t) tail))
      ])

  list_path_above_home :
      (o : ListOptions) (home path : WString) (t : Turn F) (st : FileStatus) (e : DirectoryEntry)
      (es : List DirectoryEntry)
      → o.directory ≡ false
      → is_empty path ≡ false
      → get_file_status t.system path ≡ some st
      → st.is_directory ≡ true
      → os.entries t.system path ≡ e ∷ es
      → length e.path < length home
      → list_path Commands.nlst o home path t ≡ thrown
  unfolding list_path list_entries entry_line
  list_path_above_home o home path t st e es whole built there dir listed short =
      rw (built, list_path)
        (rw there (rw (whole, dir) (rw listed (rw (substr_short (length home) e.path short) refl))))

  abbrev opened : Turn F → Turn F
  opened t =
      let busy = record t.client { cur_status = ClientStatus.status_listing } in
      send_status 150 "Opening data connection for directory list." (set_client busy t)

  -- NLST without option -d, of a directory whose first entry has a path shorter than the home directory,
  -- lets an exception out of its thread.
  pub list_thread_above_home :
      (cmd : TCommand) (u : UserNode) (t : Turn F) (o : ListOptions) (arg path : WString)
      (st : FileStatus) (e : DirectoryEntry) (es : List DirectoryEntry)
      → cmd.id ≡ Commands.nlst
      → list_options start no_options cmd.args ≡ (o, arg)
      → o.directory ≡ false
      → build_path t.system u.home_directory t.client.current_directory arg true ≡ path
      → is_empty path ≡ false
      → get_file_status t.system path ≡ some st
      → st.is_directory ≡ true
      → os.entries t.system path ≡ e ∷ es
      → length e.path < length u.home_directory
      → list_thread cmd (some u) t ≡ thrown
  unfolding list_thread announce_list
  list_thread_above_home cmd u t o arg path st e es nlst parsed whole built there status dir listed
        short =
      rw (nlst, parsed, built)
        (rw
          (list_path_above_home o u.home_directory path (opened t) st e es whole there status dir
            listed short)
          refl)
