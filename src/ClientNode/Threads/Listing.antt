-- ===== src/ClientNode/Threads/Listing.antt =====
-- jni/yftp/client_node.cpp: `list_thread`, for LIST, NLST, MLSD and STAT.
use yftpserver.Prelude.{
  ℕ, Bool, true, false, not, ◌&&◌, ◌||◌, WString, [], ◌∷◌, ◌++◌, List, Option, none, some,
  if◌then◌else◌, leb, ◌==◌, bit_and, is_empty, lit, length, drop, Outcome, ok, deref, or_throw,
  ◌>>=◌,
}
use yftpserver.Platform.{Platform}
use yftpserver.FileSystem.{FileSystem, FileStatus, DirectoryEntry}
use yftpserver.Network.{Network}
use yftpserver.Reply.{encode}
use yftpserver.Calendar.{aligned, listed_time, no_time}
use yftpserver.Commands.{Commands, TCommand}
use yftpserver.Common.{get_or, build_path, get_file_status}
use yftpserver.UserNode.{UserNode}
use yftpserver.ClientNode.{DataMode, ClientStatus, Turn, set_client, send_bytes, send_status}
use yftpserver.ClientNode.DataPort.{set_system}
use yftpserver.ClientNode.Transfer.{is_stat}
use yftpserver.ClientNode.Threads.{send_data, release_data}
use yftpserver.ClientNode.Threads.ListOptions.{ListOptions, no_options, list_options, start}

abbrev pub is_nlst : Commands → Bool
is_nlst Commands.nlst = true
is_nlst _ = false

-- `substr(n)`, which throws behind the end.
unfoldable pub substr : ℕ → WString → Option WString
substr n s = if leb n (length s) then some (drop n s) else none

-- A letter for a permission that is given, else a dash.
abbrev pub right : ℕ → ℕ → ℕ → ℕ
right permissions bit letter = if bit_and permissions bit == bit then letter else b'-'

abbrev pub owner_rights : ℕ → WString
owner_rights m = right m 256 b'r' ∷ right m 128 b'w' ∷ right m 64 b'x' ∷ []

abbrev pub all_rights : ℕ → WString
all_rights m =
    owner_rights m
    ++ (right m 32 b'r'
        ∷ right m 16 b'w'
        ∷ right m 8 b'x'
        ∷ right m 4 b'r'
        ∷ right m 2 b'w'
        ∷ right m 1 b'x'
        ∷ [])

-- The two formats, which differ in the permissions.
unfoldable pub list_line : Bool → WString → ℕ → WString → WString → Bool → WString
list_line is_directory rights size time name mark =
    (if is_directory then b'd' else b'-')
    ∷ (rights
        ++ (lit " 1 user group "
            ++ (aligned 14 size
                ++ b' '
                  ∷ (time
                      ++ b' '
                        ∷ (name ++ ((if mark then b'/' ∷ [] else []) ++ b'\r' ∷ b'\n' ∷ []))))))

abbrev pub starts_with_dot : WString → Bool
starts_with_dot [] = false
starts_with_dot (c ∷ cs) = c == b'.'

module _ {F : Type 0} ⦃os : FileSystem F⦄ where
  -- The line for the one path that was asked for.
  unfoldable pub file_line :
      Bool → ListOptions → WString → WString → FileStatus → F → Outcome WString
  file_line stat o home path st sys = do
    name ← if stat then or_throw (substr (length home) path) else ok (lit ".")
    let time : WString = elim (os.last_write_time sys path) [
      | none ↦ no_time (os.now sys)
      | some last ↦ listed_time (os.now sys) last
    ]
    ok (
        list_line st.is_directory (owner_rights st.permissions ++ lit "------")
          (get_or (os.file_size sys path) 0) time name o.classify)

  -- The line for an entry of a directory: none for one that is left out.
  unfoldable pub entry_line :
      Bool → ListOptions → WString → DirectoryEntry → F → Outcome (Option WString)
  entry_line nlst o home e sys =
      if nlst
      then (or_throw (substr (length home) e.path) >>= λ name.
          ok (some (name ++ b'\r' ∷ b'\n' ∷ [])))
      else if starts_with_dot e.path && not o.all
      then ok none
      else elim (os.status sys e.path) [
        | none ↦ ok none
        | some st ↦
            let size = if st.is_regular_file then get_or (os.file_size sys e.path) 0 else 0 in
            let time = listed_time (os.now sys) (get_or (os.last_write_time sys e.path) 0) in
            ok (
              some (
                list_line st.is_directory (all_rights st.permissions) size time e.filename
                  (o.classify && st.is_directory)))
      ]

module _ {F : Type 0} ⦃p : Platform⦄ ⦃os : FileSystem F⦄ ⦃net : Network F⦄ where
  -- `send_reply(text, is_ctrl)`.
  unfoldable pub send_text : Bool → WString → Turn F → Outcome (Turn F × Bool)
  send_text is_ctrl text t =
      let bytes = encode t.client.code_type text in
      if is_empty bytes
      then ok (t, true)
      else if is_ctrl
      then ok (send_bytes bytes t, net.ctrl_write t.system)
      else (send_data t.client bytes t.system >>= λ (sys, sent). ok (set_system sys t, sent))

  -- The loop over a directory: a line that cannot be sent ends it, but not for NLST.
  unfoldable pub list_entries :
      Commands → ListOptions → WString → List DirectoryEntry → Turn F → Outcome (Turn F)
  list_entries id o home [] t = ok t
  list_entries id o home (e ∷ es) t = entry_line (is_nlst id) o home e t.system >>= λ line.
      elim line [
        | none ↦ list_entries id o home es t
        | some text ↦
            (send_text (is_stat id) text t >>= λ (s, sent).
            let more = list_entries id o home es in
            if not sent && not (is_nlst id) then ok s else more s)
      ]

  -- What is listed for a path.
  unfoldable pub list_path : Commands → ListOptions → WString → WString → Turn F → Outcome (Turn F)
  list_path id o home path t =
      elim (if is_empty path then none else get_file_status t.system path) [
        | none ↦ ok t
        | some st ↦
            if o.directory || not st.is_directory
            then (file_line (is_stat id) o home path st t.system >>= λ text.
                send_text (is_stat id) text t >>= λ x. ok x.0)
            else list_entries id o home (os.entries t.system path) t
      ]

  unfoldable pub announce_list : Commands → Turn F → Outcome (Turn F)
  announce_list id t =
      if is_stat id
      then (send_text true (lit "213-Status follows:") t >>= λ x. ok x.0)
      else ok (
          send_status 150 "Opening data connection for directory list."
            (set_client (record t.client { cur_status = ClientStatus.status_listing }) t))

  unfoldable pub finish_list : Commands → Turn F → Outcome (Turn F)
  finish_list id t =
      if is_stat id
      then ok (send_status 213 "End of status." t)
      else (release_data t >>= λ s.
          let idle = record s.client {
            cur_data_mode = DataMode.mode_none;
            cur_status = ClientStatus.status_waiting;
          } in
          ok (
            if s.client.is_ctrl_canal_open
            then send_status 226 "Transfer complete." (set_client idle s)
            else s))

  unfoldable pub list_thread : TCommand → Option UserNode → Turn F → Outcome (Turn F)
  list_thread cmd user t = do
    announced ← announce_list cmd.id t
    let (o, arg) = list_options start no_options cmd.args
    u ← deref user
    let path =
        build_path announced.system u.home_directory announced.client.current_directory arg true
    listed ← list_path cmd.id o u.home_directory path announced
    finish_list cmd.id listed
