-- ===== src/ClientNode/Threads/Store.antt =====
-- jni/yftp/client_node.cpp: `store_thread`.
use yftpserver.Prelude.{
  ℕ, zero, suc, ◌<◌, ◌≡◌, refl, sym, ap, ◌∙◌, Bool, true, false, String, WString, Bytes, [], ◌∷◌,
  ◌++◌, List, Option, none, some, if◌then◌else◌, ltb, is_empty, length, concat, Outcome, ok,
  running, ◌>>=◌, ℤ, pos, negsuc, arith,
}
use mathlib.Core.List.{append-nil, append_assoc}
use yftpserver.Platform.{Platform}
use yftpserver.FileSystem.{FileSystem, InFile}
use yftpserver.Network.{Network, received, end_of_stream, failed}
use yftpserver.ClientNode.{ClientNode, ClientStatus, DataMode, Turn, send_status}
use yftpserver.ClientNode.DataPort.{set_system, close_data_socket}
use yftpserver.ClientNode.Threads.{
  transfer_buffer_size, has_stream, read_data, shut_down_data_socket, release_data, finish_transfer,
}

-- `restart_at_ > 0`.
abbrev pub is_positive : ℤ → Bool
is_positive (pos n) = ltb 0 n
is_positive (negsuc n) = false

module _ {F : Type 0} ⦃p : Platform⦄ ⦃os : FileSystem F⦄ ⦃net : Network F⦄ where
  -- The loop over the blocks received. The result says whether `len` is 0 in the end.
  unfoldable pub store_loop : ℕ → ClientNode → F → Outcome (F × Bool)
  store_loop zero c sys = running
  store_loop (suc fuel) c sys = read_data c sys >>= λ (sys', r). elim r [
    | end_of_stream ↦ ok (sys', true)
    | failed ↦ ok (sys', false)
    | received bytes ↦
        let (sys'', good) = os.write_out c.transfer_path bytes sys' in
        let again = store_loop fuel c in
        if is_empty bytes then ok (sys', true) else if good then again sys'' else ok (sys'', false)
  ]

  -- Opening, the loop, and the closing of the stream. A stream opened to append writes at the end of the file wherever `seekp` has
  -- put it.
  unfoldable pub receive_file : ℕ → ClientNode → F → Outcome (F × Bool)
  receive_file fuel c sys =
      let (sys', opened) = os.open_out (is_positive c.restart_at) c.transfer_path sys in
      if opened
      then (store_loop fuel c sys' >>= λ (s, done). ok (os.close_out c.transfer_path s, done))
      else ok (sys', false)

  unfoldable pub store_thread : ℕ → Turn F → Outcome (Turn F)
  store_thread fuel t = do
    (sys, done) ← receive_file fuel t.client t.system
    released ← release_data (set_system sys t)
    ok (finish_transfer done "Can 't receive file." released)

-- What is in the file of a path: nothing if there is none.
abbrev pub content_of : Option InFile → Bytes
content_of none = []
content_of (some f) = f.content

module _ {F : Type 0} ⦃os : FileSystem F⦄ where
  abbrev pub contents : WString → F → Bytes
  contents path sys = content_of (os.read_file sys path)

-- How files keep what is written to them: a stream truncates its file, or appends to it, and the
-- network does not change files.
pub record KeepsFiles (F : Type 0) ⦃os : FileSystem F⦄ ⦃net : Network F⦄ : Type 0 where
  pub truncated :
      (path : WString) (sys : F)
      → (os.open_out false path sys).1 ≡ true
      → contents path (os.open_out false path sys).0 ≡ []
  pub kept :
      (path : WString) (sys : F)
      → (os.open_out true path sys).1 ≡ true
      → contents path (os.open_out true path sys).0 ≡ contents path sys
  pub written :
      (path : WString) (bytes : Bytes) (sys : F)
      → (os.write_out path bytes sys).1 ≡ true
      → contents path (os.write_out path bytes sys).0 ≡ contents path sys ++ bytes
  pub closed_out :
      (path : WString) (sys : F) → contents path (os.close_out path sys) ≡ contents path sys
  pub read_apart :
      (path : WString) (n : ℕ) (sys : F) → contents path (net.data_read n sys).0 ≡ contents path sys
  pub shut_apart :
      (path : WString) (sys : F) → contents path (net.shut_down_data sys) ≡ contents path sys
  pub close_apart :
      (path : WString) (sys : F) → contents path (net.close_data sys) ≡ contents path sys

module _ {F : Type 0} ⦃p : Platform⦄ ⦃os : FileSystem F⦄ ⦃net : Network F⦄ where
  -- The peer sends these blocks and closes the connection, and each block can be written.
  pub data Upload (path : WString) : F → List Bytes → F → Type 0 where
    closed :
        (sys : F)
        → (net.data_read transfer_buffer_size sys).1 ≡ end_of_stream
        → Upload path sys [] (net.data_read transfer_buffer_size sys).0
    block :
        (b : Bytes) (sys : F) {bs : List Bytes} {sys' : F}
        → (net.data_read transfer_buffer_size sys).1 ≡ received b
        → is_empty b ≡ false
        → (os.write_out path b (net.data_read transfer_buffer_size sys).0).1 ≡ true
        → Upload path (os.write_out path b (net.data_read transfer_buffer_size sys).0).0 bs sys'
        → Upload path sys (b ∷ bs) sys'

  store_loop-Upload :
      (fuel : ℕ) (c : ClientNode) (sys : F) {bs : List Bytes} {sys' : F}
      → has_stream c ≡ true
      → Upload c.transfer_path sys bs sys'
      → length bs < fuel
      → store_loop fuel c sys ≡ ok (sys', true)
  unfolding store_loop read_data
  store_loop-Upload zero c sys there up h = absurd (omega arith)
  store_loop-Upload (suc fuel) c sys there (closed _ e) h = rw (there, e) refl
  store_loop-Upload (suc fuel) c sys there (block b _ e ne good up) h =
      rw (there, e, ne, good) (store_loop-Upload fuel c _ there up (omega arith))

  Upload-contents :
      ⦃k : KeepsFiles F⦄ (path : WString) (sys : F) (bs : List Bytes) (sys' : F)
      → Upload path sys bs sys'
      → contents path sys' ≡ contents path sys ++ concat bs
  Upload-contents ⦃k⦄ path sys bs sys' (closed _ e) =
      k.read_apart path transfer_buffer_size sys ∙ sym (append-nil (contents path sys))
  Upload-contents ⦃k⦄ path sys bs sys' (block b _ {bs = bs'} e ne good up) =
      Upload-contents path _ bs' sys' up
      ∙ ap (λ old. old ++ concat bs') (k.written path b _ good)
      ∙ ap (λ old. (old ++ b) ++ concat bs') (k.read_apart path transfer_buffer_size sys)
      ∙ append_assoc (contents path sys) b (concat bs')

  opened-contents :
      ⦃k : KeepsFiles F⦄ (append : Bool) (path : WString) (sys : F)
      → (os.open_out append path sys).1 ≡ true
      → contents path (os.open_out append path sys).0 ≡ (if append then contents path sys else [])
  opened-contents ⦃k⦄ true path sys e = k.kept path sys e
  opened-contents ⦃k⦄ false path sys e = k.truncated path sys e

  pub release_data_returns :
      (t : Turn F)
      → has_stream t.client ≡ true
      → release_data t ≡ ok (set_system (net.close_data (net.shut_down_data t.system)) t)
  unfolding release_data shut_down_data_socket close_data_socket
  release_data_returns t there = rw there (rw there refl)

  pub finish_transfer-system :
      (done : Bool) (failure : String) (t : Turn F)
      → (finish_transfer done failure t).system ≡ t.system
  unfolding finish_transfer
  finish_transfer-system done failure t = ground arith

  pub finish_transfer_done :
      (failure : String) (t : Turn F)
      → t.client.is_ctrl_canal_open ≡ true
      → ((finish_transfer true failure t).sent ≡ (send_status 226 "Transfer complete." t).sent)
        × ((finish_transfer true failure t).client.cur_status ≡ ClientStatus.status_waiting)
        × ((finish_transfer true failure t).client.cur_data_mode ≡ DataMode.mode_none)
  unfolding finish_transfer
  finish_transfer_done failure t up = (rw up refl, rw up refl, rw up refl)

  -- An upload to a file that opens, over a data connection that is there, whose blocks all arrive and can
  -- be written, ends as complete: the file holds the blocks in their order, behind what it held if a
  -- positive restart position is set, wherever that position is, and alone otherwise. Until the
  -- reply at the end the client has been told nothing. The fuel is larger than the number of blocks.
  pub store_thread-contents :
      ⦃k : KeepsFiles F⦄ (fuel : ℕ) (t : Turn F) (bs : List Bytes) (sys : F)
      → has_stream t.client ≡ true
      → (os.open_out (is_positive t.client.restart_at) t.client.transfer_path t.system).1 ≡ true
      → Upload t.client.transfer_path
          (os.open_out (is_positive t.client.restart_at) t.client.transfer_path t.system).0
          bs
          sys
      → length bs < fuel
      → (t' : Turn F) × (store_thread fuel t ≡ ok (finish_transfer true "Can 't receive file." t'))
        × (t'.client ≡ t.client)
        × (t'.sent ≡ t.sent)
        × (contents t.client.transfer_path t'.system
            ≡ (if is_positive t.client.restart_at
                then contents t.client.transfer_path t.system
                else [])
              ++ concat bs)
  unfolding store_thread receive_file
  store_thread-contents ⦃k⦄ fuel t bs sys there opened up h =
      let path = t.client.transfer_path in
      let stored = os.close_out path sys in
      let released = set_system stored t in
      (
        set_system (net.close_data (net.shut_down_data stored)) t,
        rw
            (
              opened,
              store_loop-Upload fuel t.client _ there up h,
              release_data_returns released there,
            )
            refl,
        refl,
        refl,
        k.close_apart path (net.shut_down_data stored)
            ∙ k.shut_apart path stored
            ∙ k.closed_out path sys
            ∙ Upload-contents path _ bs sys up
            ∙ ap (λ old. old ++ concat bs)
                (opened-contents (is_positive t.client.restart_at) path t.system opened),
      )
