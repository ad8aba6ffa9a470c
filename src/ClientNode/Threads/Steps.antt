-- ===== src/ClientNode/Threads/Steps.antt =====
-- jni/yftp/client_node.cpp: `retrieve_thread` and `store_thread` block by block. Between two steps
-- handlers may change the client node, which each step reads again; what a thread keeps for itself, its
-- stream and its result, stands in its point.
use yftpserver.Prelude.{
  Bool, true, false, not, WString, Bytes, [], ◌∷◌, List, Option, none, some, if◌then◌else◌, ltb,
  is_empty, String, length, take, drop, Outcome, ok, ◌>>=◌,
}
use yftpserver.Platform.{Platform}
use yftpserver.FileSystem.{FileSystem, InFile}
use yftpserver.Network.{Network, Received, received, end_of_stream, failed}
use yftpserver.ClientNode.{Turn}
use yftpserver.ClientNode.DataPort.{set_system, close_data_socket}
use yftpserver.ClientNode.Threads.{
  transfer_buffer_size, read_data, send_data, shut_down_data_socket, finish_transfer,
}
use yftpserver.ClientNode.Threads.Retrieve.{from_position}
use yftpserver.ClientNode.Threads.Store.{is_positive}

-- Where a thread stands: before it opens its file, in its loop, with what is still to be read and
-- whether reading breaks off, or with the path that it writes to; then the three steps of its end, with
-- the result.
pub data Point : Type 0 where
  opening : Point
  sending : Bool → Bytes → Point
  receiving : WString → Point
  shutting closing finishing : Bool → Point
  ended : Point

-- What a step leaves, and the blocks that the network has taken in it.
pub record Stepped (F : Type 0) : Type 0 where
  pub point : Point
  pub turn : Turn F
  pub taken : List Bytes

abbrev pub at : {F : Type 0} → Point → Turn F → Stepped F
at pt t = record { point = pt; turn = t; taken = [] }

module _ {F : Type 0} ⦃p : Platform⦄ ⦃net : Network F⦄ where
  -- The three steps behind the loop.
  unfoldable pub end_step : String → Point → Turn F → Outcome (Stepped F)
  end_step failure (shutting done) t = shut_down_data_socket t >>= λ s. ok (at (closing done) s)
  end_step failure (closing done) t = close_data_socket t >>= λ s. ok (at (finishing done) s)
  end_step failure (finishing done) t = ok (at ended (finish_transfer done failure t))
  end_step failure pt t = ok (at pt t)

module _ {F : Type 0} ⦃p : Platform⦄ ⦃os : FileSystem F⦄ ⦃net : Network F⦄ where
  -- The file is opened and the restart position taken.
  abbrev pub open_in : Turn F → Option InFile → Stepped F
  open_in t none = at (shutting false) t
  open_in t (some f) = at (sending f.broken (from_position t.client.restart_at f.content)) t

  unfoldable pub retrieve_step : Point → Turn F → Outcome (Stepped F)
  retrieve_step opening t = ok (open_in t (os.read_file t.system t.client.transfer_path))
  retrieve_step (sending broken rest) t =
      let block = take transfer_buffer_size rest in
      if is_empty block
      then ok (at (shutting (not broken)) t)
      else (send_data t.client block t.system >>= λ (sys, sent). ok (
          if not sent then at (shutting false) (set_system sys t) else record {
            point =
                if ltb (length rest) transfer_buffer_size
                then shutting (not broken)
                else sending broken (drop transfer_buffer_size rest);
            turn = set_system sys t;
            taken = block ∷ [];
          }))
  retrieve_step pt t = end_step "550 Can 't Send File." pt t

  -- The loop ends, and the stream is closed.
  abbrev pub finish_loop : WString → Bool → F → Turn F → Outcome (Stepped F)
  finish_loop path done sys t = ok (at (shutting done) (set_system (os.close_out path sys) t))

  -- What was read is written to the file.
  abbrev pub keep : WString → Turn F → F × Received → Outcome (Stepped F)
  keep path t (sys, end_of_stream) = finish_loop path true sys t
  keep path t (sys, failed) = finish_loop path false sys t
  keep path t (sys, received bytes) =
      let (sys', good) = os.write_out path bytes sys in
      if is_empty bytes
      then finish_loop path true sys t
      else if good
      then ok (at (receiving path) (set_system sys' t))
      else finish_loop path false sys' t

  unfoldable pub store_step : Point → Turn F → Outcome (Stepped F)
  store_step opening t =
      let path = t.client.transfer_path in
      let (sys, opened) = os.open_out (is_positive t.client.restart_at) path t.system in
      ok (at (if opened then receiving path else shutting false) (set_system sys t))
  store_step (receiving path) t = read_data t.client t.system >>= keep path t
  store_step pt t = end_step "Can 't receive file." pt t
