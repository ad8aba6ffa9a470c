-- ===== src/ClientNode/Threads/Retrieve.antt =====
-- jni/yftp/client_node.cpp: `retrieve_thread`, and the blocks that it sends.
use yftpserver.Prelude.{
  ℕ, zero, suc, ◌≤◌, ◌<◌, ◌≡◌, refl, Bool, true, false, not, ◌&&◌, Bytes, [], ◌∷◌, List, none, some,
  if◌then◌else◌, ltb, ltb→lt, is_empty, length, take, drop, concat, take-append-drop, length-take,
  length-drop, All, Outcome, ok, fault, thrown, running, sym, ◌>>=◌, ℤ, pos, negsuc, arith,
}
use yftpserver.Platform.{Platform}
use yftpserver.FileSystem.{FileSystem, InFile}
use yftpserver.Network.{Network}
use yftpserver.ClientNode.{ClientNode, Turn}
use yftpserver.ClientNode.DataPort.{set_system}
use yftpserver.ClientNode.Threads.{transfer_buffer_size, send_data, release_data, finish_transfer}

-- `seekg` where the position is positive: behind the end there is nothing to read.
abbrev pub from_position : ℤ → Bytes → Bytes
from_position (pos n) content = drop n content
from_position (negsuc n) content = content

module _ {F : Type 0} ⦃p : Platform⦄ ⦃os : FileSystem F⦄ ⦃net : Network F⦄ where
  -- The loop over the blocks, with what is still to be read. The result says whether `len` is not
  -- negative in the end.
  unfoldable pub retrieve_loop : ℕ → ClientNode → Bool → Bytes → F → Outcome (F × Bool)
  retrieve_loop zero c broken rest sys = running
  retrieve_loop (suc fuel) c broken rest sys =
      let block = take transfer_buffer_size rest in
      let again = retrieve_loop fuel c broken (drop transfer_buffer_size rest) in
      if is_empty block
      then ok (sys, not broken)
      else (send_data c block sys >>= λ (sys', sent).
          if not sent
          then ok (sys', false)
          else if ltb (length rest) transfer_buffer_size
          then ok (sys', not broken)
          else again sys')

  -- Opening, seeking and the loop.
  unfoldable pub send_file : ℕ → ClientNode → F → Outcome (F × Bool)
  send_file fuel c sys = elim (os.read_file sys c.transfer_path) [
    | none ↦ ok (sys, false)
    | some f ↦ retrieve_loop fuel c f.broken (from_position c.restart_at f.content) sys
  ]

  unfoldable pub retrieve_thread : ℕ → Turn F → Outcome (Turn F)
  retrieve_thread fuel t = do
    (sys, done) ← send_file fuel t.client t.system
    released ← release_data (set_system sys t)
    ok (finish_transfer done "550 Can 't Send File." released)

pub drop_all {ℓ} : {A : Type ℓ} (n : ℕ) (xs : List A) → length xs ≤ n → drop n xs ≡ []
drop_all zero [] h = refl
drop_all zero (x ∷ xs) h = absurd (omega arith)
drop_all (suc n) [] h = refl
drop_all (suc n) (x ∷ xs) h = drop_all n xs (omega arith)

-- The same bytes in blocks of the size of the buffer, the last one smaller. Fuel bounds their number.
abbrev pub blocks : ℕ → Bytes → List Bytes
blocks zero rest = []
blocks (suc fuel) rest =
    let more = blocks fuel (drop transfer_buffer_size rest) in
    if is_empty rest then [] else take transfer_buffer_size rest ∷ more

pub concat-blocks :
    (fuel : ℕ) (rest : Bytes) → length rest ≤ fuel → concat (blocks fuel rest) ≡ rest
concat-blocks zero [] h = refl
concat-blocks zero (x ∷ rest) h = absurd (omega arith)
concat-blocks (suc fuel) [] h = refl
concat-blocks (suc fuel) (x ∷ rest) h =
    rw
      (concat-blocks fuel (drop transfer_buffer_size (x ∷ rest))
        (omega (arith, length-drop 8191 rest)))
      (take-append-drop transfer_buffer_size (x ∷ rest))

-- A block that is sent is not empty, and fits the buffer.
abbrev pub IsBlock : Bytes → Type 0
IsBlock b = (0 < length b) × (length b ≤ transfer_buffer_size)

pub blocks-IsBlock : (fuel : ℕ) (rest : Bytes) → All IsBlock (blocks fuel rest)
blocks-IsBlock zero rest = tt
blocks-IsBlock (suc fuel) [] = tt
blocks-IsBlock (suc fuel) (x ∷ rest) = (
  (omega arith, length-take transfer_buffer_size (x ∷ rest)),
  blocks-IsBlock fuel (drop transfer_buffer_size (x ∷ rest)),
)

module _ {F : Type 0} ⦃p : Platform⦄ ⦃os : FileSystem F⦄ ⦃net : Network F⦄ where
  -- Blocks sent one after the other, up to the first that cannot be sent.
  unfoldable pub send_all : ClientNode → List Bytes → F → Outcome (F × Bool)
  send_all c [] sys = ok (sys, true)
  send_all c (b ∷ bs) sys =
      send_data c b sys >>= λ (sys', sent). if sent then send_all c bs sys' else ok (sys', false)

  -- The result of the loop, once the blocks were sent or not.
  abbrev ended : Bool → F × Bool → Outcome (F × Bool)
  ended broken (sys, sent) = ok (sys, sent && not broken)

  none_left :
      (fuel : ℕ) (c : ClientNode) (broken : Bool) (rest : Bytes) (sys : F)
      → rest ≡ []
      → (send_all c (blocks fuel rest) sys >>= ended broken) ≡ ok (sys, not broken)
  unfolding send_all
  none_left zero c broken rest sys e = refl
  none_left (suc fuel) c broken rest sys e = rw e refl

  one_block :
      (o : Outcome (F × Bool)) (last broken : Bool) (loop sends : F → Outcome (F × Bool))
      → (last ≡ true → (sys : F) → (sends sys >>= ended broken) ≡ ok (sys, not broken))
      → ((sys : F) → loop sys ≡ (sends sys >>= ended broken))
      → (o >>= λ (sys, sent).
          if not sent then ok (sys, false) else if last then ok (sys, not broken) else loop sys)
        ≡ ((o >>= λ (sys, sent). if sent then sends sys else ok (sys, false)) >>= ended broken)
  one_block (ok (sys, false)) last broken loop sends at_end later = refl
  one_block (ok (sys, true)) true broken loop sends at_end later = sym (at_end refl sys)
  one_block (ok (sys, true)) false broken loop sends at_end later = later sys
  one_block fault last broken loop sends at_end later = refl
  one_block thrown last broken loop sends at_end later = refl
  one_block running last broken loop sends at_end later = refl

  -- The loop sends the blocks, if the fuel is larger than the number of bytes.
  pub retrieve_loop-blocks :
      (fuel : ℕ) (c : ClientNode) (broken : Bool) (rest : Bytes) (sys : F)
      → length rest < fuel
      → retrieve_loop fuel c broken rest sys ≡ (send_all c (blocks fuel rest) sys >>= ended broken)
  unfolding retrieve_loop send_all
  retrieve_loop-blocks zero c broken rest sys h = absurd (omega arith)
  retrieve_loop-blocks (suc fuel) c broken [] sys h = refl
  retrieve_loop-blocks (suc fuel) c broken (x ∷ rest) sys h =
      let tail = drop transfer_buffer_size (x ∷ rest) in
      let shorter : length tail < fuel = omega (arith, length-drop 8191 rest) in
      one_block (send_data c (take transfer_buffer_size (x ∷ rest)) sys)
        (ltb (length (x ∷ rest)) transfer_buffer_size) broken (retrieve_loop fuel c broken tail)
        (send_all c (blocks fuel tail))
        (λ small sys'.
          none_left fuel c broken tail sys'
            (drop_all 8191 rest (omega (arith, ltb→lt (length (x ∷ rest)) 8192 small))))
        (λ sys'. retrieve_loop-blocks fuel c broken tail sys' shorter)

  send_file-blocks :
      (fuel : ℕ) (f : InFile) (c : ClientNode) (sys : F)
      → os.read_file sys c.transfer_path ≡ some f
      → length (from_position c.restart_at f.content) < fuel
      → send_file fuel c sys
        ≡ (send_all c (blocks fuel (from_position c.restart_at f.content)) sys >>= ended f.broken)
  unfolding send_file
  send_file-blocks fuel f c sys e h =
      rw (e, send_file)
        (retrieve_loop-blocks fuel c f.broken (from_position c.restart_at f.content) sys h)

  -- For a file that opens, `retrieve_thread` sends what the file has from the restart position on, in
  -- blocks of at most 8192 bytes and in order, up to the first block that cannot be sent; it then ends
  -- the transfer as complete if all were sent and the file could be read to its end, else as failed.
  -- The fuel is larger than the number of bytes.
  pub retrieve_thread-blocks :
      (fuel : ℕ) (f : InFile) (t : Turn F)
      → os.read_file t.system t.client.transfer_path ≡ some f
      → length (from_position t.client.restart_at f.content) < fuel
      → (bs : List Bytes) × (concat bs ≡ from_position t.client.restart_at f.content)
        × All IsBlock bs
        × (retrieve_thread fuel t ≡ (
            send_all t.client bs t.system >>= λ (sys, sent).
            release_data (set_system sys t) >>= λ released.
            ok (finish_transfer (sent && not f.broken) "550 Can 't Send File." released)))
  unfolding retrieve_thread
  retrieve_thread-blocks fuel f t e h =
      let rest = from_position t.client.restart_at f.content in
      (
        blocks fuel rest,
        concat-blocks fuel rest (omega arith),
        blocks-IsBlock fuel rest,
        rw (send_file-blocks fuel f t.client t.system e h)
            (after (send_all t.client (blocks fuel rest) t.system)),
      )
    where
      after :
          (o : Outcome (F × Bool))
          → ((o >>= ended f.broken) >>= λ (sys, done).
              release_data (set_system sys t) >>= λ released.
              ok (finish_transfer done "550 Can 't Send File." released))
            ≡ (o >>= λ (sys, sent). release_data (set_system sys t) >>= λ released.
                ok (finish_transfer (sent && not f.broken) "550 Can 't Send File." released))
      after (ok x) = refl
      after fault = refl
      after thrown = refl
      after running = refl
