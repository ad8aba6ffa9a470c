-- ===== src/Connection/Interleaving.antt =====
-- A download, jni/yftp/client_node.cpp: `retrieve_thread`, while the server goes on: between any two
-- of its steps there is any number of events.
use yftpserver.Prelude.{
  ℕ, suc, ◌+◌, ◌/◌, ◌≤◌, ◌<◌, ◌≡◌, refl, sym, ap, ◌∙◌, subst, Bool, true, false, not, Bytes, [],
  ◌∷◌, ◌++◌, List, length, length-drop, take, drop, take-append-drop, concat, ltb, ltb→lt,
  if◌then◌else◌, Bool-cases, inl, inr, ok, Returns, Returns-ok, Returns-last, arith,
}
use mathlib.Core.List.{append-nil, append_assoc}
use yftpserver.Platform.{Platform}
use yftpserver.FileSystem.{FileSystem}
use yftpserver.Network.{Network}
use yftpserver.ClientNode.{Turn}
use yftpserver.ClientNode.DataPort.{set_system, close_data_socket}
use yftpserver.ClientNode.Threads.{transfer_buffer_size, send_data, shut_down_data_socket}
use yftpserver.ClientNode.Threads.Retrieve.{drop_all}
use yftpserver.ClientNode.Threads.Steps.{
  Point, opening, sending, receiving, shutting, closing, finishing, ended, Stepped, at, end_step,
  retrieve_step,
}
use yftpserver.FtpServer.{World}
use yftpserver.FtpServer.Jobs.{turn_at, put_back, job_step, job_step-ok}
use yftpserver.Connection.Reachable.{Step}

-- How many steps a download has before it at most.
abbrev pub rank : Point → ℕ
rank (sending broken rest) = length rest / 8192 + 4
rank (shutting done) = 3
rank (closing done) = 2
rank (finishing done) = 1
rank _ = 0

-- What the blocks that the network has taken are of a file's content, at a point of the download.
abbrev SentOf : Bytes → Bool → List Bytes → Point → Type 0
SentOf content broken bs (sending b rest) = (concat bs ++ rest ≡ content) × (b ≡ broken)
SentOf content broken bs (shutting true) = (concat bs ≡ content) × (broken ≡ false)
SentOf content broken bs (closing true) = (concat bs ≡ content) × (broken ≡ false)
SentOf content broken bs (finishing true) = (concat bs ≡ content) × (broken ≡ false)
SentOf content broken bs _ = (rest : Bytes) × (concat bs ++ rest ≡ content)

-- Whatever the point, the blocks are the beginning of the file.
some_left :
    (content : Bytes) (broken : Bool) (bs : List Bytes) (pt : Point)
    → SentOf content broken bs pt
    → (rest : Bytes) × (concat bs ++ rest ≡ content)
some_left content broken bs (sending b rest) h = (rest, h.0)
some_left content broken bs (shutting true) h = ([], append-nil (concat bs) ∙ h.0)
some_left content broken bs (closing true) h = ([], append-nil (concat bs) ∙ h.0)
some_left content broken bs (finishing true) h = ([], append-nil (concat bs) ∙ h.0)
some_left content broken bs (shutting false) h = h
some_left content broken bs (closing false) h = h
some_left content broken bs (finishing false) h = h
some_left content broken bs opening h = h
some_left content broken bs (receiving path) h = h
some_left content broken bs ended h = h

concat-snoc :
    (bs : List Bytes) (b rest : Bytes) → concat (bs ++ b ∷ []) ++ rest ≡ concat bs ++ (b ++ rest)
concat-snoc [] b rest = append_assoc b [] rest
concat-snoc (a ∷ bs) b rest =
    append_assoc a (concat (bs ++ b ∷ [])) rest
    ∙ ap (λ more. a ++ more) (concat-snoc bs b rest)
    ∙ sym (append_assoc a (concat bs) (b ++ rest))

module _ (content : Bytes) (broken : Bool) where
  untaken :
      (bs : List Bytes) (pt : Point)
      → SentOf content broken bs pt
      → SentOf content broken (bs ++ []) pt
  untaken bs pt = subst (λ k. SentOf content broken k pt) (sym (append-nil bs))

  -- The loop has come to the end of the file.
  all_read :
      (bs : List Bytes) (b : Bool)
      → concat bs ++ [] ≡ content
      → b ≡ broken
      → SentOf content broken bs (shutting (not b))
  all_read bs true e same = ([], e)
  all_read bs false e same = (sym (append-nil (concat bs)) ∙ e, sym same)

  one_more :
      (bs : List Bytes) (b : Bool) (rest : Bytes)
      → concat bs ++ rest ≡ content
      → b ≡ broken
      → let more = bs ++ take transfer_buffer_size rest ∷ [] in
        let left = drop transfer_buffer_size rest in
        SentOf content broken more
          (if ltb (length rest) transfer_buffer_size then shutting (not b) else sending b left)
  one_more bs b rest e same =
      let block = take transfer_buffer_size rest in
      let left = drop transfer_buffer_size rest in
      let whole : concat (bs ++ block ∷ []) ++ left ≡ content =
        concat-snoc bs block left
        ∙ ap (λ r. concat bs ++ r) (take-append-drop transfer_buffer_size rest)
        ∙ e in
      elim (Bool-cases (ltb (length rest) transfer_buffer_size)) [
        | inr more ↦ rw more (whole, same)
        | inl last ↦
            let none_left : left ≡ [] =
              drop_all transfer_buffer_size rest
                (omega (arith, ltb→lt (length rest) transfer_buffer_size last)) in
            rw last (
              all_read (bs ++ block ∷ []) b
                (subst (λ r. concat (bs ++ block ∷ []) ++ r ≡ content) none_left whole) same)
      ]

not_less : (n : ℕ) → ltb n 8192 ≡ false → 8192 ≤ n
not_less n h = ground arith

fewer :
    (b : Bool) (x : ℕ) (rest : Bytes)
    → rank (
        if ltb (length (x ∷ rest)) transfer_buffer_size
        then shutting (not b)
        else sending b (drop transfer_buffer_size (x ∷ rest)))
      < length (x ∷ rest) / 8192 + 4
fewer b x rest = elim (Bool-cases (ltb (length (x ∷ rest)) transfer_buffer_size)) [
  | inl last ↦ rw last (omega arith)
  | inr more ↦ rw more (omega (arith, not_less (suc (length rest)) more, length-drop 8191 rest))
]

module _ {F : Type 0} ⦃p : Platform⦄ ⦃os : FileSystem F⦄ ⦃net : Network F⦄ where
  -- A download on the client node at `me` from one point and state to another: the blocks that the
  -- network has taken, and the number of the thread's own steps. Each of these finds the client node
  -- alive.
  pub data Download (me : ℕ) (w : World F) (pt : Point)
      : ℕ → List Bytes → World F → Point → Type 0 where
    begins : Download me w pt 0 [] w pt
    works :
        {k : ℕ} {bs : List Bytes} {w' : World F} {pt' : Point} (s : Stepped F)
        → Download me w pt k bs w' pt'
        → 0 < rank pt'
        → job_step (retrieve_step pt') me w' ≡ ok s
        → Download me w pt (suc k) (bs ++ s.taken) (put_back me s.turn w') s.point
    meanwhile :
        {k : ℕ} {bs : List Bytes} {w' w'' : World F} {pt' : Point}
        → Download me w pt k bs w' pt'
        → Step w' w''
        → Download me w pt k bs w'' pt'

  -- What one step keeps.
  GoesOn : Bytes → Bool → List Bytes → Point → Stepped F → Type 0
  GoesOn content broken bs pt s =
      SentOf content broken (bs ++ s.taken) s.point × (rank s.point < rank pt)

  block-GoesOn :
      (content : Bytes) (broken : Bool) (bs : List Bytes) (b : Bool) (x : ℕ) (rest : Bytes)
      → SentOf content broken bs (sending b (x ∷ rest))
      → (t : Turn F) (sent : Bool)
      → GoesOn content broken bs (sending b (x ∷ rest)) (
          if not sent then at (shutting false) t else record {
            point =
                if ltb (length (x ∷ rest)) transfer_buffer_size
                then shutting (not b)
                else sending b (drop transfer_buffer_size (x ∷ rest));
            turn = t;
            taken = take transfer_buffer_size (x ∷ rest) ∷ [];
          })
  unfolding GoesOn
  block-GoesOn content broken bs b x rest h t false =
      (untaken content broken bs (shutting false) (x ∷ rest, h.0), omega arith)
  block-GoesOn content broken bs b x rest h t true =
      (one_more content broken bs b (x ∷ rest) h.0 h.1, fewer b x rest)

  step-GoesOn :
      (content : Bytes) (broken : Bool) (bs : List Bytes) (pt : Point) (t : Turn F)
      → 0 < rank pt
      → SentOf content broken bs pt
      → Returns (GoesOn content broken bs pt) (retrieve_step pt t)
  unfolding retrieve_step end_step GoesOn
  step-GoesOn content broken bs (sending b []) t r h = (
    untaken content broken bs (shutting (not b)) (all_read content broken bs b h.0 h.1),
    omega arith,
  )
  step-GoesOn content broken bs (sending b (x ∷ rest)) t r h =
      Returns-last (GoesOn content broken bs (sending b (x ∷ rest)))
        (send_data t.client (take transfer_buffer_size (x ∷ rest)) t.system) _
        (λ (sys, sent). block-GoesOn content broken bs b x rest h (set_system sys t) sent)
  step-GoesOn content broken bs (shutting true) t r h =
      Returns-last (GoesOn content broken bs (shutting true)) (shut_down_data_socket t) _
        (λ s. (untaken content broken bs (shutting true) h, omega arith))
  step-GoesOn content broken bs (shutting false) t r h =
      Returns-last (GoesOn content broken bs (shutting false)) (shut_down_data_socket t) _
        (λ s. (untaken content broken bs (shutting false) h, omega arith))
  step-GoesOn content broken bs (closing true) t r h =
      Returns-last (GoesOn content broken bs (closing true)) (close_data_socket t) _
        (λ s. (untaken content broken bs (shutting true) h, omega arith))
  step-GoesOn content broken bs (closing false) t r h =
      Returns-last (GoesOn content broken bs (closing false)) (close_data_socket t) _
        (λ s. (untaken content broken bs (shutting false) h, omega arith))
  step-GoesOn content broken bs (finishing true) t r h =
      (untaken content broken bs (shutting false) ([], append-nil (concat bs) ∙ h.0), omega arith)
  step-GoesOn content broken bs (finishing false) t r h =
      (untaken content broken bs (shutting false) h, omega arith)
  step-GoesOn content broken bs opening t r h = absurd (omega arith)
  step-GoesOn content broken bs (receiving path) t r h = absurd (omega arith)
  step-GoesOn content broken bs ended t r h = absurd (omega arith)

  Download-SentOf :
      (content : Bytes) (broken : Bool) {me : ℕ} {w : World F} {k : ℕ} {bs : List Bytes}
      {w' : World F} {pt' : Point}
      → Download me w (sending broken content) k bs w' pt'
      → SentOf content broken bs pt' × (k + rank pt' ≤ length content / 8192 + 4)
  unfolding GoesOn
  Download-SentOf content broken begins = ((refl, refl), omega arith)
  Download-SentOf content broken {me} (works {k} {bs} {w'} {pt'} s d alive e) =
      let (sent, few) = Download-SentOf content broken d in
      let (sent', less) =
        Returns-ok (GoesOn content broken bs pt')
          (step-GoesOn content broken bs pt' (turn_at me w') alive sent)
          (job_step-ok (retrieve_step pt') me w' e) in
      (sent', omega arith)
  Download-SentOf content broken (meanwhile d step) = Download-SentOf content broken d

  -- From the moment when a download has opened its file and taken the restart position, as long as its
  -- client node is alive at each of its steps, and whatever events of the server come between them: the
  -- blocks that the network has taken are, one after the other, the beginning of what was to be sent; the
  -- thread is about to report success only if they are all of it and the file could be read; and it has
  -- taken at most one step for every 8192 bytes and four more.
  pub Download-in_order :
      (content : Bytes) (broken : Bool) {me : ℕ} {w : World F} {k : ℕ} {bs : List Bytes}
      {w' : World F} {pt' : Point}
      → Download me w (sending broken content) k bs w' pt'
      → ((rest : Bytes) × (concat bs ++ rest ≡ content))
        × (pt' ≡ finishing true → (concat bs ≡ content) × (broken ≡ false))
        × (k ≤ length content / 8192 + 4)
  Download-in_order content broken {bs} {pt'} d =
      let (sent, few) = Download-SentOf content broken d in
      (
        some_left content broken bs pt' sent,
        λ e. subst (SentOf content broken bs) e sent,
        omega arith,
      )
