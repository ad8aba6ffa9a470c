-- ===== src/ClientNode/PassivePorts.antt =====
-- Passive mode: which ports the loop of `process_pasv_cmd` tries, and where its static variable stands
-- afterwards.
use yftpserver.Prelude.{
  ℕ, zero, suc, ◌+◌, ◌%◌, ◌≤◌, ◌<◌, ◌≡◌, refl, Bool, true, false, Option, some, if◌then◌else◌,
  Bool-cases, inl, inr, arith,
}
use yftpserver.Network.{Network}
use yftpserver.ClientNode.{Turn}
use yftpserver.ClientNode.DataPort.{past_end, try_ports}

-- The ports of a range, and the one behind it.
abbrev pub IsInRange : ℕ → ℕ → ℕ → Type 0
IsInRange start num port = (start ≤ port) × (port ≤ start + num)

-- The static variable has a value in the range.
abbrev pub CursorIn : ℕ → ℕ → Option ℕ → Type 0
CursorIn start num cursor = (cur : ℕ) × ((cursor ≡ some cur) × IsInRange start num cur)

next_port-IsInRange :
    (start num cur : ℕ)
    → start + num < 65535
    → IsInRange start num cur
    → IsInRange start num
        (if past_end start num ((cur + 1) % 65536) then start else (cur + 1) % 65536)
next_port-IsInRange start num cur fits h = ground (arith, h.0, h.1)

-- A choice between two results that succeeded, of which each has a property if it did.
when_done {ℓ κ} :
    {A : Type ℓ} (b : Bool) (x y : A × Bool) (P : A → Type κ)
    → P x.0
    → (y.1 ≡ true → P y.0)
    → (if b then x else y).1 ≡ true
    → P (if b then x else y).0
when_done true x y P hx hy done = hx
when_done false x y P hx hy done = hy done

module _ {F : Type 0} ⦃net : Network F⦄ where
  -- Whatever ports the system refuses, the static variable stays in the range, the port
  -- `start + num` included, if it starts there and the range ends below 65535.
  pub try_ports-CursorIn :
      (tries start num cur : ℕ) (t : Turn F)
      → start + num < 65535
      → IsInRange start num cur
      → CursorIn start num (try_ports tries start num cur t).0.cur_end_port
  unfolding try_ports
  try_ports-CursorIn zero start num cur t fits h = (cur, (refl, h))
  try_ports-CursorIn (suc tries) start num cur t fits h =
      elim (Bool-cases (net.bind_listen t.client.server_ip cur t.system).1) [
        | inl bound ↦ rw bound (_, (refl, next_port-IsInRange start num cur fits h))
        | inr refused ↦
            rw refused (
              try_ports-CursorIn tries start num _ _ fits
                (next_port-IsInRange start num cur fits h))
      ]

  -- If the first port that is tried lies between `start` and `start + num`, and that is less than 65535,
  -- then so does the port that is bound, whichever ports the system refuses. The range that was set ends one
  -- port earlier, at `start + num - 1`.
  pub try_ports-IsInRange :
      (tries start num cur : ℕ) (t : Turn F)
      → start + num < 65535
      → IsInRange start num cur
      → (try_ports tries start num cur t).1 ≡ true
      → IsInRange start num (try_ports tries start num cur t).0.client.data_port
  unfolding try_ports
  try_ports-IsInRange zero start num cur t fits h done = absurd (ground arith)
  try_ports-IsInRange (suc tries) start num cur t fits h done =
      when_done (net.bind_listen t.client.server_ip cur t.system).1 _ _
        (λ (t' : Turn F). IsInRange start num t'.client.data_port) h
        (try_ports-IsInRange tries start num _ _ fits (next_port-IsInRange start num cur fits h))
        done
