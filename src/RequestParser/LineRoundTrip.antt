-- ===== src/RequestParser/LineRoundTrip.antt =====
-- What one line of a client comes to, and what happens to telnet commands before it.
use mathlib.Core.List.{append-nil, append_assoc}
use yftpserver.Prelude.{
  ℕ, zero, suc, ◌+◌, ◌≤◌, ◌<◌, ◌≡◌, refl, ◌∙◌, Bytes, Bool, true, false, [], ◌∷◌, ◌++◌, is_empty,
  length, length-append, take, arith,
}
use yftpserver.RequestParser.{RequestParser, max_line, char_lt, store_byte, receive_byte, receive}
use yftpserver.RequestParser.Lines.{IsInner, receive-append}

is_empty-concat : (xs : Bytes) (c : ℕ) → is_empty (xs ++ c ∷ []) ≡ false
is_empty-concat [] c = refl
is_empty-concat (x ∷ xs) c = refl

-- Behind the first byte of a line, bytes fill the buffer up to the limit; the rest is dropped.
receive_inner :
    (signed : Bool) (cs : Bytes) (p : RequestParser) (k : ℕ)
    → is_empty p.recv_buffer ≡ false
    → length p.recv_buffer + k ≡ max_line
    → IsInner cs
    → receive signed cs p ≡ record p { recv_buffer = p.recv_buffer ++ take k cs }
unfolding receive
receive_inner signed [] p zero ne room h = rw append-nil
receive_inner signed [] p (suc k) ne room h = rw append-nil
receive_inner signed (c ∷ cs) p zero ne room h =
    let full : receive_byte signed c p ≡ p =
      unfold receive_byte store_byte in ground (arith, h.0) in
    rw full (receive_inner signed cs p zero ne room h.1)
receive_inner signed (c ∷ cs) p (suc k) ne room h =
    let next = record p { recv_buffer = p.recv_buffer ++ c ∷ [] } in
    let kept : receive_byte signed c p ≡ next =
      unfold receive_byte store_byte in ground (arith, h.0) in
    rw kept (
      receive_inner signed cs next k (is_empty-concat p.recv_buffer c)
        (omega (arith, length-append p.recv_buffer (c ∷ []))) h.1
      ∙ rw append_assoc)

-- A line ending closes a line that has begun, and the one behind it is skipped.
receive_ending :
    (signed : Bool) (p : RequestParser)
    → is_empty p.recv_buffer ≡ false
    → p.telnet_skip ≡ false
    → receive signed (b'\r' ∷ b'\n' ∷ []) p
      ≡ record p { recv_line_buffer = p.recv_line_buffer ++ p.recv_buffer ∷ []; recv_buffer = [] }
unfolding receive receive_byte store_byte
receive_ending signed p ne off = ground arith

-- An idle parser stores a line of the client, up to the limit, and is idle again: whatever stood in
-- the line buffer stays in front of it.
pub receive_line :
    (signed : Bool) (c : ℕ) (cs : Bytes) (p : RequestParser)
    → p.recv_buffer ≡ []
    → IsInner (c ∷ cs)
    → char_lt signed c 240 ≡ true
    → receive signed ((c ∷ cs) ++ b'\r' ∷ b'\n' ∷ []) p ≡ record p {
      recv_line_buffer = p.recv_line_buffer ++ take max_line (c ∷ cs) ∷ [];
      recv_buffer = [];
      telnet_skip = false;
    }
receive_line signed c cs p idle h plain =
    let first = record p { recv_buffer = c ∷ []; telnet_skip = false } in
    let line = record first { recv_buffer = c ∷ take 1999 cs } in
    let began : receive_byte signed c p ≡ first =
      unfold receive_byte store_byte in ground (arith, h.0) in
    let read : receive signed (c ∷ cs) p ≡ line =
      unfold receive in rw began (receive_inner signed cs first 1999 refl (omega arith) h.1) in
    receive-append signed (c ∷ cs) (b'\r' ∷ b'\n' ∷ []) p
    ∙ rw read (receive_ending signed line refl refl)

-- Bytes from 240 on, all below 256.
abbrev pub IsTelnet : Bytes → Type 0
IsTelnet [] = Unit
IsTelnet (c ∷ cs) = (240 ≤ c) × IsTelnet cs

skips_rest :
    (cs : Bytes) (p : RequestParser)
    → p.recv_buffer ≡ []
    → p.telnet_skip ≡ true
    → IsTelnet cs
    → receive false cs p ≡ p
unfolding receive
skips_rest [] p idle on h = refl
skips_rest (c ∷ cs) p idle on h =
    let same : receive_byte false c p ≡ p = unfold receive_byte in ground (arith, h.0) in
    rw same (skips_rest cs p idle on h.1)

-- Where `char` is unsigned, a telnet command before a line leaves no trace in the line.
pub receive_telnet_unsigned :
    (cs : Bytes) (c : ℕ) (line : Bytes) (p : RequestParser)
    → p.recv_buffer ≡ []
    → p.telnet_skip ≡ false
    → IsTelnet cs
    → c < 240
    → receive false (255 ∷ cs ++ c ∷ line) p ≡ receive false (c ∷ line) p
receive_telnet_unsigned cs c line p idle off h plain =
    let skipping = record p { telnet_skip = true } in
    let began : receive_byte false 255 p ≡ skipping = unfold receive_byte in ground arith in
    let stored : receive_byte false c skipping ≡ receive_byte false c p =
      unfold receive_byte in ground arith in
    let all : receive false (255 ∷ cs) p ≡ skipping =
      unfold receive in rw began (skips_rest cs skipping idle refl h) in
    receive-append false (255 ∷ cs) (c ∷ line) p ∙ rw all (unfold receive in rw stored)

-- Where `char` is signed, telnet commands are never recognised: the byte 255 is stored as the first
-- byte of a line, and the parser never skips.
pub receive_telnet_signed :
    (line : Bytes) (p : RequestParser)
    → p.recv_buffer ≡ []
    → p.telnet_skip ≡ false
    → receive true (255 ∷ line) p ≡ receive true line (record p { recv_buffer = 255 ∷ [] })
receive_telnet_signed line p idle off =
    let stored : receive_byte true 255 p ≡ record p { recv_buffer = 255 ∷ [] } =
      unfold receive_byte store_byte in ground arith in
    unfold receive in rw stored
