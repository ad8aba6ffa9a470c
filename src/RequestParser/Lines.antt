-- ===== src/RequestParser/Lines.antt =====
-- The buffers of the request parser stay well formed, however the bytes arrive.
use yftpserver.Prelude.{
  ℕ, ◌≤◌, ◌≡◌, refl, Bytes, Bool, false, [], ◌∷◌, ◌++◌, is_empty, length, length-append, All,
  All-append, arith,
}
use yftpserver.RequestParser.{
  RequestParser, new_parser, max_line, is_line_end, store_byte, receive_byte, receive,
}

-- Bytes that may stand in a command line.
abbrev pub IsInner : Bytes → Type 0
IsInner = All (λ c. is_line_end c ≡ false)

-- A complete line as `recv_line_buffer` may hold it.
abbrev pub IsLine : Bytes → Type 0
IsLine l = (is_empty l ≡ false) × (length l ≤ max_line) × IsInner l

pub record IsValid (p : RequestParser) : Type 0 where
  pub in_bounds : length p.recv_buffer ≤ max_line
  pub no_line_end : IsInner p.recv_buffer
  pub complete_lines : All IsLine p.recv_line_buffer

pub new_parser-IsValid : IsValid new_parser
new_parser-IsValid = record { in_bounds = omega arith; no_line_end = tt; complete_lines = tt }

-- Bytes may arrive in pieces of any size: the buffers are those of one piece.
pub receive-append :
    (signed : Bool) (xs ys : Bytes) (p : RequestParser)
    → receive signed (xs ++ ys) p ≡ receive signed ys (receive signed xs p)
unfolding receive
receive-append signed [] ys p = refl
receive-append signed (x ∷ xs) ys p = receive-append signed xs ys (receive_byte signed x p)

pub store_byte-IsValid : (c : ℕ) (p : RequestParser) → IsValid p → IsValid (store_byte c p)
unfolding store_byte
store_byte-IsValid c p v = ground (
  arith,
  length-append p.recv_buffer (c ∷ []),
  All-append (λ (b : ℕ). is_line_end b ≡ false) p.recv_buffer (c ∷ []) v.no_line_end,
  All-append IsLine p.recv_line_buffer (p.recv_buffer ∷ []) v.complete_lines,
)

receive_byte-IsValid :
    (signed : Bool) (c : ℕ) (p : RequestParser) → IsValid p → IsValid (receive_byte signed c p)
unfolding receive_byte
receive_byte-IsValid signed c p v =
    let cleared = record p { telnet_skip = false } in
    let v' : IsValid cleared = record {
      in_bounds = v.in_bounds;
      no_line_end = v.no_line_end;
      complete_lines = v.complete_lines;
    } in
    ground (arith, store_byte-IsValid c p v, store_byte-IsValid c cleared v')

pub receive-IsValid :
    (signed : Bool) (cs : Bytes) (p : RequestParser) → IsValid p → IsValid (receive signed cs p)
unfolding receive
receive-IsValid signed [] p v = v
receive-IsValid signed (c ∷ cs) p v =
    receive-IsValid signed cs (receive_byte signed c p) (receive_byte-IsValid signed c p v)
