-- ===== src/ClientNode/PortRoundTrip.antt =====
-- jni/yftp/client_node.cpp: the text that `process_pasv_cmd` replies with, read by the `swscanf` of
-- `process_port_cmd`.
use Prim.Native.Nat.{max, digits, bit_or-bitwise}
use yftpserver.Prelude.{
  ℕ, zero, suc, ◌+◌, ◌-◌, ◌*◌, ◌/◌, ◌%◌, ◌<◌, ◌≤◌, ◌≡◌, refl, sym, true, false, WString, [], ◌∷◌,
  ◌++◌, some, ltb, ◌==◌, lit, drop, bit_or, List, arith, ◌⊎◌, inl, inr, ◌∙◌, ltb→lt,
}
use yftpserver.Reply.{decimal, decimal_digits}
use yftpserver.ClientNode.DataPort.{is_address, port_target, pasv_text}
use yftpserver.ClientNode.Scan.{
  skip_spaces, read_sign, read_digits, starts_with_digit, scan_uint, scan_more, scan_six, uint_mod,
  ulong_mod,
}

append_assoc : (a b c : WString) → (a ++ b) ++ c ≡ a ++ (b ++ c)
append_assoc [] b c = refl
append_assoc (x ∷ a) b c = rw (append_assoc a b c) refl

read_digits_digit :
    (acc d : ℕ) (rest : WString)
    → d < 10
    → read_digits acc ((b'0' + d) ∷ rest) ≡ read_digits (acc * 10 + d) rest
unfolding read_digits
read_digits_digit acc d rest h = ground arith

below_ten : (n : ℕ) → (ltb n 10 ≡ true) ⊎ (ltb n 10 ≡ false)
below_ten n = ground arith

from_zero : (n : ℕ) → 0 * 10 + n ≡ n
from_zero n = omega arith

shorter : (n f : ℕ) → n < suc f → ltb n 10 ≡ false → n / 10 < f
shorter n f h large = ground arith

last_digit : (n : ℕ) → n / 10 * 10 + n % 10 ≡ n
last_digit n = omega arith

read_digits-decimal_digits :
    (f n : ℕ) (rest : WString)
    → n < f
    → read_digits 0 (decimal_digits f n ++ rest) ≡ read_digits n rest
unfolding decimal_digits
read_digits-decimal_digits zero n rest h = absurd (omega arith)
read_digits-decimal_digits (suc f) n rest h = elim (below_ten n) [
  | inl small ↦
      rw (small, read_digits_digit 0 n rest (omega (arith, ltb→lt n 10 small)), from_zero n) refl
  | inr large ↦ rw large (
      rw (append_assoc (decimal_digits f (n / 10)) ((b'0' + n % 10) ∷ []) rest) (
        rw (read_digits-decimal_digits f (n / 10) ((b'0' + n % 10) ∷ rest) (shorter n f h large))
          (rw (read_digits_digit (n / 10) (n % 10) rest (omega arith)) (rw (last_digit n) refl))))
]

starts_with_digit-decimal_digits :
    (f n : ℕ) (rest : WString) → n < f → starts_with_digit (decimal_digits f n ++ rest) ≡ true
unfolding decimal_digits
starts_with_digit-decimal_digits zero n rest h = absurd (omega arith)
starts_with_digit-decimal_digits (suc f) n rest h = elim (below_ten n) [
  | inl small ↦ rw small (ground (arith, ltb→lt n 10 small))
  | inr large ↦ rw large (
      rw (append_assoc (decimal_digits f (n / 10)) ((b'0' + n % 10) ∷ []) rest) (
        starts_with_digit-decimal_digits f (n / 10) ((b'0' + n % 10) ∷ rest) (shorter n f h large)))
]

skip_spaces-digit : (s : WString) → starts_with_digit s ≡ true → skip_spaces s ≡ s
unfolding skip_spaces
skip_spaces-digit [] h = refl
skip_spaces-digit (c ∷ s) h = ground arith

read_sign-digit : (s : WString) → starts_with_digit s ≡ true → read_sign s ≡ (false, s)
read_sign-digit [] h = refl
read_sign-digit (c ∷ s) h = ground arith

read_digits_end :
    (n : ℕ) (rest : WString) → starts_with_digit rest ≡ false → read_digits n rest ≡ (n, rest)
unfolding read_digits
read_digits_end n [] h = refl
read_digits_end n (c ∷ rest) h = rw h refl

below_mod : (n : ℕ) → n < uint_mod → n % uint_mod ≡ n
below_mod n h = omega arith

fits : (n : ℕ) → n < uint_mod → ltb n ulong_mod ≡ true
fits n h = ground arith

-- `%u` reads a number that fits an `unsigned` back from its decimal print.
scan_uint-decimal :
    (n : ℕ) (rest : WString)
    → n < uint_mod
    → starts_with_digit rest ≡ false
    → scan_uint (decimal n ++ rest) ≡ some (n, rest)
unfolding scan_uint decimal
scan_uint-decimal n rest h stop =
    let s = decimal_digits (suc n) n ++ rest in
    let digit = starts_with_digit-decimal_digits (suc n) n rest (omega arith) in
    rw (skip_spaces-digit s digit) (
      rw (read_sign-digit s digit) (
        rw (digit, read_digits-decimal_digits (suc n) n rest (omega arith))
          (rw (read_digits_end n rest stop) (rw (fits n h, below_mod n h) refl))))

eq_cases : (n : ℕ) → (n ≡ 0) ⊎ ((n == 0) ≡ false)
eq_cases n = ground arith

max_zero : (a b : ℕ) → max a b ≡ 0 → (a ≡ 0) × (b ≡ 0)
max_zero zero zero e = (refl, refl)
max_zero zero (suc b) e = absurd (omega arith)
max_zero (suc a) zero e = absurd (omega arith)
max_zero (suc a) (suc b) e = absurd (omega arith)

bit_or-digits : (k a b : ℕ) → a ≤ k → digits (λ b. b) max k a b ≡ 0 → (a ≡ 0) × (b ≡ 0)
bit_or-digits zero zero b h e = (refl, e)
bit_or-digits zero (suc a) b h e = absurd (omega arith)
bit_or-digits (suc k) zero b h e = (refl, e)
bit_or-digits (suc k) (suc a) b h e =
    let both = max_zero (suc a % 2) (b % 2) (omega arith) in
    let halves = bit_or-digits k (suc a / 2) (b / 2) (omega arith) (omega arith) in
    (omega (arith, both, halves), omega (arith, both, halves))

bit_or-zero : (a b : ℕ) → bit_or a b ≡ 0 → (a ≡ 0) × (b ≡ 0)
bit_or-zero a b e = bit_or-digits a a b (omega arith) (sym (λ i. bit_or-bitwise a b i) ∙ e)

-- One more number, behind a comma.
scan_more-decimal :
    (k n : ℕ) (rest : WString) (ns : List ℕ)
    → n < 256
    → starts_with_digit rest ≡ false
    → scan_more k rest ≡ some ns
    → scan_more (suc k) (b',' ∷ (decimal n ++ rest)) ≡ some (n ∷ ns)
unfolding scan_more
scan_more-decimal k n rest ns h stop e =
    rw (scan_more, scan_uint-decimal n rest (omega arith) stop) (rw e refl)

scan_six-decimal :
    (a b c d e f : ℕ) (rest : WString)
    → a < 256
    → b < 256
    → c < 256
    → d < 256
    → e < 256
    → f < 256
    → starts_with_digit rest ≡ false
    → scan_six (
        decimal a
        ++ b','
          ∷ (decimal b
              ++ b','
                ∷ (decimal c
                    ++ b',' ∷ (decimal d ++ b',' ∷ (decimal e ++ b',' ∷ (decimal f ++ rest))))))
      ≡ some (a ∷ b ∷ c ∷ d ∷ e ∷ f ∷ [])
unfolding scan_six scan_more
scan_six-decimal a b c d e f rest ha hb hc hd he hf stop =
    rw (scan_six, scan_uint-decimal a _ (omega arith) refl)
      (rw
        (scan_more-decimal 4 b _ _ hb refl (
          scan_more-decimal 3 c _ _ hc refl (
            scan_more-decimal 2 d _ _ hd refl
              (scan_more-decimal 1 e _ _ he refl (scan_more-decimal 0 f rest [] hf stop refl)))))
        refl)

not_all_zero : (a b c d : ℕ) → 0 < a + b + c + d → (bit_or (bit_or (bit_or a b) c) d == 0) ≡ false
not_all_zero a b c d h = elim (eq_cases (bit_or (bit_or (bit_or a b) c) d)) [
  | inl z ↦
      let (abc, d0) = bit_or-zero (bit_or (bit_or a b) c) d z in
      let (ab, c0) = bit_or-zero (bit_or a b) c abc in
      let (a0, b0) = bit_or-zero a b ab in absurd (omega arith)
  | inr nz ↦ nz
]

not_both_zero : (a b : ℕ) → 0 < a + b → (bit_or a b == 0) ≡ false
not_both_zero a b h = elim (eq_cases (bit_or a b)) [
  | inl z ↦ absurd (omega (arith, bit_or-zero a b z))
  | inr nz ↦ nz
]

is_address-of :
    (a b c d e f : ℕ)
    → a < 256
    → b < 256
    → c < 256
    → d < 256
    → e < 256
    → f < 256
    → 0 < a + b + c + d
    → 0 < e + f
    → is_address a b c d e f ≡ true
is_address-of a b c d e f ha hb hc hd he hf host port =
    rw (not_all_zero a b c d host, not_both_zero e f port) (ground arith)

bytes_of_address :
    (ip : ℕ)
    → ip < 4294967296
    → ((ip / 16777216 % 256 * 256 + ip / 65536 % 256) * 256 + ip / 256 % 256) * 256 + ip % 256 ≡ ip
bytes_of_address ip h = omega arith

bytes_of_port :
    (port : ℕ) → port < 65536 → ((port - port % 256) / 256 * 256 + port % 256) % 65536 ≡ port
bytes_of_port port h = omega arith

-- What the reply of PASV says behind its parenthesis names, as the argument of a PORT command, the
-- address and the port that the reply was made from: for an address of 32 bits and a port of 16 bits
-- that are not 0.
pub port_target-pasv_text :
    (ip port : ℕ)
    → 0 < ip
    → ip < 4294967296
    → 0 < port
    → port < 65536
    → port_target (drop 23 (pasv_text ip port)) ≡ some (ip, port)
unfolding port_target pasv_text lit
port_target-pasv_text ip port a b c d =
    let h1 = ip / 16777216 % 256 in
    let h2 = ip / 65536 % 256 in
    let h3 = ip / 256 % 256 in
    let h4 = ip % 256 in
    let p1 = (port - port % 256) / 256 in
    let p2 = port % 256 in
    rw
      (
        port_target,
        scan_six-decimal h1 h2 h3 h4 p1 p2 (lit ").") (omega arith) (omega arith) (omega arith)
            (omega arith) (omega arith) (omega arith) refl,
      )
      (rw
        (is_address-of h1 h2 h3 h4 p1 p2 (omega arith) (omega arith) (omega arith) (omega arith)
          (omega arith) (omega arith) (omega arith) (omega arith))
        (rw (bytes_of_address ip b, bytes_of_port port d) refl))
