-- ===== src/ClientNode/Scan.antt =====
-- The C library's number readers, as jni/yftp/client_node.cpp uses them: `swscanf` with `%u` and
-- literal commas, and `wcstoll`.
use yftpserver.Prelude.{
  ℕ, zero, suc, ◌+◌, ◌-◌, ◌*◌, ◌%◌, Bool, true, false, ◌&&◌, ◌||◌, WString, [], ◌∷◌, List, Option,
  none, some, if◌then◌else◌, leb, ltb, ◌==◌, ℤ, pos, negsuc,
}

abbrev pub is_digit : ℕ → Bool
is_digit c = leb b'0' c && leb c b'9'

abbrev pub is_space : ℕ → Bool
is_space c = c == b' ' || leb 9 c && leb c 13

unfoldable pub skip_spaces : WString → WString
skip_spaces [] = []
skip_spaces (c ∷ cs) = if is_space c then skip_spaces cs else c ∷ cs

-- The sign, true for a minus, and what follows it.
abbrev pub read_sign : WString → Bool × WString
read_sign [] = (false, [])
read_sign (c ∷ cs) =
    if c == b'-' then (true, cs) else if c == b'+' then (false, cs) else (false, c ∷ cs)

-- The value of the digits at the front, on top of `acc`, and what follows them.
unfoldable pub read_digits : ℕ → WString → ℕ × WString
read_digits acc [] = (acc, [])
read_digits acc (c ∷ cs) =
    let more = read_digits (acc * 10 + (c - b'0')) cs in if is_digit c then more else (acc, c ∷ cs)

abbrev pub starts_with_digit : WString → Bool
starts_with_digit [] = false
starts_with_digit (c ∷ cs) = is_digit c

abbrev pub uint_mod : ℕ
uint_mod = 4294967296

-- `ULONG_MAX + 1`, for an `unsigned long` of 64 bits.
abbrev pub ulong_mod : ℕ
ulong_mod = 18446744073709551616

-- One `%u`: spaces, a sign, and at least one digit. The C library reads an `unsigned long`, which stays at
-- its bound where the number does not fit, and stores its lower 32 bits.
unfoldable pub scan_uint : WString → Option (ℕ × WString)
scan_uint s =
    let (minus, digits) = read_sign (skip_spaces s) in
    let (n, rest) = read_digits 0 digits in
    let value =
      if ltb n ulong_mod
      then (if minus then (uint_mod - n % uint_mod) % uint_mod else n % uint_mod)
      else uint_mod - 1 in
    if starts_with_digit digits then some (value, rest) else none

abbrev pub skip_comma : WString → Option WString
skip_comma [] = none
skip_comma (c ∷ cs) = if c == b',' then some cs else none

-- `k` more numbers, each behind a comma.
unfoldable pub scan_more : ℕ → WString → Option (List ℕ)
scan_more zero s = some []
scan_more (suc k) s = elim (skip_comma s) [
  | none ↦ none
  | some t ↦ elim (scan_uint t) [
    | none ↦ none
    | some (n, rest) ↦ elim (scan_more k rest) [ none ↦ none | some ns ↦ some (n ∷ ns) ]
  ]
]

-- `swscanf(s, L"%u,%u,%u,%u,%u,%u", …) == 6`, with the six numbers.
unfoldable pub scan_six : WString → Option (List ℕ)
scan_six s = elim (scan_uint s) [
  | none ↦ none
  | some (n, rest) ↦ elim (scan_more 5 rest) [ none ↦ none | some ns ↦ some (n ∷ ns) ]
]

abbrev pub long_max : ℕ
long_max = 9223372036854775807

-- `wcstoll(s, nullptr, 10)`: 0 where there is no number, and the nearest bound out of range.
unfoldable pub wcstoll : WString → ℤ
wcstoll s =
    let (minus, digits) = read_sign (skip_spaces s) in
    let (n, rest) = read_digits 0 digits in
    if minus
    then if n == 0 then pos 0 else if ltb long_max n then negsuc long_max else negsuc (n - 1)
    else if ltb long_max n
    then pos long_max
    else pos n
