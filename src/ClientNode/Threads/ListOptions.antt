-- ===== src/ClientNode/Threads/ListOptions.antt =====
-- jni/yftp/client_node.cpp: the options in front of the argument of a listing command.
use yftpserver.Prelude.{
  ℕ, ◌≡◌, refl, Bool, true, false, ◌&&◌, ◌||◌, WString, [], ◌∷◌, if◌then◌else◌, leb, ◌==◌, lit,
}
use yftpserver.ClientNode.Scan.{is_digit, is_space}

-- `opt_a`, `opt_d`, `opt_F` and `opt_l`.
pub record ListOptions : Type 0 where
  pub all : Bool
  pub directory : Bool
  pub classify : Bool
  pub long : Bool

abbrev pub no_options : ListOptions
no_options = record { all = false; directory = false; classify = false; long = false }

-- `iswalnum` in the "C" locale.
abbrev pub is_alnum : ℕ → Bool
is_alnum c = is_digit c || (leb b'a' c && leb c b'z' || leb b'A' c && leb c b'Z')

abbrev pub set_option : ℕ → ListOptions → ListOptions
set_option c o =
    if c == b'a'
    then record o { all = true }
    else if c == b'd'
    then record o { directory = true }
    else if c == b'F'
    then record o { classify = true }
    else if c == b'l'
    then record o { long = true }
    else o

-- Where the loops stand: at the test of the outer one, in the letters, or in the spaces.
pub data Place : Type 0 where
  start letters spaces : Place

-- The options, and the text that `pszArg` points to behind them.
unfoldable pub list_options : Place → ListOptions → WString → ListOptions × WString
list_options at o [] = (o, [])
list_options start o (c ∷ cs) =
    let option = list_options letters o cs in if c == b'-' then option else (o, c ∷ cs)
list_options letters o (c ∷ cs) =
    let more = list_options letters (set_option c o) cs in
    let skipped = list_options spaces o cs in
    let option = list_options letters o cs in
    if is_alnum c
    then more
    else if is_space c
    then skipped
    else if c == b'-'
    then option
    else (o, c ∷ cs)
list_options spaces o (c ∷ cs) =
    let skipped = list_options spaces o cs in
    let option = list_options letters o cs in
    if is_space c then skipped else if c == b'-' then option else (o, c ∷ cs)

two_options :
    list_options start no_options (lit "-a -lF pub")
    ≡ (record { all = true; directory = false; classify = true; long = true }, lit "pub")
unfolding list_options lit
two_options = refl
