-- ===== src/Platform.antt =====
-- What the program takes from its compiler and from the character tables of its C++ library:
-- the conversions that jni/yftp/conversion.cpp calls, whether `char` is signed, and the two switches
-- of the build.
use yftpserver.Conversion.{CLibrary}
use yftpserver.Prelude.{
  true, take, WString, Bytes, ◌≡◌, ◌<◌, Bool, false, true, ◌&&◌, Option, none, some, if◌then◌else◌,
  ltb, All, [], ◌∷◌, refl, arith,
}

pub record Platform : Type 0 where
  -- `wstring_convert::to_bytes`, on texts that have an encoding.
  pub ws2utf8 : WString → Bytes
  -- `wstring_convert::from_bytes`; `none` is the `std::range_error` that it throws.
  pub utf82ws : Bytes → Option WString
  -- What `ws2s` and `s2ws` call. Their locale "chs" is there and takes at most two bytes a character.
  pub c_library : CLibrary
  -- Whether plain `char` is a signed type.
  pub char_is_signed : Bool
  -- Whether the build defines `SERVER_APP`, and whether `ftp_server::ssl_context()` is set.
  pub server_app : Bool
  pub ssl_context : Bool

-- UTF-8 encodes each ASCII character as the one byte of its number.
pub record ReadsAscii (p : Platform) : Type 0 where
  pub utf82ws_ascii : (s : Bytes) → All (λ c. c < 128) s → p.utf82ws s ≡ some s

-- A platform that knows ASCII only.
abbrev pub is_ascii : Bytes → Bool
is_ascii [] = true
is_ascii (c ∷ cs) = ltb c 128 && is_ascii cs

-- A C library whose every locale has one byte for a character.
abbrev pub byte_library : CLibrary
byte_library = record {
  available = λ name. true;
  wcstombs = λ locale size ws. take size ws;
  mbstowcs = λ locale size s. take size s;
}

abbrev pub ascii_only : Bool → Platform
ascii_only signed = record {
  ws2utf8 = λ s. s;
  utf82ws = λ s. if is_ascii s then some s else none;
  c_library = byte_library;
  char_is_signed = signed;
  server_app = false;
  ssl_context = false;
}

is_ascii_of_All : (s : Bytes) → All (λ c. c < 128) s → is_ascii s ≡ true
is_ascii_of_All [] h = refl
is_ascii_of_All (c ∷ cs) h = ground (arith, is_ascii_of_All cs h.1)

pub ascii_only-ReadsAscii : (signed : Bool) → ReadsAscii (ascii_only signed)
ascii_only-ReadsAscii signed = record { utf82ws_ascii = λ s h. ground (arith, is_ascii_of_All s h) }
