-- ===== src/Reply.antt =====
-- jni/yftp/reply.h: the reply to a command, a code and the bytes to send.
use yftpserver.Prelude.{
  ℕ, zero, suc, ◌+◌, ◌/◌, ◌%◌, WString, Bytes, Bool, [], ◌∷◌, ◌++◌, if◌then◌else◌, ltb, is_empty,
}
use yftpserver.Platform.{Platform}
use yftpserver.Conversion.{ws2s_result}

pub data CodeType : Type 0 where
  utf8 gbk : CodeType

pub record Reply : Type 0 where
  pub code : ℕ
  pub content : Bytes
  pub code_type : CodeType

-- `%d` of a number that is not negative, with more fuel than it has digits.
unfoldable pub decimal_digits : ℕ → ℕ → Bytes
decimal_digits zero n = []
decimal_digits (suc f) n =
    let front = decimal_digits f (n / 10) in
    if ltb n 10 then (b'0' + n) ∷ [] else front ++ (b'0' + n % 10) ∷ []

unfoldable pub decimal : ℕ → Bytes
decimal n = decimal_digits (suc n) n

abbrev pub new_reply : Reply
new_reply = record { code = 0; content = []; code_type = CodeType.utf8 }

module _ ⦃p : Platform⦄ where
  unfoldable pub encode : CodeType → WString → Bytes
  encode CodeType.gbk text = ws2s_result p.c_library text
  encode CodeType.utf8 text = p.ws2utf8 text

  unfoldable pub create_as : ℕ → WString → CodeType → Reply → Reply
  create_as code text code_type r =
      let content = encode code_type text in
      record {
        code = code;
        content =
            if ltb 0 code then decimal code ++ b' ' ∷ (content ++ b'\r' ∷ b'\n' ∷ []) else content;
        code_type = code_type;
      }

  unfoldable pub create : ℕ → WString → Reply → Reply
  create code text r = create_as code text r.code_type r

abbrev pub clear : Reply → Reply
clear r = record r { content = [] }

abbrev pub empty : Reply → Bool
empty r = is_empty r.content

abbrev pub set_code_type : CodeType → Reply → Reply
set_code_type t r = record r { code_type = t }
