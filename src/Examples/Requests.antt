-- ===== src/Examples/Requests.antt =====
-- A request's head on concrete input, with a string buffer and the base64 alphabet.
use reqwless.Base.{ℕ, ◌+◌, ◌*◌, ◌/◌, ◌%◌, ◌≡◌, refl, arith, [], ◌∷◌, some, none}
use reqwless.Base.{Bytes, length, get_elem?, leb, le→leb, if◌then◌else◌, unwrap_or}
use reqwless.Connection.Puts.{Puts}
use reqwless.Headers.{text, ContentType, content_type_as_str}
use reqwless.Request.{Request, as_str}
use reqwless.Request.Body.{slice_body}
use reqwless.Request.Builder
use reqwless.Request.Head.{Encoders, write_header}
use reqwless.Text.Decimal.{decimal}
use reqwless.Request.Laws.{IsEncoders, head}
use reqwless.Request.Wire.{write_header-Puts}
use reqwless.Examples.{thumb, wire_io, wire_io-IsWrite}

abbrev sextet : ℕ → ℕ
sextet n =
    unwrap_or
      (get_elem? (text "ABCDEFGHIJKLMNOPQRSTUVWXYZabcdefghijklmnopqrstuvwxyz0123456789+/") n) 0

abbrev pub base64 : Bytes → Bytes
base64 [] = []
base64 (a ∷ []) = sextet (a / 4) ∷ sextet (a % 4 * 16) ∷ b'=' ∷ b'=' ∷ []
base64 (a ∷ b ∷ []) =
    sextet (a / 4) ∷ sextet (a % 4 * 16 + b / 16) ∷ sextet (b % 16 * 4) ∷ b'=' ∷ []
base64 (a ∷ b ∷ c ∷ rest) =
    sextet (a / 4)
    ∷ sextet (a % 4 * 16 + b / 16)
    ∷ sextet (b % 16 * 4 + c / 64)
    ∷ sextet (c % 64)
    ∷ base64 rest

length-base64_crate : (s : Bytes) → length (base64 s) ≡ 4 * ((length s + 2) / 3)
length-base64_crate [] = omega arith
length-base64_crate (a ∷ []) = omega arith
length-base64_crate (a ∷ b ∷ []) = omega arith
length-base64_crate (a ∷ b ∷ c ∷ rest) = omega (arith, length-base64_crate rest)

abbrev pub encoders : Encoders
encoders = record {
  write_string = λ n s. if leb (length s) n then some s else none;
  encode_slice = λ s n. if leb (length (base64 s)) n then some (base64 s) else none;
}

pub encoders-IsEncoders : IsEncoders encoders base64
encoders-IsEncoders = record {
  write_string_lem = λ n s le. rw (le→leb (length s) n le);
  length-base64 = length-base64_crate;
  encode_slice_lem = λ s n le. rw (le→leb (length (base64 s)) n le);
}

abbrev login : Request Bytes
unfolding Builder.new Builder.body Builder.basic_auth Builder.host Builder.content_type
login =
    Builder.content_type
      (Builder.host
        (Builder.basic_auth (Builder.body (Builder.post (text "/login")) (1 ∷ 2 ∷ 3 ∷ []))
          (text "user") (text "pass"))
        (text "example.com"))
      ContentType.text_plain

write_header-Puts_example :
    Puts
      (λ c. c)
      (write_header wire_io thumb encoders slice_body login)
      (head thumb base64 slice_body login)
unfolding login
write_header-Puts_example =
    write_header-Puts wire_io (λ c. c) wire_io-IsWrite thumb encoders base64 encoders-IsEncoders
      slice_body login (omega arith) (omega arith)

login-head :
    head thumb base64 slice_body login
    ≡ text
        "POST /login HTTP/1.1\r\nAuthorization: Basic dXNlcjpwYXNz\r\nHost: example.com\r\nContent-Type: text/plain\r\nContent-Length: 3\r\n\r\n"
unfolding as_str login content_type_as_str decimal
login-head = refl
