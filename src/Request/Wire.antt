-- ===== src/Request/Wire.antt =====
-- `write_header` writes the head of the request, and nothing else.
use reqwless.Base.{
  ℕ, ◌^◌, ◌≤◌, ◌<◌, Bool, true, false, not, List, [], ◌∷◌, ◌++◌, arith, Option, none, some,
}
use reqwless.Base.{Bytes, length, if◌then◌else◌}
use reqwless.Base.{Io, ends_ok, ends_err, pure}
use reqwless.Base.Words.{Target, bits}
use reqwless.Errors.{Error}
use reqwless.Connection.{Write, IsWrite}
use reqwless.Connection.Puts.{Puts, Puts->>, Puts-pure, Puts-write_all}
use Prim.Native.String.{String}
use reqwless.Headers.{text, ContentType, content_type_as_str}
use reqwless.Text.Decimal.{decimal}
use reqwless.Request.{Request, Auth, as_str}
use reqwless.Request.Body.{RequestBody}
use reqwless.Request.Head.{
  Encoders, trim_end, starts_with_slash, write_str, write_field, write_option, write_fields,
  write_base, write_auth, write_body_fields, write_header,
}
use reqwless.Request.Laws.{
  IsEncoders, decimal_short, field, fields, optional, base, credentials, authorization, body_field,
  head, Fits,
}

-- The credentials fit the string of 128 bytes.
abbrev pub ShortAuth : Auth → Type 0
ShortAuth auth = length (credentials auth) ≤ 128

-- The length is a `usize` of no more than 64 bits.
abbrev pub ShortLength : Option ℕ → Type 0
ShortLength = Fits (λ n. n < 2 ^ 64)

any : {A : Type 0} (o : Option A) → Fits (λ _. Unit {0}) o
any none = tt
any (some a) = tt

abbrev type_field : String → ContentType → Bytes
type_field name k = field (text name) (content_type_as_str k)

module _ {C : Type 0} (c : Write C) (sent : C → Bytes) (law : IsWrite c sent) where
  write_str-Puts : (bs : Bytes) → Puts sent (write_str c bs) bs
  unfolding write_str
  write_str-Puts bs s = elim (Puts-write_all c sent law bs s) [
    | ends_ok _ s' e h ↦ ends_ok tt s' (rw e) h
    | ends_err x s' e h ↦ ends_err (Error.network x) s' (rw e) h
  ]

  write_field-Puts : (key value : Bytes) → Puts sent (write_field c key value) (field key value)
  unfolding write_field
  write_field-Puts key value =
      Puts->> sent _ _ key (text ": " ++ (value ++ text "\r\n")) (write_str-Puts key) (
        Puts->> sent _ _ (text ": ") (value ++ text "\r\n") (write_str-Puts (text ": ")) (
          Puts->> sent _ _ value (text "\r\n") (write_str-Puts value)
            (write_str-Puts (text "\r\n"))))

  write_option-Puts :
      {A : Type 0} (f : A → Io C Error (Unit {0})) (g : A → Bytes) (P : A → Type 0)
      → ((a : A) → P a → Puts sent (f a) (g a))
      → (o : Option A) → Fits P o
      → Puts sent (write_option c f o) (optional g o)
  unfolding write_option
  write_option-Puts f g P h none fit = Puts-pure sent
  write_option-Puts f g P h (some a) fit = h a fit

  write_fields-Puts : (fs : List (Bytes × Bytes)) → Puts sent (write_fields c fs) (fields fs)
  unfolding write_fields
  write_fields-Puts [] = Puts-pure sent
  write_fields-Puts ((key, value) ∷ fs) =
      Puts->> sent _ _ (field key value) (fields fs) (write_field-Puts key value)
        (write_fields-Puts fs)

  slash-Puts :
      (b : Bool)
      → Puts sent
          (if b then write_str c (text "/") else pure {E = Error} tt)
          (if b then text "/" else [])
  slash-Puts true = write_str-Puts (text "/")
  slash-Puts false = Puts-pure sent

  write_base-Puts : (path dir : Bytes) → Puts sent (write_base c path dir) (base path dir)
  unfolding write_base
  write_base-Puts path dir =
      Puts->> sent _ _ (trim_end dir) (if not (starts_with_slash path) then text "/" else [])
        (write_str-Puts (trim_end dir)) (slash-Puts (not (starts_with_slash path)))

  type_field-Puts :
      (name : String) (k : Option ContentType)
      → Puts sent
          (write_option c (λ k. write_field c (text name) (content_type_as_str k)) k)
          (optional (type_field name) k)
  type_field-Puts name k =
      write_option-Puts (λ k. write_field c (text name) (content_type_as_str k)) (type_field name)
        (λ _. Unit {0}) (λ k _. write_field-Puts (text name) (content_type_as_str k)) k (any k)

  module _ (t : Target) (e : Encoders) (base64 : Bytes → Bytes) (enc : IsEncoders e base64) where
    write_auth-Puts :
        (auth : Auth) → ShortAuth auth → Puts sent (write_auth c e auth) (authorization base64 auth)
    unfolding write_auth
    write_auth-Puts (Auth.basic username password) fit s =
        let combined = credentials (Auth.basic username password) in
        rw
          (
            enc.write_string_lem 128 combined fit,
            enc.encode_slice_lem combined 256 (omega (arith, fit, enc.length-base64 combined)),
          )
          (Puts->> sent _ _ (text "Authorization: Basic ") (base64 combined ++ text "\r\n")
            (write_str-Puts (text "Authorization: Basic "))
            (Puts->> sent _ _ (base64 combined) (text "\r\n") (write_str-Puts (base64 combined))
              (write_str-Puts (text "\r\n")))
            s)

    write_body_fields-Puts :
        (len : Option ℕ)
        → ShortLength len
        → Puts sent (write_body_fields c t e len) (body_field t len)
    unfolding write_body_fields
    write_body_fields-Puts none fit s =
        write_field-Puts (text "Transfer-Encoding") (text "chunked") s
    write_body_fields-Puts (some n) fit s =
        let big : (2 ^ 64) ≤ 10 ^ 20 = omega arith in
        rw
          (enc.write_string_lem 32 (decimal (bits t) n)
            (omega (arith, decimal_short (bits t) 19 n (omega (arith, fit, big)))))
          (write_field-Puts (text "Content-Length") (decimal (bits t) n) s)

    -- `write_header` hands over exactly the head of the request, if its credentials and the length
    -- of its body fit their buffers; where the connection fails, it has handed over a front of it.
    pub write_header-Puts :
        {B : Type 0} (b : RequestBody B) (self : Request B)
        → Fits ShortAuth self.auth
        → Fits (λ body. ShortLength (b.len body)) self.body
        → Puts sent (write_header c t e b self) (head t base64 b self)
    unfolding write_header
    write_header-Puts b self auth len =
        Puts->> sent _ _ (as_str self.method) _ (write_str-Puts (as_str self.method)) (
          Puts->> sent _ _ (text " ") _ (write_str-Puts (text " ")) (
            Puts->> sent _ _ (optional (base self.path) self.base_path) _
              (write_option-Puts (write_base c self.path) (base self.path) (λ _. Unit {0})
                (λ dir _. write_base-Puts self.path dir) self.base_path (any self.base_path))
              (Puts->> sent _ _ self.path _ (write_str-Puts self.path) (
                Puts->> sent _ _ (text " HTTP/1.1\r\n") _ (write_str-Puts (text " HTTP/1.1\r\n")) (
                  Puts->> sent _ _ (optional (authorization base64) self.auth) _
                    (write_option-Puts (write_auth c e) (authorization base64) ShortAuth
                      write_auth-Puts self.auth auth)
                    (Puts->> sent _ _ (optional (field (text "Host")) self.host) _
                      (write_option-Puts (write_field c (text "Host")) (field (text "Host"))
                        (λ _. Unit {0}) (λ v _. write_field-Puts (text "Host") v) self.host
                        (any self.host))
                      (Puts->> sent _ _ (optional (type_field "Content-Type") self.content_type) _
                        (type_field-Puts "Content-Type" self.content_type)
                        (Puts->> sent _ _ (optional (type_field "Accept") self.accept) _
                          (type_field-Puts "Accept" self.accept)
                          (Puts->> sent _ _ (optional (λ body. body_field t (b.len body)) self.body)
                            _
                            (write_option-Puts (λ body. write_body_fields c t e (b.len body))
                              (λ body. body_field t (b.len body)) (λ body. ShortLength (b.len body))
                              (λ body fit. write_body_fields-Puts (b.len body) fit) self.body len)
                            (Puts->> sent _ _ (optional fields self.extra_headers) (text "\r\n")
                              (write_option-Puts (write_fields c) fields (λ _. Unit {0})
                                (λ fs _. write_fields-Puts fs) self.extra_headers
                                (any self.extra_headers))
                              (write_str-Puts (text "\r\n"))))))))))))
