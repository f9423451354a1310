-- ===== src/Request/Head.antt =====
-- request.rs: `Request::write_header`.
use reqwless.Base.{
  ℕ, ◌==◌, Bool, false, not, List, [], ◌∷◌, ◌++◌, Bytes, is_empty, if◌then◌else◌, Option, none,
  some,
}
use reqwless.Base.{Io, ◌>>=◌, ◌>>◌, pure, lift, zoom_err, ok_or}
use reqwless.Base.Words.{Target, bits}
use reqwless.Errors.{Error, from_kind}
use reqwless.Connection.{Write}
use reqwless.Text.Decimal.{decimal}
use reqwless.Headers.{text, content_type_as_str}
use reqwless.Request.Body.{RequestBody}
use reqwless.Request.{Request, Auth, as_str}

-- `heapless::String<N>` and the crate `base64`: `none` where the result does not fit.
pub record Encoders : Type 0 where
  -- `write!` to an empty string of that capacity
  pub write_string : ℕ → Bytes → Option Bytes
  -- `STANDARD.encode_slice` into a slice of that length
  pub encode_slice : Bytes → ℕ → Option Bytes

-- `str::trim_end_matches('/')`
unfoldable pub trim_end : Bytes → Bytes
trim_end [] = []
trim_end (b ∷ bs) =
    let rest = trim_end bs in if is_empty rest then (if b == b'/' then [] else b ∷ []) else b ∷ rest

-- `str::starts_with('/')`
abbrev pub starts_with_slash : Bytes → Bool
starts_with_slash [] = false
starts_with_slash (b ∷ bs) = b == b'/'

module _ {C : Type 0} (c : Write C) where
  -- The connection's error is read at its kind, which `?` turns into an `Error`.
  unfoldable pub write_str : Bytes → Io C Error (Unit {0})
  write_str bytes = zoom_err (λ s. s) (λ _ s. s) from_kind (c.write_all bytes)

  -- `write_header(c, key, value)`
  unfoldable pub write_field : Bytes → Bytes → Io C Error (Unit {0})
  write_field key value = do
    write_str key
    write_str (text ": ")
    write_str value
    write_str (text "\r\n")

  unfoldable pub write_option :
      {A : Type 0} → (A → Io C Error (Unit {0})) → Option A → Io C Error (Unit {0})
  write_option f none = pure tt
  write_option f (some a) = f a

  unfoldable pub write_fields : List (Bytes × Bytes) → Io C Error (Unit {0})
  write_fields [] = pure tt
  write_fields ((key, value) ∷ fields) = do write_field key value; write_fields fields

  -- The base path without its trailing slashes, and a slash if the path has none.
  unfoldable pub write_base : Bytes → Bytes → Io C Error (Unit {0})
  write_base path base = do
    write_str (trim_end base)
    if not (starts_with_slash path) then write_str (text "/") else pure tt

  unfoldable pub write_auth : Encoders → Auth → Io C Error (Unit {0})
  write_auth e (Auth.basic username password) = do
    combined ← lift (ok_or (e.write_string 128 (username ++ (text ":" ++ password))) Error.codec)
    authz ← lift (ok_or (e.encode_slice combined 256) Error.codec)
    write_str (text "Authorization: Basic ")
    write_str authz
    write_str (text "\r\n")

  unfoldable pub write_body_fields : Target → Encoders → Option ℕ → Io C Error (Unit {0})
  write_body_fields t e (some len) = do
    s ← lift (ok_or (e.write_string 32 (decimal (bits t) len)) Error.codec)
    write_field (text "Content-Length") s
  write_body_fields t e none = write_field (text "Transfer-Encoding") (text "chunked")

  unfoldable pub write_header :
      {B : Type 0} → Target → Encoders → RequestBody B → Request B → Io C Error (Unit {0})
  write_header t e b self = do
    write_str (as_str self.method)
    write_str (text " ")
    write_option (write_base self.path) self.base_path
    write_str self.path
    write_str (text " HTTP/1.1\r\n")
    write_option (write_auth e) self.auth
    write_option (write_field (text "Host")) self.host
    write_option (λ k. write_field (text "Content-Type") (content_type_as_str k)) self.content_type
    write_option (λ k. write_field (text "Accept") (content_type_as_str k)) self.accept
    write_option (λ body. write_body_fields t e (b.len body)) self.body
    write_option write_fields self.extra_headers
    write_str (text "\r\n")
