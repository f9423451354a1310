-- ===== src/Request/Laws.antt =====
-- What `write_header` puts on the wire: the specification of a request's head.
use reqwless.Base.{
  ℕ, zero, suc, ◌+◌, ◌*◌, ◌/◌, ◌%◌, ◌^◌, ◌≤◌, ◌<◌, ◌≡◌, not, inl, inr, List, [], ◌∷◌, ◌++◌, arith,
  Option, none, some,
}
use reqwless.Base.{Bytes, length, length-append, ltb, lt→ltb, Bool-cases, if◌then◌else◌}
use reqwless.Base.Words.{Target, bits}
use reqwless.Headers.{text, content_type_as_str}
use reqwless.Request.{Request, Auth, as_str}
use reqwless.Request.Body.{RequestBody}
use reqwless.Request.Head.{Encoders, trim_end, starts_with_slash}
use reqwless.Text.Decimal.{decimal}
use native.Mathlib.Nat.{pow-suc}

-- What the two crates document: a string is kept if it fits, and the text of a slice likewise.
pub record IsEncoders (e : Encoders) (base64 : Bytes → Bytes) : Type 0 where
  pub write_string_lem : (n : ℕ) (s : Bytes) → length s ≤ n → e.write_string n s ≡ some s
  pub length-base64 : (s : Bytes) → length (base64 s) ≡ 4 * ((length s + 2) / 3)
  pub encode_slice_lem :
      (s : Bytes) (n : ℕ) → length (base64 s) ≤ n → e.encode_slice s n ≡ some (base64 s)

pub decimal_short : (k j n : ℕ) → n < 10 ^ suc j → length (decimal k n) ≤ suc j
unfolding decimal
decimal_short zero j n h = omega arith
decimal_short (suc k) zero n h =
    let small : n < 10 = omega arith in rw (lt→ltb n 10 small) (omega arith)
decimal_short (suc k) (suc j) n h = elim (Bool-cases (ltb n 10)) [
  | inl small ↦ rw small (omega arith)
  | inr large ↦ rw large (
      omega (
        arith,
        length-append (decimal k (n / 10)) ((b'0' + n % 10) ∷ []),
        decimal_short k j (n / 10) (omega (arith, h, pow-suc 10 (suc j))),
      ))
]

-- The parts of the head.
abbrev pub field : Bytes → Bytes → Bytes
field key value = key ++ (text ": " ++ (value ++ text "\r\n"))

abbrev pub fields : List (Bytes × Bytes) → Bytes
fields [] = []
fields ((key, value) ∷ rest) = field key value ++ fields rest

abbrev pub optional : {A : Type 0} → (A → Bytes) → Option A → Bytes
optional f none = []
optional f (some a) = f a

-- A path behind a base path gets exactly one slash in between, if the path has one at most.
abbrev pub base : Bytes → Bytes → Bytes
base path dir = trim_end dir ++ (if not (starts_with_slash path) then text "/" else [])

abbrev pub credentials : Auth → Bytes
credentials (Auth.basic username password) = username ++ (text ":" ++ password)

abbrev pub authorization : (Bytes → Bytes) → Auth → Bytes
authorization base64 auth =
    text "Authorization: Basic " ++ (base64 (credentials auth) ++ text "\r\n")

abbrev pub body_field : Target → Option ℕ → Bytes
body_field t (some len) = field (text "Content-Length") (decimal (bits t) len)
body_field t none = field (text "Transfer-Encoding") (text "chunked")

abbrev pub head : {B : Type 0} → Target → (Bytes → Bytes) → RequestBody B → Request B → Bytes
head t base64 b self =
    as_str self.method
    ++ (text " "
        ++ (optional (base self.path) self.base_path
            ++ (self.path
                ++ (text " HTTP/1.1\r\n"
                    ++ (optional (authorization base64) self.auth
                        ++ (optional (field (text "Host")) self.host
                            ++ (optional (λ k. field (text "Content-Type") (content_type_as_str k))
                                  self.content_type
                                ++ (optional (λ k. field (text "Accept") (content_type_as_str k))
                                      self.accept
                                    ++ (optional (λ body. body_field t (b.len body)) self.body
                                        ++ (optional fields self.extra_headers
                                            ++ text "\r\n"))))))))))

-- What must fit the fixed buffers: the credentials, and the length of the body.
abbrev pub Fits : {A : Type 0} → (A → Type 0) → Option A → Type 0
Fits P none = Unit {0}
Fits P (some a) = P a
