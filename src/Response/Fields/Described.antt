-- ===== src/Response/Fields/Described.antt =====
-- response/mod.rs: what the known fields of a response are, told by all the headers at once.
use reqwless.Base.{
  ℕ, ◌≡◌, refl, ap, ◌∙◌, true, false, List, [], ◌∷◌, ◌++◌, Bytes, map, bytes_eq, Option, some, ok,
  if◌then◌else◌,
}
use reqwless.Base.Words.{Target}
use reqwless.Text.{text, eq_ignore_ascii_case, to_ascii_lowercase}
use reqwless.Text.Utf8.{from_utf8}
use reqwless.Headers.{from, TransferEncoding, try_from}
use reqwless.Headers.Laws.{bytes_eq-true}
use reqwless.Headers.KeepAlive.{KeepAlive, Utf8Error}
use reqwless.Headers.KeepAlive
use reqwless.Response.Fields.{Fields, Push, usize_of}

-- The values of the headers of that name, in whatever case, in their order.
unfoldable pub values : Bytes → List (Bytes × Bytes) → List Bytes
values name [] = []
values name ((other, value) ∷ headers) =
    let rest = values name headers in if eq_ignore_ascii_case other name then value ∷ rest else rest

-- The last of them, or what was there before.
abbrev pub latest : {A : Type 0} → Option A → List A → Option A
latest before [] = before
latest before (x ∷ xs) = latest (some x) xs

-- The fields `result` are those of the headers, over what `start` holds: the last content type, the
-- last length, all transfer encodings and the last keep-alive. All values of the latter three were
-- read without an error.
pub record Describes (t : Target) (headers : List (Bytes × Bytes)) (start result : Fields)
    : Type 0 where
  pub type_eq :
      result.content_type
      ≡ latest start.content_type (map from (values (text "content-type") headers))
  pub lengths : List ℕ
  pub lengths_eq :
      map (λ v. usize_of t (from_utf8 v)) (values (text "content-length") headers)
      ≡ map (λ n. some n) lengths
  pub length_eq : result.content_length ≡ latest start.content_length lengths
  pub encodings : List TransferEncoding
  pub encodings_eq :
      map try_from (values (text "transfer-encoding") headers) ≡ map (λ e. some e) encodings
  pub encoding_eq : result.transfer_encoding ≡ start.transfer_encoding ++ encodings
  pub keep_alives : List KeepAlive
  pub keep_alives_eq :
      map KeepAlive.try_from (values (text "keep-alive") headers) ≡ map (λ k. ok k) keep_alives
  pub keep_alive_eq : result.keep_alive ≡ latest start.keep_alive keep_alives

-- `push` of `heapless` appends.
abbrev pub IsPush : Push → Type 0
IsPush push =
    (es es' : List TransferEncoding) (e : TransferEncoding)
    → push es e ≡ some es'
    → es' ≡ es ++ (e ∷ [])

module _ (name value key : Bytes) (headers : List (Bytes × Bytes)) where
  pub values-hit :
      eq_ignore_ascii_case name key ≡ true
      → values key ((name, value) ∷ headers) ≡ value ∷ values key headers
  unfolding values
  values-hit e = rw e refl

  pub values-miss :
      eq_ignore_ascii_case name key ≡ false
      → values key ((name, value) ∷ headers) ≡ values key headers
  unfolding values
  values-miss e = rw e refl

-- A name that is the one is not the other.
pub other_name :
    (name key other : Bytes)
    → eq_ignore_ascii_case key other ≡ false
    → eq_ignore_ascii_case name key ≡ true
    → eq_ignore_ascii_case name other ≡ false
unfolding eq_ignore_ascii_case
other_name name key other apart e =
    ap (λ z. bytes_eq z (map to_ascii_lowercase other))
      (bytes_eq-true (map to_ascii_lowercase name) (map to_ascii_lowercase key) e)
    ∙ apart

pub type_length : eq_ignore_ascii_case (text "content-type") (text "content-length") ≡ false
unfolding eq_ignore_ascii_case to_ascii_lowercase
type_length = refl

pub type_encoding : eq_ignore_ascii_case (text "content-type") (text "transfer-encoding") ≡ false
unfolding eq_ignore_ascii_case to_ascii_lowercase
type_encoding = refl

pub type_keep_alive : eq_ignore_ascii_case (text "content-type") (text "keep-alive") ≡ false
unfolding eq_ignore_ascii_case to_ascii_lowercase
type_keep_alive = refl

pub length_encoding :
    eq_ignore_ascii_case (text "content-length") (text "transfer-encoding") ≡ false
unfolding eq_ignore_ascii_case to_ascii_lowercase
length_encoding = refl

pub length_keep_alive : eq_ignore_ascii_case (text "content-length") (text "keep-alive") ≡ false
unfolding eq_ignore_ascii_case to_ascii_lowercase
length_keep_alive = refl

pub encoding_keep_alive :
    eq_ignore_ascii_case (text "transfer-encoding") (text "keep-alive") ≡ false
unfolding eq_ignore_ascii_case to_ascii_lowercase
encoding_keep_alive = refl
