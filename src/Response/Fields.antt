-- ===== src/Response/Fields.antt =====
-- response/mod.rs: the header fields that `Response::read` looks at.
pub mod Laws
pub mod Described
pub mod Reading
use reqwless.Base.{
  ℕ, ◌+◌, ◌^◌, List, [], ◌∷◌, Bytes, Option, none, some, Outcome, ok, err, panic, if◌then◌else◌,
}
use reqwless.Base.Words.{Target, bits}
use reqwless.Errors.{Error}
use reqwless.Text.{text, eq_ignore_ascii_case}
use reqwless.Text.Utf8.{from_utf8}
use reqwless.Text.Decimal.{parse_unsigned}
use reqwless.Headers.{ContentType, from, TransferEncoding, try_from}
use reqwless.Headers.KeepAlive.{KeepAlive, Utf8Error}
use reqwless.Headers.KeepAlive

pub record Fields : Type 0 where
  pub content_type : Option ContentType
  pub content_length : Option ℕ
  pub transfer_encoding : List TransferEncoding
  pub keep_alive : Option KeepAlive

-- `push` of the crate `heapless` on a vector of four elements at most; `none` where it is full.
abbrev pub Push : Type 0
Push = List TransferEncoding → TransferEncoding → Option (List TransferEncoding)

abbrev pub no_fields : Fields
no_fields = record {
  content_type = none;
  content_length = none;
  transfer_encoding = [];
  keep_alive = none;
}

-- What is no number of a `usize` is an error.
abbrev pub usize_of : Target → Option (List ℕ) → Option ℕ
usize_of t none = none
usize_of t (some s) = parse_unsigned (2 ^ bits t) s

abbrev pub set_length : Option ℕ → Fields → Outcome Error Fields
set_length none fields = err Error.codec
set_length (some n) fields = ok (record fields { content_length = some n })

abbrev pub pushed : Option (List TransferEncoding) → Fields → Outcome Error Fields
pushed none fields = err Error.codec
pushed (some encodings) fields = ok (record fields { transfer_encoding = encodings })

abbrev pub push_encoding : Push → Option TransferEncoding → Fields → Outcome Error Fields
push_encoding push none fields = err Error.codec
push_encoding push (some e) fields = pushed (push fields.transfer_encoding e) fields

abbrev pub set_keep_alive : Outcome Utf8Error KeepAlive → Fields → Outcome Error Fields
set_keep_alive (ok k) fields = ok (record fields { keep_alive = some k })
set_keep_alive (err _) fields = err Error.codec
set_keep_alive panic fields = panic

-- A round of the loop over the headers.
unfoldable pub read_field : Target → Push → Bytes → Bytes → Fields → Outcome Error Fields
read_field t push name value fields =
    if eq_ignore_ascii_case name (text "content-type")
    then ok (record fields { content_type = some (from value) })
    else if eq_ignore_ascii_case name (text "content-length")
    then set_length (usize_of t (from_utf8 value)) fields
    else if eq_ignore_ascii_case name (text "transfer-encoding")
    then push_encoding push (try_from value) fields
    else if eq_ignore_ascii_case name (text "keep-alive")
    then set_keep_alive (KeepAlive.try_from value) fields
    else ok fields

abbrev pub next_field : {E A B : Type 0} → Outcome E A → (A → Outcome E B) → Outcome E B
next_field (ok a) f = f a
next_field (err e) f = err e
next_field panic f = panic

-- The loop over the headers, which ends with the first error.
unfoldable pub read_fields : Target → Push → List (Bytes × Bytes) → Fields → Outcome Error Fields
read_fields t push [] fields = ok fields
read_fields t push ((name, value) ∷ headers) fields =
    next_field (read_field t push name value fields) (read_fields t push headers)
