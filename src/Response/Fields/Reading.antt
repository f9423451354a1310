-- ===== src/Response/Fields/Reading.antt =====
-- response/mod.rs: the loop over the headers reads the fields that they describe.
use reqwless.Base.{
  ℕ, ◌≡◌, refl, sym, ap, ◌∙◌, subst, Bool-cases, true, false, inl, inr, List, [], ◌∷◌, ◌++◌,
  append_assoc, append-nil, Bytes, Option, none, some, Outcome, ok, err, panic,
}
use reqwless.Base.Words.{Target}
use reqwless.Errors.{Error}
use reqwless.Text.{text, eq_ignore_ascii_case}
use reqwless.Text.Utf8.{from_utf8}
use reqwless.Headers.{from, TransferEncoding, try_from}
use reqwless.Headers.KeepAlive.{KeepAlive, Utf8Error}
use reqwless.Headers.KeepAlive
use reqwless.Response.Fields.{
  Fields, Push, read_field, read_fields, next_field, set_length, usize_of, push_encoding, pushed,
  set_keep_alive,
}
use reqwless.Response.Fields.Described.{
  Describes, IsPush, values, values-hit, values-miss, other_name, type_length, type_encoding,
  type_keep_alive, length_encoding, length_keep_alive, encoding_keep_alive,
}

module _ (t : Target) (push : Push) (is_push : IsPush push) (name value : Bytes)
    (headers : List (Bytes × Bytes)) (result : Fields) where
  abbrev Rest : Fields → Type 0
  Rest start = Describes t headers start result

  abbrev Whole : Fields → Type 0
  Whole start = Describes t ((name, value) ∷ headers) start result

  abbrev Continues : Type 0
  Continues = (start : Fields) → read_fields t push headers start ≡ ok result → Rest start

  -- The loop goes on with the fields that the header left, or has ended.
  abbrev After : Outcome Error Fields → Type 0
  After r = next_field r (read_fields t push headers) ≡ ok result

  abbrev Is : Bytes → Type 0
  Is key = eq_ignore_ascii_case name key ≡ true

  abbrev IsNot : Bytes → Type 0
  IsNot key = eq_ignore_ascii_case name key ≡ false

  describe_type :
      (start : Fields)
      → Is (text "content-type")
      → Rest (record start { content_type = some (from value) })
      → Whole start
  describe_type start is d =
      let miss = λ (key : Bytes) (apart : eq_ignore_ascii_case (text "content-type") key ≡ false).
        values-miss name value key headers (other_name name (text "content-type") key apart is) in
      record {
        type_eq = rw (values-hit name value (text "content-type") headers is) d.type_eq;
        lengths = d.lengths;
        lengths_eq = rw (miss (text "content-length") type_length) d.lengths_eq;
        length_eq = d.length_eq;
        encodings = d.encodings;
        encodings_eq = rw (miss (text "transfer-encoding") type_encoding) d.encodings_eq;
        encoding_eq = d.encoding_eq;
        keep_alives = d.keep_alives;
        keep_alives_eq = rw (miss (text "keep-alive") type_keep_alive) d.keep_alives_eq;
        keep_alive_eq = d.keep_alive_eq;
      }

  describe_length :
      (start : Fields) (n : ℕ)
      → IsNot (text "content-type")
      → Is (text "content-length")
      → usize_of t (from_utf8 value) ≡ some n
      → Rest (record start { content_length = some n })
      → Whole start
  describe_length start n no_type is e d =
      let miss = λ (key : Bytes) (apart : eq_ignore_ascii_case (text "content-length") key ≡ false).
        values-miss name value key headers (other_name name (text "content-length") key apart is) in
      record {
        type_eq = rw (values-miss name value (text "content-type") headers no_type) d.type_eq;
        lengths = n ∷ d.lengths;
        lengths_eq =
            rw (values-hit name value (text "content-length") headers is, e)
              (ap (λ z. some n ∷ z) d.lengths_eq);
        length_eq = d.length_eq;
        encodings = d.encodings;
        encodings_eq = rw (miss (text "transfer-encoding") length_encoding) d.encodings_eq;
        encoding_eq = d.encoding_eq;
        keep_alives = d.keep_alives;
        keep_alives_eq = rw (miss (text "keep-alive") length_keep_alive) d.keep_alives_eq;
        keep_alive_eq = d.keep_alive_eq;
      }

  describe_encoding :
      (start : Fields) (e : TransferEncoding) (es : List TransferEncoding)
      → IsNot (text "content-type")
      → IsNot (text "content-length")
      → Is (text "transfer-encoding")
      → try_from value ≡ some e
      → push start.transfer_encoding e ≡ some es
      → Rest (record start { transfer_encoding = es })
      → Whole start
  describe_encoding start e es no_type no_length is read at d = record {
    type_eq = rw (values-miss name value (text "content-type") headers no_type) d.type_eq;
    lengths = d.lengths;
    lengths_eq = rw (values-miss name value (text "content-length") headers no_length) d.lengths_eq;
    length_eq = d.length_eq;
    encodings = e ∷ d.encodings;
    encodings_eq =
        rw (values-hit name value (text "transfer-encoding") headers is, read)
          (ap (λ z. some e ∷ z) d.encodings_eq);
    encoding_eq =
        d.encoding_eq
        ∙ ap (λ z. z ++ d.encodings) (is_push start.transfer_encoding es e at)
        ∙ append_assoc start.transfer_encoding (e ∷ []) d.encodings;
    keep_alives = d.keep_alives;
    keep_alives_eq =
        rw
          (values-miss name value (text "keep-alive") headers
            (other_name name (text "transfer-encoding") (text "keep-alive") encoding_keep_alive is))
          d.keep_alives_eq;
    keep_alive_eq = d.keep_alive_eq;
  }

  describe_keep_alive :
      (start : Fields) (k : KeepAlive)
      → IsNot (text "content-type")
      → IsNot (text "content-length")
      → IsNot (text "transfer-encoding")
      → Is (text "keep-alive")
      → KeepAlive.try_from value ≡ ok k
      → Rest (record start { keep_alive = some k })
      → Whole start
  describe_keep_alive start k no_type no_length no_encoding is read d = record {
    type_eq = rw (values-miss name value (text "content-type") headers no_type) d.type_eq;
    lengths = d.lengths;
    lengths_eq = rw (values-miss name value (text "content-length") headers no_length) d.lengths_eq;
    length_eq = d.length_eq;
    encodings = d.encodings;
    encodings_eq =
        rw (values-miss name value (text "transfer-encoding") headers no_encoding) d.encodings_eq;
    encoding_eq = d.encoding_eq;
    keep_alives = k ∷ d.keep_alives;
    keep_alives_eq =
        rw (values-hit name value (text "keep-alive") headers is, read)
          (ap (λ z. ok k ∷ z) d.keep_alives_eq);
    keep_alive_eq = d.keep_alive_eq;
  }

  describe_other :
      (start : Fields)
      → IsNot (text "content-type")
      → IsNot (text "content-length")
      → IsNot (text "transfer-encoding")
      → IsNot (text "keep-alive")
      → Rest start
      → Whole start
  describe_other start no_type no_length no_encoding no_keep_alive d = record {
    type_eq = rw (values-miss name value (text "content-type") headers no_type) d.type_eq;
    lengths = d.lengths;
    lengths_eq = rw (values-miss name value (text "content-length") headers no_length) d.lengths_eq;
    length_eq = d.length_eq;
    encodings = d.encodings;
    encodings_eq =
        rw (values-miss name value (text "transfer-encoding") headers no_encoding) d.encodings_eq;
    encoding_eq = d.encoding_eq;
    keep_alives = d.keep_alives;
    keep_alives_eq =
        rw (values-miss name value (text "keep-alive") headers no_keep_alive) d.keep_alives_eq;
    keep_alive_eq = d.keep_alive_eq;
  }

  length_step :
      (start : Fields) (o : Option ℕ)
      → IsNot (text "content-type")
      → Is (text "content-length")
      → usize_of t (from_utf8 value) ≡ o
      → Continues
      → After (set_length o start)
      → Whole start
  length_step start none no_type is e go a = cc
  length_step start (some n) no_type is e go a =
      describe_length start n no_type is e (go (record start { content_length = some n }) a)

  push_step :
      (start : Fields) (e : TransferEncoding) (p : Option (List TransferEncoding))
      → IsNot (text "content-type")
      → IsNot (text "content-length")
      → Is (text "transfer-encoding")
      → try_from value ≡ some e
      → push start.transfer_encoding e ≡ p
      → Continues
      → After (pushed p start)
      → Whole start
  push_step start e none no_type no_length is read at go a = cc
  push_step start e (some es) no_type no_length is read at go a =
      describe_encoding start e es no_type no_length is read at
        (go (record start { transfer_encoding = es }) a)

  encoding_step :
      (start : Fields) (o : Option TransferEncoding)
      → IsNot (text "content-type")
      → IsNot (text "content-length")
      → Is (text "transfer-encoding")
      → try_from value ≡ o
      → Continues
      → After (push_encoding push o start)
      → Whole start
  encoding_step start none no_type no_length is read go a = cc
  encoding_step start (some e) no_type no_length is read go a =
      push_step start e (push start.transfer_encoding e) no_type no_length is read refl go a

  keep_alive_step :
      (start : Fields) (o : Outcome Utf8Error KeepAlive)
      → IsNot (text "content-type")
      → IsNot (text "content-length")
      → IsNot (text "transfer-encoding")
      → Is (text "keep-alive")
      → KeepAlive.try_from value ≡ o
      → Continues
      → After (set_keep_alive o start)
      → Whole start
  keep_alive_step start (err x) no_type no_length no_encoding is read go a = cc
  keep_alive_step start panic no_type no_length no_encoding is read go a = cc
  keep_alive_step start (ok k) no_type no_length no_encoding is read go a =
      describe_keep_alive start k no_type no_length no_encoding is read
        (go (record start { keep_alive = some k }) a)

  field_step :
      (start : Fields) → Continues → After (read_field t push name value start) → Whole start
  unfolding read_field
  field_step start go = elim (Bool-cases (eq_ignore_ascii_case name (text "content-type"))) [
    | inl is ↦
        rw is
          (λ a. describe_type start is (go (record start { content_type = some (from value) }) a))
    | inr no_type ↦
        rw no_type (elim (Bool-cases (eq_ignore_ascii_case name (text "content-length"))) [
          | inl is ↦ rw is (λ a. length_step start _ no_type is refl go a)
          | inr no_length ↦
              rw no_length
                (elim (Bool-cases (eq_ignore_ascii_case name (text "transfer-encoding"))) [
                  | inl is ↦ rw is (λ a. encoding_step start _ no_type no_length is refl go a)
                  | inr no_encoding ↦
                      rw no_encoding
                        (elim (Bool-cases (eq_ignore_ascii_case name (text "keep-alive"))) [
                          | inl is ↦ rw is (λ a.
                              keep_alive_step start _ no_type no_length no_encoding is refl go a)
                          | inr no_keep_alive ↦ rw no_keep_alive (λ a.
                              describe_other start no_type no_length no_encoding no_keep_alive
                                (go start a))
                        ])
                ])
        ])
  ]

-- Where the loop over the headers ends well, its result is so described.
pub read_fields-Describes :
    (t : Target) (push : Push)
    → IsPush push
    → (headers : List (Bytes × Bytes)) (start result : Fields)
    → read_fields t push headers start ≡ ok result
    → Describes t headers start result
unfolding read_fields values
read_fields-Describes t push is_push [] start result e =
    let same : start ≡ result = cc in
    subst (λ z. Describes t [] start z) same
      (record {
        type_eq = refl;
        lengths = [];
        lengths_eq = refl;
        length_eq = refl;
        encodings = [];
        encodings_eq = refl;
        encoding_eq = sym (append-nil start.transfer_encoding);
        keep_alives = [];
        keep_alives_eq = refl;
        keep_alive_eq = refl;
      })
read_fields-Describes t push is_push ((name, value) ∷ headers) start result e =
    field_step t push is_push name value headers result start
      (λ next e'. read_fields-Describes t push is_push headers next result e') e
