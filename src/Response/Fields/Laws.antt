-- ===== src/Response/Fields/Laws.antt =====
-- response/mod.rs: what `Response::read` makes of the header fields.
use reqwless.Base.{
  ℕ, suc, ◌^◌, ◌<◌, ◌-◌, subst, ◌≡◌, refl, ap, ◌∙◌, arith, Bool, true, false, List, [], ◌∷◌, Bytes,
  map, All-mono, Option, none, some, Outcome, ok, Answers, answers_ok, answers_err, if◌then◌else◌,
}
use reqwless.Base.Words.{Target, bits, IsTarget}
use reqwless.Text.{text, eq_ignore_ascii_case, to_ascii_lowercase}
use reqwless.Text.Utf8.{from_utf8, from_utf8-ascii}
use reqwless.Text.Decimal.{
  decimal, parse_unsigned, IsDigit, decimal-IsDigit, parse_unsigned-decimal,
}
use reqwless.Headers.{TransferEncoding, try_from}
use reqwless.Headers.Laws.{bytes_eq-true}
use reqwless.Headers.KeepAlive.{KeepAlive, Utf8Error, of_text}
use reqwless.Headers.KeepAlive
use reqwless.Response.Fields.{
  Fields, Push, read_field, read_fields, set_length, usize_of, push_encoding, pushed,
  set_keep_alive,
}

-- `usize` holds the number that was printed.
usize_of-decimal :
    (t : Target) (n : ℕ)
    → IsTarget t
    → n < 2 ^ bits t
    → usize_of t (from_utf8 (decimal (bits t) n)) ≡ some n
usize_of-decimal t n h fit =
    let e : bits t ≡ suc (bits t - 1) = omega arith in
    ap (usize_of t) (
      from_utf8-ascii (decimal (bits t) n)
        (All-mono IsDigit _ (decimal (bits t) n) (λ c d. omega arith) (decimal-IsDigit (bits t) n)))
    ∙ ap (λ k. parse_unsigned (2 ^ bits t) (decimal k n)) e
    ∙ parse_unsigned-decimal (2 ^ bits t) (bits t - 1) n (subst (λ k. n < 2 ^ k) e fit) fit

pub if-Answers :
    {E A : Type 0} (b : Bool) (x y : Outcome E A)
    → Answers x
    → Answers y
    → Answers (if b then x else y)
if-Answers true x y p q = p
if-Answers false x y p q = q

module _ (t : Target) (push : Push) where
  set_length-Answers : (o : Option ℕ) (fields : Fields) → Answers (set_length o fields)
  set_length-Answers none fields = answers_err _ refl
  set_length-Answers (some n) fields = answers_ok _ refl

  pushed-Answers :
      (o : Option (List TransferEncoding)) (fields : Fields) → Answers (pushed o fields)
  pushed-Answers none fields = answers_err _ refl
  pushed-Answers (some es) fields = answers_ok _ refl

  push_encoding-Answers :
      (o : Option TransferEncoding) (fields : Fields) → Answers (push_encoding push o fields)
  push_encoding-Answers none fields = answers_err _ refl
  push_encoding-Answers (some e) fields = pushed-Answers (push fields.transfer_encoding e) fields

  set_keep_alive-Answers :
      (o : Option (List ℕ)) (fields : Fields) → Answers (set_keep_alive (of_text o) fields)
  set_keep_alive-Answers none fields = answers_err _ refl
  set_keep_alive-Answers (some s) fields = answers_ok _ refl

  read_field-Answers :
      (name value : Bytes) (fields : Fields) → Answers (read_field t push name value fields)
  unfolding read_field KeepAlive.try_from
  read_field-Answers name value fields =
      if-Answers (eq_ignore_ascii_case name (text "content-type")) _ _ (answers_ok _ refl) (
        if-Answers (eq_ignore_ascii_case name (text "content-length")) _ _
          (set_length-Answers _ fields)
          (if-Answers (eq_ignore_ascii_case name (text "transfer-encoding")) _ _
            (push_encoding-Answers (try_from value) fields)
            (if-Answers (eq_ignore_ascii_case name (text "keep-alive")) _ _
              (set_keep_alive-Answers (from_utf8 value) fields) (answers_ok _ refl))))

  -- The loop over the headers does not panic.
  pub read_fields-Answers :
      (headers : List (Bytes × Bytes)) (fields : Fields)
      → Answers (read_fields t push headers fields)
  unfolding read_fields
  read_fields-Answers [] fields = answers_ok fields refl
  read_fields-Answers ((name, value) ∷ headers) fields =
      elim (read_field-Answers name value fields) [
        | answers_ok f e ↦ rw e (read_fields-Answers headers f)
        | answers_err x e ↦ rw e (answers_err x refl)
      ]

  -- A `Content-Length` header, its name in any case, that prints a `usize` in decimal sets the
  -- length to that number, whatever was read before, and leaves the other fields as they are.
  pub read_field-content_length :
      (name : Bytes) (n : ℕ) (fields : Fields)
      → IsTarget t
      → n < 2 ^ bits t
      → eq_ignore_ascii_case name (text "content-length") ≡ true
      → read_field t push name (decimal (bits t) n) fields
        ≡ ok (record fields { content_length = some n })
  unfolding read_field eq_ignore_ascii_case to_ascii_lowercase
  read_field-content_length name n fields h fit same =
      let lowered = bytes_eq-true (map to_ascii_lowercase name) (text "content-length") same in
      rw (lowered, usize_of-decimal t n h fit) refl
