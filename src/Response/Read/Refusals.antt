-- ===== src/Response/Read/Refusals.antt =====
-- response/mod.rs: the errors of `Response::read` behind its loop.
use reqwless.Base.{
  ℕ, ◌==◌, ltb, leb, not, List, [], ◌∷◌, Bytes, length, Option, none, some, unwrap_or, unwrap,
}
use reqwless.Base.{
  Outcome, ok, err, panic, Causes, causes_ok, causes_err, causes_panic, Causes-either, Causes-lift,
}
use reqwless.Base.Words.{Target, sub_usize, sub_usize-Causes}
use reqwless.Errors.{Error}
use reqwless.Text.{text, eq_ignore_ascii_case}
use reqwless.Connection.{Read}
use reqwless.Request.{Method}
use reqwless.Headers.{TransferEncoding, try_from}
use reqwless.Headers.KeepAlive.{KeepAlive, Utf8Error}
use reqwless.Headers.KeepAlive
use reqwless.Response.Status.{StatusCode, from_u16}
use reqwless.Response.Fields.{
  Fields, Push, no_fields, read_field, read_fields, set_length, push_encoding, pushed,
  set_keep_alive, next_field,
}
use reqwless.Response.Read.{
  Crates, Parse, Found, parsed, header_of, settle_length, check_length, has_no_body, interpret,
}

module _ {X : Type 0} {Q : Error → X → Type 0} (s : X) (q : Q Error.codec s) where
  set_length-Causes : (o : Option ℕ) (fields : Fields) → Causes Q (set_length o fields, s)
  set_length-Causes none fields = causes_err _ s q
  set_length-Causes (some n) fields = causes_ok _ s

  pushed-Causes :
      (o : Option (List TransferEncoding)) (fields : Fields) → Causes Q (pushed o fields, s)
  pushed-Causes none fields = causes_err _ s q
  pushed-Causes (some es) fields = causes_ok _ s

  push_encoding-Causes :
      (push : Push) (o : Option TransferEncoding) (fields : Fields)
      → Causes Q (push_encoding push o fields, s)
  push_encoding-Causes push none fields = causes_err _ s q
  push_encoding-Causes push (some e) fields = pushed-Causes (push fields.transfer_encoding e) fields

  set_keep_alive-Causes :
      (o : Outcome Utf8Error KeepAlive) (fields : Fields) → Causes Q (set_keep_alive o fields, s)
  set_keep_alive-Causes (ok k) fields = causes_ok _ s
  set_keep_alive-Causes (err _) fields = causes_err _ s q
  set_keep_alive-Causes panic fields = causes_panic s

  read_field-Causes :
      (t : Target) (push : Push) (name value : Bytes) (fields : Fields)
      → Causes Q (read_field t push name value fields, s)
  unfolding read_field
  read_field-Causes t push name value fields =
      Causes-either (eq_ignore_ascii_case name (text "content-type")) _ _ s (causes_ok _ s) (
        Causes-either (eq_ignore_ascii_case name (text "content-length")) _ _ s
          (set_length-Causes _ fields)
          (Causes-either (eq_ignore_ascii_case name (text "transfer-encoding")) _ _ s
            (push_encoding-Causes push (try_from value) fields)
            (Causes-either (eq_ignore_ascii_case name (text "keep-alive")) _ _ s
              (set_keep_alive-Causes (KeepAlive.try_from value) fields) (causes_ok _ s))))

  next_field-Causes :
      {A B : Type 0} (r : Outcome Error A) (f : A → Outcome Error B)
      → Causes Q (r, s)
      → ((a : A) → Causes Q (f a, s))
      → Causes Q (next_field r f, s)
  next_field-Causes (ok a) f h k = k a
  next_field-Causes (err x) f (causes_err _ _ h) k = causes_err x s h
  next_field-Causes panic f h k = causes_panic s

  read_fields-Causes :
      (t : Target) (push : Push) (headers : List (Bytes × Bytes)) (fields : Fields)
      → Causes Q (read_fields t push headers fields, s)
  unfolding read_fields
  read_fields-Causes t push [] fields = causes_ok _ s
  read_fields-Causes t push ((name, value) ∷ headers) fields =
      next_field-Causes _ _ (read_field-Causes t push name value fields)
        (λ f. read_fields-Causes t push headers f)

  settle_length-Causes : (status : StatusCode) (o : Option ℕ) → Causes Q (settle_length status o, s)
  unfolding settle_length
  settle_length-Causes status o =
      Causes-either (has_no_body status) _ _ s
        (Causes-either (not (unwrap_or o 0 == 0)) _ _ s (causes_err _ s q) (causes_ok _ s))
        (causes_ok _ s)

  check_length-Causes : (o : Option ℕ) (n : ℕ) → Causes Q (check_length o n, s)
  unfolding check_length
  check_length-Causes none n = causes_ok tt s
  check_length-Causes (some k) n = Causes-either (ltb k n) _ _ s (causes_err _ s q) (causes_ok tt s)

  parsed-Causes : (p : Parse) → Causes Q (parsed {E = Error} p, s)
  parsed-Causes Parse.invalid = causes_panic s
  parsed-Causes (Parse.partial code headers) = causes_ok _ s
  parsed-Causes (Parse.complete n code headers) = causes_ok _ s

  unwrap-Causes : {A : Type 0} (o : Option A) → Causes Q (unwrap {E = Error} o, s)
  unwrap-Causes none = causes_panic s
  unwrap-Causes (some a) = causes_ok a s

-- What `read` refuses behind its loop, it refuses with `Codec`, and it reads no more.
pub interpret-Causes :
    {C : Type 0} {Q : Error → C → Type 0} (crates : Crates) (io : Read C) (t : Target)
    (method : Method) (f : Found) (c : C)
    → Q Error.codec c
    → Causes Q (interpret crates io t method f c)
unfolding interpret
interpret-Causes {C} {Q} crates io t method f c q =
    Causes-lift (header_of crates io f) _ c
      (Causes-either (leb f.header_len (length f.buffer)) _ _ c (parsed-Causes c q _)
        (causes_panic c))
      (λ head. Causes-lift (unwrap head.0) _ c (unwrap-Causes c q head.0) (λ code.
        Causes-lift (read_fields t crates.push head.1 no_fields) _ c
          (read_fields-Causes c q t crates.push head.1 no_fields)
          (λ fields.
            Causes-lift (settle_length (from_u16 code) fields.content_length) _ c
              (settle_length-Causes c q (from_u16 code) fields.content_length)
              (λ content_length.
                Causes-lift (sub_usize t f.pos f.header_len) _ c
                  (sub_usize-Causes t f.pos f.header_len c)
                  (λ raw_body_read.
                    Causes-lift (check_length content_length raw_body_read) _ c
                      (check_length-Causes c q content_length raw_body_read)
                      (λ _. causes_ok _ c))))))
