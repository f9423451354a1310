-- ===== src/Examples/Reading.antt =====
-- `Response::read` and the body readers on concrete input.
use reqwless.Base.{
  ℕ, ◌+◌, ◌≤◌, ◌<◌, ◌≡◌, refl, subst, arith, true, inl, inr, List, [], ◌∷◌, ◌++◌, none, some, map,
  replicate,
}
use reqwless.Base.{
  Bytes, length, take, length-take, ltb, leb, leb→le, le→leb, Bool-cases, if◌then◌else◌,
}
use reqwless.Base.{ok, Ends}
use reqwless.Errors.{Error}
use reqwless.Text.{text, eq_ignore_ascii_case, to_ascii_lowercase}
use reqwless.Text.Decimal.{decimal}
use reqwless.Headers.KeepAlive.{try_from}
use reqwless.Headers.KeepAlive.Laws.{try_from-decimal}
use reqwless.Request.{Method}
use reqwless.Response.Body.{ResponseBody}
use reqwless.Response.Parsed.{Response, IsHint, body, reader_hint}
use reqwless.Response.Fields.{no_fields, read_field}
use reqwless.Response.Fields.Laws.{read_field-content_length}
use reqwless.Response.Fields.Described.{IsPush}
use reqwless.Response.Read.{Crates, Parse, read, has_no_body}
use reqwless.Response.Read.Search.{IsCrates}
use reqwless.Response.Read.Laws.{read_lem, Replied, read-no_body, read-body}
use reqwless.Response.Read.Misses.{Misses, read-Misses}
use reqwless.Response.Iterator.{HeaderIterator, headers, calls, headers-calls, no_header}
use reqwless.Examples.{thumb}
use reqwless.Examples.Readers.{stream_io, stream_io-IsRead}

-- A parser of headers that are four bytes long, with that status code and those fields.
abbrev parse_four : ℕ → List (Bytes × Bytes) → Bytes → Parse
parse_four code fields bs =
    if leb 4 (length bs) then Parse.complete 4 (some code) fields else Parse.partial none []

abbrev pub crates : ℕ → List (Bytes × Bytes) → Crates
crates code fields = record {
  parse = parse_four code fields;
  push = λ es e. if ltb (length es) 4 then some (es ++ (e ∷ [])) else none;
}

module _ (code : ℕ) (fields : List (Bytes × Bytes)) where
  abbrev Parsed : Bytes → Parse → Type 0
  Parsed bs Parse.invalid = Unit {0}
  Parsed bs (Parse.partial c fs) = Unit {0}
  Parsed bs (Parse.complete n c fs) =
      (0 < n)
      × (n ≤ length bs)
      × (parse_four code fields (take n bs) ≡ Parse.complete n c fs)
      × ((k : ℕ) × (c ≡ some k))
      × (length fs ≤ 64)

  four-Parsed : (bs : Bytes) → length fields ≤ 64 → Parsed bs (parse_four code fields bs)
  four-Parsed bs few = elim (Bool-cases (leb 4 (length bs))) [
    | inr short ↦ rw short tt
    | inl long ↦ rw long (
      omega arith,
      leb→le 4 (length bs) long,
      rw
          (le→leb 4 (length (take 4 bs))
            (omega (arith, length-take 4 bs, leb→le 4 (length bs) long)))
          refl,
      (code, refl),
      few,
    )
  ]

  appends : IsPush (crates code fields).push
  appends es es' e = elim (Bool-cases (ltb (length es) 4)) [
    | inl room ↦ rw room (λ h. cc)
    | inr full ↦ rw full (λ h. cc)
  ]

  pub crates-IsCrates : length fields ≤ 64 → IsCrates (crates code fields)
  crates-IsCrates few = record {
    complete_lem = λ bs n c fs e. subst (Parsed bs) e (four-Parsed bs few);
    push_lem = appends;
  }

abbrev fields : List (Bytes × Bytes)
fields = (text "Content-Length", text "3") ∷ (text "Connection", text "close") ∷ []

abbrev found : Crates
found = crates 200 fields

-- A header of four bytes, and a body of three.
abbrev stream : Bytes
stream = 10 ∷ 11 ∷ 12 ∷ 13 ∷ 1 ∷ 2 ∷ 3 ∷ []

read_lem_example :
    Ends
      (read found stream_io thumb Method.get (replicate 6 0) stream)
      (Replied thumb found
        (crates-IsCrates 200 fields (omega arith))
        stream_io
        (λ _. Unit {0})
        (λ r. r)
        stream_io-IsRead
        Method.get
        (replicate 6 0)
        stream)
      (λ _ _. Unit {0})
read_lem_example =
    read_lem thumb found (crates-IsCrates 200 fields (omega arith)) stream_io (λ _. Unit {0})
      (λ r. r) stream_io-IsRead Method.get (replicate 6 0) stream tt

read-body_example :
    Ends
      (read found stream_io thumb Method.get (replicate 6 0) stream)
      (λ r c'.
        (b : ResponseBody Bytes) × (body {E = Error} r ≡ ok b)
        × Unit {0}
        × (b.reader_hint ≡ reader_hint r)
        × IsHint r b.reader_hint
        × (b.raw_body_read ≤ length b.body_buf)
        × (stream ≡ take r.header_len r.header_buf ++ (take b.raw_body_read b.body_buf ++ b.conn)))
      (λ _ _. Unit {0})
read-body_example =
    read-body thumb found (crates-IsCrates 200 fields (omega arith)) stream_io (λ _. Unit {0})
      (λ r. r) stream_io-IsRead {E = Error} Method.get (replicate 6 0) stream tt

read-no_body_example :
    Ends
      (read (crates 204 []) stream_io thumb Method.delete (replicate 6 0) (10 ∷ 11 ∷ 12 ∷ 13 ∷ []))
      (λ r _. has_no_body r.status ≡ true → (r.content_length ≡ some 0) × (r.raw_body_read ≡ 0))
      (λ _ _. Unit {0})
read-no_body_example =
    read-no_body thumb (crates 204 []) (crates-IsCrates 204 [] (omega arith)) stream_io
      (λ _. Unit {0}) (λ r. r) stream_io-IsRead Method.delete (replicate 6 0)
      (10 ∷ 11 ∷ 12 ∷ 13 ∷ []) tt

-- A buffer of three bytes is too small for the header.
read-Misses_example :
    Ends
      (read found stream_io thumb Method.get (replicate 3 0) stream)
      (λ _ _. Unit {0})
      (Misses found stream_io (λ r. r) [] 3 stream)
read-Misses_example =
    read-Misses found (crates-IsCrates 200 fields (omega arith)) stream_io (λ _. Unit {0}) (λ r. r)
      stream_io-IsRead thumb Method.get (replicate 3 0) stream tt

read_field-content_length_example :
    read_field thumb found.push (text "CONTENT-Length") (decimal 32 4000000000) no_fields
    ≡ ok (record no_fields { content_length = some 4000000000 })
unfolding eq_ignore_ascii_case to_ascii_lowercase
read_field-content_length_example =
    read_field-content_length thumb found.push (text "CONTENT-Length") 4000000000 no_fields
      (omega arith) (omega arith) refl

try_from-decimal_example :
    try_from (text "timeout=" ++ (decimal 8 5 ++ (text ", max=" ++ decimal 8 100)))
    ≡ ok (record { timeout = some 5; max = some 100 })
try_from-decimal_example = try_from-decimal 5 100 (omega arith) (omega arith)

abbrev response : Response Bytes
response = record {
  conn = [];
  method = Method.get;
  status = record { code = 200 };
  content_type = none;
  content_length = some 3;
  transfer_encoding = [];
  keep_alive = none;
  header_buf = stream;
  header_len = 4;
  raw_body_read = 3;
}

headers-calls_example :
    (it it' : HeaderIterator) × (headers {E = Error} found response ≡ ok it)
    × (calls {E = Error} thumb (64 + 1) it
        ≡ (ok (map (λ h. some h) (fields ++ replicate 62 no_header) ++ (none ∷ [])), it'))
headers-calls_example =
    headers-calls {E = Error} thumb found response 4 (some 200) fields 1 (omega arith) refl
      (omega arith) (omega arith)
