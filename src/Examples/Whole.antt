-- ===== src/Examples/Whole.antt =====
-- A chunked response that is read from its first byte to its last.
use reqwless.Base.{
  ℕ, ◌≡◌, refl, arith, inl, inr, List, [], ◌∷◌, ◌++◌, none, replicate, Bool-cases, if◌then◌else◌,
}
use reqwless.Base.{
  Bytes, length, take, drop, length-take, take-append-drop, sym, leb, leb→le, ok, err, Io, ends_ok,
  ends_err,
}
use reqwless.Errors.{Error, ReadExactError}
use reqwless.Text.{text, eq_ignore_ascii_case, to_ascii_lowercase}
use reqwless.Headers.{TransferEncoding, try_from}
use reqwless.Request.{Method}
use reqwless.Reader.{BufferingReader}
use reqwless.Reader.Laws.{all_unread}
use reqwless.BodyWriter.Header.{chunk, chunk_header, empty_chunk}
use reqwless.BodyWriter.Body.{NonEmpty, IsChunked-chunk}
use reqwless.Response.Body.{ReaderHint, ResponseBody, reader}
use reqwless.Response.Body.Whole.{IsExact, Whole, read-read_to_end}
use reqwless.Response.Parsed.{Response, body, reader_hint}
use reqwless.Response.Status.{is_informational, eq_status}
use reqwless.Hex.Digits.{hex_text}
use reqwless.Response.Fields.{read_field, read_fields}
use reqwless.Response.Read.{find_header, interpret, settle_length, check_length, read}
use reqwless.Base.Words.{sub_usize}
use reqwless.Examples.{thumb, hex_crate, hex_crate-IsHex}
use reqwless.Examples.Readers.{stream_io, stream_io-IsRead}
use reqwless.Examples.Reading.{crates, crates-IsCrates}

-- All that the reader has still to deliver, and its connection at that place.
abbrev pending : BufferingReader Bytes → Bytes
pending = all_unread stream_io (λ _. Unit {0}) (λ r. r) stream_io-IsRead

abbrev emptied : Bytes → BufferingReader Bytes
emptied rest = record { buffer = record { buffer = []; loaded = 0 }; stream = rest }

abbrev exact : ℕ → Io (BufferingReader Bytes) ReadExactError Bytes
exact n r =
    if leb n (length (pending r))
    then (ok (take n (pending r)), emptied (drop n (pending r)))
    else (err ReadExactError.unexpected_eof, emptied [])

exact-IsExact : IsExact stream_io (λ _. Unit {0}) (λ r. r) stream_io-IsRead exact
exact-IsExact n r v = elim (Bool-cases (leb n (length (pending r)))) [
  | inl le ↦ ends_ok (take n (pending r)) (emptied (drop n (pending r))) (rw le) (
    record { front = []; rest = []; shape = refl; inner = tt },
    omega (arith, length-take n (pending r), leb→le n (length (pending r)) le),
    sym (take-append-drop n (pending r)),
  )
  | inr more ↦ ends_err ReadExactError.unexpected_eof (emptied []) (rw more) tt
]

abbrev fields : List (Bytes × Bytes)
fields = (text "Transfer-Encoding", text "chunked") ∷ []

-- A header of four bytes, three bytes in a chunk, and a byte behind the body.
abbrev stream : Bytes
stream = (10 ∷ 11 ∷ 12 ∷ 13 ∷ []) ++ (chunk thumb (1 ∷ 2 ∷ 3 ∷ []) ++ (empty_chunk ++ (9 ∷ [])))

abbrev response : Response Bytes
response = record {
  conn = drop 8 stream;
  method = Method.get;
  status = record { code = 200 };
  content_type = none;
  content_length = none;
  transfer_encoding = TransferEncoding.chunked ∷ [];
  keep_alive = none;
  header_buf = take 8 stream;
  header_len = 4;
  raw_body_read = 4;
}

response_eq :
    read (crates 200 fields) stream_io thumb Method.get (replicate 8 0) stream
    ≡ (ok response, drop 8 stream)
unfolding read find_header interpret read_fields read_field settle_length check_length sub_usize
    eq_ignore_ascii_case to_ascii_lowercase chunk chunk_header hex_text try_from is_informational
    eq_status
response_eq = refl

response-chunked : reader_hint response ≡ ReaderHint.chunked
unfolding reader_hint
response-chunked = refl

response-header :
    stream
    ≡ take response.header_len response.header_buf
      ++ (chunk thumb (1 ∷ 2 ∷ 3 ∷ []) ++ (empty_chunk ++ (9 ∷ [])))
unfolding chunk chunk_header hex_text
response-header = refl

payload-NonEmpty : NonEmpty (1 ∷ 2 ∷ 3 ∷ [])
payload-NonEmpty e = cc

read-read_to_end_example :
    (b : ResponseBody Bytes) × (body {E = Error} response ≡ ok b)
    × Whole stream_io
        (λ _. Unit {0})
        (λ r. r)
        stream_io-IsRead
        exact
        exact-IsExact
        thumb
        thumb
        hex_crate
        hex_crate-IsHex
        (omega arith)
        (9 ∷ [])
        (1 ∷ 2 ∷ 3 ∷ [])
        16
        (reader b)
read-read_to_end_example =
    read-read_to_end stream_io (λ _. Unit {0}) (λ r. r) stream_io-IsRead exact exact-IsExact thumb
      thumb hex_crate hex_crate-IsHex (omega arith) (9 ∷ []) {E = Error} (crates 200 fields)
      (crates-IsCrates 200 fields (omega arith)) Method.get (replicate 8 0) stream (drop 8 stream)
      response (1 ∷ 2 ∷ 3 ∷ []) (chunk thumb (1 ∷ 2 ∷ 3 ∷ [])) 16 tt response_eq response-chunked
      response-header (IsChunked-chunk thumb (1 ∷ 2 ∷ 3 ∷ []) payload-NonEmpty) (omega arith)
      (omega arith)
