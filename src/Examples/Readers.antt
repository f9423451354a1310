-- ===== src/Examples/Readers.antt =====
-- A connection that delivers given bytes, and the readers on it.
use reqwless.Base.{
  ℕ, ◌+◌, ◌-◌, ◌^◌, ◌/◌, ◌≡◌, ◌≢◌, refl, sym, arith, true, false, ◌⊎◌, inl, inr, ◌↔◌, [], ◌∷◌, ◌++◌,
  some, zero, suc,
}
use reqwless.Base.{
  Bytes, length, take, drop, length-take, take-append-drop, leb, leb→le, Bool-cases, if◌then◌else◌,
}
use reqwless.Base.{Outcome, ok, err, panic, Ends, ends_ok, ends_err, ap, sym, append-nil}
use reqwless.Base.Words.{bits}
use reqwless.Errors.{ReadExactError}
use reqwless.Connection.{Read, IsRead}
use reqwless.Reader.{BufferingReader, new}
use reqwless.Reader
use reqwless.Reader.Laws.{buffering-read_lem, IsLoaded, Delivers}
use reqwless.Response.FixedLength.{FixedLengthBodyReader}
use reqwless.Response.FixedLength
use reqwless.Response.FixedLength.Laws.{fixed-read_lem, read-overflow}
use reqwless.Response.FixedLength.Laws
use reqwless.Response.Status.{
  Status, StatusCode, from_code, try_from, eq_status, is_informational, is_successful,
  is_redirection, is_client_error, is_server_error,
}
use reqwless.Response.Status.Laws.{from_code-try_from, eq_status_iff, class_iff}
use reqwless.Headers.{
  text, ContentType, from, content_type_as_str, TransferEncoding, transfer_encoding_as_str,
}
use reqwless.Headers
use reqwless.Headers.Laws.{content_type_names, transfer_encoding_names}
use reqwless.BodyWriter.Header.{chunk, empty_chunk, newline}
use reqwless.Response.Chunked.State.{ChunkState}
use reqwless.Response.Chunked.{ChunkedBodyReader, read_next_chunk_length}
use reqwless.Response.Chunked
use reqwless.Response.Chunked.Body.{IsReading}
use reqwless.Connection.Failure.{IsFailure}
use reqwless.Response.Chunked.Delivery.{chunked-read_lem}
use reqwless.Response.Chunked.Delivery
use reqwless.Response.Chunked.Lines.{At, read_next_chunk_length-no_digit}
use reqwless.Examples.{thumb, hex_crate, hex_crate-IsHex}

abbrev pub stream_io : Read Bytes
stream_io = record {
  read = λ n r. (ok (take n r), drop n r);
  read_exact = λ n r.
      if leb n (length r)
      then (ok (take n r), drop n r)
      else (err ReadExactError.unexpected_eof, []);
}

pub stream_io-IsRead : IsRead stream_io (λ _. Unit {0}) (λ r. r)
stream_io-IsRead = record {
  read_lem = λ n r _.
      ends_ok (take n r) (drop n r) refl
        (tt, omega (arith, length-take n r), sym (take-append-drop n r), stop n r);
  read_exact_lem = λ n r _. exact n r;
}
  where
    stop : (n : ℕ) (r : Bytes) → take n r ≡ [] → (n ≡ 0) ⊎ (r ≡ [])
    stop zero r e = inl refl
    stop (suc n) [] e = inr refl
    stop (suc n) (b ∷ r) e = cc

    exact :
        (n : ℕ) (r : Bytes)
        → Ends
            (stream_io.read_exact n r)
            (λ bs r'. Unit {0} × (length bs ≡ n) × (r ≡ bs ++ r'))
            (λ _ _. Unit {0})
    exact n r = elim (Bool-cases (leb n (length r))) [
      | inl le ↦
          ends_ok (take n r) (drop n r) (rw le)
            (tt, omega (arith, length-take n r, leb→le n (length r) le), sym (take-append-drop n r))
      | inr more ↦ ends_err ReadExactError.unexpected_eof [] (rw more) tt
    ]

abbrev buffering : BufferingReader Bytes
buffering = new (1 ∷ 2 ∷ 3 ∷ 0 ∷ []) 3 (4 ∷ 5 ∷ [])

buffering-IsLoaded : IsLoaded stream_io (λ _. Unit {0}) (λ r. r) stream_io-IsRead buffering
buffering-IsLoaded = record { front = 1 ∷ 2 ∷ 3 ∷ []; rest = 0 ∷ []; shape = refl; inner = tt }

buffering-read_lem_example :
    Ends
      (Reader.read stream_io 2 buffering)
      (Delivers stream_io (λ _. Unit {0}) (λ r. r) stream_io-IsRead 2 buffering)
      (λ _ _. Unit {0})
buffering-read_lem_example =
    buffering-read_lem stream_io (λ _. Unit {0}) (λ r. r) stream_io-IsRead 2 buffering
      buffering-IsLoaded

abbrev two_left : FixedLengthBodyReader Bytes
two_left = record { raw_body = 1 ∷ 2 ∷ []; remaining = 2 }

fixed-read_lem_example :
    Ends
      (FixedLength.read thumb stream_io 9 two_left)
      (Laws.Delivers thumb stream_io (λ _. Unit {0}) (λ r. r) stream_io-IsRead 9 two_left)
      (λ x _. IsFailure stream_io x)
fixed-read_lem_example =
    fixed-read_lem thumb stream_io (λ _. Unit {0}) (λ r. r) stream_io-IsRead 9 two_left tt
      (omega arith)

-- Two bytes are announced, and three are sent.
abbrev too_long : FixedLengthBodyReader Bytes
too_long = record { raw_body = 1 ∷ 2 ∷ 3 ∷ []; remaining = 2 }

read-overflow_example :
    ((true ≡ true)
      → (FixedLength.read thumb stream_io 9 too_long
          ≡ (panic, record { raw_body = []; remaining = 2 })))
    × ((true ≡ false)
        → (FixedLength.read thumb stream_io 9 too_long
            ≡ (ok (1 ∷ 2 ∷ 3 ∷ []), record { raw_body = []; remaining = 2 + 2 ^ bits thumb - 3 })))
read-overflow_example =
    read-overflow thumb stream_io too_long 9 [] (1 ∷ 2 ∷ 3 ∷ []) (omega arith) refl (omega arith)

from_code-try_from_example :
    (Status.not_found ≡ Status.unknown)
    ⊎ ((try_from Status.not_found ≡ Outcome.ok (record { code = 404 }))
        × (from_code (record { code = 404 }) ≡ Status.not_found))
from_code-try_from_example = from_code-try_from Status.not_found

not_found-named : Status.not_found ≢ Status.unknown
not_found-named e = cc

eq_status_iff_example :
    (eq_status (record { code = 404 }) Status.not_found ≡ true)
    ↔ (from_code (record { code = 404 }) ≡ Status.not_found)
eq_status_iff_example = eq_status_iff (record { code = 404 }) Status.not_found not_found-named

abbrev teapot : StatusCode
teapot = record { code = 418 }

class_iff_example :
    ((is_informational teapot ≡ true) ↔ (418 / 100 ≡ 1))
    × ((is_successful teapot ≡ true) ↔ (418 / 100 ≡ 2))
    × ((is_redirection teapot ≡ true) ↔ (418 / 100 ≡ 3))
    × ((is_client_error teapot ≡ true) ↔ (418 / 100 ≡ 4))
    × ((is_server_error teapot ≡ true) ↔ (418 / 100 ≡ 5))
class_iff_example = class_iff teapot

content_type_names_example :
    (from (content_type_as_str ContentType.text_html) ≡ ContentType.text_html)
    × ((content_type_as_str (from (text "image/png")) ≡ text "image/png")
        ⊎ (from (text "image/png") ≡ ContentType.application_octet_stream))
content_type_names_example = content_type_names (text "image/png") ContentType.text_html

transfer_encoding_names_example :
    (Headers.try_from (text "gzip") ≡ some TransferEncoding.gzip)
    ↔ (text "gzip" ≡ transfer_encoding_as_str TransferEncoding.gzip)
transfer_encoding_names_example = transfer_encoding_names (text "gzip") TransferEncoding.gzip

-- A chunk of three bytes, the empty chunk, and a byte behind the body.
abbrev pub chunked : ChunkedBodyReader Bytes
chunked = Chunked.new (chunk thumb (1 ∷ 2 ∷ 3 ∷ []) ++ (empty_chunk ++ (9 ∷ [])))

pub chunked-IsReading :
    IsReading stream_io
      (λ _. Unit {0})
      (λ r. r)
      stream_io-IsRead
      thumb
      thumb
      hex_crate
      hex_crate-IsHex
      (omega arith)
      (9 ∷ [])
      (1 ∷ 2 ∷ 3 ∷ [])
      chunked
chunked-IsReading = record {
  inner = tt;
  remains = (
    (1 ∷ 2 ∷ 3 ∷ []) ∷ [],
    ((λ e. cc), tt),
    ((omega arith, omega arith), tt),
    refl,
    ap (λ z. z ++ (empty_chunk ++ (9 ∷ []))) (sym (append-nil (chunk thumb (1 ∷ 2 ∷ 3 ∷ [])))),
  );
}

chunked-read_lem_example :
    Ends
      (Chunked.read thumb hex_crate stream_io 2 chunked)
      (Delivery.Delivers stream_io
        (λ _. Unit {0})
        (λ r. r)
        stream_io-IsRead
        thumb
        thumb
        hex_crate
        hex_crate-IsHex
        (omega arith)
        (9 ∷ [])
        (1 ∷ 2 ∷ 3 ∷ [])
        2)
      (λ x _. IsFailure stream_io x)
chunked-read_lem_example =
    chunked-read_lem stream_io (λ _. Unit {0}) (λ r. r) stream_io-IsRead thumb thumb hex_crate
      hex_crate-IsHex (omega arith) (9 ∷ []) (1 ∷ 2 ∷ 3 ∷ []) 2 chunked chunked-IsReading

read_next_chunk_length-no_digit_example :
    Ends
      (read_next_chunk_length thumb hex_crate stream_io
        (record { raw_body = newline ++ (9 ∷ []); chunk_remaining = ChunkState.no_chunk }))
      (λ _ r'. At stream_io (λ _. Unit {0}) (λ r. r) stream_io-IsRead ChunkState.empty (9 ∷ []) r')
      (λ x _. IsFailure stream_io x)
read_next_chunk_length-no_digit_example =
    read_next_chunk_length-no_digit stream_io (λ _. Unit {0}) (λ r. r) stream_io-IsRead thumb
      hex_crate (9 ∷ []) ChunkState.no_chunk
      (record { raw_body = newline ++ (9 ∷ []); chunk_remaining = ChunkState.no_chunk })
      hex_crate-IsHex (refl, tt, refl)
