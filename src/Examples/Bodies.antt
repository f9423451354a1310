-- ===== src/Examples/Bodies.antt =====
-- A chunked body that is read to its end, dropped, or cut off by the peer.
use reqwless.Base.{ℕ, ◌+◌, ◌<◌, ◌≤◌, ◌≡◌, ◌⊎◌, refl, arith, [], ◌∷◌, none, some}
use reqwless.Base.{length, ok, err, Ends}
use reqwless.Errors.{Error, ReadExactError}
use reqwless.Reader.{no_buffer}
use reqwless.BodyWriter.Header.{chunk_header}
use reqwless.BodyWriter.Buffering.Size.{header_room-bounds}
use reqwless.BodyWriter.Buffering.{get_max_chunk_header_size}
use reqwless.Response.Chunked.Collect
use reqwless.Response.Chunked.Stuck.{within_chunk, read_to_end-stuck}
use reqwless.Connection.Failure.{IsFailure}
use reqwless.Response.Body.{BodyReader, discard, read_to_end}
use reqwless.Response.Body.Chunks.{Rest, chunked-discard, chunked-read_to_end}
use reqwless.Examples.{thumb, hex_crate, hex_crate-IsHex}
use reqwless.Examples.Readers.{stream_io, stream_io-IsRead, chunked, chunked-IsReading}

chunked-discard_example :
    Ends
      (discard thumb hex_crate stream_io 4 0 (BodyReader.chunked chunked))
      (λ o r'.
        (o ≡ some 3)
        × Rest stream_io
            (λ _. Unit {0})
            (λ r. r)
            stream_io-IsRead
            thumb
            thumb
            hex_crate
            hex_crate-IsHex
            (omega arith)
            (9 ∷ [])
            []
            r')
      (λ x _. IsFailure stream_io x)
chunked-discard_example =
    chunked-discard stream_io (λ _. Unit {0}) (λ r. r) stream_io-IsRead thumb thumb hex_crate
      hex_crate-IsHex (omega arith) (9 ∷ []) 4 (1 ∷ 2 ∷ 3 ∷ []) chunked chunked-IsReading
      (omega arith) (omega arith)

chunked-read_to_end_example :
    Ends
      (read_to_end thumb hex_crate stream_io 5 (BodyReader.chunked chunked))
      (λ out r'.
        (out ≡ 1 ∷ 2 ∷ 3 ∷ [])
        × Rest stream_io
            (λ _. Unit {0})
            (λ r. r)
            stream_io-IsRead
            thumb
            thumb
            hex_crate
            hex_crate-IsHex
            (omega arith)
            (9 ∷ [])
            []
            r')
      (λ x _. IsFailure stream_io x ⊎ ((x ≡ Error.buffer_too_small) × (5 ≤ 3)))
chunked-read_to_end_example =
    chunked-read_to_end stream_io (λ _. Unit {0}) (λ r. r) stream_io-IsRead thumb thumb hex_crate
      hex_crate-IsHex (omega arith) (9 ∷ []) 5 (1 ∷ 2 ∷ 3 ∷ []) chunked chunked-IsReading

read_to_end-stuck_example :
    Collect.read_to_end thumb hex_crate stream_io
      (λ n r. (err ReadExactError.unexpected_eof, r))
      no_buffer
      1000
      (within_chunk thumb hex_crate stream_io
        (λ n r. (err ReadExactError.unexpected_eof, r))
        no_buffer
        2
        0
        (0 ∷ 0 ∷ [])
        [])
    ≡ (
      ok none,
      within_chunk thumb hex_crate stream_io
          (λ n r. (err ReadExactError.unexpected_eof, r))
          no_buffer
          2
          0
          (0 ∷ 0 ∷ [])
          [],
    )
read_to_end-stuck_example =
    read_to_end-stuck thumb hex_crate stream_io (λ n r. (err ReadExactError.unexpected_eof, r))
      no_buffer 2 0 (0 ∷ 0 ∷ []) [] 1000 refl refl

header_room-bounds_example :
    (get_max_chunk_header_size thumb 64 + 2 < 64)
    × ((p : ℕ)
        → get_max_chunk_header_size thumb 64 + p + 2 ≤ 64
        → length (chunk_header thumb p) ≤ get_max_chunk_header_size thumb 64)
header_room-bounds_example = header_room-bounds thumb 64 (omega arith) (omega arith) (omega arith)
