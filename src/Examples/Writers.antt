-- ===== src/Examples/Writers.antt =====
-- The body writers on concrete input.
use reqwless.Base.{◌≡◌, refl, arith, [], ◌∷◌, ◌++◌, List}
use reqwless.Base.{Bytes, length, ok, Ends, ◌>>=◌, ◌>>◌, pure}
use reqwless.Hex.Digits.{hex_text}
use reqwless.Errors.{ErrorKind}
use reqwless.Connection.Calls.{Call, run}
use reqwless.Connection.Puts.{Puts}
use reqwless.BodyWriter.Header.{write_chunked_header, chunk_header, chunk, empty_chunk}
use reqwless.BodyWriter.Header.Laws.{write_chunked_header_lem}
use reqwless.BodyWriter.Body.{IsChunked}
use reqwless.BodyWriter.Chunked.{write_all, terminate}
use reqwless.BodyWriter.Chunked.Laws.{write_all-Puts, run-IsChunked, chunked_write}
use reqwless.BodyWriter.Fixed.{new, written}
use reqwless.BodyWriter.Fixed.Laws.{run_counts, fixed_write}
use reqwless.Examples.{thumb, wire_io, wire_io-IsWrite, hex_crate, hex_crate-IsHex}

-- Twenty bytes of payload: a size line of four bytes.
write_chunked_header_lem_example :
    write_chunked_header {E = ErrorKind} thumb hex_crate 20 ((0 ∷ 0 ∷ 0 ∷ 0 ∷ []) ++ (7 ∷ 7 ∷ []))
    ≡ (ok (length (chunk_header thumb 20)), chunk_header thumb 20 ++ (7 ∷ 7 ∷ []))
unfolding chunk_header hex_text
write_chunked_header_lem_example =
    write_chunked_header_lem thumb (omega arith) 20 (omega arith) hex_crate hex_crate-IsHex
      (0 ∷ 0 ∷ 0 ∷ 0 ∷ []) (7 ∷ 7 ∷ []) refl

header_text : chunk_header thumb 20 ≡ b'1' ∷ b'4' ∷ b'\r' ∷ b'\n' ∷ []
unfolding chunk_header hex_text
header_text = refl

write_all-Puts_example :
    Puts
      (λ c. c)
      (write_all thumb hex_crate wire_io (1 ∷ 2 ∷ 3 ∷ []))
      (chunk thumb (1 ∷ 2 ∷ 3 ∷ []))
write_all-Puts_example =
    write_all-Puts thumb hex_crate (omega arith) hex_crate-IsHex wire_io (λ c. c) wire_io-IsWrite 1
      (2 ∷ 3 ∷ []) (omega arith)

abbrev calls : List Call
calls = Call.write (1 ∷ 2 ∷ []) ∷ Call.write [] ∷ Call.write_all (3 ∷ []) ∷ Call.flush ∷ []

run-IsChunked_example :
    Ends
      ((do
        accepted ← run (chunked_write thumb hex_crate wire_io) calls
        terminate thumb hex_crate wire_io
        pure accepted)
        (9 ∷ []))
      (λ accepted c.
        (wire : Bytes) × IsChunked thumb accepted wire × (c ≡ (9 ∷ []) ++ (wire ++ empty_chunk)))
      (λ _ _. Unit {0})
run-IsChunked_example =
    run-IsChunked thumb hex_crate (omega arith) hex_crate-IsHex wire_io (λ c. c) wire_io-IsWrite
      calls (9 ∷ []) (omega arith, (omega arith, (omega arith, tt)))

run_counts_example :
    Ends
      (run (fixed_write thumb wire_io) calls (new (9 ∷ [])))
      (λ accepted w. (w.conn ≡ (9 ∷ []) ++ accepted) × (written w ≡ length accepted))
      (λ _ _. Unit {0})
run_counts_example = run_counts thumb wire_io (λ c. c) wire_io-IsWrite calls (9 ∷ []) (omega arith)
