-- ===== src/Examples/Buffering.antt =====
-- The buffering writer on concrete buffers.
use reqwless.Base.{◌-◌, ◌≡◌, ◌≢◌, refl, arith, [], ◌∷◌, ◌++◌, List, false, inr}
use reqwless.Base.{Bytes, Io, length, take, replicate, ok, panic, Ends, ◌>>=◌, ◌>>◌, pure}
use reqwless.Base.Words.{leading_zeros}
use reqwless.Errors.{ErrorKind}
use reqwless.Connection.Calls.{Call, run}
use reqwless.BodyWriter.Header.{empty_chunk}
use reqwless.BodyWriter.Body.{IsChunked}
use reqwless.BodyWriter.Buffering.{
  BufferingChunkedBodyWriter, new_with_data, write, flush, terminate, get_max_chunk_header_size,
  get_num_hex_chars,
}
use reqwless.BodyWriter.Buffering.Layout.{layout, IsValid, out, pending}
use reqwless.BodyWriter.Buffering.Calls.{write_lem, Wrote}
use reqwless.BodyWriter.Buffering.Flush.{flush_lem, Flushed}
use reqwless.BodyWriter.Buffering.Terminate.{terminate_lem, Terminated}
use reqwless.BodyWriter.Buffering.Session.{
  run_buffered, buffering_write, new_with_data_lem, Opened, Body,
}
use reqwless.BodyWriter.Buffering.Faults.{write-three_left}
use reqwless.Examples.{thumb, wire_io, wire_io-IsWrite, hex_crate, hex_crate-IsHex}
use reqwless.Examples.Loop.{write_all_loop, write_all_loop-IsLoop}

abbrev buffer : Bytes
buffer = 71 ∷ 69 ∷ replicate 10 0

abbrev calls : List Call
calls = Call.write (1 ∷ 2 ∷ []) ∷ Call.flush ∷ Call.write_all (replicate 30 7) ∷ []

abbrev write_all : Bytes → Io (BufferingChunkedBodyWriter Bytes) ErrorKind (Unit {0})
write_all = write_all_loop (write thumb hex_crate wire_io)

not_three : length buffer - 2 ≢ 3
not_three e = absurd (omega arith)

run_buffered_example :
    (w : BufferingChunkedBodyWriter Bytes) × (new_with_data {E = ErrorKind} thumb [] buffer 2
      ≡ ok w)
    × Ends
        ((do
          accepted ← run (buffering_write thumb hex_crate wire_io write_all) calls
          terminate thumb hex_crate wire_io
          pure accepted)
          w)
        (λ accepted w'.
          Body thumb hex_crate wire_io
            (λ c. c)
            (omega arith)
            hex_crate-IsHex
            wire_io-IsWrite
            []
            (take 2 buffer)
            accepted
            w')
        (λ _ _. Unit {0})
run_buffered_example =
    run_buffered thumb hex_crate wire_io (λ c. c) (omega arith) hex_crate-IsHex wire_io-IsWrite
      write_all (write_all_loop-IsLoop (write thumb hex_crate wire_io)) [] buffer 2 calls
      (omega arith) (omega arith) (omega arith) not_three

abbrev idle : BufferingChunkedBodyWriter Bytes
idle = layout [] false (71 ∷ []) (0 ∷ 0 ∷ 0 ∷ []) (5 ∷ []) (replicate 7 0)

idle-IsValid : IsValid thumb idle
unfolding get_max_chunk_header_size get_num_hex_chars leading_zeros
idle-IsValid = record {
  front = 71 ∷ [];
  header = 0 ∷ 0 ∷ 0 ∷ [];
  payload = 5 ∷ [];
  room = replicate 7 0;
  shape = refl;
  fits = omega arith;
  large = omega arith;
  sized = refl;
  not_three = λ e. absurd (omega arith);
  spare = inr (omega arith);
}

write_lem_example :
    Ends
      (write thumb hex_crate wire_io (1 ∷ 2 ∷ []) idle)
      (Wrote thumb hex_crate wire_io
        (λ c. c)
        (omega arith)
        hex_crate-IsHex
        wire_io-IsWrite
        (1 ∷ 2 ∷ [])
        idle)
      (λ _ _. Unit {0})
write_lem_example =
    write_lem thumb hex_crate wire_io (λ c. c) (omega arith) hex_crate-IsHex wire_io-IsWrite
      (1 ∷ 2 ∷ []) idle idle-IsValid

flush_lem_example :
    Ends
      (flush thumb hex_crate wire_io idle)
      (λ _ w'.
        Flushed thumb hex_crate wire_io
          (λ c. c)
          (omega arith)
          hex_crate-IsHex
          wire_io-IsWrite
          idle
          w')
      (λ _ _. Unit {0})
flush_lem_example =
    flush_lem thumb hex_crate wire_io (λ c. c) (omega arith) hex_crate-IsHex wire_io-IsWrite idle
      idle-IsValid

terminate_lem_example :
    Ends
      (terminate thumb hex_crate wire_io idle)
      (λ _ w'.
        (wire : Bytes) × IsChunked thumb (pending idle) wire
        × Terminated thumb hex_crate wire_io
            (λ c. c)
            (omega arith)
            hex_crate-IsHex
            wire_io-IsWrite
            (out (λ c. c) idle ++ (wire ++ empty_chunk))
            w')
      (λ _ _. Unit {0})
terminate_lem_example =
    terminate_lem thumb hex_crate wire_io (λ c. c) (omega arith) hex_crate-IsHex wire_io-IsWrite
      idle idle-IsValid refl

new_with_data_lem_example :
    (w : BufferingChunkedBodyWriter Bytes) × (new_with_data {E = ErrorKind} thumb [] buffer 2
      ≡ ok w)
    × Opened thumb [] buffer 2 w
new_with_data_lem_example =
    new_with_data_lem thumb {E = ErrorKind} [] buffer 2 (omega arith) (omega arith) (omega arith)
      not_three

write-three_left_example :
    (w w' : BufferingChunkedBodyWriter Bytes) × (new_with_data {E = ErrorKind} thumb [] buffer 9
      ≡ ok w)
    × (write thumb hex_crate wire_io (1 ∷ []) w ≡ (panic, w'))
write-three_left_example =
    write-three_left thumb hex_crate wire_io (omega arith) hex_crate-IsHex [] buffer 9 1 []
      (omega arith) (omega arith)
