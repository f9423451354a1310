-- ===== src/Response/Chunked/Stuck.antt =====
-- response/chunked.rs: `read_to_end` where the connection ends within a chunk.
use reqwless.Base.{
  ℕ, zero, suc, ◌+◌, ◌-◌, ◌≡◌, refl, arith, ◌==◌, false, [], ◌∷◌, ◌++◌, Bytes, length, min, le→leb,
  none,
}
use reqwless.Base.{ok, Io, read_slice, copy_within}
use reqwless.Base.Words.{Target, sub_usize}
use reqwless.Hex.{Hex}
use reqwless.Errors.{ReadExactError}
use reqwless.Connection.{Read}
use reqwless.Reader.Buffer
use reqwless.Reader.{BufferingReader, TryBufRead, buffering_bufread, fill_empty}
use reqwless.Reader
use reqwless.Response.Chunked.State.{ChunkState}
use reqwless.Response.Chunked.State
use reqwless.Response.Chunked.{
  ChunkedBodyReader, fill_buf, consume, is_done, handle_chunk_boundary, enter_chunk,
  finish_boundary,
}
use reqwless.Response.Chunked.Collect.{buffering_read, advance, gather, read_to_end}

module _ {C : Type 0} (t : Target) (h : Hex) (io : Read C)
    (exact : ℕ → Io (BufferingReader C) ReadExactError Bytes) (tb : TryBufRead C) (k b : ℕ)
    (buf : Bytes) (s : C) where
  -- Within a chunk, with nothing loaded.
  abbrev pub within_chunk : ChunkedBodyReader (BufferingReader C)
  within_chunk = record {
    raw_body = record { buffer = record { buffer = b ∷ buf; loaded = 0 }; stream = s };
    chunk_remaining = ChunkState.not_empty (suc k);
  }

  fill_buf_stuck :
      tb.try_fill_buf s ≡ (none, s)
      → io.read (length (b ∷ buf)) s ≡ (ok [], s)
      → fill_buf t h (buffering_read io exact) (buffering_bufread io tb) within_chunk
        ≡ (ok [], within_chunk)
  unfolding fill_buf handle_chunk_boundary enter_chunk finish_boundary State.len Reader.fill_buf
      fill_empty Buffer.is_empty Buffer.fill_buf read_slice
  fill_buf_stuck no_buffer ended =
      let nonzero : (suc k == 0) ≡ false = ground arith in
      let none_left : min 0 (suc k) ≡ 0 = omega arith in
      rw (nonzero, no_buffer, ended, le→leb 0 (length (b ∷ buf)) (omega arith), none_left) refl

  consume_stuck : consume (buffering_bufread io tb) 0 within_chunk ≡ (ok tt, within_chunk)
  unfolding consume State.consume Reader.consume Buffer.consume copy_within
  consume_stuck =
      let none_taken : min 0 (suc k) ≡ 0 = omega arith in
      let all_left : suc k - 0 ≡ suc k = omega arith in
      rw (none_taken, all_left, le→leb 0 (length (b ∷ buf)) (omega arith)) refl

  advance_stuck : advance t h io exact tb 0 0 within_chunk ≡ (ok [], within_chunk)
  unfolding advance sub_usize
  advance_stuck = rw (le→leb 0 (length (b ∷ buf)) (omega arith)) refl

  gather_stuck :
      (fuel len : ℕ) (left : Bytes)
      → tb.try_fill_buf s ≡ (none, s)
      → io.read (length (b ∷ buf)) s ≡ (ok [], s)
      → gather t h io exact tb fuel len left within_chunk ≡ (ok none, within_chunk)
  unfolding gather is_done
  gather_stuck zero len left no_buffer ended = refl
  gather_stuck (suc fuel) len left no_buffer ended =
      rw (fill_buf_stuck no_buffer ended, consume_stuck, advance_stuck)
        (gather_stuck fuel (len + 0) (left ++ []) no_buffer ended)

  -- If the connection has no buffer of its own, and has ended within a chunk whose bytes were all
  -- taken from the reader's buffer, which has room, no number of rounds is enough for
  -- `read_to_end`: it reads nothing again and again, and never answers.
  pub read_to_end-stuck :
      (fuel : ℕ)
      → tb.try_fill_buf s ≡ (none, s)
      → io.read (length (b ∷ buf)) s ≡ (ok [], s)
      → read_to_end t h io exact tb fuel within_chunk ≡ (ok none, within_chunk)
  unfolding read_to_end
  read_to_end-stuck fuel no_buffer ended = rw (gather_stuck fuel 0 [] no_buffer ended) refl
