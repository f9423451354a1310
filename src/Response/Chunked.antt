-- ===== src/Response/Chunked.antt =====
-- response/chunked.rs: `ChunkedBodyReader`.
pub mod State
pub mod Size
pub mod Lines
pub mod Body
pub mod Delivery
pub mod RoundTrip
pub mod Collect
pub mod Stuck
use reqwless.Base.{
  ℕ, zero, suc, ◌+◌, ◌-◌, ◌==◌, [], ◌∷◌, ◌++◌, Bool, true, false, Bytes, length, take, get_elem?,
  replicate, min, bytes_eq, if◌then◌else◌,
}
use reqwless.Base.{
  Io, Outcome, ok, ◌>>=◌, ◌>>◌, pure, fail, lift, gets, modify, zoom_err, copy_from_slice, ok_or,
  unwrap_or,
}
use reqwless.Base.Words.{Target, sub_usize, from_be_bytes}
use reqwless.Errors.{Error, ErrorKind, ReadExactError, from_read_exact, kind}
use reqwless.Connection.{Read, BufRead}
use reqwless.Hex.{Hex}
use reqwless.BodyWriter.Header.{newline}
use reqwless.Response.Chunked.State.{ChunkState}
use reqwless.Response.Chunked.State

pub record ChunkedBodyReader (B : Type 0) : Type 0 where
  pub raw_body : B
  pub chunk_remaining : ChunkState

-- `header_buf[total_read - 1] == b'\r'`, of a line that is not empty.
abbrev pub ends_with_return : Bytes → Bool
ends_with_return [] = false
ends_with_return (b ∷ []) = b == b'\r'
ends_with_return (b ∷ c ∷ line) = ends_with_return (c ∷ line)

-- The digits behind zeros, in the array that is decoded.
unfoldable pub decode_size : {S : Type 0} → Target → Hex → Bytes → Io S Error ℕ
decode_size t h line s = (
  ((do
    hex_digits ← lift (sub_usize t (length line) 1)
    start ← lift (sub_usize t 8 hex_digits)
    copy_from_slice start 8 (take hex_digits line)
    hex ← gets (λ hex. hex)
    bytes ← lift (ok_or (h.decode_to_slice hex 4) Error.codec)
    pure (from_be_bytes bytes))
      (replicate 8 b'0')).0,
  s,
)

module _ {B : Type 0} where
  abbrev pub new : B → ChunkedBodyReader B
  new raw_body = record { raw_body = raw_body; chunk_remaining = ChunkState.no_chunk }

  unfoldable pub is_done : ChunkedBodyReader B → Bool
  is_done r = State.is_empty r.chunk_remaining

  abbrev pub on_body : {F A : Type 0} → (F → Error) → Io B F A → Io (ChunkedBodyReader B) Error A
  on_body f = zoom_err (λ r. r.raw_body) (λ r b. record r { raw_body = b }) f

  -- One byte of a size line. Its error goes through `kind`, and by `?` back into an `Error`.
  abbrev pub read_byte : Read B → Io (ChunkedBodyReader B) Error ℕ
  read_byte io = do
    bytes ← on_body (λ e. Error.network (kind (from_read_exact e))) (io.read_exact 1)
    pure (unwrap_or (get_elem? bytes 0) 0)

  -- `line` is the filled front of the header's buffer of ten bytes, and `room` what is left of it.
  unfoldable pub read_size : Read B → ℕ → Bytes → Io (ChunkedBodyReader B) Error Bytes
  read_size io zero line = fail Error.codec
  read_size io (suc room) line = do
    byte ← read_byte io
    if byte == b'\n'
        then (if ends_with_return line then pure line else fail Error.codec)
        else read_size io room (line ++ (byte ∷ []))

  unfoldable pub read_next_chunk_length :
      Target → Hex → Read B → Io (ChunkedBodyReader B) Error (Unit {0})
  read_next_chunk_length t h io = do
    line ← read_size io 10 []
    chunk_length ← decode_size t h line
    modify (λ r. record r { chunk_remaining = State.of_length chunk_length })

  unfoldable pub read_chunk_end : Read B → Io (ChunkedBodyReader B) Error (Unit {0})
  read_chunk_end io = do
    newline_buf ← on_body from_read_exact (io.read_exact 2)
    if bytes_eq newline_buf newline then pure tt else fail Error.codec

  -- The chunk that the next bytes are of: the current one, or the next if that is used up.
  unfoldable pub enter_chunk :
      Target → Hex → Read B → ChunkState → Io (ChunkedBodyReader B) Error (Unit {0})
  enter_chunk t h io ChunkState.no_chunk = read_next_chunk_length t h io
  enter_chunk t h io (ChunkState.not_empty zero) = do
    read_chunk_end io
    read_next_chunk_length t h io
  enter_chunk t h io (ChunkState.not_empty (suc n)) = pure tt
  enter_chunk t h io ChunkState.empty = pure tt

  -- The newline behind the empty chunk, and the bytes left in the chunk.
  unfoldable pub finish_boundary : Read B → Io (ChunkedBodyReader B) Error ℕ
  finish_boundary io = do
    last ← gets (λ r. State.is_empty r.chunk_remaining)
    if last then read_chunk_end io else pure tt
    gets (λ r. State.len r.chunk_remaining)

  unfoldable pub handle_chunk_boundary : Target → Hex → Read B → Io (ChunkedBodyReader B) Error ℕ
  handle_chunk_boundary t h io = do
    before ← gets (λ r. r.chunk_remaining)
    if State.is_empty before then pure 0 else (do enter_chunk t h io before; finish_boundary io)

  -- `self.chunk_remaining.consume(amt)`
  abbrev pub consume_chunk : ℕ → Io (ChunkedBodyReader B) Error ℕ
  consume_chunk amt r =
      let c = State.consume r.chunk_remaining amt in (ok c.0, record r { chunk_remaining = c.1 })

  unfoldable pub read : Target → Hex → Read B → ℕ → Io (ChunkedBodyReader B) Error Bytes
  read t h io n = do
    remaining ← handle_chunk_boundary t h io
    let max_len = min n remaining
    bytes ← on_body Error.network (io.read max_len)
    _ ← consume_chunk (length bytes)
    pure bytes

  unfoldable pub fill_buf : Target → Hex → Read B → BufRead B → Io (ChunkedBodyReader B) Error Bytes
  fill_buf t h io buf_io = do
    remaining ← handle_chunk_boundary t h io
    if remaining == 0 then pure [] else (do
      buf ← on_body Error.network buf_io.fill_buf
      pure (take (min (length buf) remaining) buf))

  unfoldable pub consume : BufRead B → ℕ → Io (ChunkedBodyReader B) Error (Unit {0})
  consume buf_io amt = do
    consumed ← consume_chunk amt
    on_body Error.network (buf_io.consume consumed)
