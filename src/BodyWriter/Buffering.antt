-- ===== src/BodyWriter/Buffering.antt =====
-- body_writer/buffering_chunked.rs: `BufferingChunkedBodyWriter`.
-- Sums of positions stay at most a few bytes above the buffer's length, which Rust bounds by
-- `isize::MAX`, so only the subtractions can overflow.
pub mod Size
pub mod Layout
pub mod Moves
pub mod Finish
pub mod Emit
pub mod Append
pub mod Sends
pub mod Writes
pub mod Calls
pub mod Flush
pub mod Pending
pub mod Terminate
pub mod Session
pub mod Faults
use reqwless.Base.{ℕ, ◌+◌, ◌-◌, ◌*◌, ◌==◌, Bool, true, false, not, Option, none, some}
use reqwless.Base.{Bytes, length, take, is_empty, leb, ltb, min, if◌then◌else◌}
use reqwless.Base.{
  Outcome, ok, panic, Io, ◌>>=◌, ◌>>◌, pure, lift, gets, modify, check, zoom, read_slice,
  copy_from_slice, copy_within, within,
}
use reqwless.Base.Words.{Target, bits, sub_usize, leading_zeros, div_ceil}
use reqwless.Hex.{Hex}
use reqwless.Errors.{ErrorKind}
use reqwless.Connection.{Write}
use reqwless.BodyWriter.Header.{newline, empty_chunk, write_chunked_header}

-- `header_pos` is where the chunk's header starts, `allocated_header` the room kept for it, and
-- `pos` is where the next byte of the payload goes.
pub record BufferingChunkedBodyWriter (C : Type 0) : Type 0 where
  pub conn : C
  pub buf : Bytes
  pub header_pos : ℕ
  pub allocated_header : ℕ
  pub pos : ℕ
  pub terminated : Bool

unfoldable pub get_num_hex_chars : Target → ℕ → ℕ
get_num_hex_chars t number =
    if number == 0 then 1 else div_ceil (bits t - leading_zeros (bits t) number) 4

-- `checked_sub`
abbrev checked_sub : ℕ → ℕ → Option ℕ
checked_sub a b = if leb b a then some (a - b) else none

abbrev header_size : Target → Option ℕ → ℕ
header_size t none = 0
header_size t (some n) = get_num_hex_chars t n + length newline

unfoldable pub get_max_chunk_header_size : Target → ℕ → ℕ
get_max_chunk_header_size t buffer_size =
    header_size t (checked_sub buffer_size (2 * length newline))

-- `panic` is a failed assertion. The subtraction follows its assertion, so it cannot overflow.
unfoldable pub new_with_data :
    {C E : Type 0} → Target → C → Bytes → ℕ → Outcome E (BufferingChunkedBodyWriter C)
new_with_data t conn buf written =
    if leb written (length buf)
    then (let allocated_header = get_max_chunk_header_size t (length buf - written) in
        if ltb (allocated_header + length newline) (length buf)
        then ok (record {
          conn = conn;
          buf = buf;
          header_pos = written;
          allocated_header = allocated_header;
          pos = written + allocated_header;
          terminated = false;
        })
        else panic)
    else panic

module _ {C : Type 0} where
  abbrev on_buf : {E A : Type 0} → Io Bytes E A → Io (BufferingChunkedBodyWriter C) E A
  on_buf = zoom (λ w. w.buf) (λ w b. record w { buf = b })

  abbrev on_conn : {E A : Type 0} → Io C E A → Io (BufferingChunkedBodyWriter C) E A
  on_conn = zoom (λ w. w.conn) (λ w c. record w { conn = c })

  unfoldable pub append_current_chunk : {E : Type 0} → Bytes → Io (BufferingChunkedBodyWriter C) E ℕ
  append_current_chunk bs w =
      let buffered = min (length bs) (length w.buf - (2 + w.pos)) in
      if ltb 0 buffered
      then ((do
        on_buf (copy_from_slice w.pos (w.pos + buffered) (take buffered bs))
        modify (λ v. record v { pos = v.pos + buffered })
        pure buffered)
          w)
      else (pure buffered w)

  unfoldable pub current_chunk_is_full : BufferingChunkedBodyWriter C → Bool
  current_chunk_is_full w = w.pos + length newline == length w.buf

  -- Bytes are written in the current chunk.
  unfoldable pub has_payload : BufferingChunkedBodyWriter C → Bool
  has_payload w = ltb (w.header_pos + w.allocated_header) w.pos

  module _ (t : Target) (h : Hex) where
    -- The payload moves down where the header is shorter than the room kept for it.
    unfoldable pub move_payload :
        {E : Type 0} → ℕ → ℕ → Io (BufferingChunkedBodyWriter C) E (Unit {0})
    move_payload header_len spacing w =
        if ltb 0 spacing
        then ((do
          on_buf (copy_within (w.header_pos + w.allocated_header) w.pos (w.header_pos + header_len))
          pos ← lift (sub_usize t w.pos spacing)
          modify (λ v. record v { pos = pos }))
            w)
        else (pure tt w)

    -- A new chunk starts at `pos`.
    unfoldable pub open_chunk : {E : Type 0} → Io (BufferingChunkedBodyWriter C) E (Unit {0})
    open_chunk = do
      modify (λ w. record w { header_pos = w.pos })
      left ← (λ w. lift (sub_usize t (length w.buf) w.header_pos) w)
      modify (λ w. record w { allocated_header = get_max_chunk_header_size t left })
      modify (λ w. record w { pos = w.header_pos + w.allocated_header })

    -- The footer goes behind the payload.
    unfoldable pub close_chunk : {E : Type 0} → Io (BufferingChunkedBodyWriter C) E (Unit {0})
    close_chunk = do
      w ← gets (λ w. w)
      on_buf (copy_from_slice w.pos (w.pos + length newline) newline)
      modify (λ w. record w { pos = w.pos + 2 })
      open_chunk

    unfoldable pub finish_current_chunk :
        {E : Type 0} → Io (BufferingChunkedBodyWriter C) E (Unit {0})
    finish_current_chunk = do
      w ← gets (λ w. w)
      behind ← lift (sub_usize t w.pos w.header_pos)
      chunk_len ← lift (sub_usize t behind w.allocated_header)
      header_len ← on_buf (
          within w.header_pos (w.header_pos + w.allocated_header)
            (write_chunked_header t h chunk_len))
      spacing ← lift (sub_usize t w.allocated_header header_len)
      move_payload header_len spacing
      close_chunk

  module _ (t : Target) (h : Hex) (conn : Write C) where
    unfoldable pub emit_buffered : Io (BufferingChunkedBodyWriter C) ErrorKind (Unit {0})
    emit_buffered = do
      w ← gets (λ w. w)
      front ← on_buf (read_slice 0 w.header_pos)
      on_conn (conn.write_all front)
      modify (λ v. record v { header_pos = 0 })
      modify (λ v. record v { allocated_header = get_max_chunk_header_size t (length v.buf) })
      modify (λ v. record v { pos = v.allocated_header })

    unfoldable pub finish_pending : Io (BufferingChunkedBodyWriter C) ErrorKind (Unit {0})
    finish_pending = do
      pending ← gets has_payload
      if pending then finish_current_chunk t h else pure tt

    unfoldable pub make_room : Io (BufferingChunkedBodyWriter C) ErrorKind (Unit {0})
    make_room = do
      full ← gets (λ w. ltb (length w.buf) (w.header_pos + length empty_chunk))
      if full then emit_buffered else pure tt

    unfoldable pub append_empty_chunk : Io (BufferingChunkedBodyWriter C) ErrorKind (Unit {0})
    append_empty_chunk = do
      w ← gets (λ w. w)
      on_buf (copy_from_slice w.header_pos (w.header_pos + length empty_chunk) empty_chunk)
      modify (λ v. record v { header_pos = v.header_pos + length empty_chunk })
      modify (λ v. record v { allocated_header = 0 })
      modify (λ v. record v { pos = v.header_pos + v.allocated_header })

    unfoldable pub terminate : Io (BufferingChunkedBodyWriter C) ErrorKind (Unit {0})
    terminate = do
      started ← gets (λ w. w.terminated)
      check (not started)
      finish_pending
      make_room
      append_empty_chunk
      emit_buffered
      modify (λ v. record v { terminated = true })

    -- The second half of `write`: a full chunk is finished and sent.
    unfoldable pub settle : ℕ → Io (BufferingChunkedBodyWriter C) ErrorKind ℕ
    settle written = do
      full ← gets current_chunk_is_full
      if full then (finish_current_chunk t h >> emit_buffered) else pure tt
      pure written

    unfoldable pub write : Bytes → Io (BufferingChunkedBodyWriter C) ErrorKind ℕ
    write bs = if is_empty bs then pure 0 else (do
      written ← append_current_chunk bs
      written ← if written == 0 then (emit_buffered >> append_current_chunk bs) else pure written
      settle written)

    unfoldable pub flush : Io (BufferingChunkedBodyWriter C) ErrorKind (Unit {0})
    flush = do
      pending ← gets has_payload
      front ← gets (λ w. ltb 0 w.header_pos)
      if pending
          then (finish_current_chunk t h >> emit_buffered)
          else (if front then emit_buffered else pure tt)
      on_conn conn.flush
