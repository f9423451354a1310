-- ===== src/Response/Chunked/Collect.antt =====
-- response/chunked.rs: `ChunkedBodyReader::read_to_end`, over a `BufferingReader`.
use reqwless.Base.{
  ℕ, zero, suc, ◌+◌, [], ◌++◌, Bytes, length, take, drop, is_empty, min, leb, Option, none, some,
  if◌then◌else◌,
}
use reqwless.Base.{Outcome, ok, panic, Io, ◌>>=◌, ◌>>◌, pure, fail, lift, gets, modify}
use reqwless.Base.Words.{Target, sub_usize}
use reqwless.Hex.{Hex}
use reqwless.Errors.{Error, ReadExactError}
use reqwless.Connection.{Read}
use reqwless.Reader.{BufferingReader, TryBufRead, buffering_bufread}
use reqwless.Reader
use reqwless.Response.Chunked.{ChunkedBodyReader, fill_buf, consume, is_done}

-- `impl Read for BufferingReader`; `read_exact` is the trait's own.
abbrev pub buffering_read :
    {C : Type 0}
    → Read C
    → (ℕ → Io (BufferingReader C) ReadExactError Bytes)
    → Read (BufferingReader C)
buffering_read io exact = record { read = Reader.read io; read_exact = exact }

-- `&mut buf[from..]`
abbrev pub tail : {E : Type 0} → ℕ → Bytes → Outcome E Bytes
tail from buf = if leb from (length buf) then ok (drop from buf) else panic

-- `&mut buf[..to]`
abbrev pub front : {E : Type 0} → ℕ → Bytes → Outcome E Bytes
front to buf = if leb to (length buf) then ok (take to buf) else panic

module _ {C : Type 0} where
  abbrev pub loaded : ChunkedBodyReader (BufferingReader C) → ℕ
  loaded r = r.raw_body.buffer.loaded

  abbrev pub buffer : ChunkedBodyReader (BufferingReader C) → Bytes
  buffer r = r.raw_body.buffer.buffer

  abbrev pub set_loaded : {E : Type 0} → ℕ → Io (ChunkedBodyReader (BufferingReader C)) E (Unit {0})
  set_loaded n = modify (λ r. record r {
    raw_body = record r.raw_body { buffer = record r.raw_body.buffer { loaded = n } };
  })

  abbrev pub set_buffer :
      {E : Type 0} → Bytes → Io (ChunkedBodyReader (BufferingReader C)) E (Unit {0})
  set_buffer bytes = modify (λ r. record r {
    raw_body = record r.raw_body { buffer = record r.raw_body.buffer { buffer = bytes } };
  })

  module _ (t : Target) (h : Hex) (io : Read C)
      (exact : ℕ → Io (BufferingReader C) ReadExactError Bytes) (tb : TryBufRead C) where
    -- The part of a round behind `consume`: the reader's buffer begins behind what was taken from
    -- it. The result is what it leaves behind.
    unfoldable pub advance : ℕ → ℕ → Io (ChunkedBodyReader (BufferingReader C)) Error Bytes
    advance was_loaded fake_loaded = do
      now_loaded ← gets loaded
      consumed_from_buffer ← lift (sub_usize t fake_loaded now_loaded)
      still_loaded ← lift (sub_usize t was_loaded consumed_from_buffer)
      set_loaded still_loaded
      bytes ← gets buffer
      rest ← lift (tail consumed_from_buffer bytes)
      set_buffer rest
      pure (take consumed_from_buffer bytes)

    -- The loop. `left` is the part of the whole buffer in front of the reader's. The result is
    -- `none` if the fuel runs out.
    unfoldable pub gather :
        ℕ → ℕ → Bytes → Io (ChunkedBodyReader (BufferingReader C)) Error (Option (ℕ × Bytes))
    gather zero len left = pure none
    gather (suc fuel) len left = do
      room ← gets buffer
      if is_empty room then pure (some (len, left)) else (do
        bytes ← fill_buf t h (buffering_read io exact) (buffering_bufread io tb)
        was_loaded ← gets loaded
        set_loaded (min (length bytes) was_loaded)
        consume (buffering_bufread io tb) (length bytes)
        done ← gets is_done
        if done then pure (some (len + length bytes, left)) else (do
          passed ← advance was_loaded (min (length bytes) was_loaded)
          gather fuel (len + length bytes) (left ++ passed)))

    -- Behind the loop: the front of the whole buffer, if the body is done.
    abbrev pub gathered :
        Option (ℕ × Bytes) → Io (ChunkedBodyReader (BufferingReader C)) Error (Option Bytes)
    gathered none = pure none
    gathered (some (len, left)) = do
      done ← gets is_done
      bytes ← gets buffer
      if done
          then (do body ← lift (front len (left ++ bytes)); pure (some body))
          else fail Error.buffer_too_small

    unfoldable pub read_to_end : ℕ → Io (ChunkedBodyReader (BufferingReader C)) Error (Option Bytes)
    read_to_end fuel = do result ← gather fuel 0 []; gathered result
