-- ===== src/Reader.antt =====
-- reader.rs: `BufferingReader`, and the trait `TryBufRead` of lib.rs.
pub mod Buffer
pub mod Laws
use reqwless.Base.{
  ℕ, ◌+◌, ◌-◌, Bool, true, false, Option, none, some, ◌++◌, Bytes, length, drop, ltb, if◌then◌else◌,
}
use reqwless.Base.{Outcome, ok, err, panic, Io, ◌>>=◌, ◌>>◌, pure, lift, gets, modify, zoom}
use reqwless.Errors.{ErrorKind}
use reqwless.Connection.{Read, BufRead}
use reqwless.Reader.Buffer.{ReadBuffer}
use reqwless.Reader.Buffer

-- A reader that may have a buffer of its own. The trait's own methods are those of `no_buffer`.
pub record TryBufRead (B : Type 0) : Type 0 where
  pub try_fill_buf : B → Option (Outcome ErrorKind Bytes) × B
  pub try_consume : ℕ → B → B

abbrev pub no_buffer : {B : Type 0} → TryBufRead B
no_buffer = record { try_fill_buf = λ b. (none, b); try_consume = λ _ b. b }

pub record BufferingReader (B : Type 0) : Type 0 where
  pub buffer : ReadBuffer
  pub stream : B

abbrev answer : Option (Outcome ErrorKind Bytes) → Outcome ErrorKind Bytes
answer none = panic
answer (some result) = result

abbrev has_answer : Option (Outcome ErrorKind Bytes) → Bool
has_answer none = false
has_answer (some result) = true

module _ {B : Type 0} where
  abbrev pub new : Bytes → ℕ → B → BufferingReader B
  new buffer loaded stream = record { buffer = Buffer.new buffer loaded; stream = stream }

  abbrev on_buffer : {E A : Type 0} → Io ReadBuffer E A → Io (BufferingReader B) E A
  on_buffer = zoom (λ r. r.buffer) (λ r b. record r { buffer = b })

  abbrev on_stream : {E A : Type 0} → Io B E A → Io (BufferingReader B) E A
  on_stream = zoom (λ r. r.stream) (λ r s. record r { stream = s })

  -- Reading into a slice of `n` bytes.
  unfoldable pub read : Read B → ℕ → Io (BufferingReader B) ErrorKind Bytes
  read io n = do
    empty ← gets (λ r. Buffer.is_empty r.buffer)
    if empty then on_stream (io.read n) else on_buffer (Buffer.read n)

  -- What lies at the front of the buffer after a read into all of it.
  abbrev load : Bytes → BufferingReader B → BufferingReader B
  load bytes r = record r {
    buffer = record {
      buffer = bytes ++ drop (length bytes) r.buffer.buffer;
      loaded = length bytes;
    };
  }

  -- The stream's own buffer, where it has one, is asked twice; else the buffer is filled.
  unfoldable pub fill_empty : Read B → TryBufRead B → Io (BufferingReader B) ErrorKind Bytes
  fill_empty io tb = do
    first ← on_stream (λ s. let r = tb.try_fill_buf s in (ok r.0, r.1))
    if has_answer first
        then (do
          second ← on_stream (λ s. let r = tb.try_fill_buf s in (ok r.0, r.1))
          lift (answer second))
        else (do
          room ← gets (λ r. length r.buffer.buffer)
          bytes ← on_stream (io.read room)
          modify (load bytes)
          on_buffer Buffer.fill_buf)

  unfoldable pub fill_buf : Read B → TryBufRead B → Io (BufferingReader B) ErrorKind Bytes
  fill_buf io tb = do
    empty ← gets (λ r. Buffer.is_empty r.buffer)
    if empty then fill_empty io tb else on_buffer Buffer.fill_buf

  unfoldable pub consume : {E : Type 0} → TryBufRead B → ℕ → Io (BufferingReader B) E (Unit {0})
  consume tb amt = do
    unconsumed ← on_buffer (Buffer.consume amt)
    if ltb 0 unconsumed
        then modify (λ r. record r { stream = tb.try_consume unconsumed r.stream })
        else pure tt

  -- `impl BufRead for BufferingReader`
  abbrev pub buffering_bufread : Read B → TryBufRead B → BufRead (BufferingReader B)
  buffering_bufread io tb = record { fill_buf = fill_buf io tb; consume = consume tb }
