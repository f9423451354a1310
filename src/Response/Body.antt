-- ===== src/Response/Body.antt =====
-- response/mod.rs: `BodyReader`, `ReaderHint` and `ResponseBody::reader`.
pub mod Laws
pub mod Chunks
pub mod Whole
use reqwless.Base.{
  ℕ, zero, suc, ◌+◌, ◌-◌, ◌==◌, [], ◌++◌, Bool, true, false, Bytes, length, is_empty, ltb, Option,
  none, some, if◌then◌else◌,
}
use reqwless.Base.{Io, Outcome, ok, err, panic, ◌>>=◌, pure, fail, lift, gets, map_err}
use reqwless.Base.Words.{Target, add_usize}
use reqwless.Errors.{Error, ErrorKind}
use reqwless.Connection.{Read, BufRead}
use reqwless.Hex.{Hex}
use reqwless.Reader.{BufferingReader}
use reqwless.Reader
use reqwless.Response.FixedLength.{FixedLengthBodyReader}
use reqwless.Response.FixedLength
use reqwless.Response.Chunked.{ChunkedBodyReader}
use reqwless.Response.Chunked

pub data BodyReader (B : Type 0) : Type 0 where
  empty : BodyReader B
  fixed_length : FixedLengthBodyReader B → BodyReader B
  chunked : ChunkedBodyReader B → BodyReader B
  to_end : B → BodyReader B

pub data ReaderHint : Type 0 where
  empty : ReaderHint
  fixed_length : ℕ → ReaderHint
  chunked : ReaderHint
  to_end : ReaderHint

pub record ResponseBody (C : Type 0) : Type 0 where
  pub conn : C
  pub reader_hint : ReaderHint
  pub raw_body_read : ℕ
  pub body_buf : Bytes

-- `ReaderHint::reader`
unfoldable pub hinted_reader : {R : Type 0} → ReaderHint → R → BodyReader R
hinted_reader ReaderHint.empty raw_body = BodyReader.empty
hinted_reader (ReaderHint.fixed_length content_length) raw_body =
    BodyReader.fixed_length (record { raw_body = raw_body; remaining = content_length })
hinted_reader ReaderHint.chunked raw_body = BodyReader.chunked (Chunked.new raw_body)
hinted_reader ReaderHint.to_end raw_body = BodyReader.to_end raw_body

-- `ResponseBody::reader`
abbrev pub reader : {C : Type 0} → ResponseBody C → BodyReader (BufferingReader C)
reader self = hinted_reader self.reader_hint (Reader.new self.body_buf self.raw_body_read self.conn)

module _ {B : Type 0} where
  unfoldable pub is_done : BodyReader B → Bool
  is_done BodyReader.empty = true
  is_done (BodyReader.fixed_length reader) = reader.remaining == 0
  is_done (BodyReader.chunked reader) = Chunked.is_done reader
  is_done (BodyReader.to_end b) = false

  -- The answer of a call on the reader inside.
  abbrev inside :
      {R E A : Type 0} → (R → BodyReader B) → Outcome E A × R → Outcome E A × BodyReader B
  inside f (r, s) = (r, f s)

  abbrev network : {A : Type 0} → Outcome ErrorKind A × B → Outcome Error A × B
  network (r, s) = (map_err Error.network r, s)

  unfoldable pub read : Target → Hex → Read B → ℕ → Io (BodyReader B) Error Bytes
  read t h io n BodyReader.empty = (ok [], BodyReader.empty)
  read t h io n (BodyReader.fixed_length r) =
      inside BodyReader.fixed_length (FixedLength.read t io n r)
  read t h io n (BodyReader.chunked r) = inside BodyReader.chunked (Chunked.read t h io n r)
  read t h io n (BodyReader.to_end b) = inside BodyReader.to_end (network (io.read n b))

  unfoldable pub fill_buf : Target → Hex → Read B → BufRead B → Io (BodyReader B) Error Bytes
  fill_buf t h io buf_io BodyReader.empty = (ok [], BodyReader.empty)
  fill_buf t h io buf_io (BodyReader.fixed_length r) =
      inside BodyReader.fixed_length (FixedLength.fill_buf buf_io r)
  fill_buf t h io buf_io (BodyReader.chunked r) =
      inside BodyReader.chunked (Chunked.fill_buf t h io buf_io r)
  fill_buf t h io buf_io (BodyReader.to_end b) =
      inside BodyReader.to_end (network (buf_io.fill_buf b))

  unfoldable pub consume : BufRead B → ℕ → Io (BodyReader B) Error (Unit {0})
  consume buf_io amt BodyReader.empty = (ok tt, BodyReader.empty)
  consume buf_io amt (BodyReader.fixed_length r) =
      inside BodyReader.fixed_length (FixedLength.consume buf_io amt r)
  consume buf_io amt (BodyReader.chunked r) =
      inside BodyReader.chunked (Chunked.consume buf_io amt r)
  consume buf_io amt (BodyReader.to_end b) =
      inside BodyReader.to_end (network (buf_io.consume amt b))

  module _ (t : Target) (h : Hex) (io : Read B) where
    -- `got` lies at the front of a buffer of `n` bytes. Each round adds a byte at least, so that
    -- where the fuel is the room that is left, the buffer is full when it runs out.
    unfoldable pub read_until_full : ℕ → ℕ → Bytes → Io (BodyReader B) Error Bytes
    read_until_full zero n got = pure got
    read_until_full (suc fuel) n got =
        if ltb (length got) n
        then (do
          bytes ← read t h io (n - length got)
          if is_empty bytes then pure got else read_until_full fuel n (got ++ bytes))
        else pure got

    -- Whether there is more of the body than the `len` bytes that were read into `n`.
    unfoldable pub has_more : ℕ → ℕ → Io (BodyReader B) Error Bool
    has_more len n (BodyReader.fixed_length r) = (ok true, BodyReader.fixed_length r)
    has_more len n (BodyReader.to_end b) =
        if len == n then one_more (io.read 1 b) else (ok false, BodyReader.to_end b)
      where
        one_more : Outcome ErrorKind Bytes × B → Outcome Error Bool × BodyReader B
        one_more (ok bytes, b') = (ok (length bytes == 1), BodyReader.to_end b')
        one_more (err x, b') = (ok false, BodyReader.to_end b')
        one_more (panic, b') = (panic, BodyReader.to_end b')
    has_more len n r = (ok true, r)

    -- Into a buffer of `n` bytes; the result is what lies at its front.
    unfoldable pub read_to_end : ℕ → Io (BodyReader B) Error Bytes
    read_to_end n = do
      got ← read_until_full n n []
      done ← gets is_done
      more ← if done then pure false else has_more (length got) n
      if more then fail Error.buffer_too_small else pure got

    -- `none` if the fuel runs out; the bytes of a round are read into 128 bytes and dropped.
    unfoldable pub discard : ℕ → ℕ → Io (BodyReader B) Error (Option ℕ)
    discard zero body_len = pure none
    discard (suc fuel) body_len = do
      bytes ← read t h io 128
      if is_empty bytes
          then pure (some body_len)
          else (do total ← lift (add_usize t body_len (length bytes)); discard fuel total)
