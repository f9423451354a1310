-- ===== src/Response/Collect.antt =====
-- response/mod.rs: `ResponseBody::read_to_end` and `ResponseBody::discard`.
use reqwless.Base.{ℕ, ◌-◌, [], ◌++◌, Bytes, length, take, leb, Option, some, if◌then◌else◌}
use reqwless.Base.{Outcome, ok, err, panic, Io}
use reqwless.Base.Words.{Target, sub_usize}
use reqwless.Hex.{Hex}
use reqwless.Errors.{Error, ReadExactError}
use reqwless.Connection.{Read}
use reqwless.Reader.{BufferingReader, TryBufRead}
use reqwless.Reader
use reqwless.Response.Chunked.{ChunkedBodyReader}
use reqwless.Response.Chunked
use reqwless.Response.Chunked.Collect.{buffering_read, front, tail}
use reqwless.Response.Chunked.Collect
use reqwless.Response.Body.{BodyReader, ReaderHint, ResponseBody, reader}
use reqwless.Response.Body

module _ {C : Type 0} where
  -- The connection that a reader has borrowed, if it is of one of the kinds used here.
  abbrev pub returned : C → BodyReader C → C
  returned c BodyReader.empty = c
  returned c (BodyReader.fixed_length r) = r.raw_body
  returned c (BodyReader.chunked r) = r.raw_body
  returned c (BodyReader.to_end b) = b

  -- `read` bytes were put behind those that came with the header.
  abbrev pub whole :
      ResponseBody C → C → Outcome Error Bytes × BodyReader C → Outcome Error (Option Bytes) × C
  whole self c (ok got, r) =
      (ok (some (take self.raw_body_read self.body_buf ++ got)), returned c r)
  whole self c (err x, r) = (err x, returned c r)
  whole self c (panic, r) = (panic, returned c r)

  abbrev pub stream_of :
      Outcome Error (Option Bytes) × ChunkedBodyReader (BufferingReader C)
      → Outcome Error (Option Bytes) × C
  stream_of (r, reader) = (r, reader.raw_body.stream)

  module _ (t : Target) (h : Hex) (io : Read C)
      (exact : ℕ → Io (BufferingReader C) ReadExactError Bytes) (tb : TryBufRead C) where
    -- `BodyReader::read_to_end` into the buffer behind the first bytes of the body.
    abbrev pub read_behind : ResponseBody C → BodyReader C → Outcome Error (Option Bytes) × C
    read_behind self body =
        if leb self.raw_body_read (length self.body_buf)
        then whole self self.conn
            (Body.read_to_end t h io (length self.body_buf - self.raw_body_read) body)
        else (panic, self.conn)

    abbrev pub fixed : ResponseBody C → Outcome Error ℕ → Outcome Error (Option Bytes) × C
    fixed self (ok remaining) =
        read_behind self
          (BodyReader.fixed_length (record { raw_body = self.conn; remaining = remaining }))
    fixed self (err x) = (err x, self.conn)
    fixed self panic = (panic, self.conn)

    abbrev pub by_hint : ℕ → ReaderHint → ResponseBody C → Outcome Error (Option Bytes) × C
    by_hint fuel ReaderHint.empty self = (ok (some []), self.conn)
    by_hint fuel (ReaderHint.fixed_length content_length) self =
        fixed self (sub_usize t content_length self.raw_body_read)
    by_hint fuel ReaderHint.chunked self = stream_of (
        Collect.read_to_end t h io exact tb fuel
          (Chunked.new (Reader.new self.body_buf self.raw_body_read self.conn)))
    by_hint fuel ReaderHint.to_end self = read_behind self (BodyReader.to_end self.conn)

    -- The result is what lies at the front of `body_buf`; `none` if the fuel of the chunked
    -- reader's loop runs out.
    unfoldable pub read_to_end : ℕ → ResponseBody C → Outcome Error (Option Bytes) × C
    read_to_end fuel self = by_hint fuel self.reader_hint self

    unfoldable pub discard :
        ℕ → ResponseBody C → Outcome Error (Option ℕ) × BodyReader (BufferingReader C)
    discard fuel self = Body.discard t h (buffering_read io exact) fuel 0 (reader self)
