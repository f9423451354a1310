-- ===== src/Response/Body/Whole.antt =====
-- response/mod.rs: `Response::read`, `body`, `reader` and `read_to_end`, one behind the other.
use reqwless.Base.{ℕ, ◌≤◌, ◌<◌, ◌^◌, ◌≡◌, sym, ◌∙◌, ◌⊎◌, [], ◌++◌, Bytes, length, take, split_at}
use reqwless.Base.{ok, Io, Ends, Ends-at, append_cancel_left}
use reqwless.Base.Words.{Target, IsTarget, IsUsize}
use reqwless.Errors.{Error, ReadExactError}
use reqwless.Connection.{Read, IsRead}
use reqwless.Connection.Failure.{IsFailure}
use reqwless.Hex.{Hex, IsHex}
use reqwless.Request.{Method}
use reqwless.Reader.{BufferingReader}
use reqwless.Reader
use reqwless.Reader.Laws.{IsLoaded, all_unread, buffering-read_lem}
use reqwless.BodyWriter.Header.{empty_chunk}
use reqwless.BodyWriter.Body.{IsChunked}
use reqwless.Response.Chunked
use reqwless.Response.Chunked.Collect.{buffering_read}
use reqwless.Response.Chunked.RoundTrip.{IsChunked-IsReading}
use reqwless.Response.Body.{
  BodyReader, ReaderHint, ResponseBody, hinted_reader, reader, read_to_end,
}
use reqwless.Response.Body.Chunks.{Rest, chunked-read_to_end}
use reqwless.Response.Parsed.{Response, body, reader_hint}
use reqwless.Response.Read.{Crates, read}
use reqwless.Response.Read.Search.{IsCrates}
use reqwless.Response.Read.Laws.{read-body}

-- What `read_exact`, the trait's own, promises of a `BufferingReader`.
abbrev pub IsExact :
    {C : Type 0} (io : Read C) (Inv : C → Type 0) (unread : C → Bytes)
    → IsRead io Inv unread
    → (ℕ → Io (BufferingReader C) ReadExactError Bytes)
    → Type 0
IsExact {C} io Inv unread law exact =
    (n : ℕ) (r : BufferingReader C)
    → IsLoaded io Inv unread law r
    → Ends (exact n r)
        (λ bs r'.
          IsLoaded io Inv unread law r'
          × (length bs ≡ n)
          × (all_unread io Inv unread law r ≡ bs ++ all_unread io Inv unread law r'))
        (λ _ _. Unit {0})

module _ {C : Type 0} (io : Read C) (Inv : C → Type 0) (unread : C → Bytes)
    (law : IsRead io Inv unread) (exact : ℕ → Io (BufferingReader C) ReadExactError Bytes)
    (is_exact : IsExact io Inv unread law exact) where
  pub buffering-IsRead :
      IsRead (buffering_read io exact) (IsLoaded io Inv unread law) (all_unread io Inv unread law)
  buffering-IsRead = record {
    read_lem = buffering-read_lem io Inv unread law;
    read_exact_lem = is_exact;
  }

  -- The reader of a body has the bytes in its buffer loaded.
  new-IsLoaded :
      (b : ResponseBody C)
      → Inv b.conn
      → b.raw_body_read ≤ length b.body_buf
      → IsLoaded io Inv unread law (Reader.new b.body_buf b.raw_body_read b.conn)
  new-IsLoaded b v le =
      let (front, rest, e, l) = split_at b.raw_body_read b.body_buf le in
      record { front = front; rest = rest; shape = rw (e, l); inner = v }

  module _ (t t' : Target) (h : Hex) (is_hex : IsHex h) (wide : IsTarget t') (tail : Bytes) where
    -- What `read_to_end` on a chunked body ends in, if it was written as `payload`.
    abbrev pub Whole : Bytes → ℕ → BodyReader (BufferingReader C) → Type 0
    Whole payload n r =
        Ends (read_to_end t h (buffering_read io exact) n r)
          (λ out r'.
            (out ≡ payload)
            × Rest (buffering_read io exact) (IsLoaded io Inv unread law)
                (all_unread io Inv unread law) buffering-IsRead t t' h is_hex wide tail [] r')
          (λ x _.
            IsFailure (buffering_read io exact) x
            ⊎ ((x ≡ Error.buffer_too_small) × (n ≤ length payload)))

    body_lem :
        (b : ResponseBody C) (payload wire : Bytes) (n : ℕ)
        → b.reader_hint ≡ ReaderHint.chunked
        → Inv b.conn
        → b.raw_body_read ≤ length b.body_buf
        → IsChunked t' payload wire
        → length payload < 2 ^ 32
        → IsUsize t' (length payload)
        → take b.raw_body_read b.body_buf ++ unread b.conn ≡ wire ++ (empty_chunk ++ tail)
        → Whole payload n (reader b)
    unfolding hinted_reader
    body_lem b payload wire n hint v le c small fits e = rw hint (
        chunked-read_to_end (buffering_read io exact) (IsLoaded io Inv unread law)
          (all_unread io Inv unread law) buffering-IsRead t t' h is_hex wide tail n payload
          (Chunked.new (Reader.new b.body_buf b.raw_body_read b.conn))
          (IsChunked-IsReading (buffering_read io exact) (IsLoaded io Inv unread law)
            (all_unread io Inv unread law) buffering-IsRead t t' h is_hex wide tail
            (Reader.new b.body_buf b.raw_body_read b.conn) payload wire (new-IsLoaded b v le) c
            small fits e))

    -- A response is read, whose header is followed by chunks that carry `payload`, by the empty chunk
    -- and by `tail`, and which has a chunked body: then `body` does not panic, and `read_to_end` of its
    -- reader, into a buffer of any length, ends. It returns exactly the payload, with the body read to
    -- its end, however much of it came with the header; or it fails, with an error of the connection,
    -- or for want of a larger buffer, and that only if the payload is not shorter than the buffer. The
    -- connection, the parser and the crate of hexadecimal digits keep to their interfaces,
    -- `read_exact` is as documented, and the payload's length is below 2 to the 32 and a `usize` of
    -- the writer.
    pub read-read_to_end :
        {E : Type 0} (crates : Crates) (is_crates : IsCrates crates) (method : Method)
        (header_buf : Bytes) (c c' : C) (r : Response C) (payload wire : Bytes) (n : ℕ)
        → Inv c
        → read crates io t method header_buf c ≡ (ok r, c')
        → reader_hint r ≡ ReaderHint.chunked
        → unread c ≡ take r.header_len r.header_buf ++ (wire ++ (empty_chunk ++ tail))
        → IsChunked t' payload wire
        → length payload < 2 ^ 32
        → IsUsize t' (length payload)
        → (b : ResponseBody C) × (body {E = E} r ≡ ok b) × Whole payload n (reader b)
    read-read_to_end {E} crates is_crates method header_buf c c' r payload wire n v e hint u k small
          fits =
        let (b, eb, vb, hb, _, lb, ub) =
          Ends-at r c' e
            (read-body t crates is_crates io Inv unread law {E = E} method header_buf c v) in
        (
          b,
          eb,
          body_lem b payload wire n (hb ∙ hint) vb lb k small fits
              (append_cancel_left (take r.header_len r.header_buf) _ _ (sym ub ∙ u)),
        )
