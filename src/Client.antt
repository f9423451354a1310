-- ===== src/Client.antt =====
-- client.rs: `HttpConnection`, with the requests that it sends.
pub mod Send
pub mod Handle
pub mod Resource
pub mod Connect
pub mod Carriers
pub mod Bodies
pub mod Wire
pub mod Exchange
pub mod Buffer
use reqwless.Base.{ℕ, ◌==◌, not, Bytes, Option, none, some, if◌then◌else◌}
use reqwless.Base.{
  Outcome, ok, err, panic, Io, ◌>>=◌, ◌>>◌, pure, fail, zoom_err, map_err, and_then,
}
use reqwless.Base.Words.{Target}
use reqwless.Hex.{Hex}
use reqwless.Errors.{Error, ErrorKind, ReadExactError, from_kind}
use reqwless.Connection.{Write, Read}
use reqwless.BodyWriter.Fixed.{FixedBodyWriter}
use reqwless.BodyWriter.Fixed
use reqwless.BodyWriter.Fixed.Laws.{fixed_write}
use reqwless.BodyWriter.Chunked
use reqwless.BodyWriter.Chunked.Laws.{chunked_write}
use reqwless.BodyWriter.Buffering.{BufferingChunkedBodyWriter, new_with_data}
use reqwless.BodyWriter.Buffering
use reqwless.BodyWriter.Buffering.Session.{buffering_write}
use reqwless.Request.{Request}
use reqwless.Request.Body.{RequestBody}
use reqwless.Request.Head.{Encoders, write_header}
use reqwless.Response.Parsed.{Response}
use reqwless.Response.Read.{Crates}
use reqwless.Response.Read

-- `tls` is a session of the TLS crate; without such a crate, `S` has no value.
pub data HttpConnection (C W S : Type 0) : Type 0 where
  plain : C → HttpConnection C W S
  plain_buffered : W → HttpConnection C W S
  tls : S → HttpConnection C W S

-- The connections of other crates: the network's `C`, `BufferedWrite` of the crate `buffered_io`
-- and the session of a TLS crate.
pub record Transport (C W S : Type 0) : Type 0 where
  pub plain_write : Write C
  pub plain_read : Read C
  pub buffered_write : Write W
  pub buffered_read : Read W
  pub tls_write : Write S
  pub tls_read : Read S
  -- `BufferedWrite::new`
  pub new_buffered : C → Bytes → W
  -- `split` lends the connection and the buffer, with the number of bytes that are not written.
  pub split : W → C × Bytes × ℕ
  -- What was lent comes back.
  pub rejoin : C → Bytes → W → W
  pub clear : W → W

-- The methods that the traits `Write` and `Read` provide, as the source does not define them.
pub record Provided (C W S : Type 0) : Type 0 where
  pub write_all : Bytes → Io (HttpConnection C W S) ErrorKind (Unit {0})
  pub read_exact : ℕ → Io (HttpConnection C W S) ReadExactError Bytes
  pub chunk_write_all : Bytes → Io (BufferingChunkedBodyWriter C) ErrorKind (Unit {0})

module _ {C W S : Type 0} where
  -- A call on the connection inside.
  abbrev pub wrapped :
      {X E A : Type 0}
      → (X → HttpConnection C W S)
      → Outcome E A × X
      → Outcome E A × HttpConnection C W S
  wrapped f (r, x) = (r, f x)

  module _ (net : Transport C W S) where
    unfoldable pub read : ℕ → Io (HttpConnection C W S) ErrorKind Bytes
    read n (HttpConnection.plain c) = wrapped HttpConnection.plain (net.plain_read.read n c)
    read n (HttpConnection.plain_buffered w) =
        wrapped HttpConnection.plain_buffered (net.buffered_read.read n w)
    read n (HttpConnection.tls s) = wrapped HttpConnection.tls (net.tls_read.read n s)

    unfoldable pub write : Bytes → Io (HttpConnection C W S) ErrorKind ℕ
    write bs (HttpConnection.plain c) = wrapped HttpConnection.plain (net.plain_write.write bs c)
    write bs (HttpConnection.plain_buffered w) =
        wrapped HttpConnection.plain_buffered (net.buffered_write.write bs w)
    write bs (HttpConnection.tls s) = wrapped HttpConnection.tls (net.tls_write.write bs s)

    unfoldable pub flush : Io (HttpConnection C W S) ErrorKind (Unit {0})
    flush (HttpConnection.plain c) = wrapped HttpConnection.plain (net.plain_write.flush c)
    flush (HttpConnection.plain_buffered w) =
        wrapped HttpConnection.plain_buffered (net.buffered_write.flush w)
    flush (HttpConnection.tls s) = wrapped HttpConnection.tls (net.tls_write.flush s)

    unfoldable pub into_buffered : HttpConnection C W S → Bytes → HttpConnection C W S
    into_buffered (HttpConnection.plain c) tx_buf =
        HttpConnection.plain_buffered (net.new_buffered c tx_buf)
    into_buffered (HttpConnection.plain_buffered w) tx_buf = HttpConnection.plain_buffered w
    into_buffered (HttpConnection.tls s) tx_buf = HttpConnection.tls s

    module _ (own : Provided C W S) where
      abbrev pub http_write : Write (HttpConnection C W S)
      http_write = record { write = write; write_all = own.write_all; flush = flush }

      abbrev pub http_read : Read (HttpConnection C W S)
      http_read = record { read = read; read_exact = own.read_exact }
