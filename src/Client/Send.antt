-- ===== src/Client/Send.antt =====
-- client.rs: `HttpConnection::write_request` and `send`.
use reqwless.Base.{ℕ, zero, suc, ◌==◌, not, Bytes, Option, none, some, if◌then◌else◌}
use reqwless.Base.{Outcome, ok, err, panic, Io, ◌>>◌, pure, zoom_err}
use reqwless.Base.Words.{Target}
use reqwless.Hex.{Hex}
use reqwless.Errors.{Error, ErrorKind, from_kind}
use reqwless.Connection.{Write}
use reqwless.BodyWriter.Fixed.{FixedBodyWriter, written}
use reqwless.BodyWriter.Fixed
use reqwless.BodyWriter.Fixed.Laws.{fixed_write}
use reqwless.BodyWriter.Chunked
use reqwless.BodyWriter.Chunked.Laws.{chunked_write}
use reqwless.BodyWriter.Buffering.{BufferingChunkedBodyWriter, new_with_data}
use reqwless.BodyWriter.Buffering
use reqwless.BodyWriter.Buffering.Session.{buffering_write}
use reqwless.Request.{Request}
use reqwless.Request.Body.{RequestBody}
use reqwless.Request.Head.{Encoders, write_header}
use reqwless.Response.Parsed.{Response}
use reqwless.Response.Read.{Crates}
use reqwless.Response.Read
use reqwless.Client.{HttpConnection, Transport, Provided, wrapped, http_write, http_read, flush}

-- The error of a connection or of a writer, at its kind.
abbrev pub network : {X A : Type 0} → Io X ErrorKind A → Io X Error A
network = zoom_err (λ x. x) (λ _ x. x) from_kind

-- The body as the fixed writer takes it: its count is compared with the length that was announced.
abbrev pub check_written :
    {C : Type 0}
    → ℕ
    → Outcome ErrorKind (Unit {0}) × FixedBodyWriter C
    → Outcome Error (Unit {0}) × C
check_written len (ok _, writer) =
    (if not (written writer == len) then err Error.incorrect_body_written else ok tt, writer.conn)
check_written len (err x, writer) = (err (from_kind x), writer.conn)
check_written len (panic, writer) = (panic, writer.conn)

unfoldable pub write_fixed :
    {C B : Type 0} → Target → Write C → RequestBody B → B → ℕ → Io C Error (Unit {0})
write_fixed t conn b body len c =
    check_written len (b.write (fixed_write t conn) body (Fixed.new c))

unfoldable pub write_chunked :
    {C B : Type 0} → Target → Hex → Write C → RequestBody B → B → Io C Error (Unit {0})
write_chunked t h conn b body = do
  network (b.write (chunked_write t h conn) body)
  network (Chunked.terminate t h conn)

module _ {C W S : Type 0} (t : Target) (h : Hex) (net : Transport C W S)
    (own : Provided C W S) where
  -- The buffering writer takes over the connection, the buffer and the bytes in it. They come back
  -- however it ends, and the buffer is cleared where it ends well.
  abbrev pub given_back :
      W → Outcome Error (Unit {0}) × BufferingChunkedBodyWriter C → Outcome Error (Unit {0}) × W
  given_back w (ok _, writer) = (ok tt, net.clear (net.rejoin writer.conn writer.buf w))
  given_back w (err x, writer) = (err x, net.rejoin writer.conn writer.buf w)
  given_back w (panic, writer) = (panic, net.rejoin writer.conn writer.buf w)

  abbrev pub buffered_session :
      {B : Type 0}
      → RequestBody B
      → B
      → Outcome ErrorKind (BufferingChunkedBodyWriter C)
      → W
      → Outcome Error (Unit {0}) × W
  buffered_session b body (ok writer) w = given_back w (
      (do
        network (b.write (buffering_write t h net.plain_write own.chunk_write_all) body)
        network (Buffering.terminate t h net.plain_write))
        writer)
  buffered_session b body (err x) w = (err (from_kind x), w)
  buffered_session b body panic w = (panic, w)

  unfoldable pub write_buffered : {B : Type 0} → RequestBody B → B → Io W Error (Unit {0})
  write_buffered b body w =
      let (conn, buf, unwritten) = net.split w in
      buffered_session b body (new_with_data t conn buf unwritten) w

  unfoldable pub write_unsized :
      {B : Type 0} → RequestBody B → B → Io (HttpConnection C W S) Error (Unit {0})
  write_unsized b body (HttpConnection.plain c) =
      wrapped HttpConnection.plain (write_chunked t h net.plain_write b body c)
  write_unsized b body (HttpConnection.plain_buffered w) =
      wrapped HttpConnection.plain_buffered (write_buffered b body w)
  write_unsized b body (HttpConnection.tls s) =
      wrapped HttpConnection.tls (write_chunked t h net.tls_write b body s)

  -- The match on `body.len()`.
  abbrev pub write_sized :
      {B : Type 0} → RequestBody B → B → Option ℕ → Io (HttpConnection C W S) Error (Unit {0})
  write_sized b body none = write_unsized b body
  write_sized b body (some zero) = pure tt
  write_sized b body (some (suc len)) = write_fixed t (http_write net own) b body (suc len)

  abbrev pub write_body :
      {B : Type 0} → RequestBody B → Option B → Io (HttpConnection C W S) Error (Unit {0})
  write_body b none = pure tt
  write_body b (some body) = write_sized b body (b.len body)

  unfoldable pub write_request :
      {B : Type 0}
      → Encoders
      → RequestBody B
      → Request B
      → Io (HttpConnection C W S) Error (Unit {0})
  write_request e b request = do
    write_header (http_write net own) t e b request
    write_body b request.body

  -- `HttpConnection::send`
  unfoldable pub send :
      {B : Type 0}
      → Crates
      → Encoders
      → RequestBody B
      → Request B
      → Bytes
      → Io (HttpConnection C W S) Error (Response (HttpConnection C W S))
  send crates e b request rx_buf = do
    write_request e b request
    network (flush net)
    Read.read crates (http_read net own) t request.method rx_buf
