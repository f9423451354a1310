-- ===== src/BodyWriter/Chunked.antt =====
-- body_writer/chunked.rs: `ChunkedBodyWriter`. The writer is its connection.
pub mod Laws
use reqwless.Base.{
  ℕ, ◌+◌, ◌*◌, Bytes, length, replicate, Io, ok, err, panic, ◌>>=◌, ◌>>◌, pure, lift, ◌==◌,
  if◌then◌else◌, read_slice,
}
use reqwless.Base.Words.{Target}
use reqwless.Hex.{Hex}
use reqwless.Errors.{ErrorKind}
use reqwless.Connection.{Write}
use reqwless.BodyWriter.Header.{newline, empty_chunk, write_chunked_header}

-- `header_buf[..header_len]`, with the header written to a fresh array.
header_bytes : {C : Type 0} → Target → Hex → ℕ → Io C ErrorKind Bytes
header_bytes t h len c = (
  ((do header_len ← write_chunked_header t h len; read_slice 0 header_len)
      (replicate (2 * t.size + 2) 0)).0,
  c,
)

module _ {C : Type 0} (t : Target) (h : Hex) (conn : Write C) where
  unfoldable pub terminate : Io C ErrorKind (Unit {0})
  terminate = conn.write_all empty_chunk

  -- An empty chunk would end the body, so nothing is written for an empty slice.
  unfoldable pub write_all : Bytes → Io C ErrorKind (Unit {0})
  unfolding header_bytes
  write_all buf = if length buf == 0 then pure tt else (do
    header ← header_bytes t h (length buf)
    conn.write_all header
    conn.write_all buf
    conn.write_all newline)

  unfoldable pub write : Bytes → Io C ErrorKind ℕ
  write buf = do write_all buf; pure (length buf)

  unfoldable pub flush : Io C ErrorKind (Unit {0})
  flush = conn.flush
