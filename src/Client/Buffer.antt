-- ===== src/Client/Buffer.antt =====
-- lib.rs: `TryBufRead` of an `HttpConnection`.
use reqwless.Base.{ℕ, Bytes, Option, none, some, Outcome}
use reqwless.Errors.{ErrorKind}
use reqwless.Connection.{BufRead}
use reqwless.Reader.{TryBufRead}
use reqwless.Client.{HttpConnection}
use reqwless.Client.Connect.{Feature}

module _ {C W S : Type 0} where
  abbrev pub shown :
      Outcome ErrorKind Bytes × S → Option (Outcome ErrorKind Bytes) × HttpConnection C W S
  shown (r, s) = (some r, HttpConnection.tls s)

  -- A session of `embedded_tls` has a buffer of its own, which is a `BufRead`.
  unfoldable pub try_fill_buf :
      Feature
      → BufRead S
      → HttpConnection C W S
      → Option (Outcome ErrorKind Bytes) × HttpConnection C W S
  try_fill_buf Feature.embedded_tls io (HttpConnection.tls s) = shown (io.fill_buf s)
  try_fill_buf feature io conn = (none, conn)

  unfoldable pub try_consume : Feature → BufRead S → ℕ → HttpConnection C W S → HttpConnection C W S
  try_consume Feature.embedded_tls io amt (HttpConnection.tls s) =
      HttpConnection.tls (io.consume amt s).1
  try_consume feature io amt conn = conn

  abbrev pub http_try : Feature → BufRead S → TryBufRead (HttpConnection C W S)
  http_try feature io = record {
    try_fill_buf = try_fill_buf feature io;
    try_consume = try_consume feature io;
  }
