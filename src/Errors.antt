-- ===== src/Errors.antt =====
-- The crate's errors: `Error` of src/lib.rs, its kind and its conversions.
use reqwless.Base.{ℕ}

-- `embedded_io::ErrorKind`, of another crate: the two kinds that the source names, and all others.
pub data ErrorKind : Type 0 where
  connection_aborted other : ErrorKind
  unnamed : ℕ → ErrorKind

-- `embedded_io_async::ReadExactError`, with the connection's error read at its kind.
pub data ReadExactError : Type 0 where
  unexpected_eof : ReadExactError
  other : ErrorKind → ReadExactError

-- `nourl::Error`: the case that the source names, and all others.
pub data UrlError : Type 0 where
  unsupported_scheme : UrlError
  unnamed : ℕ → UrlError

-- A TLS error is carried and never looked at; it stands here as a number.
pub data Error : Type 0 where
  dns : Error
  network : ErrorKind → Error
  codec : Error
  invalid_url : UrlError → Error
  tls : ℕ → Error
  buffer_too_small : Error
  already_sent : Error
  incorrect_body_written : Error
  connection_aborted : Error

-- `embedded_io::Error for Error`
unfoldable pub kind : Error → ErrorKind
kind (Error.network k) = k
kind Error.connection_aborted = ErrorKind.connection_aborted
kind _ = ErrorKind.other

-- `From<ErrorKind>`
abbrev pub from_kind : ErrorKind → Error
from_kind = Error.network

-- `From<ReadExactError<E>>`
unfoldable pub from_read_exact : ReadExactError → Error
from_read_exact ReadExactError.unexpected_eof = Error.connection_aborted
from_read_exact (ReadExactError.other k) = Error.network k

-- `From<nourl::Error>`
abbrev pub from_url : UrlError → Error
from_url = Error.invalid_url

-- `From<ParseIntError>` and `From<Utf8Error>`; what the standard library's errors say is dropped.
abbrev pub from_parse_int : {E : Type 0} → E → Error
from_parse_int e = Error.codec

abbrev pub from_utf8 : {E : Type 0} → E → Error
from_utf8 e = Error.codec
