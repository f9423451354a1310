-- ===== src/Connection/Failure.antt =====
-- The errors that a reader over a connection passes on from it.
use reqwless.Base.{ℕ, ◌≡◌, err}
use reqwless.Errors.{Error, ErrorKind, ReadExactError, from_read_exact, kind}
use reqwless.Connection.{Read}

-- The error is one with which a call on the connection failed, as the readers convert it.
pub data IsFailure {B : Type 0} (io : Read B) : Error → Type 0 where
  of_read :
      (k : ErrorKind) (n : ℕ) (b b' : B)
      → io.read n b ≡ (err k, b')
      → IsFailure io (Error.network k)
  of_read_exact :
      (x : ReadExactError) (n : ℕ) (b b' : B)
      → io.read_exact n b ≡ (err x, b')
      → IsFailure io (from_read_exact x)
  of_byte :
      (x : ReadExactError) (n : ℕ) (b b' : B)
      → io.read_exact n b ≡ (err x, b')
      → IsFailure io (Error.network (kind (from_read_exact x)))
