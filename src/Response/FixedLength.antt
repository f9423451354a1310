-- ===== src/Response/FixedLength.antt =====
-- response/fixed_length.rs: `FixedLengthBodyReader`.
pub mod Laws
use reqwless.Base.{ℕ, ◌-◌, ◌==◌, [], Bytes, length, take, is_empty, min, if◌then◌else◌}
use reqwless.Base.{Io, Outcome, ok, ◌>>=◌, ◌>>◌, pure, fail, lift, gets, modify, zoom, zoom_err}
use reqwless.Base.Words.{Target, sub_usize}
use reqwless.Errors.{Error, ErrorKind}
use reqwless.Connection.{Read, BufRead}

pub record FixedLengthBodyReader (B : Type 0) : Type 0 where
  pub raw_body : B
  pub remaining : ℕ

module _ {B : Type 0} where
  -- A call on the raw body, its error as `Error::Network`.
  abbrev on_body : {A : Type 0} → Io B ErrorKind A → Io (FixedLengthBodyReader B) Error A
  on_body = zoom_err (λ r. r.raw_body) (λ r b. record r { raw_body = b }) Error.network

  unfoldable pub read : Target → Read B → ℕ → Io (FixedLengthBodyReader B) Error Bytes
  read t io n = do
    done ← gets (λ r. r.remaining == 0)
    if done then pure [] else (do
      bytes ← on_body (io.read n)
      remaining ← (λ r. lift (sub_usize t r.remaining (length bytes)) r)
      modify (λ r. record r { remaining = remaining })
      pure bytes)

  unfoldable pub fill_buf : BufRead B → Io (FixedLengthBodyReader B) Error Bytes
  fill_buf io = do
    done ← gets (λ r. r.remaining == 0)
    if done then pure [] else (do
      bytes ← on_body io.fill_buf
      loaded ← gets (λ r. take (min (length bytes) r.remaining) bytes)
      if is_empty loaded then fail Error.connection_aborted else pure loaded)

  unfoldable pub consume : BufRead B → ℕ → Io (FixedLengthBodyReader B) Error (Unit {0})
  consume io amt = do
    amt ← gets (λ r. min amt r.remaining)
    modify (λ r. record r { remaining = r.remaining - amt })
    on_body (io.consume amt)
