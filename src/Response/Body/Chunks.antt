-- ===== src/Response/Body/Chunks.antt =====
-- response/mod.rs: `BodyReader::read_to_end` and `discard` on a chunked body.
use reqwless.Base.{
  ℕ, ◌<◌, ◌≤◌, ◌⊎◌, ◌≡◌, refl, sym, ap, ◌∙◌, arith, true, false, [], Bytes, length, some,
}
use reqwless.Base.{ok, Ends, Ends-mono, ends_ok, ends_err}
use reqwless.Base.Words.{Target, IsTarget, IsUsize}
use reqwless.Errors.{Error}
use reqwless.Connection.{Read, IsRead}
use reqwless.Connection.Failure.{IsFailure}
use reqwless.Hex.{Hex, IsHex}
use reqwless.Response.Chunked.State.{ChunkState}
use reqwless.Response.Chunked.State
use reqwless.Response.Chunked.{ChunkedBodyReader}
use reqwless.Response.Chunked
use reqwless.Response.Chunked.Body.{IsReading, Remains}
use reqwless.Response.Chunked.Delivery.{chunked-read_lem}
use reqwless.Response.Body.{BodyReader, read, is_done, has_more, read_to_end, discard}
use reqwless.Response.Body.Laws.{Reads, discard_all, read_to_end_all}

module _ {B : Type 0} (io : Read B) (Inv : B → Type 0) (unread : B → Bytes)
    (law : IsRead io Inv unread) (t t' : Target) (h : Hex) (is_hex : IsHex h) (wide : IsTarget t')
    (tail : Bytes) where
  abbrev pub Rest : Bytes → BodyReader B → Type 0
  Rest payload r =
      (c : ChunkedBodyReader B) × (r ≡ BodyReader.chunked c)
      × IsReading io Inv unread law t t' h is_hex wide tail payload c

  chunked-Reads :
      (payload : Bytes) (n : ℕ) (r : BodyReader B)
      → Rest payload r
      → Ends (read t h io n r) (Reads Rest payload n) (λ x _. IsFailure io x)
  unfolding read is_done
  chunked-Reads payload n r (c, same, k) =
      rw same (elim (chunked-read_lem io Inv unread law t t' h is_hex wide tail payload n c k) [
        | ends_err x c' e f ↦ ends_err x (BodyReader.chunked c') (rw e) f
        | ends_ok bs c' e (le, (rest, p, k'), stop) ↦
            ends_ok bs (BodyReader.chunked c') (rw e) (rest, p, (c', refl, k'), le, stop)
      ])

  ended :
      (state : ChunkState) (payload bytes : Bytes)
      → State.is_empty state ≡ true
      → Remains t' tail state payload bytes
      → payload ≡ []
  ended ChunkState.empty payload bytes e (none, _) = none
  ended ChunkState.no_chunk payload bytes e m = absurd (apart e)
    where
      apart : false ≡ true → ⊥
      apart e = cc
  ended (ChunkState.not_empty k) payload bytes e m = absurd (apart e)
    where
      apart : false ≡ true → ⊥
      apart e = cc

  done_at_end : (rest : Bytes) (r : BodyReader B) → Rest rest r → is_done r ≡ true → rest ≡ []
  unfolding is_done Chunked.is_done
  done_at_end rest r (c, same, k) e =
      ended c.chunk_remaining rest (unread c.raw_body) (sym (ap is_done same) ∙ e) k.remains

  no_probe :
      (rest : Bytes) (r : BodyReader B) (n len : ℕ)
      → Rest rest r
      → has_more t h io len n r ≡ (ok true, r)
  unfolding has_more
  no_probe rest r n len (c, same, k) = rw same refl

  -- On a body of chunks that carry `payload`, each below 2 to the 32 bytes and all of them a `usize`,
  -- `discard` with more fuel than bytes to come ends: it answers the length of the payload with the
  -- body read to its end, or fails with an error of the connection.
  pub chunked-discard :
      (fuel : ℕ) (payload : Bytes) (r : ChunkedBodyReader B)
      → IsReading io Inv unread law t t' h is_hex wide tail payload r
      → length payload < fuel
      → IsUsize t (length payload)
      → Ends
          (discard t h io fuel 0 (BodyReader.chunked r))
          (λ o r'. (o ≡ some (length payload)) × Rest [] r')
          (λ x _. IsFailure io x)
  chunked-discard fuel payload r k le fits =
      Ends-mono (λ o r' (e, k'). (e ∙ ap some (omega arith), k')) (λ _ _ f. f)
        (discard_all t h io Rest (IsFailure io) chunked-Reads fuel 0 payload (BodyReader.chunked r)
          (r, refl, k) le (omega (arith, fits)))

  -- On a body of chunks that carry `payload`, each below 2 to the 32 bytes, `read_to_end` into a
  -- buffer of any length ends. It returns the whole payload, with the body read to its end, or fails,
  -- with an error of the connection, or for want of a larger buffer, and that only if the payload is
  -- not shorter than the buffer.
  pub chunked-read_to_end :
      (n : ℕ) (payload : Bytes) (r : ChunkedBodyReader B)
      → IsReading io Inv unread law t t' h is_hex wide tail payload r
      → Ends
          (read_to_end t h io n (BodyReader.chunked r))
          (λ out r'. (out ≡ payload) × Rest [] r')
          (λ x _. IsFailure io x ⊎ ((x ≡ Error.buffer_too_small) × (n ≤ length payload)))
  chunked-read_to_end n payload r k =
      read_to_end_all t h io Rest (IsFailure io) chunked-Reads n payload (BodyReader.chunked r)
        done_at_end (λ rest u len k'. no_probe rest u n len k') (r, refl, k)
