-- ===== src/BodyWriter/Header.antt =====
-- body_writer/chunked.rs: `write_chunked_header`, and what a chunk is on the wire.
pub mod Laws
use reqwless.Base.{
  ℕ, ◌+◌, ◌-◌, ◌*◌, [], ◌∷◌, ◌++◌, Bytes, length, drop, Io, ◌>>=◌, ◌>>◌, lift, unwrap, unwrap_or,
  copy_from_slice, pure,
}
use reqwless.Base.Words.{Target, to_be_bytes}
use reqwless.Hex.{Hex}
use reqwless.Hex.Digits.{first_nonzero, hex_text}

abbrev pub newline : Bytes
newline = b'\r' ∷ b'\n' ∷ []

abbrev pub empty_chunk : Bytes
empty_chunk = b'0' ∷ b'\r' ∷ b'\n' ∷ b'\r' ∷ b'\n' ∷ []

-- The state is the slice that the header is written to; the result is the header's length.
unfoldable pub write_chunked_header : {E : Type 0} → Target → Hex → ℕ → Io Bytes E ℕ
write_chunked_header t h chunk_len = do
  hex ← lift (unwrap (h.encode_to_slice (to_be_bytes t.size chunk_len) (2 * t.size)))
  let leading_zeros = unwrap_or (first_nonzero hex) (length hex - 1)
  let hex_chars = length hex - leading_zeros
  copy_from_slice 0 hex_chars (drop leading_zeros hex)
  copy_from_slice hex_chars (hex_chars + length newline) newline
  pure (hex_chars + 2)

-- The specification: a size line, and a chunk.
unfoldable pub chunk_header : Target → ℕ → Bytes
chunk_header t n = hex_text (2 * t.size - 1) n ++ newline

unfoldable pub chunk : Target → Bytes → Bytes
chunk t payload = chunk_header t (length payload) ++ (payload ++ newline)
