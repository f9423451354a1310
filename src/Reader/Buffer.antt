-- ===== src/Reader/Buffer.antt =====
-- reader.rs: `ReadBuffer`, a buffer with some loaded bytes at its front.
use reqwless.Base.{ℕ, ◌-◌, ◌==◌, Bool, min, Bytes}
use reqwless.Base.{Io, ◌>>=◌, ◌>>◌, pure, gets, modify, zoom, read_slice, copy_within}

pub record ReadBuffer : Type 0 where
  pub buffer : Bytes
  pub loaded : ℕ

abbrev pub new : Bytes → ℕ → ReadBuffer
new buffer loaded = record { buffer = buffer; loaded = loaded }

abbrev on_buffer : {E A : Type 0} → Io Bytes E A → Io ReadBuffer E A
on_buffer = zoom (λ b. b.buffer) (λ b bytes. record b { buffer = bytes })

unfoldable pub is_empty : ReadBuffer → Bool
is_empty b = b.loaded == 0

module _ {E : Type 0} where
  -- The result is the part of `amt` that was not loaded.
  unfoldable pub consume : ℕ → Io ReadBuffer E ℕ
  consume amt = do
    b ← gets (λ b. b)
    let to_consume = min amt b.loaded
    on_buffer (copy_within to_consume b.loaded 0)
    modify (λ b. record b { loaded = b.loaded - to_consume })
    pure (amt - to_consume)

  -- Reading into a slice of `n` bytes.
  unfoldable pub read : ℕ → Io ReadBuffer E Bytes
  read n = do
    amt ← gets (λ b. min b.loaded n)
    bytes ← on_buffer (read_slice 0 amt)
    _ ← consume amt
    pure bytes

  unfoldable pub fill_buf : Io ReadBuffer E Bytes
  fill_buf = do loaded ← gets (λ b. b.loaded); on_buffer (read_slice 0 loaded)
