-- ===== src/Response/Chunked/Size.antt =====
-- `read_next_chunk_length`: the size line of a chunk is read back.
use reqwless.Base.{
  ℕ, zero, suc, ◌+◌, ◌-◌, ◌^◌, ◌≤◌, ◌<◌, ◌≡◌, refl, sym, ap, ◌∙◌, [], ◌∷◌, ◌++◌, append-nil, arith,
  inr, some,
}
use reqwless.Base.{Bytes, length, length-append, take-append, replicate, length-replicate}
use reqwless.Base.{ok, copy_from_slice, copy_from_slice-append}
use reqwless.Base.Words.{
  Target, sub_usize-eq_ok, from_be_bytes, from_be_bytes_onto, to_be_bytes, to_be_bytes-IsByte,
}
use reqwless.Errors.{Error}
use reqwless.Hex.{Hex, IsHex, decoding, nibble?}
use reqwless.Hex.Digits.{hex_text, padded, length-padded, encoding-to_be_bytes}
use reqwless.Hex.Width.{HasWidth-mono, hex_text-HasWidth}
use reqwless.Hex.Decode.{decoding-encoding, from_be_bytes-to_be_bytes, replicate-hex_text}
use reqwless.Response.Chunked.{decode_size}

replicate-add : (a b c : ℕ) → replicate (a + b) c ≡ replicate a c ++ replicate b c
replicate-add zero b c = let e : 0 + b ≡ b = omega arith in rw e
replicate-add (suc a) b c =
    let e : suc a + b ≡ suc (a + b) = omega arith in
    ap (λ k. replicate k c) e ∙ ap (λ z. c ∷ z) (replicate-add a b c)

module _ (t : Target) (h : Hex) where
  zeros_then :
      {E : Type 0} (digits : Bytes)
      → length digits ≤ 8
      → copy_from_slice {E = E} (8 - length digits) 8 digits (replicate 8 b'0')
        ≡ (ok tt, replicate (8 - length digits) b'0' ++ digits)
  zeros_then {E} digits le =
      let front : Bytes = replicate (8 - length digits) b'0' in
      let old : Bytes = replicate (length digits) b'0' in
      let parts : 8 ≡ 8 - length digits + length digits = omega (arith, le) in
      let e : replicate 8 b'0' ≡ front ++ (old ++ []) =
        ap (λ k. replicate k b'0') parts
        ∙ replicate-add (8 - length digits) (length digits) b'0'
        ∙ ap (λ z. front ++ z) (sym (append-nil old)) in
      ap (copy_from_slice {E = E} (8 - length digits) 8 digits) e
      ∙ copy_from_slice-append {E = E} front old [] digits (8 - length digits) 8
          (sym (length-replicate (8 - length digits) b'0')) (omega (arith, le))
          (length-replicate (length digits) b'0')
      ∙ ap (λ z. (ok tt, front ++ z)) (append-nil digits)

  decode_run :
      {S : Type 0} (digits bytes : Bytes) (s : S)
      → length digits ≤ 8
      → h.decode_to_slice (replicate (8 - length digits) b'0' ++ digits) 4 ≡ some bytes
      → decode_size t h (digits ++ (b'\r' ∷ [])) s ≡ (ok (from_be_bytes bytes), s)
  unfolding decode_size
  decode_run digits bytes s le e =
      let one_less : length digits + 1 - 1 ≡ length digits = omega arith in
      rw (
        length-append digits (b'\r' ∷ []),
        sub_usize-eq_ok {E = Error} t (length digits + 1) 1 (omega arith),
        one_less,
        sub_usize-eq_ok {E = Error} t 8 (length digits) le,
        take-append digits (b'\r' ∷ []) (length digits) refl,
        zeros_then {E = Error} digits le,
        e,
      )

  pub short_text : (k n : ℕ) → n < 16 ^ suc k → n < 2 ^ 32 → length (hex_text k n) ≤ 8
  short_text k n hk h32 =
      let (j, l, w, _) = hex_text-HasWidth k n hk in
      omega (
        arith,
        l,
        HasWidth-mono n (2 ^ 32 - 1) j 7 w
            (record { upper = omega arith; lower = inr (omega arith) }) (omega (arith, h32)),
      )

  -- The text of a `u32` is read back as that number.
  pub decode_size_lem :
      {S : Type 0} (k n : ℕ) (s : S)
      → IsHex h
      → n < 16 ^ suc k
      → n < 2 ^ 32
      → decode_size t h (hex_text k n ++ (b'\r' ∷ [])) s ≡ (ok n, s)
  decode_size_lem k n s law hk h32 =
      decode_run (hex_text k n) (to_be_bytes 4 n) s (short_text k n hk h32) decoded
      ∙ ap (λ z. (ok z, s)) (from_be_bytes-to_be_bytes 4 n (omega (arith, h32)))
    where
      decoded :
          h.decode_to_slice (replicate (8 - length (hex_text k n)) b'0' ++ hex_text k n) 4
          ≡ some (to_be_bytes 4 n)
      decoded = rw (replicate-hex_text 7 k n (omega (arith, h32)) hk) (
          law.decode_to_slice_lem (padded 8 n) 4 (omega (arith, length-padded 8 n))
          ∙ ap decoding (sym (encoding-to_be_bytes 4 n))
          ∙ decoding-encoding (to_be_bytes 4 n) (to_be_bytes-IsByte 4 n))

  -- A line without a digit is read as zero.
  pub decode_size-no_digit :
      {S : Type 0} (s : S) → IsHex h → decode_size t h (b'\r' ∷ []) s ≡ (ok 0, s)
  unfolding decoding nibble? from_be_bytes_onto
  decode_size-no_digit s law =
      decode_run [] (0 ∷ 0 ∷ 0 ∷ 0 ∷ []) s (omega arith)
        (law.decode_to_slice_lem (replicate 8 b'0') 4 refl)
