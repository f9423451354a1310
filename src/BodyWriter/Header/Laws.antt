-- ===== src/BodyWriter/Header/Laws.antt =====
-- `write_chunked_header` against the size line that it stands for.
use reqwless.Base.{
  ℕ, suc, ◌+◌, ◌-◌, ◌*◌, ◌^◌, ◌<◌, ◌≡◌, refl, sym, ap, ◌∙◌, some, [], ◌++◌, arith, append_assoc,
}
use reqwless.Base.{
  Bytes, length, length-append, length-drop, drop, split_at, ok, panic, lt→leb, le→leb,
  copy_from_slice, copy_from_slice-append, subst, ◌>>◌, pure,
}
use reqwless.Base.Words.{
  Target, IsTarget, IsUsize, to_be_bytes, to_be_bytes-IsByte, length-to_be_bytes, pow-sixteen,
}
use reqwless.Hex.{Hex, IsHex}
use reqwless.Hex.Digits.{padded, encoding-to_be_bytes, zeros, drop-zeros-padded, hex_text}
use reqwless.Hex.Width.{hex_text-HasWidth}
use reqwless.BodyWriter.Header.{newline, write_chunked_header, chunk_header}

module _ (t : Target) (wide : IsTarget t) (n : ℕ) (fits : IsUsize t n) where
  -- One hexadecimal digit for each four bits.
  pub width : 2 * t.size ≡ suc (2 * t.size - 1)
  width = omega arith

  pub IsUsize-sixteen : n < 16 ^ suc (2 * t.size - 1)
  IsUsize-sixteen =
      rw (pow-sixteen) (subst (λ k. n < 2 ^ k) (bits_in_digits (2 * t.size) (omega arith)) fits)
    where
      bits_in_digits : (w : ℕ) → w ≡ 2 * t.size → 8 * t.size ≡ 4 * suc (w - 1)
      bits_in_digits w e = omega arith

  encode_usize :
      (h : Hex)
      → IsHex h
      → h.encode_to_slice (to_be_bytes t.size n) (2 * t.size) ≡ some (padded (2 * t.size) n)
  encode_usize h law =
      law.encode_to_slice_lem (to_be_bytes t.size n) (2 * t.size) (to_be_bytes-IsByte t.size n)
        (omega (arith, length-to_be_bytes t.size n))
      ∙ ap some (encoding-to_be_bytes t.size n)

  digits_left :
      drop (zeros (padded (2 * t.size) n)) (padded (2 * t.size) n) ≡ hex_text (2 * t.size - 1) n
  digits_left = cut (2 * t.size) (2 * t.size - 1) width IsUsize-sixteen
    where
      cut :
          (w k : ℕ)
          → w ≡ suc k
          → n < 16 ^ suc k
          → drop (zeros (padded w n)) (padded w n) ≡ hex_text k n
      cut w k e b = rw e (drop-zeros-padded k n b)

  digit_count :
      length (padded (2 * t.size) n) - zeros (padded (2 * t.size) n)
      ≡ length (hex_text (2 * t.size - 1) n)
  digit_count =
      sym (length-drop (zeros (padded (2 * t.size) n)) (padded (2 * t.size) n))
      ∙ ap length digits_left

  -- Of a `usize`, the size line is put at the front of a slice with room for it: the hexadecimal
  -- digits without leading zeros, and a newline. Its length is the answer, and the rest of the
  -- slice is unchanged.
  pub write_chunked_header_lem :
      {E : Type 0} (h : Hex)
      → IsHex h
      → (old rest : Bytes) → length old ≡ length (chunk_header t n)
      → write_chunked_header {E = E} t h n (old ++ rest)
        ≡ (ok (length (chunk_header t n)), chunk_header t n ++ rest)
  unfolding write_chunked_header chunk_header
  write_chunked_header_lem {E} h law old rest room =
      rw (encode_usize h law, digits_left, digit_count)
        (put (hex_text (2 * t.size - 1) n) old
          (omega (arith, room, length-append (hex_text (2 * t.size - 1) n) newline)))
    where
      put :
          (digits old : Bytes)
          → length old ≡ length digits + 2
          → (copy_from_slice 0 (length digits) digits
                >> (copy_from_slice (length digits) (length digits + 2) newline
                    >> pure {E = E} (length digits + 2)))
              (old ++ rest)
            ≡ (ok (length (digits ++ newline)), (digits ++ newline) ++ rest)
      put digits old l =
          let (front, back, e, lf) = split_at (length digits) old (omega arith) in
          let lb : length back ≡ 2 = omega (arith, ap length e, length-append front back) in
          rw (
            e,
            append_assoc front back rest,
            copy_from_slice-append [] front (back ++ rest) digits 0 (length digits) refl
                (omega arith) lf,
            copy_from_slice-append digits back rest newline (length digits) (length digits + 2) refl
                (omega arith) lb,
            length-append digits newline,
            append_assoc digits newline rest,
          )

  -- An empty slice has no room for a size line.
  pub write_chunked_header_no_room :
      {E : Type 0} (h : Hex) → IsHex h → write_chunked_header {E = E} t h n [] ≡ (panic, [])
  unfolding write_chunked_header copy_from_slice
  write_chunked_header_no_room {E} h law =
      let (j, l, _, _) = hex_text-HasWidth (2 * t.size - 1) n IsUsize-sixteen in
      rw (encode_usize h law, digits_left, digit_count, no_room (hex_text (2 * t.size - 1) n) j l)
    where
      no_room :
          (digits : Bytes) (j : ℕ)
          → length digits ≡ suc j
          → copy_from_slice {E = E} 0 (length digits) digits [] ≡ (panic, [])
      no_room digits j l =
          rw (le→leb 0 (length digits) (omega arith), lt→leb (length digits) 0 (omega (arith, l)))
