-- ===== src/Hex.antt =====
-- The crate `hex`, which the source only calls: an interface with its documented behaviour.
-- `encode_to_slice` writes two lower-case digits for each byte, and `decode_to_slice` reads two
-- digits of either case for each byte; both want an output of the matching length.
pub mod Digits
pub mod Width
pub mod Decode
use reqwless.Base.{ℕ, ◌+◌, ◌-◌, ◌*◌, ◌/◌, ◌%◌, ◌≡◌, Bool, ◌&&◌, ◌||◌, Option, none, some, [], ◌∷◌}
use reqwless.Base.{Bytes, IsByte, All, length, ltb, leb, if◌then◌else◌}

-- The lower-case digit of a nibble.
abbrev pub digit : ℕ → ℕ
digit d = if ltb d 10 then b'0' + d else b'a' + (d - 10)

-- The nibble of a digit in either case.
unfoldable pub nibble? : ℕ → Option ℕ
nibble? c =
    if leb b'0' c && leb c b'9'
    then some (c - b'0')
    else if leb b'a' c && leb c b'f'
    then some (c - b'a' + 10)
    else if leb b'A' c && leb c b'F'
    then some (c - b'A' + 10)
    else none

abbrev pub encoding : Bytes → Bytes
encoding [] = []
encoding (b ∷ bs) = digit (b / 16) ∷ digit (b % 16) ∷ encoding bs

abbrev join_nibbles : Option ℕ → Option ℕ → Option Bytes → Option Bytes
join_nibbles (some h) (some l) (some bs) = some ((16 * h + l) ∷ bs)
join_nibbles _ _ _ = none

unfoldable pub decoding : Bytes → Option Bytes
unfolding nibble?
decoding [] = some []
decoding (c ∷ []) = none
decoding (c ∷ d ∷ cs) = join_nibbles (nibble? c) (nibble? d) (decoding cs)

-- The second argument is the length of the output slice; `none` is an error.
pub record Hex : Type 0 where
  pub encode_to_slice : Bytes → ℕ → Option Bytes
  pub decode_to_slice : Bytes → ℕ → Option Bytes

pub record IsHex (h : Hex) : Type 0 where
  pub encode_to_slice_lem :
      (bs : Bytes) (n : ℕ)
      → All IsByte bs
      → n ≡ 2 * length bs
      → h.encode_to_slice bs n ≡ some (encoding bs)
  pub decode_to_slice_lem :
      (cs : Bytes) (n : ℕ) → length cs ≡ 2 * n → h.decode_to_slice cs n ≡ decoding cs
