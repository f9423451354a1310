-- ===== src/Text/Utf8.antt =====
-- `core::str::from_utf8`.
use reqwless.Base.{
  ℕ, zero, suc, ◌+◌, ◌-◌, ◌*◌, ◌<◌, ◌≡◌, refl, ◌&&◌, List, [], ◌∷◌, Option, none, some, Bytes, All,
  leb, ltb, lt→ltb, ◌==◌, if◌then◌else◌,
}

-- How many bytes of the character are to come, its bits so far, and the range of the next byte.
pub record State : Type 0 where
  pub pending : ℕ
  pub bits : ℕ
  pub low : ℕ
  pub high : ℕ

abbrev start : State
start = record { pending = 0; bits = 0; low = 0x80; high = 0xBF }

abbrev awaiting : ℕ → ℕ → ℕ → ℕ → Option State
awaiting pending bits low high =
    some (record { pending = pending; bits = bits; low = low; high = high })

-- The first byte of a character: no overlong forms, no surrogates, nothing above U+10FFFF.
unfoldable pub first_byte : ℕ → Option State
first_byte b =
    if ltb b 0x80
    then awaiting 0 b 0x80 0xBF
    else if ltb b 0xC2
    then none
    else if ltb b 0xE0
    then awaiting 1 (b - 0xC0) 0x80 0xBF
    else if b == 0xE0
    then awaiting 2 0 0xA0 0xBF
    else if b == 0xED
    then awaiting 2 0xD 0x80 0x9F
    else if ltb b 0xF0
    then awaiting 2 (b - 0xE0) 0x80 0xBF
    else if b == 0xF0
    then awaiting 3 0 0x90 0xBF
    else if ltb b 0xF4
    then awaiting 3 (b - 0xF0) 0x80 0xBF
    else if b == 0xF4
    then awaiting 3 4 0x80 0x8F
    else none

abbrev next_byte_at : ℕ → State → ℕ → Option State
next_byte_at zero st b = first_byte b
next_byte_at (suc k) st b =
    if leb st.low b && leb b st.high then awaiting k (st.bits * 64 + (b - 0x80)) 0x80 0xBF else none

abbrev next_byte : State → ℕ → Option State
next_byte st b = next_byte_at st.pending st b

-- A character that is complete goes in front of the others; text that ends inside of one is
-- invalid.
abbrev emit : State → Option (List ℕ) → Option (List ℕ)
emit st none = none
emit st (some cs) = some (if st.pending == 0 then st.bits ∷ cs else cs)

abbrev if_complete : ℕ → Option (List ℕ)
if_complete zero = some []
if_complete (suc k) = none

unfoldable pub decode : State → Bytes → Option (List ℕ)
decode st [] = if_complete st.pending
decode st (b ∷ bs) = elim (next_byte st b) [ none ↦ none | some st' ↦ emit st' (decode st' bs) ]

abbrev pub from_utf8 : Bytes → Option (List ℕ)
from_utf8 = decode start

-- ASCII text is valid, and reads as itself.
pub from_utf8-ascii : (bs : Bytes) → All (λ b. b < 128) bs → from_utf8 bs ≡ some bs
unfolding decode first_byte
from_utf8-ascii bs h = ascii 0 0x80 0xBF bs h
  where
    ascii :
        (bits low high : ℕ) (bs : Bytes)
        → All (λ b. b < 128) bs
        → decode (record { pending = 0; bits = bits; low = low; high = high }) bs ≡ some bs
    ascii bits low high [] h = refl
    ascii bits low high (b ∷ bs) (hb, h) = rw (decode, lt→ltb b 128 hb, ascii b 0x80 0xBF bs h) refl
