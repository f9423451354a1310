-- ===== src/Hex/Decode.antt =====
-- Hexadecimal text is read back.
use reqwless.Base.{ℕ, zero, suc, ◌+◌, ◌-◌, ◌*◌, ◌/◌, ◌%◌, ◌^◌, ◌<◌, ◌≡◌, refl, sym, ap, ◌∙◌}
use reqwless.Base.{some, [], ◌∷◌, ◌++◌, append_assoc, arith, inl, inr}
use reqwless.Base.{Bytes, IsByte, All, length, length-append, replicate, ltb, Bool-cases, ltb→lt}
use reqwless.Base.Words.{to_be_bytes, from_be_bytes_onto, from_be_bytes}
use reqwless.Hex.{digit, nibble?, encoding, decoding}
use reqwless.Hex.Digits.{padded, padded_small, hex_text, hex_text-small}
use native.Mathlib.Nat.{pow-suc}

nibble?-digit : (d : ℕ) → d < 16 → nibble? (digit d) ≡ some d
unfolding nibble?
nibble?-digit d h = ground arith

pub decoding-encoding : (bs : Bytes) → All IsByte bs → decoding (encoding bs) ≡ some bs
unfolding decoding
decoding-encoding [] h = refl
decoding-encoding (b ∷ bs) (h, hs) =
    let e : 16 * (b / 16) + b % 16 ≡ b = omega arith in
    rw (
      nibble?-digit (b / 16) (omega arith),
      nibble?-digit (b % 16) (omega arith),
      decoding-encoding bs hs,
      e,
    )

from_be_bytes_onto-append :
    (acc : ℕ) (xs ys : Bytes)
    → from_be_bytes_onto acc (xs ++ ys) ≡ from_be_bytes_onto (from_be_bytes_onto acc xs) ys
unfolding from_be_bytes_onto
from_be_bytes_onto-append acc [] ys = refl
from_be_bytes_onto-append acc (x ∷ xs) ys = from_be_bytes_onto-append (acc * 256 + x) xs ys

pub from_be_bytes-to_be_bytes : (k n : ℕ) → n < 256 ^ k → from_be_bytes (to_be_bytes k n) ≡ n
unfolding to_be_bytes from_be_bytes_onto
from_be_bytes-to_be_bytes zero n h = omega arith
from_be_bytes-to_be_bytes (suc k) n h =
    from_be_bytes_onto-append 0 (to_be_bytes k (n / 256)) ((n % 256) ∷ [])
    ∙ ap (λ z. z * 256 + n % 256)
        (from_be_bytes-to_be_bytes k (n / 256) (omega (arith, pow-suc 256 k)))
    ∙ omega arith

replicate-suc : (k c : ℕ) → replicate k c ++ (c ∷ []) ≡ replicate (suc k) c
replicate-suc zero c = refl
replicate-suc (suc k) c = ap (λ z. c ∷ z) (replicate-suc k c)

padded_zero : (k : ℕ) → padded k 0 ≡ replicate k b'0'
unfolding padded
padded_zero zero = refl
padded_zero (suc k) = ap (λ z. z ++ (b'0' ∷ [])) (padded_zero k) ∙ replicate-suc k b'0'

zeros_before_digit :
    (w k n : ℕ)
    → n < 16
    → replicate (suc w - length (hex_text k n)) b'0' ++ hex_text k n ≡ padded (suc w) n
zeros_before_digit w k n h =
    let e : suc w - 1 ≡ w = omega arith in
    rw (hex_text-small k n h, e)
      (ap (λ z. z ++ (digit n ∷ [])) (sym (padded_zero w)) ∙ sym (padded_small w n h))

-- Zeros in front of the digits.
pub replicate-hex_text :
    (w k n : ℕ)
    → n < 16 ^ suc w
    → n < 16 ^ suc k
    → replicate (suc w - length (hex_text k n)) b'0' ++ hex_text k n ≡ padded (suc w) n
unfolding hex_text padded
replicate-hex_text zero k n hw hk = zeros_before_digit zero k n (omega arith)
replicate-hex_text (suc w) zero n hw hk = zeros_before_digit (suc w) zero n (omega arith)
replicate-hex_text (suc w) (suc k) n hw hk = elim (Bool-cases (ltb n 16)) [
  | inl small ↦ zeros_before_digit (suc w) (suc k) n (ltb→lt n 16 small)
  | inr large ↦
      let last = digit (n % 16) ∷ [] in
      let short : suc (suc w) - length (hex_text k (n / 16) ++ last)
          ≡ suc w - length (hex_text k (n / 16)) =
        omega (arith, length-append (hex_text k (n / 16)) last) in
      rw (large, short)
        (sym (
            append_assoc (replicate (suc w - length (hex_text k (n / 16))) b'0')
              (hex_text k (n / 16)) last)
          ∙ ap (λ z. z ++ last)
              (replicate-hex_text w k (n / 16) (omega (arith, pow-suc 16 (suc w)))
                (omega (arith, pow-suc 16 (suc k)))))
]
