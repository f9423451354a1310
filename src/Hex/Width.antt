-- ===== src/Hex/Width.antt =====
-- How many hexadecimal digits a number has.
use reqwless.Base.{ℕ, zero, suc, ◌-◌, ◌*◌, ◌/◌, ◌%◌, ◌^◌, ◌≤◌, ◌<◌, ◌≡◌, refl, ◌∙◌}
use reqwless.Base.{[], ◌∷◌, arith, ◌⊎◌, inl, inr}
use reqwless.Base.{length, length-append, ltb, ltb→lt, Bool-cases}
use reqwless.Base.Words.{leading_zeros, bit_length_lower, bit_length_upper, pow-sixteen, div_ceil}
use native.Mathlib.Nat.{pow-suc, pow-le-pow_right}
use reqwless.Hex.{digit}
use reqwless.Hex.Digits.{hex_text}

-- `n` takes `j + 1` digits and no fewer.
pub record HasWidth (n j : ℕ) : Type 0 where
  pub upper : n < 16 ^ suc j
  pub lower : (j ≡ 0) ⊎ (16 ^ j ≤ n)

pow_mono : (i j : ℕ) → i ≤ j → 16 ^ i ≤ 16 ^ j
pow_mono i j h = pow-le-pow_right (omega arith) h

pow_two_mono : (i j : ℕ) → i ≤ j → 2 ^ i ≤ 2 ^ j
pow_two_mono i j h = pow-le-pow_right (omega arith) h

pub HasWidth-mono : (m n i j : ℕ) → HasWidth m i → HasWidth n j → m ≤ n → i ≤ j
HasWidth-mono m n i j v w h = elim v.lower [
  | inl z ↦ omega arith
  | inr l ↦ elim (Bool-cases (ltb j i)) [
    | inl above ↦ absurd (omega (arith, pow_mono (suc j) i (ltb→lt j i above), w.upper))
    | inr below ↦ ground arith
  ]
]

pub HasWidth-unique : (n i j : ℕ) → HasWidth n i → HasWidth n j → i ≡ j
HasWidth-unique n i j v w =
    omega (arith, HasWidth-mono n n i j v w (omega arith), HasWidth-mono n n j i w v (omega arith))

pub hex_text-HasWidth :
    (k n : ℕ) → n < 16 ^ suc k → (j : ℕ) × (length (hex_text k n) ≡ suc j) × HasWidth n j × (j ≤ k)
unfolding hex_text
hex_text-HasWidth zero n h = (0, refl, record { upper = h; lower = inl refl }, omega arith)
hex_text-HasWidth (suc k) n h = elim (Bool-cases (ltb n 16)) [
  | inl small ↦ (0, rw small, record { upper = ltb→lt n 16 small; lower = inl refl }, omega arith)
  | inr large ↦
      let (j, l, w, b) = hex_text-HasWidth k (n / 16) (omega (arith, pow-suc 16 (suc k))) in
      (
        suc j,
        rw large (length-append (hex_text k (n / 16)) (digit (n % 16) ∷ []) ∙ omega (arith, l)),
        widen n j (ground arith) w,
        omega arith,
      )
]
  where
    widen : (n j : ℕ) → 16 ≤ n → HasWidth (n / 16) j → HasWidth n (suc j)
    widen n j g w = record {
      upper = omega (arith, pow-suc 16 (suc j), w.upper);
      lower = inr (low w.lower);
    }
      where
        low : (j ≡ 0) ⊎ (16 ^ j ≤ n / 16) → 16 ^ suc j ≤ n
        low (inl z) = rw z g
        low (inr l) = omega (arith, pow-suc 16 j)

pos_of_lt-pow : (d n : ℕ) → 0 < n → n < 2 ^ d → 0 < d
pos_of_lt-pow zero n p h = absurd (omega arith)
pos_of_lt-pow (suc d) n p h = omega arith

-- The bit count of the standard library, in digits of four bits.
pub bit_count-HasWidth :
    (b n : ℕ)
    → 0 < n
    → n < 2 ^ b
    → (j : ℕ) × (div_ceil (b - leading_zeros b n) 4 ≡ suc j) × HasWidth n j
bit_count-HasWidth b n p h =
    let z = leading_zeros b n in
    let up : n < 2 ^ (b - z) = bit_length_upper b n h in
    let lo : 2 ^ (b - z - 1) ≤ n = bit_length_lower b n p h in
    let some_bit : 0 < b - z = pos_of_lt-pow (b - z) n p up in
    (
      (b - z - 1) / 4,
      omega arith,
      record {
        upper = omega (
          arith,
          up,
          pow-sixteen (suc ((b - z - 1) / 4)),
          pow_two_mono (b - z) (4 * suc ((b - z - 1) / 4)) (omega arith),
        );
        lower = inr (
            omega (
              arith,
              lo,
              pow-sixteen ((b - z - 1) / 4),
              pow_two_mono (4 * ((b - z - 1) / 4)) (b - z - 1) (omega arith),
            ));
      },
    )
