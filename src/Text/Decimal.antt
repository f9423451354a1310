-- ===== src/Text/Decimal.antt =====
-- Numbers as decimal text: `{}` of an unsigned integer, and `str::parse`.
use native.Mathlib.Nat.{two-pow-succ}
use reqwless.Base.{
  ℕ, zero, suc, ◌+◌, ◌-◌, ◌*◌, ◌/◌, ◌%◌, ◌^◌, ◌<◌, ◌≤◌, ◌≡◌, ◌≢◌, refl, ◌∙◌, ap, length,
  length-append, ◌&&◌, List, [], ◌∷◌, ◌++◌, Option, none, some, All, All-append, inl, inr, leb, ltb,
  ltb→lt, Bool-cases, ne→==, Bytes, ◌==◌, if◌then◌else◌, arith,
}

-- `{}` of a `usize`: the decimal digits, of which there are at most as many as bits.
unfoldable pub decimal : ℕ → ℕ → Bytes
decimal zero n = []
decimal (suc k) n =
    let rest = decimal k (n / 10) in
    if ltb n 10 then (b'0' + n) ∷ [] else rest ++ ((b'0' + n % 10) ∷ [])

-- The digits after a number that is read up to here; what they make stays below the bound.
unfoldable pub digits : ℕ → ℕ → List ℕ → Option ℕ
digits bound acc [] = some acc
digits bound acc (c ∷ cs) =
    let rest = digits bound (acc * 10 + (c - b'0')) cs in
    if (leb b'0' c && leb c b'9') && ltb (acc * 10 + (c - b'0')) bound then rest else none

abbrev after_sign : ℕ → List ℕ → Option ℕ
after_sign bound [] = none
after_sign bound (c ∷ cs) = digits bound 0 (c ∷ cs)

-- `parse` to an unsigned type of the numbers below the bound: a plus sign may stand in front.
unfoldable pub parse_unsigned : ℕ → List ℕ → Option ℕ
parse_unsigned bound [] = none
parse_unsigned bound (c ∷ cs) = if c == b'+' then after_sign bound cs else digits bound 0 (c ∷ cs)

abbrev pub IsDigit : ℕ → Type 0
IsDigit c = (b'0' ≤ c) × (c ≤ b'9')

pub decimal-IsDigit : (k n : ℕ) → All IsDigit (decimal k n)
unfolding decimal
decimal-IsDigit zero n = tt
decimal-IsDigit (suc k) n = elim (Bool-cases (ltb n 10)) [
  | inl e ↦ let h : n < 10 = ltb→lt n 10 e in rw e ((omega arith, omega arith), tt)
  | inr e ↦ rw e (
      All-append IsDigit (decimal k (n / 10)) ((b'0' + n % 10) ∷ []) (decimal-IsDigit k (n / 10))
        ((omega arith, omega arith), tt))
]

abbrev onwards : ℕ → Option ℕ → List ℕ → Option ℕ
onwards bound none ys = none
onwards bound (some acc) ys = digits bound acc ys

digits-append :
    (bound acc : ℕ) (xs ys : List ℕ)
    → digits bound acc (xs ++ ys) ≡ onwards bound (digits bound acc xs) ys
unfolding digits
digits-append bound acc [] ys = refl
digits-append bound acc (x ∷ xs) ys =
    elim (Bool-cases ((leb b'0' x && leb x b'9') && ltb (acc * 10 + (x - b'0')) bound)) [
      | inl e ↦ rw e (digits-append bound (acc * 10 + (x - b'0')) xs ys)
      | inr e ↦ rw e refl
    ]

digit_step :
    (bound acc d : ℕ)
    → d < 10
    → acc * 10 + d < bound
    → digits bound acc ((b'0' + d) ∷ []) ≡ some (acc * 10 + d)
unfolding digits
digit_step bound acc d h l = ground arith

-- The digits of a number read as the number.
digits-decimal : (bound k n : ℕ) → n < 2 ^ k → n < bound → digits bound 0 (decimal k n) ≡ some n
unfolding decimal digits
digits-decimal bound zero n h l = ap some (omega arith)
digits-decimal bound (suc k) n h l = elim (Bool-cases (ltb n 10)) [
  | inl e ↦ rw e (digit_step bound 0 n (ltb→lt n 10 e) (omega arith) ∙ ap some (omega arith))
  | inr e ↦ rw e (
      digits-append bound 0 (decimal k (n / 10)) ((b'0' + n % 10) ∷ [])
      ∙ ap (λ o. onwards bound o ((b'0' + n % 10) ∷ []))
          (digits-decimal bound k (n / 10) (omega (arith, two-pow-succ k)) (omega arith))
      ∙ digit_step bound (n / 10) (n % 10) (omega arith) (omega arith)
      ∙ ap some (omega arith))
]

-- A text of digits has no sign.
parse_unsigned-digits :
    (bound : ℕ) (cs : List ℕ)
    → cs ≢ []
    → All IsDigit cs
    → parse_unsigned bound cs ≡ digits bound 0 cs
unfolding parse_unsigned
parse_unsigned-digits bound [] h a = absurd (h refl)
parse_unsigned-digits bound (c ∷ cs) h ((lo, hi), _) = rw (ne→== c b'+' (omega arith)) refl

decimal-nonempty : (k n : ℕ) → decimal (suc k) n ≢ []
unfolding decimal
decimal-nonempty k n = elim (Bool-cases (ltb n 10)) [
  | inl e ↦ rw e (λ p. cc)
  | inr e ↦ rw e (λ p.
      let l : length (decimal k (n / 10) ++ ((b'0' + n % 10) ∷ [])) ≡ 0 = ap length p in
      omega (arith, length-append (decimal k (n / 10)) ((b'0' + n % 10) ∷ []), l))
]

pub parse_unsigned-decimal :
    (bound k n : ℕ) → n < 2 ^ suc k → n < bound → parse_unsigned bound (decimal (suc k) n) ≡ some n
parse_unsigned-decimal bound k n h l =
    parse_unsigned-digits bound (decimal (suc k) n) (decimal-nonempty k n)
      (decimal-IsDigit (suc k) n)
    ∙ digits-decimal bound (suc k) n h l
