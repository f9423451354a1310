-- ===== src/Hex/Digits.antt =====
-- Numbers in hexadecimal: with leading zeros, as the crate writes them, and without.
use reqwless.Base.{ℕ, zero, suc, ◌-◌, ◌*◌, ◌/◌, ◌%◌, ◌^◌, ◌≤◌, ◌<◌, ◌≡◌, refl, sym, ap, ◌∙◌}
use reqwless.Base.{false, Option, none, some, [], ◌∷◌, ◌++◌, append_assoc, arith, inl, inr}
use reqwless.Base.{
  Bytes, length, length-append, drop, ltb, ◌==◌, if◌then◌else◌, Bool-cases, Option-cases, unwrap_or,
  ltb→lt, lt→ltb, drop-append,
}
use mathlib.Core.Option
use native.Mathlib.Nat.{pow-suc}
use reqwless.Base.Words.{to_be_bytes}
use reqwless.Hex.{digit, encoding}

encoding-append : (xs ys : Bytes) → encoding (xs ++ ys) ≡ encoding xs ++ encoding ys
encoding-append [] ys = refl
encoding-append (x ∷ xs) ys = ap (λ t. digit (x / 16) ∷ digit (x % 16) ∷ t) (encoding-append xs ys)

-- The `k` lowest hexadecimal digits of `n`, leading zeros included.
unfoldable pub padded : ℕ → ℕ → Bytes
padded zero n = []
padded (suc k) n = padded k (n / 16) ++ (digit (n % 16) ∷ [])

-- The digits of `n` without leading zeros; zero has one digit. `k` bounds the digits but one.
unfoldable pub hex_text : ℕ → ℕ → Bytes
hex_text zero n = digit n ∷ []
hex_text (suc k) n =
    let rest = hex_text k (n / 16) in
    if ltb n 16 then digit n ∷ [] else rest ++ (digit (n % 16) ∷ [])

-- `iter().position(|x| *x != b'0')`
unfoldable pub first_nonzero : Bytes → Option ℕ
first_nonzero [] = none
first_nonzero (c ∷ cs) =
    let rest = first_nonzero cs in if c == b'0' then Option.map suc rest else some 0

pub length-padded : (k n : ℕ) → length (padded k n) ≡ k
unfolding padded
length-padded zero n = refl
length-padded (suc k) n =
    length-append (padded k (n / 16)) (digit (n % 16) ∷ [])
    ∙ omega (arith, length-padded k (n / 16))

nibbles_of_byte :
    (n : ℕ) → (n % 256 / 16 ≡ n / 16 % 16) × (n % 256 % 16 ≡ n % 16) × (n / 256 ≡ n / 16 / 16)
nibbles_of_byte n = omega arith

pub encoding-to_be_bytes : (k n : ℕ) → encoding (to_be_bytes k n) ≡ padded (2 * k) n
unfolding to_be_bytes padded
encoding-to_be_bytes zero n = refl
encoding-to_be_bytes (suc k) n =
    let e : 2 * suc k ≡ suc (suc (2 * k)) = omega arith in
    let (h, l, q) = nibbles_of_byte n in
    rw (e, encoding-append, h, l, q, encoding-to_be_bytes k (n / 16 / 16))
      (sym (
        append_assoc (padded (2 * k) (n / 16 / 16)) (digit (n / 16 % 16) ∷ [])
          (digit (n % 16) ∷ [])))

first_nonzero-append_none :
    (xs : Bytes) (c : ℕ)
    → first_nonzero xs ≡ none
    → first_nonzero (xs ++ (c ∷ [])) ≡ (if c == b'0' then none else some (length xs))
unfolding first_nonzero
first_nonzero-append_none [] c h = refl
first_nonzero-append_none (x ∷ xs) c h = ground (arith, first_nonzero-append_none xs c)

first_nonzero-append_some :
    (xs ys : Bytes) (i : ℕ) → first_nonzero xs ≡ some i → first_nonzero (xs ++ ys) ≡ some i
unfolding first_nonzero
first_nonzero-append_some [] ys i h = cc
first_nonzero-append_some (x ∷ xs) ys i h = elim (Option-cases (first_nonzero xs)) [
  | inl e ↦ ground (arith, first_nonzero-append_some xs ys)
  | inr (j, e) ↦ ground (arith, first_nonzero-append_some xs ys j)
]

first_nonzero-padded_zero : (k : ℕ) → first_nonzero (padded k 0) ≡ none
unfolding padded first_nonzero
first_nonzero-padded_zero zero = refl
first_nonzero-padded_zero (suc k) =
    first_nonzero-append_none (padded k 0) b'0' (first_nonzero-padded_zero k)

drop-append_le : (xs ys : Bytes) (i : ℕ) → i ≤ length xs → drop i (xs ++ ys) ≡ drop i xs ++ ys
drop-append_le xs ys zero h = refl
drop-append_le [] ys (suc i) h = absurd (omega arith)
drop-append_le (x ∷ xs) ys (suc i) h = drop-append_le xs ys i (omega arith)

-- The leading zeros that are cut off: all, but that the last digit stays.
abbrev pub zeros : Bytes → ℕ
zeros cs = unwrap_or (first_nonzero cs) (length cs - 1)

pub padded_small : (k n : ℕ) → n < 16 → padded (suc k) n ≡ padded k 0 ++ (digit n ∷ [])
unfolding padded
padded_small k n h =
    let q : n / 16 ≡ 0 = omega arith in let r : n % 16 ≡ n = omega arith in rw (q, r)

drop-padded_small : (k n : ℕ) → n < 16 → drop k (padded (suc k) n) ≡ digit n ∷ []
drop-padded_small k n h =
    rw (padded_small k n h) (drop-append (padded k 0) (digit n ∷ []) k (sym (length-padded k 0)))

first_nonzero-padded_small :
    (k n : ℕ)
    → n < 16
    → first_nonzero (padded (suc k) n) ≡ (if digit n == b'0' then none else some k)
first_nonzero-padded_small k n h = rw (padded_small k n h) (
    first_nonzero-append_none (padded k 0) (digit n) (first_nonzero-padded_zero k)
    ∙ ap (λ t. if digit n == b'0' then none else some t) (length-padded k 0))

digit-ne-zero : (n : ℕ) → 0 < n → (digit n == b'0') ≡ false
digit-ne-zero n h = ground arith

strip_positive :
    (k n : ℕ)
    → 0 < n
    → n < 16 ^ suc k
    → (i : ℕ) × (first_nonzero (padded (suc k) n) ≡ some i)
      × (i ≤ k)
      × (drop i (padded (suc k) n) ≡ hex_text k n)
unfolding padded hex_text first_nonzero
strip_positive zero n p h =
    let e : n % 16 ≡ n = omega arith in (0, rw e (ground arith), omega arith, rw e)
strip_positive (suc k) n p h = elim (Bool-cases (ltb n 16)) [
  | inl small ↦
      let n_small = ltb→lt n 16 small in
      (
        suc k,
        first_nonzero-padded_small (suc k) n n_small ∙ rw (digit-ne-zero n p),
        omega arith,
        rw small (drop-padded_small (suc k) n n_small),
      )
  | inr large ↦
      let (i, e, l, d) =
        strip_positive k (n / 16) (ground arith) (ground (arith, pow-suc 16 (suc k))) in
      (
        i,
        first_nonzero-append_some (padded (suc k) (n / 16)) (digit (n % 16) ∷ []) i e,
        omega arith,
        rw large (
            drop-append_le (padded (suc k) (n / 16)) (digit (n % 16) ∷ []) i
              (omega (arith, length-padded (suc k) (n / 16)))
            ∙ ap (λ t. t ++ (digit (n % 16) ∷ [])) d),
      )
]

pub hex_text-small : (k n : ℕ) → n < 16 → hex_text k n ≡ digit n ∷ []
unfolding hex_text
hex_text-small zero n h = refl
hex_text-small (suc k) n h = rw (lt→ltb n 16 h)

-- Cutting the leading zeros leaves the digits without leading zeros.
pub drop-zeros-padded :
    (k n : ℕ) → n < 16 ^ suc k → drop (zeros (padded (suc k) n)) (padded (suc k) n) ≡ hex_text k n
drop-zeros-padded k zero h =
    rw (first_nonzero-padded_zero (suc k), unwrap_or, length-padded (suc k) 0)
      (ap (λ i. drop i (padded (suc k) 0)) suc-sub_one
        ∙ drop-padded_small k 0 (omega arith)
        ∙ sym (hex_text-small k 0 (omega arith)))
  where
    suc-sub_one : suc k - 1 ≡ k
    suc-sub_one = omega arith
drop-zeros-padded k (suc n) h =
    let (i, e, l, d) = strip_positive k (suc n) (omega arith) h in rw (e, unwrap_or) d

pub zeros-lt : (k n : ℕ) → n < 16 ^ suc k → zeros (padded (suc k) n) ≤ k
zeros-lt k zero h =
    rw (first_nonzero-padded_zero (suc k), unwrap_or, length-padded (suc k) 0) (omega arith)
zeros-lt k (suc n) h =
    let (i, e, l, d) = strip_positive k (suc n) (omega arith) h in rw (e, unwrap_or) l
