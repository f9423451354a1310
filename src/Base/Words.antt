-- ===== src/Base/Words.antt =====
-- The target's `usize`: its width, its subtraction, its bytes, and the bit counts of the
-- standard library. No code here is of `src/`; the source uses these of Rust.
use Prim.Native.Nat.{ℕ, zero, suc, ◌+◌, ◌-◌, ◌*◌, ◌/◌, ◌%◌, ◌^◌, ◌≤◌, ◌<◌}
use mathlib.Core.Path.{◌≡◌, refl, ◌∙◌}
use mathlib.Core.Logic.{inl, inr}
use mathlib.Core.Bool.{Bool, true, false}
use mathlib.Core.List.{[], ◌∷◌, ◌++◌}
use native.Mathlib.Omega.{arith}
use native.Mathlib.Nat.{two-pow-succ, pow-suc}
use reqwless.Base.Failures.{Causes, causes_ok, causes_panic}
use reqwless.Base.Tests.{ltb, leb, if◌then◌else◌, Bool-cases, ltb→lt, lt→ltb}
use reqwless.Base.Lists.{Bytes, IsByte, length, All, All-append, length-append}
use reqwless.Base.Effects.{Outcome, ok, panic, lift}

-- `size` is `size_of::<usize>()`; `overflow_checks` is the compiler option of that name.
pub record Target : Type 0 where
  pub size : ℕ
  pub overflow_checks : Bool

-- Some byte at least, and `usize` holds a `u32`.
abbrev pub IsTarget : Target → Type 0
IsTarget t = 4 ≤ t.size

abbrev pub bits : Target → ℕ
bits t = 8 * t.size

abbrev pub IsUsize : Target → ℕ → Type 0
IsUsize t n = n < 2 ^ bits t

-- `a - b`: an underflow panics where overflows are checked, and wraps where they are not.
unfoldable pub sub_usize : {E : Type 0} → Target → ℕ → ℕ → Outcome E ℕ
sub_usize t a b =
    if leb b a then ok (a - b) else if t.overflow_checks then panic else ok (a + 2 ^ bits t - b)

-- `a + b`: an overflow panics where overflows are checked, and wraps where they are not.
unfoldable pub add_usize : {E : Type 0} → Target → ℕ → ℕ → Outcome E ℕ
add_usize t a b =
    if ltb (a + b) (2 ^ bits t)
    then ok (a + b)
    else if t.overflow_checks
    then panic
    else ok ((a + b) % 2 ^ bits t)

-- The zero bits above the highest one, of a number of that many bits.
unfoldable pub leading_zeros : ℕ → ℕ → ℕ
leading_zeros zero n = 0
leading_zeros (suc b) n = let rest = leading_zeros b n in if ltb n (2 ^ b) then suc rest else 0

-- `a.div_ceil(b)`
abbrev pub div_ceil : ℕ → ℕ → ℕ
div_ceil a b = (a + b - 1) / b

-- `n.to_be_bytes()` of an integer of that many bytes.
unfoldable pub to_be_bytes : ℕ → ℕ → Bytes
to_be_bytes zero n = []
to_be_bytes (suc k) n = to_be_bytes k (n / 256) ++ ((n % 256) ∷ [])

-- `from_be_bytes`
unfoldable pub from_be_bytes_onto : ℕ → Bytes → ℕ
from_be_bytes_onto acc [] = acc
from_be_bytes_onto acc (b ∷ bs) = from_be_bytes_onto (acc * 256 + b) bs

abbrev pub from_be_bytes : Bytes → ℕ
from_be_bytes = from_be_bytes_onto 0

pub length-to_be_bytes : (k n : ℕ) → length (to_be_bytes k n) ≡ k
unfolding to_be_bytes
length-to_be_bytes zero n = refl
length-to_be_bytes (suc k) n =
    length-append (to_be_bytes k (n / 256)) ((n % 256) ∷ [])
    ∙ omega (arith, length-to_be_bytes k (n / 256))

pub to_be_bytes-IsByte : (k n : ℕ) → All IsByte (to_be_bytes k n)
unfolding to_be_bytes
to_be_bytes-IsByte zero n = tt
to_be_bytes-IsByte (suc k) n =
    All-append IsByte (to_be_bytes k (n / 256)) ((n % 256) ∷ []) (to_be_bytes-IsByte k (n / 256))
      (omega arith)

pub leading_zeros-le : (b n : ℕ) → leading_zeros b n ≤ b
unfolding leading_zeros
leading_zeros-le zero n = omega arith
leading_zeros-le (suc b) n = ground (arith, leading_zeros-le b n)

sub-suc-suc : (a b : ℕ) → suc a - suc b ≡ a - b
sub-suc-suc a b = omega arith

sub-zero : (a : ℕ) → a - 0 ≡ a
sub-zero a = omega arith

-- The bits that are left hold the number, and no fewer do.
pub bit_length_upper : (b n : ℕ) → n < 2 ^ b → n < 2 ^ (b - leading_zeros b n)
unfolding leading_zeros
bit_length_upper zero n h = h
bit_length_upper (suc b) n h = elim (Bool-cases (ltb n (2 ^ b))) [
  | inl small ↦ rw (small, sub-suc-suc) (bit_length_upper b n (ltb→lt _ _ small))
  | inr large ↦ rw (large, sub-zero) h
]

pub bit_length_lower : (b n : ℕ) → 0 < n → n < 2 ^ b → 2 ^ (b - leading_zeros b n - 1) ≤ n
unfolding leading_zeros
bit_length_lower zero n p h = p
bit_length_lower (suc b) n p h = elim (Bool-cases (ltb n (2 ^ b))) [
  | inl small ↦ rw (small, sub-suc-suc) (bit_length_lower b n p (ltb→lt _ _ small))
  | inr large ↦ rw large (ground arith)
]

pub pow-sixteen : (h : ℕ) → 16 ^ h ≡ 2 ^ (4 * h)
pow-sixteen zero = refl
pow-sixteen (suc h) =
    let e : 4 * suc h ≡ suc (suc (suc (suc (4 * h)))) = omega arith in
    rw (e, two-pow-succ, two-pow-succ, two-pow-succ, two-pow-succ, pow-suc)
      (omega (arith, pow-sixteen h))

pub sub_usize-eq_ok :
    {E : Type 0} (t : Target) (a b : ℕ) → b ≤ a → sub_usize {E = E} t a b ≡ ok (a - b)
unfolding sub_usize
sub_usize-eq_ok t a b h = ground arith

pub add_usize-eq_ok :
    {E : Type 0} (t : Target) (a b : ℕ) → IsUsize t (a + b) → add_usize {E = E} t a b ≡ ok (a + b)
unfolding add_usize
add_usize-eq_ok t a b h = rw (lt→ltb (a + b) (2 ^ bits t) h)

-- A subtraction has no errors.
pub sub_usize-Causes :
    {X E : Type 0} {Q : E → X → Type 0} (t : Target) (a b : ℕ) (s : X)
    → Causes Q (lift (sub_usize t a b) s)
unfolding sub_usize
sub_usize-Causes {X} {E} {Q} t a b s = by_tests (leb b a) t.overflow_checks
  where
    by_tests :
        (fits checks : Bool)
        → Causes Q
            ((if fits then ok (a - b) else if checks then panic else ok (a + 2 ^ bits t - b)), s)
    by_tests true checks = causes_ok _ s
    by_tests false true = causes_panic s
    by_tests false false = causes_ok _ s
