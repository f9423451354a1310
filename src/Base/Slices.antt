-- ===== src/Base/Slices.antt =====
-- Slice operations on a buffer, with Rust's bounds checks. The state is the buffer.
use Prim.Native.Nat.{ℕ, ◌+◌, ◌-◌}
use mathlib.Core.Path.{◌≡◌, ap, sym, ◌∙◌}
use mathlib.Core.Bool.{◌&&◌}
use mathlib.Core.List.{◌++◌, append_assoc}
use native.Mathlib.Omega.{arith}
use reqwless.Base.Tests.{leb, ◌==◌, if◌then◌else◌, le→leb, ==_iff}
use reqwless.Base.Lists.{Bytes, length, take, drop, length-append, take-append, drop-append}
use reqwless.Base.Effects.{Outcome, Io, ok, panic}

-- `&buf[a..b]`
abbrev pub slice : Bytes → ℕ → ℕ → Bytes
slice buf a b = take (b - a) (drop a buf)

unfoldable pub read_slice : {E : Type 0} → ℕ → ℕ → Io Bytes E Bytes
read_slice a b buf =
    if leb a b && leb b (length buf) then (ok (slice buf a b), buf) else (panic, buf)

-- `src` laid over `buf` from position `pos` on.
abbrev pub patch : Bytes → ℕ → Bytes → Bytes
patch buf pos src = take pos buf ++ (src ++ drop (pos + length src) buf)

-- `buf[a..b].copy_from_slice(src)`
unfoldable pub copy_from_slice : {E : Type 0} → ℕ → ℕ → Bytes → Io Bytes E (Unit {0})
copy_from_slice a b src buf =
    if leb a b && (leb b (length buf) && b - a == length src)
    then (ok tt, patch buf a src)
    else (panic, buf)

-- `buf.copy_within(a..b, dest)`
unfoldable pub copy_within : {E : Type 0} → ℕ → ℕ → ℕ → Io Bytes E (Unit {0})
copy_within a b dest buf =
    if leb a b && (leb b (length buf) && leb (dest + (b - a)) (length buf))
    then (ok tt, patch buf dest (slice buf a b))
    else (panic, buf)

-- A call on the slice `&mut buf[a..b]`.
unfoldable pub within : {E A : Type 0} → ℕ → ℕ → Io Bytes E A → Io Bytes E A
within a b m buf =
    if leb a b && leb b (length buf)
    then (let r = m (slice buf a b) in (r.0, patch buf a r.1))
    else (panic, buf)

-- The laws are stated on a buffer that is cut at the positions used.
pub patch-append :
    (front old rest src : Bytes) (pos : ℕ)
    → pos ≡ length front
    → length old ≡ length src
    → patch (front ++ (old ++ rest)) pos src ≡ front ++ (src ++ rest)
patch-append front old rest src pos h l =
    ap (λ t. t ++ (src ++ drop (pos + length src) (front ++ (old ++ rest))))
      (take-append front (old ++ rest) pos h)
    ∙ ap (λ t. front ++ (src ++ t))
        (ap (λ t. drop (pos + length src) t) (sym (append_assoc front old rest))
          ∙ drop-append (front ++ old) rest (pos + length src)
              (omega (arith, length-append front old)))

pub slice-append :
    (front mid rest : Bytes) (a b : ℕ)
    → a ≡ length front
    → b ≡ a + length mid
    → slice (front ++ (mid ++ rest)) a b ≡ mid
slice-append front mid rest a b ha hb =
    ap (λ t. take (b - a) t) (drop-append front (mid ++ rest) a ha)
    ∙ take-append mid rest (b - a) (omega arith)

pub read_slice-append :
    {E : Type 0} (front mid rest : Bytes) (a b : ℕ)
    → a ≡ length front
    → b ≡ a + length mid
    → read_slice {E = E} a b (front ++ (mid ++ rest)) ≡ (ok mid, front ++ (mid ++ rest))
unfolding read_slice
read_slice-append front mid rest a b ha hb = rw (
  le→leb a b (omega arith),
  le→leb b (length (front ++ (mid ++ rest)))
      (omega (arith, length-append front (mid ++ rest), length-append mid rest)),
  slice-append front mid rest a b ha hb,
)

pub copy_from_slice-append :
    {E : Type 0} (front old rest src : Bytes) (a b : ℕ)
    → a ≡ length front
    → b ≡ a + length src
    → length old ≡ length src
    → copy_from_slice {E = E} a b src (front ++ (old ++ rest)) ≡ (ok tt, front ++ (src ++ rest))
unfolding copy_from_slice
copy_from_slice-append front old rest src a b ha hb l = rw (
  le→leb a b (omega arith),
  le→leb b (length (front ++ (old ++ rest)))
      (omega (arith, length-append front (old ++ rest), length-append old rest)),
  (==_iff (b - a) (length src)).1 (omega arith),
  patch-append front old rest src a ha l,
)

pub copy_within-append :
    {E : Type 0} (front old mid rest : Bytes) (a b dest : ℕ)
    → dest ≡ length front
    → a ≡ dest + length old
    → b ≡ a + length mid
    → copy_within {E = E} a b dest (front ++ (old ++ (mid ++ rest)))
      ≡ (ok tt, patch (front ++ (old ++ (mid ++ rest))) dest mid)
unfolding copy_within
copy_within-append front old mid rest a b dest hd ha hb = rw (
  le→leb a b (omega arith),
  le→leb b (length (front ++ (old ++ (mid ++ rest)))) (omega (arith, total)),
  le→leb (dest + (b - a)) (length (front ++ (old ++ (mid ++ rest)))) (omega (arith, total)),
  ap (λ t. slice t a b) (sym (append_assoc front old (mid ++ rest))),
  slice-append (front ++ old) mid rest a b (omega (arith, length-append front old)) hb,
)
  where
    total :
        length (front ++ (old ++ (mid ++ rest)))
        ≡ length front + (length old + (length mid + length rest))
    total = omega (
      arith,
      length-append front (old ++ (mid ++ rest)),
      length-append old (mid ++ rest),
      length-append mid rest,
    )

pub within-append :
    {E A : Type 0} (m : Io Bytes E A) (front mid rest mid' : Bytes) (r : Outcome E A) (a b : ℕ)
    → a ≡ length front
    → b ≡ a + length mid
    → m mid ≡ (r, mid')
    → length mid ≡ length mid'
    → within a b m (front ++ (mid ++ rest)) ≡ (r, front ++ (mid' ++ rest))
unfolding within
within-append m front mid rest mid' r a b ha hb e l = rw (
  le→leb a b (omega arith),
  le→leb b (length (front ++ (mid ++ rest)))
      (omega (arith, length-append front (mid ++ rest), length-append mid rest)),
  slice-append front mid rest a b ha hb,
  e,
  patch-append front mid rest mid' a ha l,
)
