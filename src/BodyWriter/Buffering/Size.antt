-- ===== src/BodyWriter/Buffering/Size.antt =====
-- How much room `get_max_chunk_header_size` keeps for a chunk's header.
use reqwless.Base.{ℕ, zero, suc, ◌+◌, ◌-◌, ◌*◌, ◌^◌, ◌≤◌, ◌<◌, ◌≡◌, refl, ◌∙◌, inl, inr, arith}
use reqwless.Base.{length, length-append, le→leb, lt→leb, ltb, ltb→lt, Bool-cases, ◌==◌, false}
use reqwless.Base.Words.{Target, IsTarget, IsUsize, bits}
use reqwless.Hex.Digits.{hex_text}
use reqwless.Hex.Width.{HasWidth, HasWidth-mono, hex_text-HasWidth, bit_count-HasWidth}
use reqwless.BodyWriter.Header.{newline, chunk_header}
use reqwless.BodyWriter.Header.Laws.{IsUsize-sixteen}
use reqwless.BodyWriter.Buffering.{get_num_hex_chars, get_max_chunk_header_size}
use native.Mathlib.Nat.{pow-suc}

pub get_num_hex_chars-HasWidth :
    (t : Target) (n : ℕ) → IsUsize t n → (j : ℕ) × (get_num_hex_chars t n ≡ suc j) × HasWidth n j
unfolding get_num_hex_chars
get_num_hex_chars-HasWidth t zero fits = (0, refl, record { upper = omega arith; lower = inl refl })
get_num_hex_chars-HasWidth t (suc n) fits =
    let (j, e, w) = bit_count-HasWidth (bits t) (suc n) (omega arith) fits in
    (j, rw (suc-ne-zero n) e, w)
  where
    suc-ne-zero : (n : ℕ) → (suc n == 0) ≡ false
    suc-ne-zero n = ground arith

pub no_header_room : (t : Target) (n : ℕ) → n < 4 → get_max_chunk_header_size t n ≡ 0
unfolding get_max_chunk_header_size
no_header_room t n h = rw (lt→leb 4 n h)

pub header_room :
    (t : Target) (n : ℕ)
    → IsUsize t n
    → 4 ≤ n
    → (j : ℕ) × (get_max_chunk_header_size t n ≡ suc j + 2) × HasWidth (n - 4) j
unfolding get_max_chunk_header_size
header_room t n fits h =
    let (j, e, w) = get_num_hex_chars-HasWidth t (n - 4) (omega arith) in
    (j, rw (le→leb 4 n h) (omega (arith, e)), w)

pub length-chunk_header :
    (t : Target) (n : ℕ)
    → IsTarget t
    → IsUsize t n
    → (j : ℕ) × (length (chunk_header t n) ≡ suc j + 2) × HasWidth n j
unfolding chunk_header
length-chunk_header t n wide fits =
    let (j, e, w, _) = hex_text-HasWidth (2 * t.size - 1) n (IsUsize-sixteen t wide n fits) in
    (j, length-append (hex_text (2 * t.size - 1) n) newline ∙ omega (arith, e), w)

-- The header of any payload that leaves the room for a header and a footer fits.
pub header_fits :
    (t : Target) (p n : ℕ)
    → IsTarget t
    → IsUsize t n
    → p + 4 ≤ n
    → length (chunk_header t p) ≤ get_max_chunk_header_size t n
header_fits t p n wide fits h =
    let (i, e, v) = length-chunk_header t p wide (omega arith) in
    let (j, e', w) = header_room t n fits (omega arith) in
    omega (arith, e, e', HasWidth-mono p (n - 4) i j v w (omega arith))

lt-pow_self : (j : ℕ) → j < 16 ^ j
lt-pow_self zero = omega arith
lt-pow_self (suc j) = omega (arith, pow-suc 16 j, lt-pow_self j)

digits-le : (j m : ℕ) → 2 ≤ m → HasWidth m j → j + 2 ≤ m
digits-le zero m h w = h
digits-le (suc j) m h w = elim w.lower [
  | inl z ↦ absurd (omega arith)
  | inr l ↦ omega (arith, l, pow-suc 16 j, lt-pow_self j)
]

HasWidth-le : (j m : ℕ) → HasWidth m j → j ≤ m
HasWidth-le j m w = elim w.lower [ inl z ↦ omega arith | inr l ↦ omega (arith, l, lt-pow_self j) ]

pub header_room-lt : (t : Target) (n : ℕ) → IsUsize t n → 4 ≤ n → get_max_chunk_header_size t n < n
header_room-lt t n fits h =
    let (j, e, w) = header_room t n fits h in omega (arith, e, HasWidth-le j (n - 4) w)

pub header_room-le : (t : Target) (n : ℕ) → IsUsize t n → get_max_chunk_header_size t n ≤ n
header_room-le t n fits = elim (Bool-cases (ltb n 4)) [
  | inl small ↦ omega (arith, no_header_room t n (ltb→lt n 4 small))
  | inr large ↦ omega (arith, header_room-lt t n fits (ground arith))
]

-- Of a buffer of six bytes and more, a header and a footer leave a byte at least.
pub fresh_room : (t : Target) (n : ℕ) → IsUsize t n → 6 ≤ n → get_max_chunk_header_size t n + 3 ≤ n
fresh_room t n fits h =
    let (j, e, w) = header_room t n fits (omega arith) in
    omega (arith, e, digits-le j (n - 4) (omega arith) w)

-- A header for an empty chunk, or none.
tiny_room : (t : Target) (n : ℕ) → IsUsize t n → n < 6 → get_max_chunk_header_size t n ≤ 3
tiny_room t n fits h = elim (Bool-cases (ltb n 4)) [
  | inl small ↦ omega (arith, no_header_room t n (ltb→lt n 4 small))
  | inr four ↦ one_digit (ground arith)
]
  where
    one_digit : 4 ≤ n → get_max_chunk_header_size t n ≤ 3
    one_digit four =
        let (j, e, w) = header_room t n fits four in
        elim w.lower [ inl z ↦ omega (arith, e, z) | inr l ↦ omega (arith, e, l, lt-pow_self j) ]

-- A buffer of six bytes and more has room behind a header and a footer, whatever is prewritten.
pub header_room-spare :
    (t : Target) (n total : ℕ)
    → IsUsize t total
    → n ≤ total
    → 6 ≤ total
    → get_max_chunk_header_size t n + 2 < total
header_room-spare t n total fits le large = elim (Bool-cases (ltb n 6)) [
  | inl small ↦ omega (arith, tiny_room t n (omega arith) (ltb→lt n 6 small))
  | inr six ↦ enough (ground arith)
]
  where
    enough : 6 ≤ n → get_max_chunk_header_size t n + 2 < total
    enough six = omega (arith, fresh_room t n (omega arith) six)

-- Of a buffer of six bytes or more, the room kept for a header, with a footer, leaves a byte at
-- least; and the header of every payload that fits into what it leaves fits into that room.
pub header_room-bounds :
    (t : Target) (n : ℕ)
    → IsTarget t
    → IsUsize t n
    → 6 ≤ n
    → (get_max_chunk_header_size t n + length newline < n)
      × ((p : ℕ)
          → get_max_chunk_header_size t n + p + length newline ≤ n
          → length (chunk_header t p) ≤ get_max_chunk_header_size t n)
header_room-bounds t n wide fits h =
    let room : get_max_chunk_header_size t n + 3 ≤ n = fresh_room t n fits h in
    let (j, e, _) = header_room t n fits (omega arith) in
    (omega (arith, room), (λ p le. header_fits t p n wide fits (omega (arith, le, e))))
