-- ===== src/Response/Chunked/Lines.antt =====
-- The chunked reader on the wire: a size line, and the end of a chunk.
use reqwless.Base.{
  ℕ, zero, suc, ◌-◌, ◌*◌, ◌/◌, ◌%◌, ◌^◌, ◌<◌, ◌≡◌, ◌≢◌, refl, sym, ap, ◌∙◌, [], ◌∷◌, ◌++◌,
  append_assoc, append-nil, arith, true, false, inl, inr,
}
use reqwless.Base.{
  Bytes, All, All-append, length, length-append, get_elem?, ◌==◌, Bool-cases, unwrap_or, ltb,
  ltb→lt,
}
use reqwless.Base.{Ends, Ends-mono, Ends-and_then, ends_ok, ends_err}
use reqwless.Base.Words.{Target, IsTarget, IsUsize}
use reqwless.Errors.{Error, from_read_exact, kind}
use reqwless.Connection.{Read, IsRead}
use reqwless.Connection.Failure.{IsFailure, of_read_exact, of_byte}
use reqwless.Hex.{Hex, IsHex, digit}
use reqwless.Hex.Digits.{hex_text}
use reqwless.BodyWriter.Header.{newline, chunk_header}
use reqwless.BodyWriter.Header.Laws.{IsUsize-sixteen}
use reqwless.Response.Chunked.State.{ChunkState}
use reqwless.Response.Chunked.State
use reqwless.Response.Chunked.{
  ChunkedBodyReader, ends_with_return, read_byte, read_size, read_next_chunk_length, read_chunk_end,
}
use reqwless.Response.Chunked.Size.{decode_size_lem, decode_size-no_digit, short_text}
use native.Mathlib.Nat.{pow-suc}

one_byte :
    (bs more rest : Bytes) (b : ℕ)
    → length bs ≡ 1
    → b ∷ more ≡ bs ++ rest
    → (bs ≡ b ∷ []) × (rest ≡ more)
one_byte [] more rest b l e = absurd (omega arith)
one_byte (x ∷ []) more rest b l e = (cc, cc)
one_byte (x ∷ y ∷ bs) more rest b l e = absurd (omega arith)

two_bytes :
    (bs more rest : Bytes) (a b : ℕ)
    → length bs ≡ 2
    → a ∷ b ∷ more ≡ bs ++ rest
    → (bs ≡ a ∷ b ∷ []) × (rest ≡ more)
two_bytes [] more rest a b l e = absurd (omega arith)
two_bytes (x ∷ []) more rest a b l e = absurd (omega arith)
two_bytes (x ∷ y ∷ []) more rest a b l e = (cc, cc)
two_bytes (x ∷ y ∷ z ∷ bs) more rest a b l e = absurd (omega arith)

ends_with_return-append : (xs : Bytes) → ends_with_return (xs ++ (b'\r' ∷ [])) ≡ true
ends_with_return-append [] = refl
ends_with_return-append (x ∷ []) = refl
ends_with_return-append (x ∷ y ∷ xs) = ends_with_return-append (y ∷ xs)

Plain : ℕ → Type 0
Plain b = b ≢ b'\n'

digit-Plain : (d : ℕ) → d < 16 → Plain (digit d)
unfolding Plain
digit-Plain d h = ground arith

hex_text-Plain : (k n : ℕ) → n < 16 ^ suc k → All Plain (hex_text k n)
unfolding hex_text
hex_text-Plain zero n h = (digit-Plain n (omega arith), tt)
hex_text-Plain (suc k) n h = elim (Bool-cases (ltb n 16)) [
  | inl small ↦ rw small (digit-Plain n (ltb→lt n 16 small), tt)
  | inr large ↦ rw large (
      All-append Plain (hex_text k (n / 16)) (digit (n % 16) ∷ [])
        (hex_text-Plain k (n / 16) (omega (arith, pow-suc 16 (suc k))))
        (digit-Plain (n % 16) (omega arith), tt))
]

module _ {B : Type 0} (io : Read B) (Inv : B → Type 0) (unread : B → Bytes)
    (law : IsRead io Inv unread) where
  -- The reader is in that state, and those bytes come next.
  abbrev pub At : ChunkState → Bytes → ChunkedBodyReader B → Type 0
  At state bytes r = (r.chunk_remaining ≡ state) × Inv r.raw_body × (unread r.raw_body ≡ bytes)

  read_byte_lem :
      (state : ChunkState) (b : ℕ) (more : Bytes) (r : ChunkedBodyReader B)
      → At state (b ∷ more) r
      → Ends (read_byte io r) (λ x r'. (x ≡ b) × At state more r') (λ x _. IsFailure io x)
  read_byte_lem state b more r (s, v, u) = elim (law.read_exact_lem 1 r.raw_body v) [
    | ends_err x b' e _ ↦
        ends_err (Error.network (kind (from_read_exact x))) (record r { raw_body = b' }) (rw e)
          (of_byte x 1 r.raw_body b' e)
    | ends_ok bs b' e (v', l, u') ↦
        let (eb, er) = one_byte bs more (unread b') b l (sym u ∙ u') in
        ends_ok (unwrap_or (get_elem? bs 0) 0) (record r { raw_body = b' }) (rw e)
          (ap (λ z. unwrap_or (get_elem? z 0) 0) eb, (s, v', er))
  ]

  -- A line is read up to its end, if it leaves room in the buffer.
  read_size_lem :
      (line : Bytes) (room : ℕ) (got rest : Bytes) (state : ChunkState) (r : ChunkedBodyReader B)
      → All Plain line
      → length line < room
      → ends_with_return (got ++ line) ≡ true
      → At state (line ++ (b'\n' ∷ rest)) r
      → Ends
          (read_size io room got r)
          (λ all r'. (all ≡ got ++ line) × At state rest r')
          (λ x _. IsFailure io x)
  unfolding read_size Plain
  read_size_lem line zero got rest state r plain room last a = absurd (omega arith)
  read_size_lem [] (suc room) got rest state r plain fits last a =
      let ret : ends_with_return got ≡ true = sym (ap ends_with_return (append-nil got)) ∙ last in
      Ends-and_then _ (read_byte_lem state b'\n' rest r a)
        (λ x r' (e, a'). rw (e, ret) (ends_ok got r' refl (sym (append-nil got), a'))) (λ _ _ f. f)
  read_size_lem (b ∷ line) (suc room) got rest state r (p, plain) fits last a =
      let other : (b == b'\n') ≡ false = not_newline b p in
      let regroup : (got ++ (b ∷ [])) ++ line ≡ got ++ (b ∷ line) =
        append_assoc got (b ∷ []) line in
      Ends-and_then _ (read_byte_lem state b (line ++ (b'\n' ∷ rest)) r a)
        (λ x r' (e, a').
          rw (e, other)
            (Ends-mono (λ all r'' (ea, a''). (ea ∙ regroup, a'')) (λ _ _ f. f)
              (read_size_lem line room (got ++ (b ∷ [])) rest state r' plain (omega arith)
                (ap ends_with_return regroup ∙ last) a')))
        (λ _ _ f. f)
    where
      not_newline : (b : ℕ) → b ≢ b'\n' → (b == b'\n') ≡ false
      not_newline b p = ground arith

  -- The size line that a writer puts before a chunk is read back.
  pub read_next_chunk_length_lem :
      (t t' : Target) (h : Hex) (n : ℕ) (rest : Bytes) (state : ChunkState)
      (r : ChunkedBodyReader B)
      → IsHex h
      → IsTarget t'
      → IsUsize t' n
      → n < 2 ^ 32
      → At state (chunk_header t' n ++ rest) r
      → Ends
          (read_next_chunk_length t h io r)
          (λ _ r'. At (State.of_length n) rest r')
          (λ x _. IsFailure io x)
  unfolding read_next_chunk_length chunk_header Plain
  read_next_chunk_length_lem t t' h n rest state r is_hex wide fits h32 (s, v, u) =
      let k = 2 * t'.size - 1 in
      let bound = IsUsize-sixteen t' wide n fits in
      let line = hex_text k n ++ (b'\r' ∷ []) in
      let next : unread r.raw_body ≡ line ++ (b'\n' ∷ rest) =
        u
        ∙ append_assoc (hex_text k n) newline rest
        ∙ sym (append_assoc (hex_text k n) (b'\r' ∷ []) (b'\n' ∷ rest)) in
      Ends-and_then _
        (read_size_lem line 10 [] rest state r
          (All-append Plain (hex_text k n) (b'\r' ∷ []) (hex_text-Plain k n bound)
            (digit_return, tt))
          (omega (arith, short_text t h k n bound h32, length-append (hex_text k n) (b'\r' ∷ [])))
          (ends_with_return-append (hex_text k n)) (s, v, next))
        (λ all r' (e, (_, v', u')).
          rw (e, decode_size_lem t h k n r' is_hex bound h32)
            (ends_ok tt (record r' { chunk_remaining = State.of_length n }) refl (refl, v', u')))
        (λ _ _ f. f)
    where
      digit_return : Plain b'\r'
      digit_return e = absurd (omega (arith, e))

  -- The newline behind a chunk is read.
  pub read_chunk_end_lem :
      (state : ChunkState) (rest : Bytes) (r : ChunkedBodyReader B)
      → At state (newline ++ rest) r
      → Ends (read_chunk_end io r) (λ _ r'. At state rest r') (λ x _. IsFailure io x)
  unfolding read_chunk_end
  read_chunk_end_lem state rest r (s, v, u) = elim (law.read_exact_lem 2 r.raw_body v) [
    | ends_err x b' e _ ↦
        ends_err (from_read_exact x) (record r { raw_body = b' }) (rw e)
          (of_read_exact x 2 r.raw_body b' e)
    | ends_ok bs b' e (v', l, u') ↦
        let (eb, er) = two_bytes bs rest (unread b') b'\r' b'\n' l (sym u ∙ u') in
        ends_ok tt (record r { raw_body = b' }) (rw (e, eb)) (s, v', er)
  ]

  -- A size line without a digit is not refused: it is taken as that of the last chunk, and the only
  -- errors are those of the connection.
  pub read_next_chunk_length-no_digit :
      (t : Target) (h : Hex) (rest : Bytes) (state : ChunkState) (r : ChunkedBodyReader B)
      → IsHex h
      → At state (newline ++ rest) r
      → Ends
          (read_next_chunk_length t h io r)
          (λ _ r'. At ChunkState.empty rest r')
          (λ x _. IsFailure io x)
  unfolding read_next_chunk_length Plain
  read_next_chunk_length-no_digit t h rest state r is_hex a =
      Ends-and_then _
        (read_size_lem (b'\r' ∷ []) 10 [] rest state r (digit_return, tt) (omega arith) refl a)
        (λ all r' (e, (_, v', u')).
          rw (e, decode_size-no_digit t h r' is_hex)
            (ends_ok tt (record r' { chunk_remaining = ChunkState.empty }) refl (refl, v', u')))
        (λ _ _ f. f)
    where
      digit_return : Plain b'\r'
      digit_return e = absurd (omega (arith, e))
