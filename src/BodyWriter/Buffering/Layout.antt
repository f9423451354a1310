-- ===== src/BodyWriter/Buffering/Layout.antt =====
-- The writer's buffer by its parts, and the writer's invariant.
use reqwless.Base.{
  ℕ, ◌+◌, ◌≤◌, ◌≡◌, ◌≢◌, ◌⊎◌, refl, sym, ap, ◌∙◌, arith, append_assoc, [], ◌++◌, Bool, Bytes,
  length, length-append, take, take-append, slice, slice-append,
}
use reqwless.Base.Words.{Target, IsUsize}
use reqwless.BodyWriter.Buffering.{BufferingChunkedBodyWriter, get_max_chunk_header_size}

module _ {C : Type 0} where
  abbrev pub state : C → Bool → Bytes → ℕ → ℕ → ℕ → BufferingChunkedBodyWriter C
  state c done buf header_pos allocated_header pos = record {
    conn = c;
    buf = buf;
    header_pos = header_pos;
    allocated_header = allocated_header;
    pos = pos;
    terminated = done;
  }

  -- Finished bytes, the room for a header, the payload so far, and what is left.
  abbrev pub layout : C → Bool → Bytes → Bytes → Bytes → Bytes → BufferingChunkedBodyWriter C
  layout c done front header payload room =
      state c done (front ++ (header ++ (payload ++ room))) (length front) (length header)
        (length front + length header + length payload)

  -- What lies behind the finished bytes has the room for a header that its size asks for. Three
  -- bytes behind them would let a payload in and no header. A chunk with a payload is not full.
  pub record IsValid (t : Target) (w : BufferingChunkedBodyWriter C) : Type 0 where
    pub front : Bytes
    pub header : Bytes
    pub payload : Bytes
    pub room : Bytes
    pub shape : w ≡ layout w.conn w.terminated front header payload room
    pub fits : IsUsize t (length front + (length header + (length payload + length room)))
    pub large : 6 ≤ length front + (length header + (length payload + length room))
    pub sized :
        length header ≡ get_max_chunk_header_size t (length header + (length payload + length room))
    pub not_three : length header + (length payload + length room) ≢ 3
    pub spare : (payload ≡ []) ⊎ (3 ≤ length room)

  -- The finished bytes that wait in the buffer, and the payload of the current chunk.
  abbrev pub buffered : BufferingChunkedBodyWriter C → Bytes
  buffered w = take w.header_pos w.buf

  abbrev pub pending : BufferingChunkedBodyWriter C → Bytes
  pending w = slice w.buf (w.header_pos + w.allocated_header) w.pos

  pub buffered-layout :
      (c : C) (done : Bool) (front header payload room : Bytes)
      → buffered (layout c done front header payload room) ≡ front
  buffered-layout c done front header payload room =
      take-append front (header ++ (payload ++ room)) (length front) refl

  pub pending-layout :
      (c : C) (done : Bool) (front header payload room : Bytes)
      → pending (layout c done front header payload room) ≡ payload
  pending-layout c done front header payload room =
      let start = length front + length header in
      ap (λ b. slice b start (start + length payload))
        (sym (append_assoc front header (payload ++ room)))
      ∙ slice-append (front ++ header) payload room start (start + length payload)
          (sym (length-append front header)) refl

  pub open_shape :
      (c : C) (done : Bool) (front rest header room : Bytes) (size : ℕ)
      → rest ≡ header ++ room
      → length header ≡ size
      → state c done (front ++ rest) (length front) size (length front + size)
        ≡ layout c done front header [] room
  open_shape c done front rest header room size e l =
      let p : length front + length header ≡ length front + length header + 0 = omega arith in
      rw (e, ← l)
        (ap (λ k. state c done (front ++ (header ++ room)) (length front) (length header) k) p)

-- All that was handed over, and what waits behind it in the buffer.
abbrev pub out : {C : Type 0} → (C → Bytes) → BufferingChunkedBodyWriter C → Bytes
out sent w = sent w.conn ++ buffered w
