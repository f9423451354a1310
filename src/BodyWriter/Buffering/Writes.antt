-- ===== src/BodyWriter/Buffering/Writes.antt =====
-- `write` and `flush` keep the invariant, and send what they are given.
use reqwless.Base.{
  ℕ, ◌+◌, ◌≤◌, ◌<◌, ◌≡◌, ◌≢◌, refl, subst, sym, ap, ◌∙◌, [], ◌∷◌, ◌++◌, append_assoc, append-nil,
  arith, Bool, false, inl, inr,
}
use reqwless.Base.{Bytes, length, length-append, length-append_three, take, Bool-cases}
use reqwless.Base.{◌>>◌, ok, Ends, Ends-mono, ends_ok, ends_err}
use reqwless.Base.Words.{Target, IsTarget, IsUsize}
use reqwless.Hex.{Hex, IsHex}
use reqwless.Errors.{ErrorKind}
use reqwless.Connection.{Write, IsWrite}
use reqwless.BodyWriter.Header.{chunk}
use reqwless.BodyWriter.Buffering.{
  BufferingChunkedBodyWriter, append_current_chunk, current_chunk_is_full, emit_buffered,
  finish_current_chunk, settle, get_max_chunk_header_size,
}
use reqwless.BodyWriter.Buffering.Finish.{finish_current_chunk_lem}
use reqwless.BodyWriter.Buffering.Emit.{IsFresh, emit_buffered_lem}
use reqwless.BodyWriter.Buffering.Append.{append_current_chunk_lem}
use reqwless.BodyWriter.Buffering.Sends.{Sends, Sends-nil, Sends-append, Sends-payload, Sends-chunk}
use reqwless.BodyWriter.Buffering.Layout.{layout, IsValid, out, buffered-layout, pending-layout}

length-layout :
    (front header payload room : Bytes)
    → length (front ++ (header ++ (payload ++ room)))
      ≡ length front + (length header + (length payload + length room))
length-layout front header payload room = omega (
  arith,
  length-append front (header ++ (payload ++ room)),
  length-append_three header payload room,
)

room_left :
    {C : Type 0} (c : C) (done : Bool) (front header payload room : Bytes)
    → 2 ≤ length room
    → current_chunk_is_full (layout c done front header payload room) ≡ false
    → 3 ≤ length room
unfolding current_chunk_is_full
room_left c done front header payload room footer h =
    ground (arith, length-layout front header payload room)

module _ {C : Type 0} (t : Target) (h : Hex) (conn : Write C) (sent : C → Bytes) (wide : IsTarget t)
    (is_hex : IsHex h) (law : IsWrite conn sent) where
  -- The parts of a writer whose current chunk takes a payload.
  pub record IsOpen (front header payload room : Bytes) : Type 0 where
    pub fits : IsUsize t (length front + (length header + (length payload + length room)))
    pub large : 6 ≤ length front + (length header + (length payload + length room))
    pub sized :
        length header ≡ get_max_chunk_header_size t (length header + (length payload + length room))
    pub keeps : 3 ≤ length header
    pub footer : 2 ≤ length room

  out-layout :
      (c : C) (done : Bool) (front header payload room : Bytes)
      → out sent (layout c done front header payload room) ≡ sent c ++ front
  out-layout c done front header payload room =
      ap (λ z. sent c ++ z) (buffered-layout c done front header payload room)

  pub finish_and_emit :
      (c : C) (done : Bool) (front header payload room : Bytes)
      → IsOpen front header payload room
      → Ends
          ((finish_current_chunk t h >> emit_buffered t h conn)
            (layout c done front header payload room))
          (λ _ w. IsFresh t h conn sent law done (sent c ++ (front ++ chunk t payload)) w)
          (λ _ _. Unit {0})
  finish_and_emit c done front header payload room o =
      let (header', room', l, total, e) =
        finish_current_chunk_lem {E = ErrorKind} t h c done front header payload room wide is_hex
          o.fits o.sized o.keeps o.footer in
      let bound : length (front ++ chunk t payload) + length (header' ++ room')
          ≡ length front + (length header + (length payload + length room)) =
        omega (arith, total, length-append header' room') in
      rw e (
        emit_buffered_lem t h conn sent law c done (front ++ chunk t payload) (header' ++ room')
          (length header') (length (front ++ chunk t payload) + length header' + 0)
          (omega (arith, bound, o.fits)) (omega (arith, bound, o.large)))

  -- `settle` leaves a chunk with room in it alone, and sends a full one.
  settle_lem :
      (c : C) (done : Bool) (front header payload room : Bytes) (written : ℕ)
      → IsOpen front header payload room
      → payload ≢ []
      → length header + (length payload + length room) ≢ 3
      → Ends
          (settle t h conn written (layout c done front header payload room))
          (λ n w.
            (n ≡ written)
            × IsValid t w
            × Sends t sent [] (layout c done front header payload room) w)
          (λ _ _. Unit {0})
  unfolding settle
  settle_lem c done front header payload room written o ne nt =
      elim (Bool-cases (current_chunk_is_full (layout c done front header payload room))) [
        | inl full ↦ elim (finish_and_emit c done front header payload room o) [
          | ends_ok _ w e f ↦ ends_ok written w (rw (full, e)) (
            refl,
            f.valid,
            Sends-chunk t sent h conn law payload (layout c done front header payload room) w
                (pending-layout c done front header payload room) ne
                (subst (λ z. IsFresh t h conn sent law done z w)
                  (sym (append_assoc (sent c) front (chunk t payload))
                    ∙ ap (λ z. z ++ chunk t payload)
                        (sym (out-layout c done front header payload room)))
                  f),
          )
          | ends_err x w e _ ↦ ends_err x w (rw (full, e)) tt
        ]
        | inr open_chunk ↦
            ends_ok written (layout c done front header payload room) (rw open_chunk) (
              refl,
              record {
                front = front;
                header = header;
                payload = payload;
                room = room;
                shape = refl;
                fits = o.fits;
                large = o.large;
                sized = o.sized;
                not_three = nt;
                spare = inr (room_left c done front header payload room o.footer open_chunk);
              },
              Sends-nil t sent (layout c done front header payload room),
            )
      ]

  -- A call on a writer that takes at least one byte: it appends, and settles.
  abbrev pub Appends : Bytes → BufferingChunkedBodyWriter C → Type 0
  Appends bs u =
      (n : ℕ) × (w : BufferingChunkedBodyWriter C) × (0 < n)
      × (n ≤ length bs)
      × (append_current_chunk {E = ErrorKind} bs u ≡ (ok n, w))
      × Ends (settle t h conn n w) (λ m w'. (m ≡ n) × IsValid t w' × Sends t sent (take n bs) u w')
          (λ _ _. Unit {0})

  pub append_then_settle :
      (c : C) (done : Bool) (front header payload room : Bytes) (b : ℕ) (bs : Bytes)
      → IsOpen front header payload room
      → length header + (length payload + length room) ≢ 3
      → 3 ≤ length room
      → Appends (b ∷ bs) (layout c done front header payload room)
  append_then_settle c done front header payload room b bs o nt h =
      let start = layout c done front header payload room in
      let (src, room', pos, le, e, total, footer, ea) =
        append_current_chunk_lem {E = ErrorKind} c done front header payload room b bs h in
      let grown : length (payload ++ src) + length room' ≡ length payload + length room =
        omega (arith, length-append payload src, total) in
      let next = layout c done front header (payload ++ src) room' in
      let open_next : IsOpen front header (payload ++ src) room' = record {
        fits = omega (arith, grown, o.fits);
        large = omega (arith, grown, o.large);
        sized = o.sized ∙ ap (λ n. get_max_chunk_header_size t (length header + n)) (sym grown);
        keeps = o.keeps;
        footer = footer;
      } in
      let joins : Sends t sent src start next =
        Sends-payload t sent src start next
          (out-layout c done front header (payload ++ src) room'
            ∙ sym (out-layout c done front header payload room))
          (pending-layout c done front header (payload ++ src) room'
            ∙ ap (λ z. z ++ src) (sym (pending-layout c done front header payload room)))
          refl in
      (
        length src,
        next,
        pos,
        le,
        ea,
        Ends-mono
            (λ m w' (em, v, s). (
              em,
              v,
              subst (λ z. Sends t sent z start w') (append-nil src ∙ sym e)
                  (Sends-append t sent src [] start next w' joins s),
            ))
            (λ _ _ _. tt)
            (settle_lem c done front header (payload ++ src) room' (length src) open_next
              (λ z. absurd (omega (arith, ap length z, length-append payload src, pos)))
              (λ z. nt (omega (arith, grown, z)))),
      )
