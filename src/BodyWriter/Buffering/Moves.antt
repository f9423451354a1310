-- ===== src/BodyWriter/Buffering/Moves.antt =====
-- `finish_current_chunk`: the moves inside the buffer, the header and the newline of a chunk.
use reqwless.Base.{
  ℕ, ◌+◌, ◌-◌, ◌≤◌, ◌≡◌, refl, sym, ap, ◌∙◌, [], ◌∷◌, ◌++◌, append_assoc, arith, Bool,
}
use reqwless.Base.{
  Bytes, length, length-append, append_regroup, split_at, patch, patch-append, lt→ltb,
}
use reqwless.Base.{ok, copy_within, copy_within-append, copy_from_slice, copy_from_slice-append}
use reqwless.Base.Words.{Target, IsUsize, sub_usize-eq_ok}
use reqwless.Hex.{Hex}
use reqwless.BodyWriter.Header.{newline}
use reqwless.BodyWriter.Buffering.{move_payload, open_chunk, close_chunk, get_max_chunk_header_size}
use reqwless.BodyWriter.Buffering.Size.{header_room-le}
use reqwless.BodyWriter.Buffering.Layout.{state, layout, open_shape}

-- The move inside the buffer: `payload` goes down over `gap`.
move_down :
    {E : Type 0} (front header gap payload room : Bytes) (a b dest : ℕ)
    → dest ≡ length front + length header
    → a ≡ dest + length gap
    → b ≡ a + length payload
    → (rest : Bytes) × (length rest ≡ length gap + length room)
      × (copy_within {E = E} a b dest (front ++ (header ++ (gap ++ (payload ++ room))))
          ≡ (ok tt, front ++ (header ++ (payload ++ rest))))
move_down {E} front header gap payload room a b dest hd ha hb =
    let whole = gap ++ (payload ++ room) in
    let total : length whole ≡ length gap + (length payload + length room) =
      length-append gap (payload ++ room) ∙ omega (arith, length-append payload room) in
    let (old, rest, e, l) = split_at (length payload) whole (omega (arith, total)) in
    let at_dest : dest ≡ length (front ++ header) = omega (arith, length-append front header) in
    (
      rest,
      omega (arith, total, ap length e, length-append old rest),
      ap (copy_within a b dest) (sym (append_assoc front header whole))
          ∙ copy_within-append (front ++ header) gap payload room a b dest at_dest ha hb
          ∙ ap (λ z. (ok tt, patch ((front ++ header) ++ z) dest payload)) e
          ∙ ap (λ z. (ok tt, z)) (patch-append (front ++ header) old rest payload dest at_dest l)
          ∙ ap (λ z. (ok tt, z)) (append_assoc front header (payload ++ rest)),
    )

-- The newline behind a payload.
footer_lem :
    {E : Type 0} (front line payload rest : Bytes) (pos : ℕ)
    → pos ≡ length front + length line + length payload
    → 2 ≤ length rest
    → (behind : Bytes) × (length behind + 2 ≡ length rest)
      × (copy_from_slice {E = E} pos
            (pos + length newline)
            newline
            (front ++ (line ++ (payload ++ rest)))
          ≡ (ok tt, (front ++ (line ++ (payload ++ newline))) ++ behind))
footer_lem {E} front line payload rest pos hp l =
    let (old, behind, e, lo) = split_at 2 rest l in
    let body = front ++ (line ++ payload) in
    let at_body : pos ≡ length body =
      omega (arith, length-append front (line ++ payload), length-append line payload) in
    (
      behind,
      omega (arith, ap length e, length-append old behind),
      ap (copy_from_slice pos (pos + length newline) newline)
            (append_regroup front line payload rest ∙ ap (λ z. body ++ z) e)
          ∙ copy_from_slice-append body old behind newline pos (pos + length newline) at_body refl
              lo
          ∙ ap (λ z. (ok tt, z))
              (sym (append_assoc body newline behind)
                ∙ ap (λ z. z ++ behind) (sym (append_regroup front line payload newline))),
    )

module _ {C E : Type 0} (t : Target) (h : Hex) (c : C) (done : Bool) where
  -- A payload that lies `gap` behind the header is moved up to it.
  pub move_payload_lem :
      (front header gap payload room : Bytes) (allocated pos : ℕ)
      → allocated ≡ length header + length gap
      → pos ≡ length front + allocated + length payload
      → (rest : Bytes) × (length rest ≡ length gap + length room)
        × (move_payload t h {E = E} (length header) (length gap) (
              state c done
                (front ++ (header ++ (gap ++ (payload ++ room))))
                (length front)
                allocated
                pos)
            ≡ (
              ok tt,
              state c done
                  (front ++ (header ++ (payload ++ rest)))
                  (length front)
                  allocated
                  (length front + length header + length payload),
            ))
  unfolding move_payload
  move_payload_lem front header [] payload room allocated pos ha hp = (
    room,
    omega arith,
    ap
        (λ p.
          (ok tt, state c done (front ++ (header ++ (payload ++ room))) (length front) allocated p))
        (omega arith),
  )
  move_payload_lem front header (g ∷ gap) payload room allocated pos ha hp =
      let (rest, l, e) =
        move_down {E = E} front header (g ∷ gap) payload room (length front + allocated) pos
          (length front + length header) refl (omega arith) (omega arith) in
      let below : length (g ∷ gap) ≤ pos = omega arith in
      (
        rest,
        l,
        rw
            (
              lt→ltb 0 (length (g ∷ gap)) (omega arith),
              e,
              sub_usize-eq_ok t pos (length (g ∷ gap)) below,
            )
            (ap
              (λ p. (
                ok tt,
                state c done (front ++ (header ++ (payload ++ rest))) (length front) allocated p,
              ))
              (omega arith)),
      )

  open_chunk_lem :
      (front rest : Bytes) (header_pos allocated : ℕ)
      → IsUsize t (length front + length rest)
      → (header room : Bytes) × (rest ≡ header ++ room)
        × (length header ≡ get_max_chunk_header_size t (length rest))
        × (open_chunk t h {E = E} (state c done (front ++ rest) header_pos allocated (length front))
            ≡ (ok tt, layout c done front header [] room))
  unfolding open_chunk
  open_chunk_lem front rest header_pos allocated fits =
      let size = get_max_chunk_header_size t (length rest) in
      let (header, room, e, l) =
        split_at size rest (header_room-le t (length rest) (omega arith)) in
      let total : length (front ++ rest) - length front ≡ length rest =
        omega (arith, length-append front rest) in
      (
        header,
        room,
        e,
        l,
        rw
            (
              sub_usize-eq_ok t (length (front ++ rest)) (length front)
                  (omega (arith, length-append front rest)),
              total,
            )
            (ap (λ w. (ok tt, w)) (open_shape c done front rest header room size e l)),
      )

  pub close_chunk_lem :
      (front line payload rest : Bytes) (allocated : ℕ)
      → 2 ≤ length rest
      → IsUsize t (length front + (length line + (length payload + length rest)))
      → (header room : Bytes) × (length header
          ≡ get_max_chunk_header_size t (length header + length room))
        × (length header + length room + 2 ≡ length rest)
        × (close_chunk t h {E = E} (
              state c done
                (front ++ (line ++ (payload ++ rest)))
                (length front)
                allocated
                (length front + length line + length payload))
            ≡ (ok tt, layout c done (front ++ (line ++ (payload ++ newline))) header [] room))
  unfolding close_chunk
  close_chunk_lem front line payload rest allocated l fits =
      let body = front ++ (line ++ (payload ++ newline)) in
      let pos = length front + length line + length payload in
      let (behind, lb, e) = footer_lem {E = E} front line payload rest pos refl l in
      let at_end : pos + 2 ≡ length body = omega (
        arith,
        length-append front (line ++ (payload ++ newline)),
        length-append line (payload ++ newline),
        length-append payload newline,
      ) in
      let (header, room, eb, lh, eo) =
        open_chunk_lem body behind (length front) allocated (omega (arith, at_end, lb)) in
      let both : length header + length room ≡ length behind =
        sym (ap length eb ∙ length-append header room) in
      (
        header,
        room,
        lh ∙ ap (get_max_chunk_header_size t) (sym both),
        omega (arith, both, lb),
        rw (e, at_end) eo,
      )
