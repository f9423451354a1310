-- ===== src/BodyWriter/Buffering/Finish.antt =====
-- `finish_current_chunk` turns the payload into one chunk behind the finished bytes.
use reqwless.Base.{◌+◌, ◌-◌, ◌≤◌, ◌≡◌, refl, ap, ◌∙◌, [], ◌++◌, append_assoc, arith, Bool}
use reqwless.Base.{Bytes, length, length-append, split_at}
use reqwless.Base.{ok, within, within-append}
use reqwless.Base.Words.{Target, IsTarget, IsUsize, sub_usize, sub_usize-eq_ok}
use reqwless.Hex.{Hex, IsHex}
use reqwless.BodyWriter.Header.{newline, chunk_header, chunk, write_chunked_header}
use reqwless.BodyWriter.Header.Laws.{write_chunked_header_lem}
use reqwless.BodyWriter.Buffering.{
  BufferingChunkedBodyWriter, move_payload, close_chunk, finish_current_chunk,
  get_max_chunk_header_size,
}
use reqwless.BodyWriter.Buffering.Size.{header_fits}
use reqwless.BodyWriter.Buffering.Layout.{state, layout}
use reqwless.BodyWriter.Buffering.Moves.{move_payload_lem, close_chunk_lem}

module _ {C E : Type 0} (t : Target) (h : Hex) (c : C) (done : Bool) where
  payload_size :
      (front header payload : Bytes)
      → sub_usize {E = E} t
          (length front + length header + length payload - length front)
          (length header)
        ≡ ok (length payload)
  payload_size front header payload =
      sub_usize-eq_ok t (length front + length header + length payload - length front)
        (length header) (omega arith)
      ∙ ap ok (omega arith)

  spare_room :
      (header gap line : Bytes)
      → length header ≡ length line + length gap
      → sub_usize {E = E} t (length header) (length line) ≡ ok (length gap)
  spare_room header gap line l =
      sub_usize-eq_ok t (length header) (length line) (omega arith) ∙ ap ok (omega arith)

  -- The steps of the call in a row.
  finish_run :
      (front header payload room gap line : Bytes) (s : BufferingChunkedBodyWriter C)
      → length header ≡ length line + length gap
      → within
          (length front)
          (length front + length header)
          (write_chunked_header {E = E} t h (length payload))
          (front ++ (header ++ (payload ++ room)))
        ≡ (ok (length line), front ++ (line ++ (gap ++ (payload ++ room))))
      → move_payload t h {E = E} (length line) (length gap) (
          state c done
            (front ++ (line ++ (gap ++ (payload ++ room))))
            (length front)
            (length header)
            (length front + length header + length payload))
        ≡ (ok tt, s)
      → finish_current_chunk t h {E = E} (layout c done front header payload room)
        ≡ close_chunk t h s
  unfolding finish_current_chunk
  finish_run front header payload room gap line s l ew em = rw (
    sub_usize-eq_ok t (length front + length header + length payload) (length front) (omega arith),
    payload_size front header payload,
    ew,
    spare_room header gap line l,
    em,
  )

  size_line-within :
      (front header payload room kept gap : Bytes)
      → IsTarget t
      → IsHex h
      → IsUsize t (length payload)
      → header ≡ kept ++ gap
      → length kept ≡ length (chunk_header t (length payload))
      → within
          (length front)
          (length front + length header)
          (write_chunked_header {E = E} t h (length payload))
          (front ++ (header ++ (payload ++ room)))
        ≡ (
          ok (length (chunk_header t (length payload))),
          front ++ (chunk_header t (length payload) ++ (gap ++ (payload ++ room))),
        )
  size_line-within front header payload room kept gap wide is_hex fits e lk =
      let line = chunk_header t (length payload) in
      within-append (write_chunked_header t h (length payload)) front header (payload ++ room)
        (line ++ gap) (ok (length line)) (length front) (length front + length header) refl refl
        (ap (write_chunked_header t h (length payload)) e
          ∙ write_chunked_header_lem t wide (length payload) fits h is_hex kept gap lk)
        (omega (arith, ap length e, length-append kept gap, length-append line gap))
      ∙ ap (λ z. (ok (length line), front ++ z)) (append_assoc line gap (payload ++ room))

  -- A payload in an open chunk becomes a chunk behind the finished bytes, and a new one is opened.
  pub finish_current_chunk_lem :
      (front header payload room : Bytes)
      → IsTarget t
      → IsHex h
      → IsUsize t (length front + (length header + (length payload + length room)))
      → length header ≡ get_max_chunk_header_size t (length header + (length payload + length room))
      → 3 ≤ length header
      → 2 ≤ length room
      → (header' room' : Bytes) × (length header'
          ≡ get_max_chunk_header_size t (length header' + length room'))
        × (length (front ++ chunk t payload) + (length header' + length room')
            ≡ length front + (length header + (length payload + length room)))
        × (finish_current_chunk t h {E = E} (layout c done front header payload room)
            ≡ (ok tt, layout c done (front ++ chunk t payload) header' [] room'))
  unfolding chunk
  finish_current_chunk_lem front header payload room wide is_hex fits sized keeps footer =
      let n = length payload in
      let p = length front + length header + n in
      let line = chunk_header t n in
      let fit : length line ≤ length header =
        rw sized
          (header_fits t n (length header + (n + length room)) wide (omega arith) (omega arith)) in
      let (kept, gap, e, lk) = split_at (length line) header fit in
      let lg : length header ≡ length line + length gap =
        omega (arith, ap length e, length-append kept gap) in
      let (rest, lr, em) =
        move_payload_lem {E = E} t h c done front line gap payload room (length header) p
          (omega (arith, lg)) refl in
      let total : length front + (length line + (n + length rest))
          ≡ length front + (length header + (n + length room)) =
        omega (arith, lr, lg) in
      let (header', room', lh, lb, ec) =
        close_chunk_lem {E = E} t h c done front line payload rest (length header)
          (omega (arith, lr)) (omega (arith, total)) in
      (
        header',
        room',
        lh,
        omega (
          arith,
          total,
          lb,
          length-append front (line ++ (payload ++ newline)),
          length-append line (payload ++ newline),
          length-append payload newline,
        ),
        finish_run front header payload room gap line _ lg
              (size_line-within front header payload room kept gap wide is_hex (omega arith) e lk)
              em
            ∙ ec,
      )
