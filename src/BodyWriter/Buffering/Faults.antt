-- ===== src/BodyWriter/Buffering/Faults.antt =====
-- The buffers that `new_with_data` takes and the other calls do not expect.
use reqwless.Base.{
  ℕ, ◌+◌, ◌-◌, ◌*◌, ◌^◌, ◌≤◌, ◌≡◌, refl, sym, ap, ◌∙◌, [], ◌∷◌, ◌++◌, arith, Bool, true, false,
}
use reqwless.Base.{Bytes, length, length-append, split_at, ==_iff}
use reqwless.Base.{ok, panic, within-append}
use reqwless.Base.Words.{Target, IsTarget, IsUsize, sub_usize-eq_ok}
use reqwless.Hex.{Hex, IsHex}
use reqwless.Errors.{ErrorKind}
use reqwless.Connection.{Write}
use reqwless.BodyWriter.Header.Laws.{write_chunked_header_no_room}
use reqwless.BodyWriter.Header.{write_chunked_header}
use reqwless.BodyWriter.Buffering.{
  BufferingChunkedBodyWriter, new_with_data, write, settle, current_chunk_is_full,
  finish_current_chunk, get_max_chunk_header_size,
}
use reqwless.BodyWriter.Buffering.Size.{no_header_room}
use reqwless.BodyWriter.Buffering.Append.{append_current_chunk_lem}
use reqwless.BodyWriter.Buffering.Calls.{write_run}
use reqwless.BodyWriter.Buffering.Session.{new_run}
use reqwless.BodyWriter.Buffering.Layout.{state, layout, open_shape}
use native.Mathlib.Nat.{pow-le-pow_right}

two_le : (k : ℕ) → 1 ≤ k → 2 ^ 1 ≤ 2 ^ k
two_le k le = pow-le-pow_right (omega arith) le

module _ {C : Type 0} (t : Target) (h : Hex) (conn : Write C) (wide : IsTarget t)
    (is_hex : IsHex h) where
  -- A chunk that was given no room for its header cannot be finished.
  finish_no_header :
      (c : C) (done : Bool) (front payload room : Bytes)
      → IsUsize t (length payload)
      → finish_current_chunk t h {E = ErrorKind} (layout c done front [] payload room)
        ≡ (panic, layout c done front [] payload room)
  unfolding finish_current_chunk
  finish_no_header c done front payload room fits = rw (
    sub_usize-eq_ok {E = ErrorKind} t (length front + 0 + length payload) (length front)
        (omega arith),
    behind,
    sub_usize-eq_ok {E = ErrorKind} t (length payload) 0 (omega arith),
    no_offset,
    within-append (write_chunked_header {E = ErrorKind} t h (length payload)) front []
        (payload ++ room) [] panic (length front) (length front + 0) refl refl
        (write_chunked_header_no_room t wide (length payload) fits {E = ErrorKind} h is_hex) refl,
  )
    where
      behind : length front + 0 + length payload - length front ≡ length payload
      behind = omega arith

      no_offset : length payload - 0 ≡ length payload
      no_offset = omega arith

  full_run :
      (n : ℕ) (w : BufferingChunkedBodyWriter C)
      → current_chunk_is_full w ≡ true
      → finish_current_chunk t h {E = ErrorKind} w ≡ (panic, w)
      → settle t h conn n w ≡ (panic, w)
  unfolding settle
  full_run n w full e = rw (full, e)

  full_layout :
      (c : C) (done : Bool) (front payload room : Bytes)
      → length room ≡ 2
      → current_chunk_is_full (layout c done front [] payload room) ≡ true
  unfolding current_chunk_is_full
  full_layout c done front payload room two =
      (==_iff (length front + 0 + length payload + 2) (length (front ++ (payload ++ room)))).1
        (omega (arith, two, length-append front (payload ++ room), length-append payload room))

  write_three :
      (c : C) (front room : Bytes) (b : ℕ) (bs : Bytes)
      → length room ≡ 3
      → (w : BufferingChunkedBodyWriter C) × (write t h conn
            (b ∷ bs)
            (layout c false front [] [] room)
          ≡ (panic, w))
  write_three c front room b bs three =
      let (src, room', pos, _, _, total, footer, e) =
        append_current_chunk_lem {E = ErrorKind} c false front [] [] room b bs
          (omega (arith, three)) in
      let w = layout c false front [] src room' in
      (
        w,
        write_run t h conn b bs (length src) (layout c false front [] [] room) w e pos
            ∙ full_run (length src) w (full_layout c false front src room' (omega (arith, three))) (
                finish_no_header c false front src room'
                  (one_fits (length src) (omega (arith, three)))),
      )
    where
      one_fits : (n : ℕ) → n ≤ 1 → IsUsize t n
      one_fits n le = omega (arith, le, two_le (8 * t.size) (omega arith))

  -- Where the prewritten bytes leave exactly three of the buffer, `new_with_data` takes it, and the
  -- first `write` of a byte and more panics.
  pub write-three_left :
      (c : C) (buf : Bytes) (prewritten : ℕ) (b : ℕ) (bs : Bytes)
      → prewritten ≤ length buf
      → length buf - prewritten ≡ 3
      → (w w' : BufferingChunkedBodyWriter C) × (new_with_data {E = ErrorKind} t c buf prewritten
          ≡ ok w)
        × (write t h conn (b ∷ bs) w ≡ (panic, w'))
  write-three_left c buf prewritten b bs le three =
      let (front, room, e, l) = split_at prewritten buf le in
      let lr : length room ≡ 3 = omega (arith, ap length e, length-append front room) in
      let none : get_max_chunk_header_size t 3 ≡ 0 = no_header_room t 3 (omega arith) in
      let (w', ew) = write_three c front room b bs lr in
      (
        layout c false front [] [] room,
        w',
        new_run t {E = ErrorKind} c buf prewritten 3 le three (omega (arith, none))
            ∙ ap ok (
                ap
                  (λ z.
                    state c false z prewritten (get_max_chunk_header_size t 3)
                      (prewritten + get_max_chunk_header_size t 3))
                  e
                ∙ ap
                    (λ k.
                      state c false (front ++ room) k (get_max_chunk_header_size t 3)
                        (k + get_max_chunk_header_size t 3))
                    (sym l)
                ∙ open_shape c false front room [] room (get_max_chunk_header_size t 3) refl
                    (sym none)),
        ew,
      )
