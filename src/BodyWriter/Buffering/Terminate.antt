-- ===== src/BodyWriter/Buffering/Terminate.antt =====
-- `terminate` of the buffering writer hands over all that it holds, and then the empty chunk.
use reqwless.Base.{
  ℕ, ◌+◌, ◌≤◌, ◌≡◌, refl, subst, sym, ap, ◌∙◌, [], ◌++◌, append_assoc, append-nil, arith, Bool,
  true, false, not, inl, inr,
}
use reqwless.Base.{Bytes, length, length-append, take-append, split_at, ltb, Bool-cases}
use reqwless.Base.{ok, err, panic, check, Ends, Ends-mono, ends_ok, ends_err}
use reqwless.Base.Words.{Target, IsTarget, IsUsize}
use reqwless.Hex.{Hex, IsHex}
use reqwless.Errors.{ErrorKind}
use reqwless.Connection.{Write, IsWrite}
use reqwless.BodyWriter.Header.{empty_chunk}
use reqwless.BodyWriter.Body.{IsChunked}
use reqwless.BodyWriter.Buffering.{
  BufferingChunkedBodyWriter, emit_buffered, finish_pending, make_room, append_empty_chunk,
  terminate,
}
use reqwless.BodyWriter.Buffering.Emit.{IsFresh, emit_buffered_lem}
use reqwless.BodyWriter.Buffering.Layout.{state, IsValid, out, buffered, pending}
use reqwless.BodyWriter.Buffering.Pending.{
  IsCut, cut_front, valid-IsCut, append_empty_run, finish_pending_lem,
}

module _ {C : Type 0} (t : Target) (h : Hex) (conn : Write C) where
  not_terminated :
      (w : BufferingChunkedBodyWriter C)
      → w.terminated ≡ false
      → check {E = ErrorKind} (not w.terminated) w ≡ (ok tt, w)
  not_terminated w e = ap (λ b. check (not b) w) e

  -- The calls of `terminate` in their order.
  terminate_run :
      (w u v x y : BufferingChunkedBodyWriter C)
      → w.terminated ≡ false
      → finish_pending t h conn w ≡ (ok tt, u)
      → make_room t h conn u ≡ (ok tt, v)
      → append_empty_chunk t h conn v ≡ (ok tt, x)
      → emit_buffered t h conn x ≡ (ok tt, y)
      → terminate t h conn w ≡ (ok tt, record y { terminated = true })
  unfolding terminate
  terminate_run w u v x y start e1 e2 e3 e4 = rw (not_terminated w start, e1, e2, e3, e4)

  terminate_no_room :
      (w u v : BufferingChunkedBodyWriter C) (k : ErrorKind)
      → w.terminated ≡ false
      → finish_pending t h conn w ≡ (ok tt, u)
      → make_room t h conn u ≡ (err k, v)
      → terminate t h conn w ≡ (err k, v)
  unfolding terminate
  terminate_no_room w u v k start e1 e2 = rw (not_terminated w start, e1, e2)

  terminate_not_sent :
      (w u v x y : BufferingChunkedBodyWriter C) (k : ErrorKind)
      → w.terminated ≡ false
      → finish_pending t h conn w ≡ (ok tt, u)
      → make_room t h conn u ≡ (ok tt, v)
      → append_empty_chunk t h conn v ≡ (ok tt, x)
      → emit_buffered t h conn x ≡ (err k, y)
      → terminate t h conn w ≡ (err k, y)
  unfolding terminate
  terminate_not_sent w u v x y k start e1 e2 e3 e4 = rw (not_terminated w start, e1, e2, e3, e4)

  is_terminated :
      (w : BufferingChunkedBodyWriter C)
      → w.terminated ≡ true
      → check {E = ErrorKind} (not w.terminated) w ≡ (panic, w)
  is_terminated w e = ap (λ b. check (not b) w) e

  -- A writer that was terminated once is not terminated again.
  pub terminate_twice :
      (w : BufferingChunkedBodyWriter C) → w.terminated ≡ true → terminate t h conn w ≡ (panic, w)
  unfolding terminate
  terminate_twice w done = rw (is_terminated w done)

  module _ (sent : C → Bytes) (wide : IsTarget t) (is_hex : IsHex h) (law : IsWrite conn sent) where
    -- Five bytes are left behind the finished bytes.
    abbrev Roomy : Bool → Bytes → BufferingChunkedBodyWriter C → Type 0
    Roomy done wire v =
        (k : IsCut t v) × (5 ≤ length k.rest) × (out sent v ≡ wire) × (v.terminated ≡ done)

    emit_cut :
        (w : BufferingChunkedBodyWriter C) (k : IsCut t w)
        → Ends
            (emit_buffered t h conn w)
            (λ _ v. IsFresh t h conn sent law w.terminated (out sent w) v)
            (λ _ _. Unit {0})
    emit_cut w k =
        subst
          (λ u.
            Ends (emit_buffered t h conn u)
              (λ _ v. IsFresh t h conn sent law u.terminated (out sent u) v) (λ _ _. Unit {0}))
          (sym k.shape)
          (rw (take-append k.front k.rest (length k.front) refl) (
            emit_buffered_lem t h conn sent law w.conn w.terminated k.front k.rest k.allocated
              k.position k.fits k.large))

    fresh-Roomy :
        (done : Bool) (wire : Bytes) (v : BufferingChunkedBodyWriter C)
        → IsFresh t h conn sent law done wire v
        → Roomy done wire v
    fresh-Roomy done wire v f =
        let k = valid-IsCut t v f.valid in
        let empty : length k.front ≡ 0 = ap length (sym (cut_front t v k) ∙ f.clear) in
        (
          k,
          omega (arith, k.large, empty),
          ap (λ z. sent v.conn ++ z) f.clear ∙ append-nil (sent v.conn) ∙ f.handed,
          f.same,
        )

    make_room_emit :
        (w : BufferingChunkedBodyWriter C)
        → ltb (length w.buf) (w.header_pos + 5) ≡ true
        → make_room t h conn w ≡ emit_buffered t h conn w
    unfolding make_room
    make_room_emit w e = rw e

    make_room_none :
        (w : BufferingChunkedBodyWriter C)
        → ltb (length w.buf) (w.header_pos + 5) ≡ false
        → make_room t h conn w ≡ (ok tt, w)
    unfolding make_room
    make_room_none w e = rw e

    make_room_lem :
        (w : BufferingChunkedBodyWriter C)
        → IsCut t w
        → Ends (make_room t h conn w) (λ _ v. Roomy w.terminated (out sent w) v) (λ _ _. Unit {0})
    make_room_lem w k = elim (Bool-cases (ltb (length w.buf) (w.header_pos + 5))) [
      | inl full ↦ rw (make_room_emit w full) (
          Ends-mono (λ _ v f. fresh-Roomy w.terminated (out sent w) v f) (λ _ _ _. tt)
            (emit_cut w k))
      | inr room ↦ ends_ok tt w (make_room_none w room) (
        k,
        (let l : length w.buf ≡ length k.front + length k.rest =
              ap (λ u. length u.buf) k.shape ∙ length-append k.front k.rest in
            let p : w.header_pos ≡ length k.front = ap (λ u. u.header_pos) k.shape in
            ground (arith, l, p)),
        refl,
        refl,
      )
    ]

    -- What `terminate` promises of a writer with nothing left to send.
    abbrev pub Terminated : Bytes → BufferingChunkedBodyWriter C → Type 0
    Terminated wire w =
        (sent w.conn ≡ wire) × (w.terminated ≡ true) × (buffered w ≡ []) × (pending w ≡ [])

    abbrev Last : BufferingChunkedBodyWriter C → Type 0
    Last v =
        (x : BufferingChunkedBodyWriter C) × (append_empty_chunk t h conn v ≡ (ok tt, x))
        × Ends (emit_buffered t h conn x)
            (λ _ y. Terminated (out sent v ++ empty_chunk) (record y { terminated = true }))
            (λ _ _. Unit {0})

    Last-layout :
        (c : C) (done : Bool) (front rest : Bytes) (allocated position : ℕ)
        → IsUsize t (length front + length rest)
        → 6 ≤ length front + length rest
        → 5 ≤ length rest
        → Last (state c done (front ++ rest) (length front) allocated position)
    Last-layout c done front rest allocated position fits large five =
        let (old, behind, e, l) = split_at 5 rest five in
        let total : length (front ++ empty_chunk) + length behind ≡ length front + length rest =
          omega
            (arith, length-append front empty_chunk, ap length e, length-append old behind, l) in
        rw e (
          state c done ((front ++ empty_chunk) ++ behind) (length (front ++ empty_chunk)) 0
              (length (front ++ empty_chunk) + 0),
          append_empty_run t h conn c done front old behind allocated position l,
          Ends-mono
              (λ _ y f. (
                f.handed
                    ∙ sym (append_assoc (sent c) front empty_chunk)
                    ∙ ap (λ z. (sent c ++ z) ++ empty_chunk)
                        (sym (take-append front (old ++ behind) (length front) refl)),
                refl,
                f.clear,
                f.none_pending,
              ))
              (λ _ _ _. tt)
              (emit_buffered_lem t h conn sent law c done (front ++ empty_chunk) behind 0
                (length (front ++ empty_chunk) + 0) (omega (arith, fits, total))
                (omega (arith, large, total))),
        )

    last_lem : (v : BufferingChunkedBodyWriter C) (k : IsCut t v) → 5 ≤ length k.rest → Last v
    last_lem v k five =
        subst Last (sym k.shape) (
          Last-layout v.conn v.terminated k.front k.rest k.allocated k.position k.fits k.large five)

    -- On a valid writer that is not terminated, and unless the connection fails, `terminate` hands
    -- over what the buffer holds, then the payload as non-empty chunks, then the empty chunk. It
    -- leaves nothing behind, and does not panic.
    pub terminate_lem :
        (w : BufferingChunkedBodyWriter C)
        → IsValid t w
        → w.terminated ≡ false
        → Ends
            (terminate t h conn w)
            (λ _ w'.
              (wire : Bytes) × IsChunked t (pending w) wire
              × Terminated (out sent w ++ (wire ++ empty_chunk)) w')
            (λ _ _. Unit {0})
    terminate_lem w v start =
        let (u, wire, cut, chunked, e1, ou) =
          finish_pending_lem t h conn sent wide is_hex law w v in
        elim (make_room_lem u cut) [
          | ends_err k r e2 _ ↦ ends_err k r (terminate_no_room w u r k start e1 e2) tt
          | ends_ok _ r e2 (k, five, orr, _) ↦
              let (x, e3, ends) = last_lem r k five in
              elim ends [
                | ends_err k y e4 _ ↦
                    ends_err k y (terminate_not_sent w u r x y k start e1 e2 e3 e4) tt
                | ends_ok _ y e4 (s, b, c, d) ↦
                    ends_ok tt (record y { terminated = true })
                      (terminate_run w u r x y start e1 e2 e3 e4)
                      (
                        wire,
                        chunked,
                        (
                          s
                              ∙ ap (λ z. z ++ empty_chunk) (orr ∙ ou)
                              ∙ append_assoc (out sent w) wire empty_chunk,
                          b,
                          c,
                          d,
                        ),
                      )
              ]
        ]
