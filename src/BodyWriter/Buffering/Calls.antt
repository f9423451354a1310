-- ===== src/BodyWriter/Buffering/Calls.antt =====
-- `write` on any valid writer.
use reqwless.Base.{
  ℕ, ◌+◌, ◌≤◌, ◌<◌, ◌≡◌, ◌≢◌, refl, subst, sym, ap, ◌∙◌, [], ◌∷◌, ◌++◌, arith, Bool, false, inl,
  inr,
}
use reqwless.Base.{Bytes, length, length-append_three, take, ltb, ◌==◌, ltb→lt, Bool-cases}
use reqwless.Base.{ok, err, Ends, Ends-mono, ends_ok, ends_err}
use reqwless.Base.Words.{Target, IsTarget}
use reqwless.Hex.{Hex, IsHex}
use reqwless.Errors.{ErrorKind}
use reqwless.Connection.{Write, IsWrite}
use reqwless.BodyWriter.Buffering.{
  BufferingChunkedBodyWriter, append_current_chunk, emit_buffered, settle, write,
}
use reqwless.BodyWriter.Buffering.Size.{header_room, fresh_room}
use reqwless.BodyWriter.Buffering.Emit.{IsFresh, emit_buffered_lem}
use reqwless.BodyWriter.Buffering.Append.{append_none}
use reqwless.BodyWriter.Buffering.Writes.{IsOpen, Appends, append_then_settle}
use reqwless.BodyWriter.Buffering.Sends.{Sends, Sends-nil, Sends-append, Sends-fresh}
use reqwless.BodyWriter.Buffering.Layout.{
  IsValid, out, buffered, pending, buffered-layout, pending-layout,
}

-- The steps of `write` in a row: with room for a byte, and without.
pub write_run :
    {C : Type 0} (t : Target) (h : Hex) (conn : Write C) (b : ℕ) (bs : Bytes) (n : ℕ)
    (w w1 : BufferingChunkedBodyWriter C)
    → append_current_chunk {E = ErrorKind} (b ∷ bs) w ≡ (ok n, w1)
    → 0 < n
    → write t h conn (b ∷ bs) w ≡ settle t h conn n w1
unfolding write
write_run t h conn b bs n w w1 e pos =
    let nonzero : (n == 0) ≡ false = ground arith in rw (e, nonzero)

write_run_emit :
    {C : Type 0} (t : Target) (h : Hex) (conn : Write C) (b : ℕ) (bs : Bytes) (n : ℕ)
    (w w1 w2 : BufferingChunkedBodyWriter C)
    → append_current_chunk {E = ErrorKind} (b ∷ bs) w ≡ (ok 0, w)
    → emit_buffered t h conn w ≡ (ok tt, w1)
    → append_current_chunk {E = ErrorKind} (b ∷ bs) w1 ≡ (ok n, w2)
    → write t h conn (b ∷ bs) w ≡ settle t h conn n w2
unfolding write
write_run_emit t h conn b bs n w w1 w2 e0 e1 e2 = rw (e0, e1, e2)

write_run_failed :
    {C : Type 0} (t : Target) (h : Hex) (conn : Write C) (b : ℕ) (bs : Bytes) (x : ErrorKind)
    (w w1 : BufferingChunkedBodyWriter C)
    → append_current_chunk {E = ErrorKind} (b ∷ bs) w ≡ (ok 0, w)
    → emit_buffered t h conn w ≡ (err x, w1)
    → write t h conn (b ∷ bs) w ≡ (err x, w1)
unfolding write
write_run_failed t h conn b bs x w w1 e0 e1 = rw (e0, e1)

module _ {C : Type 0} (t : Target) (h : Hex) (conn : Write C) (sent : C → Bytes) (wide : IsTarget t)
    (is_hex : IsHex h) (law : IsWrite conn sent) where
  pub valid_front : (w : BufferingChunkedBodyWriter C) (v : IsValid t w) → v.front ≡ buffered w
  valid_front w v =
      sym (
        ap buffered v.shape ∙ buffered-layout w.conn w.terminated v.front v.header v.payload v.room)

  pub valid_payload : (w : BufferingChunkedBodyWriter C) (v : IsValid t w) → v.payload ≡ pending w
  valid_payload w v =
      sym
        (ap pending v.shape ∙ pending-layout w.conn w.terminated v.front v.header v.payload v.room)

  -- The parts of a valid writer with room for a byte.
  pub valid-IsOpen :
      (w : BufferingChunkedBodyWriter C) (v : IsValid t w)
      → 3 ≤ length v.room
      → IsOpen t h conn sent wide is_hex law v.front v.header v.payload v.room
  valid-IsOpen w v room =
      let n = length v.header + (length v.payload + length v.room) in
      let four : 4 ≤ n = ground (arith, v.not_three) in
      let (j, e, _) = header_room t n (omega (arith, v.fits)) four in
      record {
        fits = v.fits;
        large = v.large;
        sized = v.sized;
        keeps = omega (arith, v.sized, e);
        footer = omega arith;
      }

  -- An empty buffer has room for a byte.
  fresh_has_room :
      (done : Bool) (wire : Bytes) (w : BufferingChunkedBodyWriter C)
      (f : IsFresh t h conn sent law done wire w)
      → 3 ≤ length f.valid.room
  fresh_has_room done wire w f =
      let v = f.valid in
      let no_front : length v.front ≡ 0 = ap length (valid_front w v ∙ f.clear) in
      let no_payload : length v.payload ≡ 0 = ap length (valid_payload w v ∙ f.none_pending) in
      omega (
        arith,
        no_front,
        no_payload,
        v.sized,
        fresh_room t (length v.header + (length v.payload + length v.room)) (omega (arith, v.fits))
            (omega (arith, v.large, no_front)),
      )

  valid-Appends :
      (w : BufferingChunkedBodyWriter C) (v : IsValid t w) (b : ℕ) (bs : Bytes)
      → 3 ≤ length v.room
      → Appends t h conn sent wide is_hex law (b ∷ bs) w
  valid-Appends w v b bs room =
      subst (Appends t h conn sent wide is_hex law (b ∷ bs)) (sym v.shape) (
        append_then_settle t h conn sent wide is_hex law w.conn w.terminated v.front v.header
          v.payload v.room b bs (valid-IsOpen w v room) v.not_three room)

  -- What `write` promises.
  abbrev pub Wrote :
      Bytes → BufferingChunkedBodyWriter C → ℕ → BufferingChunkedBodyWriter C → Type 0
  Wrote bs w n w' =
      (n ≤ length bs) × (bs ≢ [] → 0 < n) × IsValid t w' × Sends t sent (take n bs) w w'

  settled :
      (w u : BufferingChunkedBodyWriter C) (b : ℕ) (bs : Bytes) (n : ℕ)
      → 0 < n
      → n ≤ length (b ∷ bs)
      → write t h conn (b ∷ bs) w ≡ settle t h conn n u
      → Ends
          (settle t h conn n u)
          (λ m w'. (m ≡ n) × IsValid t w' × Sends t sent (take n (b ∷ bs)) w w')
          (λ _ _. Unit {0})
      → Ends (write t h conn (b ∷ bs) w) (Wrote (b ∷ bs) w) (λ _ _. Unit {0})
  settled w u b bs n pos le e h = rw e (
      Ends-mono
        (λ m w' (em, v, s). (
          omega (arith, em),
          (λ _. omega (arith, em)),
          v,
          subst (λ k. Sends t sent (take k (b ∷ bs)) w w') (sym em) s,
        ))
        (λ _ _ _. tt) h)

  write_with_room :
      (w : BufferingChunkedBodyWriter C) (v : IsValid t w) (b : ℕ) (bs : Bytes)
      → 3 ≤ length v.room
      → Ends (write t h conn (b ∷ bs) w) (Wrote (b ∷ bs) w) (λ _ _. Unit {0})
  write_with_room w v b bs room =
      let (n, u, pos, le, e, ends) = valid-Appends w v b bs room in
      settled w u b bs n pos le (write_run t h conn b bs n w u e pos) ends

  -- Of a valid writer the finished bytes can be sent, if there is no payload to lose.
  pub valid_emit :
      (w : BufferingChunkedBodyWriter C)
      → IsValid t w
      → Ends
          (emit_buffered t h conn w)
          (λ _ w'. IsFresh t h conn sent law w.terminated (out sent w) w')
          (λ _ _. Unit {0})
  valid_emit w v =
      subst
        (λ u.
          Ends (emit_buffered t h conn u)
            (λ _ w'. IsFresh t h conn sent law u.terminated (out sent u) w') (λ _ _. Unit {0}))
        (sym v.shape)
        (rw (buffered-layout w.conn w.terminated v.front v.header v.payload v.room) (
          emit_buffered_lem t h conn sent law w.conn w.terminated v.front
            (v.header ++ (v.payload ++ v.room)) (length v.header)
            (length v.front + length v.header + length v.payload) (omega (arith, v.fits, total))
            (omega (arith, v.large, total))))
    where
      total :
          length (v.header ++ (v.payload ++ v.room))
          ≡ length v.header + (length v.payload + length v.room)
      total = length-append_three v.header v.payload v.room ∙ omega arith

  write_without_room :
      (w : BufferingChunkedBodyWriter C) (v : IsValid t w) (b : ℕ) (bs : Bytes)
      → length v.room ≤ 2
      → Ends (write t h conn (b ∷ bs) w) (Wrote (b ∷ bs) w) (λ _ _. Unit {0})
  write_without_room w v b bs small = elim (valid_emit w v) [
    | ends_err x u e1 _ ↦ ends_err x u (write_run_failed t h conn b bs x w u e0 e1) tt
    | ends_ok _ u e1 f ↦ after u e1 f
  ]
    where
      no_payload : v.payload ≡ []
      no_payload = elim v.spare [ inl e ↦ e | inr large ↦ absurd (omega arith) ]

      e0 : append_current_chunk {E = ErrorKind} (b ∷ bs) w ≡ (ok 0, w)
      e0 =
          subst (λ u. append_current_chunk {E = ErrorKind} (b ∷ bs) u ≡ (ok 0, u)) (sym v.shape)
            (append_none w.conn w.terminated v.front v.header v.payload v.room (b ∷ bs) small)

      after :
          (u : BufferingChunkedBodyWriter C)
          → emit_buffered t h conn w ≡ (ok tt, u)
          → IsFresh t h conn sent law w.terminated (out sent w) u
          → Ends (write t h conn (b ∷ bs) w) (Wrote (b ∷ bs) w) (λ _ _. Unit {0})
      after u e1 f =
          let (n, u', pos, le, e2, ends) =
            valid-Appends u f.valid b bs (fresh_has_room w.terminated (out sent w) u f) in
          settled w u' b bs n pos le (write_run_emit t h conn b bs n w u u' e0 e1 e2) (
            Ends-mono
              (λ m w' (em, v', s). (
                em,
                v',
                Sends-append t sent [] (take n (b ∷ bs)) w u w'
                    (Sends-fresh t sent h conn law w u (sym (valid_payload w v) ∙ no_payload) f) s,
              ))
              (λ _ _ _. tt) ends)

  -- `write` on a valid writer does not panic. Unless the connection fails it takes a front of the
  -- bytes, at least one byte if there is one, and leaves the writer valid. What was handed over and
  -- waits has grown by non-empty chunks; these carry the old payload and the bytes taken, up to the
  -- new payload.
  pub write_lem :
      (bs : Bytes) (w : BufferingChunkedBodyWriter C)
      → IsValid t w
      → Ends (write t h conn bs w) (Wrote bs w) (λ _ _. Unit {0})
  write_lem [] w v =
      unfold write in
      ends_ok 0 w refl (omega arith, (λ ne. absurd (ne refl)), v, Sends-nil t sent w)
  write_lem (b ∷ bs) w v = elim (Bool-cases (ltb (length v.room) 3)) [
    | inl small ↦ write_without_room w v b bs (omega (arith, ltb→lt (length v.room) 3 small))
    | inr large ↦ write_with_room w v b bs (ground arith)
  ]
