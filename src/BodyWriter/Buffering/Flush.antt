-- ===== src/BodyWriter/Buffering/Flush.antt =====
-- `flush` hands over all that the writer holds.
use reqwless.Base.{
  ℕ, ◌≤◌, ◌≡◌, ◌≢◌, refl, subst, sym, ap, ◌∙◌, [], ◌∷◌, ◌++◌, append_assoc, append-nil, arith, Bool,
  true, false, inl, inr,
}
use reqwless.Base.{Bytes, length, take, ltb, Bool-cases}
use reqwless.Base.{◌>>◌, ok, err, Ends, Ends-mono, ends_ok, ends_err}
use reqwless.Base.Words.{Target, IsTarget}
use reqwless.Hex.{Hex, IsHex}
use reqwless.Errors.{ErrorKind}
use reqwless.Connection.{Write, IsWrite}
use reqwless.BodyWriter.Header.{chunk}
use reqwless.BodyWriter.Buffering.{
  BufferingChunkedBodyWriter, emit_buffered, finish_current_chunk, flush, has_payload,
}
use reqwless.BodyWriter.Buffering.Emit.{IsFresh}
use reqwless.BodyWriter.Buffering.Writes.{finish_and_emit}
use reqwless.BodyWriter.Buffering.Calls.{valid_payload, valid-IsOpen, valid_emit}
use reqwless.BodyWriter.Buffering.Sends.{Sends, Sends-fresh, Sends-chunk}
use reqwless.BodyWriter.Buffering.Layout.{
  layout, IsValid, out, buffered, pending, buffered-layout, pending-layout,
}

has_payload_nil :
    {C : Type 0} (c : C) (done : Bool) (front header room : Bytes)
    → has_payload (layout c done front header [] room) ≡ false
unfolding has_payload
has_payload_nil c done front header room = ground arith

has_payload_cons :
    {C : Type 0} (c : C) (done : Bool) (front header : Bytes) (p : ℕ) (payload room : Bytes)
    → has_payload (layout c done front header (p ∷ payload) room) ≡ true
unfolding has_payload
has_payload_cons c done front header p payload room = ground arith

module _ {C : Type 0} (t : Target) (h : Hex) (conn : Write C) (sent : C → Bytes) (wide : IsTarget t)
    (is_hex : IsHex h) (law : IsWrite conn sent) where
  -- Only the connection has changed, and it holds the same bytes.
  IsFresh-conn :
      (done : Bool) (wire : Bytes) (w : BufferingChunkedBodyWriter C) (c : C)
      → IsFresh t h conn sent law done wire w
      → sent c ≡ wire
      → IsFresh t h conn sent law done wire (record w { conn = c })
  IsFresh-conn done wire w c f e = record {
    valid = record {
      front = f.valid.front;
      header = f.valid.header;
      payload = f.valid.payload;
      room = f.valid.room;
      shape = ap {A = BufferingChunkedBodyWriter C} (λ u. record u { conn = c }) f.valid.shape;
      fits = f.valid.fits;
      large = f.valid.large;
      sized = f.valid.sized;
      not_three = f.valid.not_three;
      spare = f.valid.spare;
    };
    same = f.same;
    handed = e;
    clear = f.clear;
    none_pending = f.none_pending;
  }

  -- What `flush` promises.
  abbrev pub Flushed : BufferingChunkedBodyWriter C → BufferingChunkedBodyWriter C → Type 0
  Flushed w w' = IsValid t w' × Sends t sent [] w w' × (buffered w' ≡ []) × (pending w' ≡ [])

  flush_nothing :
      (w : BufferingChunkedBodyWriter C)
      → has_payload w ≡ false
      → ltb 0 w.header_pos ≡ false
      → flush t h conn w ≡ ((conn.flush w.conn).0, record w { conn = (conn.flush w.conn).1 })
  unfolding flush
  flush_nothing w p f = rw (p, f)

  flush_front :
      (w u : BufferingChunkedBodyWriter C)
      → has_payload w ≡ false
      → ltb 0 w.header_pos ≡ true
      → emit_buffered t h conn w ≡ (ok tt, u)
      → flush t h conn w ≡ ((conn.flush u.conn).0, record u { conn = (conn.flush u.conn).1 })
  unfolding flush
  flush_front w u p f e = rw (p, f, e)

  flush_front_failed :
      (w u : BufferingChunkedBodyWriter C) (x : ErrorKind)
      → has_payload w ≡ false
      → ltb 0 w.header_pos ≡ true
      → emit_buffered t h conn w ≡ (err x, u)
      → flush t h conn w ≡ (err x, u)
  unfolding flush
  flush_front_failed w u x p f e = rw (p, f, e)

  flush_chunk :
      (w u : BufferingChunkedBodyWriter C)
      → has_payload w ≡ true
      → (finish_current_chunk t h >> emit_buffered t h conn) w ≡ (ok tt, u)
      → flush t h conn w ≡ ((conn.flush u.conn).0, record u { conn = (conn.flush u.conn).1 })
  unfolding flush
  flush_chunk w u p e = rw (p, e)

  flush_chunk_failed :
      (w u : BufferingChunkedBodyWriter C) (x : ErrorKind)
      → has_payload w ≡ true
      → (finish_current_chunk t h >> emit_buffered t h conn) w ≡ (err x, u)
      → flush t h conn w ≡ (err x, u)
  unfolding flush
  flush_chunk_failed w u x p e = rw (p, e)

  -- The connection's own flush comes last.
  flush_last :
      (w u : BufferingChunkedBodyWriter C) (done : Bool) (wire : Bytes)
      → flush t h conn w ≡ ((conn.flush u.conn).0, record u { conn = (conn.flush u.conn).1 })
      → IsFresh t h conn sent law done wire u
      → Ends (flush t h conn w) (λ _ w'. IsFresh t h conn sent law done wire w') (λ _ _. Unit {0})
  flush_last w u done wire e f = elim (law.flush_lem u.conn) [
    | ends_ok _ c ec s ↦
        ends_ok tt (record u { conn = c }) (e ∙ ap (λ r. (r.0, record u { conn = r.1 })) ec)
          (IsFresh-conn done wire u c f (s ∙ f.handed))
    | ends_err x c ec s ↦
        ends_err x (record u { conn = c }) (e ∙ ap (λ r. (r.0, record u { conn = r.1 })) ec) tt
  ]

  pub payload_nil :
      (w : BufferingChunkedBodyWriter C) (v : IsValid t w) → v.payload ≡ [] → has_payload w ≡ false
  payload_nil w v e =
      ap has_payload v.shape
      ∙ ap (λ p. has_payload (layout w.conn w.terminated v.front v.header p v.room)) e
      ∙ has_payload_nil w.conn w.terminated v.front v.header v.room

  pub payload_cons :
      (w : BufferingChunkedBodyWriter C) (v : IsValid t w) (p : ℕ) (ps : Bytes)
      → v.payload ≡ p ∷ ps
      → has_payload w ≡ true
  payload_cons w v p ps e =
      ap has_payload v.shape
      ∙ ap (λ z. has_payload (layout w.conn w.terminated v.front v.header z v.room)) e
      ∙ has_payload_cons w.conn w.terminated v.front v.header p ps v.room

  -- A chunk with a payload is not full.
  pub payload_room :
      (w : BufferingChunkedBodyWriter C) (v : IsValid t w) (p : ℕ) (ps : Bytes)
      → v.payload ≡ p ∷ ps
      → 3 ≤ length v.room
  payload_room w v p ps e = elim v.spare [ inl n ↦ cc | inr room ↦ room ]

  chunk_emit :
      (w : BufferingChunkedBodyWriter C) (v : IsValid t w)
      → 3 ≤ length v.room
      → Ends
          ((finish_current_chunk t h >> emit_buffered t h conn) w)
          (λ _ u. IsFresh t h conn sent law w.terminated (out sent w ++ chunk t (pending w)) u)
          (λ _ _. Unit {0})
  chunk_emit w v room =
      subst
        (λ u.
          Ends ((finish_current_chunk t h >> emit_buffered t h conn) u)
            (λ _ u'. IsFresh t h conn sent law u.terminated (out sent u ++ chunk t (pending u)) u')
            (λ _ _. Unit {0}))
        (sym v.shape)
        (rw
          (
            buffered-layout w.conn w.terminated v.front v.header v.payload v.room,
            pending-layout w.conn w.terminated v.front v.header v.payload v.room,
            append_assoc (sent w.conn) v.front (chunk t v.payload),
          )
          (finish_and_emit t h conn sent wide is_hex law w.conn w.terminated v.front v.header
            v.payload v.room (valid-IsOpen t h conn sent wide is_hex law w v room)))

  from_fresh :
      (w w' : BufferingChunkedBodyWriter C) (wire : Bytes)
      → IsFresh t h conn sent law w.terminated wire w'
      → Sends t sent [] w w'
      → Flushed w w'
  from_fresh w w' wire f s = (f.valid, s, f.clear, f.none_pending)

  flush_with_payload :
      (w : BufferingChunkedBodyWriter C) (v : IsValid t w) (p : ℕ) (ps : Bytes)
      → v.payload ≡ p ∷ ps
      → Ends (flush t h conn w) (λ _ w'. Flushed w w') (λ _ _. Unit {0})
  flush_with_payload w v p ps e = elim (chunk_emit w v (payload_room w v p ps e)) [
    | ends_err x u eu _ ↦ ends_err x u (flush_chunk_failed w u x (payload_cons w v p ps e) eu) tt
    | ends_ok _ u eu f ↦
        Ends-mono
          (λ _ w' g.
            from_fresh w w' (out sent w ++ chunk t (pending w)) g
              (Sends-chunk t sent h conn law (pending w) w w' refl not_nil g))
          (λ _ _ _. tt)
          (flush_last w u w.terminated (out sent w ++ chunk t (pending w))
            (flush_chunk w u (payload_cons w v p ps e) eu) f)
  ]
    where
      not_nil : pending w ≢ []
      not_nil z =
          let n : p ∷ ps ≡ [] = sym e ∙ valid_payload t h conn sent wide is_hex law w v ∙ z in cc

  flush_without_payload :
      (w : BufferingChunkedBodyWriter C) (v : IsValid t w)
      → v.payload ≡ []
      → Ends (flush t h conn w) (λ _ w'. Flushed w w') (λ _ _. Unit {0})
  flush_without_payload w v e = elim (Bool-cases (ltb 0 w.header_pos)) [
    | inl front ↦ elim (valid_emit t h conn sent wide is_hex law w v) [
      | ends_err x u eu _ ↦ ends_err x u (flush_front_failed w u x (payload_nil w v e) front eu) tt
      | ends_ok _ u eu f ↦ done u (flush_front w u (payload_nil w v e) front eu) f
    ]
    | inr nothing ↦ done w (flush_nothing w (payload_nil w v e) nothing) (already nothing)
  ]
    where
      no_pending : pending w ≡ []
      no_pending = sym (valid_payload t h conn sent wide is_hex law w v) ∙ e

      done :
          (u : BufferingChunkedBodyWriter C)
          → flush t h conn w ≡ ((conn.flush u.conn).0, record u { conn = (conn.flush u.conn).1 })
          → IsFresh t h conn sent law w.terminated (out sent w) u
          → Ends (flush t h conn w) (λ _ w'. Flushed w w') (λ _ _. Unit {0})
      done u eu f =
          Ends-mono
            (λ _ w' g.
              from_fresh w w' (out sent w) g (Sends-fresh t sent h conn law w w' no_pending g))
            (λ _ _ _. tt) (flush_last w u w.terminated (out sent w) eu f)

      already : ltb 0 w.header_pos ≡ false → IsFresh t h conn sent law w.terminated (out sent w) w
      already nothing =
          let at_start : w.header_pos ≡ 0 = ground arith in
          let clear : buffered w ≡ [] = ap (λ k. take k w.buf) at_start in
          record {
            valid = v;
            same = refl;
            handed = sym (ap (λ z. sent w.conn ++ z) clear ∙ append-nil (sent w.conn));
            clear = clear;
            none_pending = no_pending;
          }

  -- `flush` on a valid writer does not panic. Unless the connection fails it leaves the writer
  -- valid and empty, and has handed over what waited and then the payload, as non-empty chunks.
  pub flush_lem :
      (w : BufferingChunkedBodyWriter C)
      → IsValid t w
      → Ends (flush t h conn w) (λ _ w'. Flushed w w') (λ _ _. Unit {0})
  flush_lem w v = go v.payload refl
    where
      go :
          (payload : Bytes)
          → v.payload ≡ payload
          → Ends (flush t h conn w) (λ _ w'. Flushed w w') (λ _ _. Unit {0})
      go [] e = flush_without_payload w v e
      go (p ∷ ps) e = flush_with_payload w v p ps e
