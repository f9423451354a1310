-- ===== src/BodyWriter/Buffering/Pending.antt =====
-- `terminate` of the buffering writer turns a payload that waits into a chunk, and lays the empty
-- chunk behind it.
use reqwless.Base.{
  ℕ, ◌+◌, ◌≤◌, ◌≡◌, ◌≢◌, refl, subst, sym, ap, ◌∙◌, [], ◌∷◌, ◌++◌, append_assoc, append-nil, arith,
  Bool, true, false,
}
use reqwless.Base.{Bytes, length, length-append, length-append_three, take-append}
use reqwless.Base.{ok, copy_from_slice-append}
use reqwless.Base.Words.{Target, IsTarget, IsUsize}
use reqwless.Hex.{Hex, IsHex}
use reqwless.Errors.{ErrorKind}
use reqwless.Connection.{Write, IsWrite}
use reqwless.BodyWriter.Header.{chunk, empty_chunk}
use reqwless.BodyWriter.Body.{IsChunked, IsChunked-nil, IsChunked-chunk}
use reqwless.BodyWriter.Buffering.{
  BufferingChunkedBodyWriter, finish_current_chunk, finish_pending, append_empty_chunk, has_payload,
}
use reqwless.BodyWriter.Buffering.Finish.{finish_current_chunk_lem}
use reqwless.BodyWriter.Buffering.Writes.{IsOpen}
use reqwless.BodyWriter.Buffering.Calls.{valid_payload, valid-IsOpen}
use reqwless.BodyWriter.Buffering.Flush.{payload_nil, payload_cons, payload_room}
use reqwless.BodyWriter.Buffering.Layout.{
  state, layout, IsValid, out, buffered, pending, buffered-layout, pending-layout,
}

module _ {C : Type 0} (t : Target) where
  -- The finished bytes and what lies behind them, whatever it is.
  pub record IsCut (w : BufferingChunkedBodyWriter C) : Type 0 where
    pub front : Bytes
    pub rest : Bytes
    pub allocated : ℕ
    pub position : ℕ
    pub shape : w ≡ state w.conn w.terminated (front ++ rest) (length front) allocated position
    pub fits : IsUsize t (length front + length rest)
    pub large : 6 ≤ length front + length rest

  pub cut_front : (w : BufferingChunkedBodyWriter C) (k : IsCut w) → buffered w ≡ k.front
  cut_front w k = ap buffered k.shape ∙ take-append k.front k.rest (length k.front) refl

  pub valid-IsCut : (w : BufferingChunkedBodyWriter C) → IsValid t w → IsCut w
  valid-IsCut w v = record {
    front = v.front;
    rest = v.header ++ (v.payload ++ v.room);
    allocated = length v.header;
    position = length v.front + length v.header + length v.payload;
    shape = v.shape;
    fits = omega (arith, v.fits, total);
    large = omega (arith, v.large, total);
  }
    where
      total :
          length (v.header ++ (v.payload ++ v.room))
          ≡ length v.header + (length v.payload + length v.room)
      total = length-append_three v.header v.payload v.room ∙ omega arith

module _ {C : Type 0} (t : Target) (h : Hex) (conn : Write C) where
  -- The empty chunk is laid behind the finished bytes.
  pub append_empty_run :
      (c : C) (done : Bool) (front old rest : Bytes) (allocated position : ℕ)
      → length old ≡ 5
      → append_empty_chunk t h conn
          (state c done (front ++ (old ++ rest)) (length front) allocated position)
        ≡ (
          ok tt,
          state c done
              ((front ++ empty_chunk) ++ rest)
              (length (front ++ empty_chunk))
              0
              (length (front ++ empty_chunk) + 0),
        )
  unfolding append_empty_chunk
  append_empty_run c done front old rest allocated position l = rw (
    copy_from_slice-append {E = ErrorKind} front old rest empty_chunk (length front)
        (length front + 5) refl refl l,
    append_assoc front empty_chunk rest,
    length-append front empty_chunk,
  )

  module _ (sent : C → Bytes) (wide : IsTarget t) (is_hex : IsHex h) (law : IsWrite conn sent) where
    -- The payload becomes a chunk behind the finished bytes.
    abbrev pub Finished : BufferingChunkedBodyWriter C → Type 0
    Finished w =
        (u : BufferingChunkedBodyWriter C) × (wire : Bytes) × IsCut t u
        × IsChunked t (pending w) wire
        × (finish_pending t h conn w ≡ (ok tt, u))
        × (out sent u ≡ out sent w ++ wire)

    finish_some_run :
        (w u : BufferingChunkedBodyWriter C)
        → has_payload w ≡ true
        → finish_current_chunk t h {E = ErrorKind} w ≡ (ok tt, u)
        → finish_pending t h conn w ≡ (ok tt, u)
    unfolding finish_pending
    finish_some_run w u p e = rw (p, e)

    finish_none_run :
        (w : BufferingChunkedBodyWriter C)
        → has_payload w ≡ false
        → finish_pending t h conn w ≡ (ok tt, w)
    unfolding finish_pending
    finish_none_run w p = rw p

    finish_some :
        (c : C) (done : Bool) (front header payload room : Bytes)
        → IsOpen t h conn sent wide is_hex law front header payload room
        → payload ≢ []
        → has_payload (layout c done front header payload room) ≡ true
        → Finished (layout c done front header payload room)
    finish_some c done front header payload room o ne p =
        let (header', room', _, total, e) =
          finish_current_chunk_lem {E = ErrorKind} t h c done front header payload room wide is_hex
            o.fits o.sized o.keeps o.footer in
        let bound : length (front ++ chunk t payload) + length (header' ++ room')
            ≡ length front + (length header + (length payload + length room)) =
          omega (arith, total, length-append header' room') in
        (
          layout c done (front ++ chunk t payload) header' [] room',
          chunk t payload,
          record {
            front = front ++ chunk t payload;
            rest = header' ++ room';
            allocated = length header';
            position = length (front ++ chunk t payload) + length header' + 0;
            shape = refl;
            fits = omega (arith, bound, o.fits);
            large = omega (arith, bound, o.large);
          },
          rw (pending-layout c done front header payload room) (IsChunked-chunk t payload ne),
          finish_some_run (layout c done front header payload room)
              (layout c done (front ++ chunk t payload) header' [] room') p e,
          rw
              (
                buffered-layout c done (front ++ chunk t payload) header' [] room',
                buffered-layout c done front header payload room,
              )
              (sym (append_assoc (sent c) front (chunk t payload))),
        )

    pub finish_pending_lem : (w : BufferingChunkedBodyWriter C) → IsValid t w → Finished w
    finish_pending_lem w v = go v.payload refl
      where
        go : (payload : Bytes) → v.payload ≡ payload → Finished w
        go [] e = (
          w,
          [],
          valid-IsCut t w v,
          rw (sym (valid_payload t h conn sent wide is_hex law w v) ∙ e) (IsChunked-nil t),
          finish_none_run w (payload_nil t h conn sent wide is_hex law w v e),
          sym (append-nil (out sent w)),
        )
        go (p ∷ ps) e = subst Finished (sym v.shape) (
            finish_some w.conn w.terminated v.front v.header v.payload v.room
              (valid-IsOpen t h conn sent wide is_hex law w v
                (payload_room t h conn sent wide is_hex law w v p ps e))
              (λ n. let z : p ∷ ps ≡ [] = sym e ∙ n in cc)
              (sym (ap has_payload v.shape)
                ∙ payload_cons t h conn sent wide is_hex law w v p ps e))
