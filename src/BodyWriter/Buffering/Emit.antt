-- ===== src/BodyWriter/Buffering/Emit.antt =====
-- `emit_buffered` sends the finished bytes and starts over with an empty buffer.
use reqwless.Base.{ℕ, ◌+◌, ◌≤◌, ◌≡◌, refl, subst, sym, ap, ◌∙◌, [], ◌++◌, arith, Bool, inl}
use reqwless.Base.{
  Bytes, length, length-append, split_at, ok, err, Ends, ends_ok, ends_err, read_slice-append,
}
use reqwless.Base.Words.{Target, IsUsize}
use reqwless.Hex.{Hex}
use reqwless.Errors.{ErrorKind}
use reqwless.Connection.{Write, IsWrite}
use reqwless.BodyWriter.Buffering.{
  BufferingChunkedBodyWriter, emit_buffered, get_max_chunk_header_size,
}
use reqwless.BodyWriter.Buffering.Size.{fresh_room}
use reqwless.BodyWriter.Buffering.Layout.{
  state, layout, IsValid, buffered, pending, buffered-layout, pending-layout, open_shape,
}

module _ {C : Type 0} (t : Target) (h : Hex) (conn : Write C) (sent : C → Bytes)
    (law : IsWrite conn sent) where
  -- A writer with an empty buffer, whose connection was handed `wire`.
  pub record IsFresh (done : Bool) (wire : Bytes) (w : BufferingChunkedBodyWriter C) : Type 0 where
    pub valid : IsValid t w
    pub same : w.terminated ≡ done
    pub handed : sent w.conn ≡ wire
    pub clear : buffered w ≡ []
    pub none_pending : pending w ≡ []

  layout-IsFresh :
      (c : C) (done : Bool) (wire header room : Bytes)
      → sent c ≡ wire
      → IsUsize t (length header + length room)
      → 6 ≤ length header + length room
      → length header ≡ get_max_chunk_header_size t (length header + length room)
      → IsFresh done wire (layout c done [] header [] room)
  layout-IsFresh c done wire header room sent_wire fits large sized = record {
    valid = record {
      front = [];
      header = header;
      payload = [];
      room = room;
      shape = refl;
      fits = omega arith;
      large = omega arith;
      sized = sized ∙ ap (get_max_chunk_header_size t) (omega arith);
      not_three = omega arith;
      spare = inl refl;
    };
    same = refl;
    handed = sent_wire;
    clear = buffered-layout c done [] header [] room;
    none_pending = pending-layout c done [] header [] room;
  }

  -- A buffer cut open anew at its start.
  cut-IsFresh :
      (c : C) (done : Bool) (wire buf header room : Bytes) (size : ℕ)
      → sent c ≡ wire
      → IsUsize t (length buf)
      → 6 ≤ length buf
      → size ≡ get_max_chunk_header_size t (length buf)
      → buf ≡ header ++ room
      → length header ≡ size
      → IsFresh done wire (state c done buf 0 size size)
  cut-IsFresh c done wire buf header room size s fits large sized e l =
      let total : length buf ≡ length header + length room =
        ap length e ∙ length-append header room in
      let zero_add : 0 + size ≡ size = omega arith in
      subst (IsFresh done wire)
        (sym (open_shape c done [] buf header room size e l)
          ∙ ap (state c done buf 0 size) zero_add)
        (layout-IsFresh c done wire header room s (omega (arith, total)) (omega (arith, total))
          (l ∙ sized ∙ ap (get_max_chunk_header_size t) total))

  state-IsFresh :
      (c : C) (done : Bool) (wire buf : Bytes)
      → sent c ≡ wire
      → IsUsize t (length buf)
      → 6 ≤ length buf
      → IsFresh done wire (
          state c done buf 0
            (get_max_chunk_header_size t (length buf))
            (get_max_chunk_header_size t (length buf)))
  state-IsFresh c done wire buf s fits large =
      let size = get_max_chunk_header_size t (length buf) in
      let (header, room, e, l) =
        split_at size buf (omega (arith, fresh_room t (length buf) fits large)) in
      cut-IsFresh c done wire buf header room size s fits large refl e l

  emit_run :
      (c c' : C) (done : Bool) (front rest : Bytes) (allocated pos : ℕ)
      → conn.write_all front c ≡ (ok tt, c')
      → emit_buffered t h conn (state c done (front ++ rest) (length front) allocated pos) ≡ (
        ok tt,
        state c' done
            (front ++ rest)
            0
            (get_max_chunk_header_size t (length (front ++ rest)))
            (get_max_chunk_header_size t (length (front ++ rest))),
      )
  unfolding emit_buffered
  emit_run c c' done front rest allocated pos e =
      rw (read_slice-append [] front rest 0 (length front) refl (omega arith), e)

  emit_failed :
      (c c' : C) (x : ErrorKind) (done : Bool) (front rest : Bytes) (allocated pos : ℕ)
      → conn.write_all front c ≡ (err x, c')
      → emit_buffered t h conn (state c done (front ++ rest) (length front) allocated pos)
        ≡ (err x, state c' done (front ++ rest) (length front) allocated pos)
  unfolding emit_buffered
  emit_failed c c' x done front rest allocated pos e =
      rw (read_slice-append [] front rest 0 (length front) refl (omega arith), e)

  -- The finished bytes are handed over; whatever stood behind them in the buffer is dropped.
  pub emit_buffered_lem :
      (c : C) (done : Bool) (front rest : Bytes) (allocated pos : ℕ)
      → IsUsize t (length front + length rest)
      → 6 ≤ length front + length rest
      → Ends
          (emit_buffered t h conn (state c done (front ++ rest) (length front) allocated pos))
          (λ _ w. IsFresh done (sent c ++ front) w)
          (λ _ _. Unit {0})
  emit_buffered_lem c done front rest allocated pos fits large = elim (law.write_all_lem front c) [
    | ends_ok _ c' e handed ↦ ends_ok tt _ (emit_run c c' done front rest allocated pos e) (
        state-IsFresh c' done (sent c ++ front) (front ++ rest) handed
          (omega (arith, length-append front rest)) (omega (arith, length-append front rest)))
    | ends_err x c' e _ ↦ ends_err x _ (emit_failed c c' x done front rest allocated pos e) tt
  ]
