-- ===== src/BodyWriter/Buffering/Session.antt =====
-- A whole body through the buffering writer, from `new_with_data` to `terminate`.
use reqwless.Base.{
  ℕ, ◌+◌, ◌-◌, ◌≤◌, ◌<◌, ◌≡◌, ◌≢◌, refl, subst, sym, ap, ◌∙◌, List, [], ◌∷◌, ◌++◌, append_assoc,
  arith, true, false, inl,
}
use reqwless.Base.{Bytes, length, length-append, take, take-append, split_at, le→leb, lt→ltb}
use reqwless.Base.{Io, ok, Ends, Ends-mono, Ends-and_then, ends_ok, ◌>>=◌, ◌>>◌, pure}
use reqwless.Base.Words.{Target, IsTarget, IsUsize}
use reqwless.Hex.{Hex, IsHex}
use reqwless.Errors.{ErrorKind}
use reqwless.Connection.{Write, IsWrite}
use reqwless.Connection.Calls.{Call, run, Keeps, run_keeps, AllFit-trivial}
use reqwless.Connection.Loop.{IsLoop, loop_lem}
use reqwless.BodyWriter.Header.{empty_chunk}
use reqwless.BodyWriter.Body.{IsChunked, IsChunked-append}
use reqwless.BodyWriter.Buffering.{
  BufferingChunkedBodyWriter, new_with_data, write, flush, terminate, get_max_chunk_header_size,
}
use reqwless.BodyWriter.Buffering.Size.{header_room-le, header_room-spare}
use reqwless.BodyWriter.Buffering.Calls.{write_lem}
use reqwless.BodyWriter.Buffering.Flush.{flush_lem}
use reqwless.BodyWriter.Buffering.Terminate.{terminate_lem}
use reqwless.BodyWriter.Buffering.Sends.{Sends, Sends-nil, Sends-append}
use reqwless.BodyWriter.Buffering.Layout.{
  state, layout, IsValid, out, buffered, pending, buffered-layout, pending-layout, open_shape,
}

-- The writer as a body sees it; `write_all` is the trait's own.
unfoldable pub buffering_write :
    {C : Type 0}
    → Target
    → Hex
    → Write C
    → (Bytes → Io (BufferingChunkedBodyWriter C) ErrorKind (Unit {0}))
    → Write (BufferingChunkedBodyWriter C)
buffering_write t h conn write_all = record {
  write = write t h conn;
  write_all = write_all;
  flush = flush t h conn;
}

module _ {C : Type 0} (t : Target) where
  -- What `new_with_data` makes of a buffer with prewritten bytes.
  abbrev pub Opened : C → Bytes → ℕ → BufferingChunkedBodyWriter C → Type 0
  Opened c buf written w =
      IsValid t w
      × (w.conn ≡ c)
      × (w.terminated ≡ false)
      × (buffered w ≡ take written buf)
      × (pending w ≡ [])

  pub new_run :
      {E : Type 0} (c : C) (buf : Bytes) (written left : ℕ)
      → written ≤ length buf
      → length buf - written ≡ left
      → get_max_chunk_header_size t left + 2 < length buf
      → new_with_data {E = E} t c buf written
        ≡ ok (
            state c false buf written
              (get_max_chunk_header_size t left)
              (written + get_max_chunk_header_size t left))
  unfolding new_with_data
  new_run c buf written left le e room = rw (
    le→leb written (length buf) le,
    e,
    lt→ltb (get_max_chunk_header_size t left + 2) (length buf) room,
  )

  -- A buffer of six bytes and more, whose length is a `usize`, and of which any but three are left
  -- behind the prewritten bytes, is accepted. The new writer is valid and not terminated, keeps the
  -- connection, and holds the prewritten bytes and no payload.
  pub new_with_data_lem :
      {E : Type 0} (c : C) (buf : Bytes) (written : ℕ)
      → IsUsize t (length buf)
      → 6 ≤ length buf
      → written ≤ length buf
      → length buf - written ≢ 3
      → (w : BufferingChunkedBodyWriter C) × (new_with_data {E = E} t c buf written ≡ ok w)
        × Opened c buf written w
  new_with_data_lem {E} c buf written fits large le nt =
      let (front, rest, e, l) = split_at written buf le in
      let total : length buf ≡ written + length rest =
        omega (arith, ap length e, length-append front rest, l) in
      let left : length buf - written ≡ length rest = omega (arith, total) in
      let size = get_max_chunk_header_size t (length rest) in
      let (header, room, e', l') =
        split_at size rest (header_room-le t (length rest) (omega (arith, total))) in
      let parts : length rest ≡ length header + (0 + length room) =
        omega (arith, ap length e', length-append header room) in
      (
        layout c false front header [] room,
        new_run {E = E} c buf written (length rest) le left
              (header_room-spare t (length rest) (length buf) fits (omega (arith, total)) large)
            ∙ ap ok (
                ap (λ z. state c false z written size (written + size)) e
                ∙ ap (λ k. state c false (front ++ rest) k size (k + size)) (sym l)
                ∙ open_shape c false front rest header room size e' l'),
        (
          record {
            front = front;
            header = header;
            payload = [];
            room = room;
            shape = refl;
            fits = omega (arith, fits, total, parts, l);
            large = omega (arith, large, total, parts, l);
            sized = l' ∙ ap (get_max_chunk_header_size t) parts;
            not_three = λ z. nt (left ∙ parts ∙ z);
            spare = inl refl;
          },
          refl,
          refl,
          buffered-layout c false front header [] room
              ∙ sym (ap (take written) e ∙ take-append front rest written (sym l)),
          pending-layout c false front header [] room,
        ),
      )

module _ {C : Type 0} (t : Target) (h : Hex) (conn : Write C) (sent : C → Bytes) (wide : IsTarget t)
    (is_hex : IsHex h) (law : IsWrite conn sent) where
  buffering_write-Keeps :
      (write_all : Bytes → Io (BufferingChunkedBodyWriter C) ErrorKind (Unit {0}))
      → IsLoop (write t h conn) write_all
      → Keeps (buffering_write t h conn write_all) (λ _. Unit {0}) (IsValid t) (Sends t sent)
  unfolding buffering_write
  buffering_write-Keeps write_all loop = record {
    sends_nil = Sends-nil t sent;
    sends_append = Sends-append t sent;
    write_lem = λ bs w _ v.
        Ends-mono (λ n w' (_, _, v', s). (v', s)) (λ _ _ _. tt)
          (write_lem t h conn sent wide is_hex law bs w v);
    write_all_lem = λ bs w _ v.
        loop_lem (write t h conn) write_all loop (IsValid t) (Sends t sent) (Sends-nil t sent)
          (Sends-append t sent)
          (λ b bs w v.
            Ends-mono (λ n w' (_, pos, v', s). (pos (λ n. cc), v', s)) (λ _ _ _. tt)
              (write_lem t h conn sent wide is_hex law (b ∷ bs) w v))
          bs w v;
    flush_lem = λ w v.
        Ends-mono (λ _ w' (v', s, _, _). (v', s)) (λ _ _ _. tt)
          (flush_lem t h conn sent wide is_hex law w v);
  }

  -- What the peer was handed for a body, behind the prewritten bytes.
  abbrev pub Body : C → Bytes → Bytes → BufferingChunkedBodyWriter C → Type 0
  Body c prewritten accepted w =
      (wire : Bytes) × IsChunked t accepted wire
      × (sent w.conn ≡ sent c ++ (prewritten ++ (wire ++ empty_chunk)))
      × (w.terminated ≡ true)

  after_run :
      (c : C) (prewritten accepted : Bytes) (w w' : BufferingChunkedBodyWriter C)
      → w.conn ≡ c
      → w.terminated ≡ false
      → buffered w ≡ prewritten
      → pending w ≡ []
      → IsValid t w'
      → Sends t sent accepted w w'
      → Ends (terminate t h conn w') (λ _ u. Body c prewritten accepted u) (λ _ _. Unit {0})
  after_run c prewritten accepted w w' at_conn start front none v s =
      Ends-mono
        (λ _ u (wire, chunked, (sent_all, done, _, _)). (
          s.wire ++ wire,
          subst (λ z. IsChunked t z (s.wire ++ wire)) (s.kept ∙ ap (λ z. z ++ accepted) none)
              (IsChunked-append t s.carried (pending w') s.wire wire s.chunked chunked),
          sent_all
              ∙ ap (λ z. z ++ (wire ++ empty_chunk)) (s.handed ∙ ap (λ z. z ++ s.wire) opened)
              ∙ regroup (sent c) prewritten s.wire wire,
          done,
        ))
        (λ _ _ _. tt) (terminate_lem t h conn sent wide is_hex law w' v (s.same ∙ start))
    where
      opened : out sent w ≡ sent c ++ prewritten
      opened = ap (λ k. sent k ++ buffered w) at_conn ∙ ap (λ z. sent c ++ z) front

      regroup :
          (a b d e : Bytes)
          → ((a ++ b) ++ d) ++ (e ++ empty_chunk) ≡ a ++ (b ++ ((d ++ e) ++ empty_chunk))
      regroup a b d e =
          append_assoc (a ++ b) d (e ++ empty_chunk)
          ∙ append_assoc a b (d ++ (e ++ empty_chunk))
          ∙ ap (λ z. a ++ (b ++ z)) (sym (append_assoc d e empty_chunk))

  -- Let the trait's `write_all` be its documented loop. A buffer of six bytes and more, of which
  -- any but three are left behind prewritten bytes, is taken by `new_with_data`. Whatever calls a
  -- body then makes, with the final `terminate`: unless the connection fails, the peer was handed
  -- the prewritten bytes, non-empty chunks that carry exactly the accepted bytes, and the one empty
  -- chunk. Nothing panics.
  pub run_buffered :
      (write_all : Bytes → Io (BufferingChunkedBodyWriter C) ErrorKind (Unit {0}))
      → IsLoop (write t h conn) write_all
      → (c : C) (buf : Bytes) (prewritten : ℕ) (calls : List Call) → IsUsize t (length buf)
      → 6 ≤ length buf
      → prewritten ≤ length buf
      → length buf - prewritten ≢ 3
      → (w : BufferingChunkedBodyWriter C) × (new_with_data {E = ErrorKind} t c buf prewritten
          ≡ ok w)
        × Ends
            ((do
              accepted ← run (buffering_write t h conn write_all) calls
              terminate t h conn
              pure accepted)
              w)
            (λ accepted w'. Body c (take prewritten buf) accepted w')
            (λ _ _. Unit {0})
  run_buffered write_all loop c buf prewritten calls fits large le nt =
      let (w, e, (v, at_conn, start, front, none)) =
        new_with_data_lem t {E = ErrorKind} c buf prewritten fits large le nt in
      (
        w,
        e,
        Ends-and_then (λ accepted. do terminate t h conn; pure accepted)
            (run_keeps (buffering_write t h conn write_all) (λ _. Unit {0}) (IsValid t)
              (Sends t sent) (buffering_write-Keeps write_all loop) calls w (AllFit-trivial calls)
              v)
            (λ accepted w' (v', s).
              Ends-and_then (λ _. pure accepted)
                (after_run c (take prewritten buf) accepted w w' at_conn start front none v' s)
                (λ _ u b. ends_ok accepted u refl b) (λ _ _ _. tt))
            (λ _ _ _. tt),
      )
