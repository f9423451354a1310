-- ===== src/BodyWriter/Chunked/Laws.antt =====
-- `ChunkedBodyWriter` writes each slice as one chunk.
use reqwless.Base.{
  ℕ, suc, ◌+◌, ◌-◌, ◌*◌, ◌≤◌, ◌≡◌, refl, sym, ap, ◌∙◌, List, [], ◌∷◌, ◌++◌, append_assoc,
  append-nil, arith,
}
use reqwless.Base.{
  Bytes, length, length-append, take, take_all, replicate, length-replicate, split_at, Ends,
  Ends-mono, ends_ok, ends_err, ok, read_slice-append, ◌==◌, false, ◌>>=◌, ◌>>◌, pure,
}
use reqwless.Base.Words.{Target, IsTarget, IsUsize}
use reqwless.Hex.{Hex, IsHex}
use reqwless.Hex.Digits.{hex_text}
use reqwless.Hex.Width.{hex_text-HasWidth}
use reqwless.Connection.{Write, IsWrite}
use reqwless.Connection.Calls.{Call, run, Keeps, run_keeps, AllFit}
use reqwless.Connection.Puts.{Puts, Puts->>, Puts-write_all}
use reqwless.BodyWriter.Header.{newline, empty_chunk, chunk_header, chunk}
use reqwless.BodyWriter.Header.Laws.{write_chunked_header_lem, IsUsize-sixteen}
use reqwless.BodyWriter.Body.{IsChunked, IsChunked-nil, IsChunked-append, IsChunked-chunk}
use reqwless.BodyWriter.Chunked.{header_bytes, terminate, write_all, write, flush}

-- The size line fits the array of two digits for each byte of `usize` and the newline.
length-chunk_header-le :
    (t : Target) → IsTarget t → (n : ℕ) → IsUsize t n → length (chunk_header t n) ≤ 2 * t.size + 2
unfolding chunk_header
length-chunk_header-le t wide n fits =
    let (j, l, _, b) = hex_text-HasWidth (2 * t.size - 1) n (IsUsize-sixteen t wide n fits) in
    omega (arith, length-append (hex_text (2 * t.size - 1) n) newline, l, b)

header_bytes_lem :
    {C : Type 0} (t : Target) (h : Hex) (n : ℕ) (c : C)
    → IsTarget t
    → IsHex h
    → IsUsize t n
    → header_bytes t h n c ≡ (ok (chunk_header t n), c)
unfolding header_bytes
header_bytes_lem t h n c wide law fits =
    let room : length (chunk_header t n) ≤ length (replicate {A = ℕ} (2 * t.size + 2) 0) =
      omega (
        arith,
        length-chunk_header-le t wide n fits,
        length-replicate {A = ℕ} (2 * t.size + 2) 0,
      ) in
    let (old, rest, e, l) =
      split_at (length (chunk_header t n)) (replicate {A = ℕ} (2 * t.size + 2) 0) room in
    rw (e, write_chunked_header_lem t wide n fits h law old rest l)
      (ap (λ r. (r.0, c))
        (read_slice-append [] (chunk_header t n) rest 0 (length (chunk_header t n)) refl
          (omega arith)))

suc-ne-zero : (n : ℕ) → (suc n == 0) ≡ false
suc-ne-zero n = ground arith

-- The writer as a body sees it.
unfoldable pub chunked_write : {C : Type 0} → Target → Hex → Write C → Write C
chunked_write t h conn = record {
  write = write t h conn;
  write_all = write_all t h conn;
  flush = flush t h conn;
}

module _ (t : Target) (h : Hex) (wide : IsTarget t) (is_hex : IsHex h) where
  abbrev Fits : Bytes → Type 0
  Fits bs = IsUsize t (length bs)

  module _ {C : Type 0} (conn : Write C) (sent : C → Bytes) (law : IsWrite conn sent) where
    -- The connection was handed chunks that carry `bs`.
    abbrev Sends : Bytes → C → C → Type 0
    Sends bs c c' = (wire : Bytes) × IsChunked t bs wire × (sent c' ≡ sent c ++ wire)

    Sends-nil : (c c' : C) → sent c' ≡ sent c → Sends [] c c'
    Sends-nil c c' e = ([], IsChunked-nil t, e ∙ sym (append-nil (sent c)))

    Sends-append : (bs cs : Bytes) (u v w : C) → Sends bs u v → Sends cs v w → Sends (bs ++ cs) u w
    Sends-append bs cs u v w (x, a, e) (y, b, e') =
        (x ++ y, IsChunked-append t bs cs x y a b, rw (e', e) (append_assoc (sent u) x y))

    -- A slice that is not empty, and whose length is a `usize`, is handed over as one chunk; where
    -- the connection fails, a front of that chunk was handed over.
    pub write_all-Puts :
        (b : ℕ) (bs : Bytes)
        → Fits (b ∷ bs)
        → Puts sent (write_all t h conn (b ∷ bs)) (chunk t (b ∷ bs))
    unfolding write_all chunk
    write_all-Puts b bs fits c =
        rw (suc-ne-zero (length bs), header_bytes_lem t h (length (b ∷ bs)) c wide is_hex fits)
          (Puts->> sent _ _ (chunk_header t (length (b ∷ bs))) ((b ∷ bs) ++ newline)
            (put (chunk_header t (length (b ∷ bs))))
            (Puts->> sent _ _ (b ∷ bs) newline (put (b ∷ bs)) (put newline)) c)
      where
        put : (xs : Bytes) → Puts sent (conn.write_all xs) xs
        put = Puts-write_all conn sent law

    write_all-Sends :
        (bs : Bytes) (c : C)
        → Fits bs
        → Ends (write_all t h conn bs c) (λ _ c'. Unit {0} × Sends bs c c') (λ _ _. Unit {0})
    unfolding write_all
    write_all-Sends [] c fits = ends_ok tt c refl (tt, Sends-nil c c refl)
    write_all-Sends (b ∷ bs) c fits =
        Ends-mono (λ _ c' e. (tt, (chunk t (b ∷ bs), IsChunked-chunk t (b ∷ bs) (λ n. cc), e)))
          (λ _ _ _. tt) (write_all-Puts b bs fits c)

    write-Sends :
        (bs : Bytes) (c : C)
        → Fits bs
        → Ends (write t h conn bs c) (λ n c'. Unit {0} × Sends (take n bs) c c') (λ _ _. Unit {0})
    unfolding write
    write-Sends bs c fits = elim (write_all-Sends bs c fits) [
      | ends_ok _ c' e h ↦
          ends_ok (length bs) c' (rw e) (rw (take_all (length bs) bs (omega arith)) h)
      | ends_err x c' e h ↦ ends_err x c' (rw e) tt
    ]

    flush-Sends :
        (c : C) → Ends (flush t h conn c) (λ _ c'. Unit {0} × Sends [] c c') (λ _ _. Unit {0})
    unfolding flush
    flush-Sends c = Ends-mono (λ _ c' e. (tt, Sends-nil c c' e)) (λ _ _ _. tt) (law.flush_lem c)

    chunked_write-Keeps : Keeps (chunked_write t h conn) Fits (λ _. Unit {0}) Sends
    unfolding chunked_write
    chunked_write-Keeps = record {
      sends_nil = λ c. Sends-nil c c refl;
      sends_append = Sends-append;
      write_lem = λ bs c fits _. write-Sends bs c fits;
      write_all_lem = λ bs c fits _. write_all-Sends bs c fits;
      flush_lem = λ c _. flush-Sends c;
    }

    -- Whatever calls a body makes, with slices whose lengths are a `usize`, and the final
    -- `terminate`: unless the connection fails, the peer was handed non-empty chunks that carry
    -- exactly the accepted bytes, and then the one empty chunk. Nothing panics.
    pub run-IsChunked :
        (calls : List Call) (c : C)
        → AllFit Fits calls
        → Ends
            ((do accepted ← run (chunked_write t h conn) calls; terminate t h conn; pure accepted)
              c)
            (λ accepted c'.
              (wire : Bytes) × IsChunked t accepted wire
              × (sent c' ≡ sent c ++ (wire ++ empty_chunk)))
            (λ _ _. Unit {0})
    unfolding terminate
    run-IsChunked calls c fit =
        elim (run_keeps (chunked_write t h conn) Fits (λ _. Unit {0}) Sends chunked_write-Keeps
          calls c fit tt) [
            | ends_err x c1 e h ↦ ends_err x c1 (rw e) tt
            | ends_ok accepted c1 e (_, (wire, w, s)) ↦ elim (law.write_all_lem empty_chunk c1) [
              | ends_err x c2 e' h' ↦ ends_err x c2 (rw (e, e')) tt
              | ends_ok _ c2 e' h' ↦
                  ends_ok accepted c2 (rw (e, e'))
                    (wire, w, rw (h', s) (append_assoc (sent c) wire empty_chunk))
            ]
          ]
