-- ===== src/BodyWriter/Fixed/Laws.antt =====
-- `FixedBodyWriter` counts what it sends.
use reqwless.Base.{
  ℕ, ◌+◌, ◌≤◌, ◌≡◌, refl, sym, ◌∙◌, List, [], ◌∷◌, ◌++◌, append_assoc, append-nil, arith, ok,
}
use reqwless.Base.{
  Bytes, length, length-append, take, length-take, Ends, Ends-mono, ends_ok, ends_err,
}
use reqwless.Base.Words.{Target, IsUsize, add_usize-eq_ok}
use reqwless.Errors.{ErrorKind}
use reqwless.Connection.{Write, IsWrite}
use reqwless.Connection.Calls.{Call, run, offered}
use reqwless.BodyWriter.Fixed.{FixedBodyWriter, new, written, add, write, write_all, flush}

unfoldable pub fixed_write : {C : Type 0} → Target → Write C → Write (FixedBodyWriter C)
fixed_write t conn = record {
  write = write t conn;
  write_all = write_all t conn;
  flush = flush t conn;
}

add_lem :
    {C : Type 0} (t : Target) (n : ℕ) (w : FixedBodyWriter C)
    → IsUsize t (w.count + n)
    → add t n w ≡ (ok tt, record { conn = w.conn; count = w.count + n })
unfolding add
add_lem t n w h = rw (add_usize-eq_ok {E = ErrorKind} t w.count n h) refl

module _ {C : Type 0} (t : Target) (conn : Write C) (sent : C → Bytes)
    (law : IsWrite conn sent) where
  -- The call has sent `bs`, and the count has grown by its length.
  abbrev Sends : Bytes → FixedBodyWriter C → FixedBodyWriter C → Type 0
  Sends bs w w' = (sent w'.conn ≡ sent w.conn ++ bs) × (w'.count ≡ w.count + length bs)

  Sends-trans :
      (bs cs : Bytes) (u v w : FixedBodyWriter C)
      → Sends bs u v
      → Sends cs v w
      → Sends (bs ++ cs) u w
  Sends-trans bs cs u v w (s, n) (s', n') =
      (rw (s', s) (append_assoc (sent u.conn) bs cs), omega (arith, n, n', length-append bs cs))

  Sends-nil :
      (w w' : FixedBodyWriter C) → sent w'.conn ≡ sent w.conn → w'.count ≡ w.count → Sends [] w w'
  Sends-nil w w' s n = (s ∙ sym (append-nil (sent w.conn)), omega (arith, n))

  write-Sends :
      (bs : Bytes) (w : FixedBodyWriter C)
      → IsUsize t (w.count + length bs)
      → Ends
          (write t conn bs w)
          (λ n w'. (n ≤ length bs) × Sends (take n bs) w w')
          (λ _ _. Unit {0})
  unfolding write
  write-Sends bs w fits = elim (law.write_lem bs w.conn) [
    | ends_ok n c e h ↦
        let l : w.count + n ≡ w.count + length (take n bs) = omega (arith, length-take n bs, h.0) in
        ends_ok n (record { conn = c; count = w.count + n })
          (rw (e, add_lem t n (record { conn = c; count = w.count }) (omega (arith, fits, h.0)))
            refl)
          (h.0, (h.1, l))
    | ends_err x c e h ↦ ends_err x (record { conn = c; count = w.count }) (rw e) tt
  ]

  write_all-Sends :
      (bs : Bytes) (w : FixedBodyWriter C)
      → IsUsize t (w.count + length bs)
      → Ends (write_all t conn bs w) (λ _ w'. Sends bs w w') (λ _ _. Unit {0})
  unfolding write_all
  write_all-Sends bs w fits = elim (law.write_all_lem bs w.conn) [
    | ends_ok _ c e h ↦
        ends_ok tt (record { conn = c; count = w.count + length bs })
          (rw (e, add_lem t (length bs) (record { conn = c; count = w.count }) fits) refl) (h, refl)
    | ends_err x c e h ↦ ends_err x (record { conn = c; count = w.count }) (rw e) tt
  ]

  flush-Sends :
      (w : FixedBodyWriter C) → Ends (flush t conn w) (λ _ w'. Sends [] w w') (λ _ _. Unit {0})
  unfolding flush
  flush-Sends w = elim (law.flush_lem w.conn) [
    | ends_ok _ c e h ↦
        let w' : FixedBodyWriter C = record { conn = c; count = w.count } in
        ends_ok tt w' (rw e) (Sends-nil w w' h refl)
    | ends_err x c e h ↦ ends_err x (record { conn = c; count = w.count }) (rw e) tt
  ]

  -- From any count that leaves room for all that the calls hand over.
  run-Sends :
      (calls : List Call) (w : FixedBodyWriter C)
      → IsUsize t (w.count + offered calls)
      → Ends
          (run (fixed_write t conn) calls w)
          (λ accepted w'. Sends accepted w w')
          (λ _ _. Unit {0})
  unfolding run fixed_write
  run-Sends [] w fits = ends_ok [] w refl (Sends-nil w w refl refl)
  run-Sends (Call.write bs ∷ calls) w fits = elim (write-Sends bs w (omega (arith, fits))) [
    | ends_ok n u e (le, s) ↦
        elim (run-Sends calls u (omega (arith, fits, le, s.1, length-take n bs))) [
          | ends_ok rest v e' s' ↦
              ends_ok (take n bs ++ rest) v (rw (e, e')) (Sends-trans (take n bs) rest w u v s s')
          | ends_err x v e' _ ↦ ends_err x v (rw (e, e')) tt
        ]
    | ends_err x u e _ ↦ ends_err x u (rw e) tt
  ]
  run-Sends (Call.write_all bs ∷ calls) w fits = elim (write_all-Sends bs w (omega (arith, fits))) [
    | ends_ok _ u e s ↦ elim (run-Sends calls u (omega (arith, fits, s.1))) [
      | ends_ok rest v e' s' ↦ ends_ok (bs ++ rest) v (rw (e, e')) (Sends-trans bs rest w u v s s')
      | ends_err x v e' _ ↦ ends_err x v (rw (e, e')) tt
    ]
    | ends_err x u e _ ↦ ends_err x u (rw e) tt
  ]
  run-Sends (Call.flush ∷ calls) w fits = elim (flush-Sends w) [
    | ends_ok _ u e s ↦ elim (run-Sends calls u (omega (arith, fits, s.1))) [
      | ends_ok rest v e' s' ↦ ends_ok rest v (rw (e, e')) (Sends-trans [] rest w u v s s')
      | ends_err x v e' _ ↦ ends_err x v (rw (e, e')) tt
    ]
    | ends_err x u e _ ↦ ends_err x u (rw e) tt
  ]

  -- Whatever calls a body makes on a new writer, if the bytes that they offer are a `usize` in all:
  -- unless one fails, the bytes that the writer accepted were sent in their order, and `written` is
  -- their number. None of the calls panics.
  pub run_counts :
      (calls : List Call) (c : C)
      → IsUsize t (offered calls)
      → Ends
          (run (fixed_write t conn) calls (new c))
          (λ accepted w. (sent w.conn ≡ sent c ++ accepted) × (written w ≡ length accepted))
          (λ _ _. Unit {0})
  unfolding new written
  run_counts calls c fits =
      Ends-mono (λ accepted w (s, n). (s, n ∙ omega arith)) (λ _ _ _. tt)
        (run-Sends calls (record { conn = c; count = 0 }) (omega (arith, fits)))
