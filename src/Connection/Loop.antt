-- ===== src/Connection/Loop.antt =====
-- The trait's own `write_all` (`embedded_io_async::Write`), for a writer that does not define it:
-- an interface with its documented loop, which calls `write` until nothing is left.
use reqwless.Base.{
  ℕ, zero, suc, ◌+◌, ◌≤◌, ◌<◌, ◌≡◌, refl, sym, ap, ◌∙◌, append_assoc, append-nil, take-append,
  drop-append, take-add, subst, [], ◌∷◌, ◌++◌, arith,
}
use reqwless.Base.{Bytes, length, take, drop, length-drop, take-append-drop}
use reqwless.Base.{Outcome, Io, ok, err, panic, Ends, Ends-mono, ends_ok, ends_err}
use reqwless.Errors.{ErrorKind}

module _ {W : Type 0} (write : Bytes → Io W ErrorKind ℕ) where
  -- A `write` that takes nothing panics.
  pub record IsLoop (write_all : Bytes → Io W ErrorKind (Unit {0})) : Type 0 where
    pub at_end : (w : W) → write_all [] w ≡ (ok tt, w)
    pub stuck :
        (b : ℕ) (bs : Bytes) (w w' : W)
        → write (b ∷ bs) w ≡ (ok 0, w')
        → write_all (b ∷ bs) w ≡ (panic, w')
    pub step :
        (b : ℕ) (bs : Bytes) (n : ℕ) (w w' : W)
        → write (b ∷ bs) w ≡ (ok n, w')
        → 0 < n
        → write_all (b ∷ bs) w ≡ write_all (drop n (b ∷ bs)) w'
    pub failed :
        (b : ℕ) (bs : Bytes) (x : ErrorKind) (w w' : W)
        → write (b ∷ bs) w ≡ (err x, w')
        → write_all (b ∷ bs) w ≡ (err x, w')

  -- What each `write` of the loop keeps, the loop keeps; it ends, as each takes a byte at least.
  module _ (write_all : Bytes → Io W ErrorKind (Unit {0})) (loop : IsLoop write_all)
      (Inv : W → Type 0) (Sends : Bytes → W → W → Type 0) (sends_nil : (w : W) → Sends [] w w)
      (sends_append : (bs cs : Bytes) (u v w : W)
        → Sends bs u v
        → Sends cs v w
        → Sends (bs ++ cs) u w)
      (write_lem : (b : ℕ) (bs : Bytes) (w : W)
        → Inv w
        → Ends
            (write (b ∷ bs) w)
            (λ n w'. (0 < n) × Inv w' × Sends (take n (b ∷ bs)) w w')
            (λ _ _. Unit {0})) where
    loop_up_to :
        (k : ℕ) (bs : Bytes) (w : W)
        → length bs ≤ k
        → Inv w
        → Ends (write_all bs w) (λ _ w'. Inv w' × Sends bs w w') (λ _ _. Unit {0})
    loop_up_to k [] w le v = ends_ok tt w (loop.at_end w) (v, sends_nil w)
    loop_up_to zero (b ∷ bs) w le v = absurd (omega arith)
    loop_up_to (suc k) (b ∷ bs) w le v = elim (write_lem b bs w v) [
      | ends_err x w' e _ ↦ ends_err x w' (loop.failed b bs x w w' e) tt
      | ends_ok n w' e (pos, v', s) ↦ rw (loop.step b bs n w w' e pos) (
          Ends-mono
            (λ _ u (v'', s'). (
              v'',
              subst (λ z. Sends z w u) (take-append-drop n (b ∷ bs))
                  (sends_append (take n (b ∷ bs)) (drop n (b ∷ bs)) w w' u s s'),
            ))
            (λ _ _ _. tt)
            (loop_up_to k (drop n (b ∷ bs)) w' (omega (arith, length-drop n (b ∷ bs))) v'))
    ]

    pub loop_lem :
        (bs : Bytes) (w : W)
        → Inv w
        → Ends (write_all bs w) (λ _ w'. Inv w' × Sends bs w w') (λ _ _. Unit {0})
    loop_lem bs w v = loop_up_to (length bs) bs w (omega arith) v

-- The loop on a connection that keeps to the interface of `Write`, and takes a byte at least of
-- what is not empty: it hands over all the bytes, or a front of them where the connection fails.
module _ {C : Type 0} (write : Bytes → Io C ErrorKind ℕ)
    (write_all : Bytes → Io C ErrorKind (Unit {0})) (loop : IsLoop write write_all)
    (sent : C → Bytes)
    (write_lem : (bs : Bytes) (c : C)
      → Ends
          (write bs c)
          (λ n c'. (n ≤ length bs) × (sent c' ≡ sent c ++ take n bs))
          (λ _ c'. sent c' ≡ sent c))
    (eager : (b : ℕ) (bs : Bytes) (c c' : C) (n : ℕ) → write (b ∷ bs) c ≡ (ok n, c') → 0 < n) where
  abbrev Handed : Bytes → C → Outcome ErrorKind (Unit {0}) × C → Type 0
  Handed bs c r =
      Ends r (λ _ c'. sent c' ≡ sent c ++ bs) (λ _ c'. (n : ℕ) × (sent c' ≡ sent c ++ take n bs))

  -- A round that took `front`, and the loop over the rest.
  after_round :
      (front back : Bytes) (c c' : C) (r : Outcome ErrorKind (Unit {0}) × C)
      → sent c' ≡ sent c ++ front
      → Handed back c' r
      → Handed (front ++ back) c r
  after_round front back c c' r e h =
      Ends-mono (λ _ c'' s. s ∙ ap (λ z. z ++ back) e ∙ append_assoc (sent c) front back)
        (λ _ c'' (n, s). (
          length front + n,
          s
              ∙ ap (λ z. z ++ take n back) e
              ∙ append_assoc (sent c) front (take n back)
              ∙ ap (λ z. sent c ++ z) (take-behind n),
        ))
        h
    where
      take-behind : (n : ℕ) → front ++ take n back ≡ take (length front + n) (front ++ back)
      take-behind n =
          ap (λ z. z ++ take n back) (sym (take-append front back (length front) refl))
          ∙ ap (λ z. take (length front) (front ++ back) ++ take n z)
              (sym (drop-append front back (length front) refl))
          ∙ sym (take-add (length front) n (front ++ back))

  Handed-up_to : (k : ℕ) (bs : Bytes) (c : C) → length bs ≤ k → Handed bs c (write_all bs c)
  Handed-up_to k [] c le = ends_ok tt c (loop.at_end c) (sym (append-nil (sent c)))
  Handed-up_to zero (b ∷ bs) c le = absurd (omega arith)
  Handed-up_to (suc k) (b ∷ bs) c le = elim (write_lem (b ∷ bs) c) [
    | ends_err x c' e h ↦
        ends_err x c' (loop.failed b bs x c c' e) (0, h ∙ sym (append-nil (sent c)))
    | ends_ok n c' e (fit, h) ↦ rw (loop.step b bs n c c' e (eager b bs c c' n e)) (
        subst (λ z. Handed z c (write_all (drop n (b ∷ bs)) c')) (take-append-drop n (b ∷ bs))
          (after_round (take n (b ∷ bs)) (drop n (b ∷ bs)) c c' _ h (
            Handed-up_to k (drop n (b ∷ bs)) c'
              (omega (arith, length-drop n (b ∷ bs), eager b bs c c' n e)))))
  ]

  pub loop-Handed : (bs : Bytes) (c : C) → Handed bs c (write_all bs c)
  loop-Handed bs c = Handed-up_to (length bs) bs c (omega arith)
