-- ===== src/Examples/Loop.antt =====
-- The documented loop of `write_all`, for any `write`.
use reqwless.Base.{ℕ, zero, suc, ◌≤◌, ◌<◌, ◌≡◌, refl, [], ◌∷◌, arith, false}
use reqwless.Base.{Bytes, length, drop, length-drop, ◌==◌, if◌then◌else◌}
use reqwless.Base.{Io, Outcome, ok, err, panic, and_then, lift}
use reqwless.Errors.{ErrorKind}
use reqwless.Connection.Loop.{IsLoop}

and_then_cong :
    {S E A B : Type 0} (r : Outcome E A × S) (f g : A → Io S E B)
    → ((a : A) (s : S) → f a s ≡ g a s)
    → and_then r f ≡ and_then r g
and_then_cong (ok a, s) f g h = h a s
and_then_cong (err e, s) f g h = refl
and_then_cong (panic, s) f g h = refl

guard_cong :
    {S E A : Type 0} (n : ℕ) (f g : Io S E A) (s : S)
    → (0 < n → f s ≡ g s)
    → (if n == 0 then lift panic else f) s ≡ (if n == 0 then lift panic else g) s
guard_cong zero f g s h = refl
guard_cong (suc n) f g s h = rw (suc-ne-zero n) (h (omega arith))
  where
    suc-ne-zero : (n : ℕ) → (suc n == 0) ≡ false
    suc-ne-zero n = ground arith

module _ {W : Type 0} (write : Bytes → Io W ErrorKind ℕ) where
  abbrev loop : ℕ → Bytes → Io W ErrorKind (Unit {0})
  loop k [] w = (ok tt, w)
  loop zero (b ∷ bs) w = (panic, w)
  loop (suc k) (b ∷ bs) w =
      and_then (write (b ∷ bs) w) (λ n. if n == 0 then lift panic else loop k (drop n (b ∷ bs)))

  abbrev pub write_all_loop : Bytes → Io W ErrorKind (Unit {0})
  write_all_loop bs = loop (length bs) bs

  loop_enough :
      (k m : ℕ) (bs : Bytes) (w : W) → length bs ≤ k → length bs ≤ m → loop k bs w ≡ loop m bs w
  loop_enough k m [] w hk hm = refl
  loop_enough zero m (b ∷ bs) w hk hm = absurd (omega arith)
  loop_enough (suc k) zero (b ∷ bs) w hk hm = absurd (omega arith)
  loop_enough (suc k) (suc m) (b ∷ bs) w hk hm = and_then_cong (write (b ∷ bs) w) _ _ (λ n s.
      guard_cong n (loop k (drop n (b ∷ bs))) (loop m (drop n (b ∷ bs))) s (λ pos.
        loop_enough k m (drop n (b ∷ bs)) s (omega (arith, length-drop n (b ∷ bs)))
          (omega (arith, length-drop n (b ∷ bs)))))

  pub write_all_loop-IsLoop : IsLoop write write_all_loop
  write_all_loop-IsLoop = record {
    at_end = λ w. refl;
    stuck = λ b bs w w' e. rw e;
    step = λ b bs n w w' e pos.
        rw (e, nonzero n pos)
          (loop_enough (length bs) (length (drop n (b ∷ bs))) (drop n (b ∷ bs)) w'
            (omega (arith, length-drop n (b ∷ bs))) (omega arith));
    failed = λ b bs x w w' e. rw e;
  }
    where
      nonzero : (n : ℕ) → 0 < n → (n == 0) ≡ false
      nonzero n pos = ground arith
