-- ===== src/Response/FixedLength/Laws.antt =====
-- `FixedLengthBodyReader` and a peer that sends no more than it announced, or more.
use reqwless.Base.{
  ℕ, zero, suc, ◌+◌, ◌-◌, ◌^◌, ◌≤◌, ◌<◌, ◌≡◌, refl, ap, ◌∙◌, true, false, [], ◌++◌, arith,
}
use reqwless.Base.{◌⊎◌, inr, eq-nil_of_length, Bytes, length, length-append, lt→leb, ◌==◌}
use reqwless.Base.{ok, err, panic, Ends, ends_ok, ends_err}
use reqwless.Base.Words.{Target, bits, sub_usize, sub_usize-eq_ok}
use reqwless.Errors.{Error, ErrorKind}
use reqwless.Connection.{Read, IsRead}
use reqwless.Connection.Failure.{IsFailure, of_read}
use reqwless.Response.FixedLength.{FixedLengthBodyReader, read}

suc-ne-zero : (n : ℕ) → (suc n == 0) ≡ false
suc-ne-zero n = ground arith

module _ {B : Type 0} (t : Target) (io : Read B) where
  abbrev at : ℕ → B → FixedLengthBodyReader B
  at n b = record { raw_body = b; remaining = n }

  read_run :
      (k n : ℕ) (b b' : B) (bs : Bytes)
      → io.read n b ≡ (ok bs, b')
      → length bs ≤ suc k
      → read t io n (at (suc k) b) ≡ (ok bs, at (suc k - length bs) b')
  unfolding read
  read_run k n b b' bs e le =
      rw (suc-ne-zero k, e, sub_usize-eq_ok {E = Error} t (suc k) (length bs) le)

  read_failed :
      (k n : ℕ) (b b' : B) (x : ErrorKind)
      → io.read n b ≡ (err x, b')
      → read t io n (at (suc k) b) ≡ (err (Error.network x), at (suc k) b')
  unfolding read
  read_failed k n b b' x e = rw (suc-ne-zero k, e)

  -- Where the raw body delivers more bytes than remain, as it may into a slice with room for them,
  -- `read` panics if overflows are checked, and else it answers with all of them and wraps the
  -- count around.
  pub read-overflow :
      (r : FixedLengthBodyReader B) (n : ℕ) (b' : B) (bs : Bytes)
      → 0 < r.remaining
      → io.read n r.raw_body ≡ (ok bs, b')
      → r.remaining < length bs
      → ((t.overflow_checks ≡ true) → (read t io n r ≡ (panic, at r.remaining b')))
        × ((t.overflow_checks ≡ false)
            → (read t io n r ≡ (ok bs, at (r.remaining + 2 ^ bits t - length bs) b')))
  unfolding read sub_usize
  read-overflow r n b' bs pos e more =
      let left : (r.remaining == 0) ≡ false = ground arith in
      (
        (λ checked. rw (left, e, lt→leb (length bs) r.remaining more, checked)),
        (λ unchecked. rw (left, e, lt→leb (length bs) r.remaining more, unchecked)),
      )

  module _ (Inv : B → Type 0) (unread : B → Bytes) (law : IsRead io Inv unread) where
    -- What `read` promises of a body that is no longer than announced.
    abbrev pub Delivers : ℕ → FixedLengthBodyReader B → Bytes → FixedLengthBodyReader B → Type 0
    Delivers n r bs r' =
        Inv r'.raw_body
        × (length bs ≤ n)
        × (unread r.raw_body ≡ bs ++ unread r'.raw_body)
        × (r.remaining ≡ length bs + r'.remaining)
        × (length (unread r'.raw_body) ≤ r'.remaining)
        × (bs ≡ [] → (n ≡ 0) ⊎ (unread r.raw_body ≡ []))

    read_some :
        (k n : ℕ) (b : B)
        → Inv b
        → length (unread b) ≤ suc k
        → Ends (read t io n (at (suc k) b)) (Delivers n (at (suc k) b)) (λ x _. IsFailure io x)
    read_some k n b v le = elim (law.read_lem n b v) [
      | ends_err x b' e _ ↦
          ends_err (Error.network x) (at (suc k) b') (read_failed k n b b' x e) (of_read x n b b' e)
      | ends_ok bs b' e (v', short, u, stop) ↦
          let total : length (unread b) ≡ length bs + length (unread b') =
            ap length u ∙ length-append bs (unread b') in
          let fits : length bs ≤ suc k = omega (arith, total) in
          ends_ok bs (at (suc k - length bs) b') (read_run k n b b' bs e fits)
            (v', short, u, omega (arith, fits), omega (arith, total), stop)
    ]

    read_none : (n : ℕ) (b : B) → read t io n (at zero b) ≡ (ok [], at zero b)
    unfolding read
    read_none n b = refl

    -- If the peer sends no more than what remains of the announced length, `read` does not panic: it
    -- delivers what comes next of the body, and counts it. Nothing is delivered only into an empty
    -- slice or where nothing is left to come, and an error is one of the connection's.
    pub fixed-read_lem :
        (n : ℕ) (r : FixedLengthBodyReader B)
        → Inv r.raw_body
        → length (unread r.raw_body) ≤ r.remaining
        → Ends (read t io n r) (Delivers n r) (λ x _. IsFailure io x)
    fixed-read_lem n r v le = by_remaining r.remaining le
      where
        by_remaining :
            (k : ℕ)
            → length (unread r.raw_body) ≤ k
            → Ends
                (read t io n (at k r.raw_body))
                (Delivers n (at k r.raw_body))
                (λ x _. IsFailure io x)
        by_remaining zero le = ends_ok [] (at zero r.raw_body) (read_none n r.raw_body) (
          v,
          omega arith,
          refl,
          omega arith,
          le,
          (λ _. inr (eq-nil_of_length (unread r.raw_body) (omega (arith, le)))),
        )
        by_remaining (suc k) le = read_some k n r.raw_body v le
