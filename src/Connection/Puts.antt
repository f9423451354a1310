-- ===== src/Connection/Puts.antt =====
-- What a sequence of writes puts on the wire, errors included.
use reqwless.Base.{[], ◌++◌, ◌≡◌, refl, sym, append_assoc, append-nil}
use reqwless.Base.{Bytes, take, Io, ◌>>◌, pure, Ends, Ends-mono, ends_ok, ends_err}
use reqwless.Connection.{Write, IsWrite}
use reqwless.Connection.Calls.{IsFront, take-IsFront, IsFront-append, IsFront-extend}

-- The call hands over exactly `bs`; if it fails, it has handed over a front of it.
abbrev pub Puts : {S E : Type 0} → (S → Bytes) → Io S E (Unit {0}) → Bytes → Type 0
Puts {S} sent m bs =
    (s : S)
    → Ends (m s) (λ _ s'. sent s' ≡ sent s ++ bs)
        (λ _ s'. (front : Bytes) × IsFront front bs × (sent s' ≡ sent s ++ front))

module _ {S E : Type 0} (sent : S → Bytes) where
  pub Puts-pure : Puts {S = S} {E = E} sent (pure tt) []
  Puts-pure s = ends_ok tt s refl (sym (append-nil (sent s)))

  pub Puts->> :
      (m k : Io S E (Unit {0})) (xs ys : Bytes)
      → Puts sent m xs
      → Puts sent k ys
      → Puts sent (m >> k) (xs ++ ys)
  Puts->> m k xs ys p q s = elim (p s) [
    | ends_err x t e (front, f, h) ↦ ends_err x t (rw e) (front, IsFront-extend front xs ys f, h)
    | ends_ok _ t e h ↦ elim (q t) [
      | ends_ok _ u e' h' ↦ ends_ok tt u (rw (e, e')) (rw (h', h) (append_assoc (sent s) xs ys))
      | ends_err x u e' (front, f, h') ↦
          ends_err x u (rw (e, e'))
            (xs ++ front, IsFront-append xs front ys f, rw (h', h) (append_assoc (sent s) xs front))
    ]
  ]

pub Puts-write_all :
    {C : Type 0} (conn : Write C) (sent : C → Bytes)
    → IsWrite conn sent
    → (bs : Bytes) → Puts sent (conn.write_all bs) bs
Puts-write_all conn sent law bs c =
    Ends-mono (λ _ _ h. h) (λ _ _ (n, h). (take n bs, take-IsFront n bs, h))
      (law.write_all_lem bs c)
