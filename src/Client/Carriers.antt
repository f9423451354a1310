-- ===== src/Client/Carriers.antt =====
-- client.rs: what the connections of other crates promise, and that `HttpConnection` keeps to the
-- interface of `Write`.
use reqwless.Base.{ℕ, ◌≤◌, ◌<◌, ◌≡◌, refl, sym, ap, ◌∷◌, ◌++◌, Bytes, length, take}
use reqwless.Base.{Outcome, ok, err, panic, Ends, ends_ok, ends_err}
use reqwless.Errors.{ErrorKind}
use reqwless.Connection.{Write, IsWrite}
use reqwless.Connection.Loop.{IsLoop, loop-Handed}
use reqwless.Client.{HttpConnection, Transport, Provided, wrapped, write, flush, http_write}

-- `write` waits until it can take a byte.
abbrev pub IsEager : {X : Type 0} → Write X → Type 0
IsEager {X} io = (b : ℕ) (bs : Bytes) (c c' : X) (n : ℕ) → io.write (b ∷ bs) c ≡ (ok n, c') → 0 < n

-- `sent` of a connection and of a session is what the peer was handed, `accepted` of a buffered
-- writer what it was handed, in its connection and in its buffer.
pub record IsTransport {C W S : Type 0} (net : Transport C W S) (sent : C → Bytes)
    (accepted : W → Bytes) (tls_sent : S → Bytes) : Type 0 where
  pub plain_lem : IsWrite net.plain_write sent
  pub buffered_lem : IsWrite net.buffered_write accepted
  pub tls_lem : IsWrite net.tls_write tls_sent
  pub plain_eager : IsEager net.plain_write
  pub buffered_eager : IsEager net.buffered_write
  pub tls_eager : IsEager net.tls_write
  pub new_lem : (c : C) (buf : Bytes) → accepted (net.new_buffered c buf) ≡ sent c
  pub split_lem :
      (w : W)
      → ((net.split w).2 ≤ length (net.split w).1)
        × (accepted w ≡ sent (net.split w).0 ++ take (net.split w).2 (net.split w).1)
  pub clear_lem : (c : C) (buf : Bytes) (w : W) → accepted (net.clear (net.rejoin c buf w)) ≡ sent c

-- What the documentation of `flush` promises: all that the connection was handed has reached its
-- destination.
abbrev pub IsFlush : {X : Type 0} → Write X → (X → Bytes) → (X → Bytes) → Type 0
IsFlush {X} io accepted reached = (c c' : X) → io.flush c ≡ (ok tt, c') → reached c' ≡ accepted c'

module _ {C W S : Type 0} (sent : C → Bytes) (accepted : W → Bytes) (tls_sent : S → Bytes) where
  -- What was handed to the connection, whichever it is.
  abbrev pub handed : HttpConnection C W S → Bytes
  handed (HttpConnection.plain c) = sent c
  handed (HttpConnection.plain_buffered w) = accepted w
  handed (HttpConnection.tls s) = tls_sent s

pub Ends-wrapped :
    {C W S X E A : Type 0} {P : A → X → Type 0} {Q : E → X → Type 0}
    {P' : A → HttpConnection C W S → Type 0} {Q' : E → HttpConnection C W S → Type 0}
    (f : X → HttpConnection C W S) (r : Outcome E A × X)
    → Ends r P Q
    → ((a : A) (x : X) → P a x → P' a (f x))
    → ((e : E) (x : X) → Q e x → Q' e (f x))
    → Ends (wrapped f r) P' Q'
Ends-wrapped f r (ends_ok a x e h) p q = rw e (ends_ok a (f x) refl (p a x h))
Ends-wrapped f r (ends_err y x e h) p q = rw e (ends_err y (f x) refl (q y x h))

module _ {C W S : Type 0} (net : Transport C W S) (sent : C → Bytes) (accepted : W → Bytes)
    (tls_sent : S → Bytes) (law : IsTransport net sent accepted tls_sent) where
  write_lem :
      (bs : Bytes) (c : HttpConnection C W S)
      → Ends
          (write net bs c)
          (λ n c'.
            (n ≤ length bs)
            × (handed sent accepted tls_sent c' ≡ handed sent accepted tls_sent c ++ take n bs))
          (λ _ c'. handed sent accepted tls_sent c' ≡ handed sent accepted tls_sent c)
  unfolding write
  write_lem bs (HttpConnection.plain c) =
      Ends-wrapped HttpConnection.plain _ (law.plain_lem.write_lem bs c) (λ _ _ h. h) (λ _ _ h. h)
  write_lem bs (HttpConnection.plain_buffered w) =
      Ends-wrapped HttpConnection.plain_buffered _ (law.buffered_lem.write_lem bs w) (λ _ _ h. h)
        (λ _ _ h. h)
  write_lem bs (HttpConnection.tls s) =
      Ends-wrapped HttpConnection.tls _ (law.tls_lem.write_lem bs s) (λ _ _ h. h) (λ _ _ h. h)

  pub flush_lem :
      (c : HttpConnection C W S)
      → Ends
          (flush net c)
          (λ _ c'. handed sent accepted tls_sent c' ≡ handed sent accepted tls_sent c)
          (λ _ c'. handed sent accepted tls_sent c' ≡ handed sent accepted tls_sent c)
  unfolding flush
  flush_lem (HttpConnection.plain c) =
      Ends-wrapped HttpConnection.plain _ (law.plain_lem.flush_lem c) (λ _ _ h. h) (λ _ _ h. h)
  flush_lem (HttpConnection.plain_buffered w) =
      Ends-wrapped HttpConnection.plain_buffered _ (law.buffered_lem.flush_lem w) (λ _ _ h. h)
        (λ _ _ h. h)
  flush_lem (HttpConnection.tls s) =
      Ends-wrapped HttpConnection.tls _ (law.tls_lem.flush_lem s) (λ _ _ h. h) (λ _ _ h. h)

  unwrapped_unit :
      {X : Type 0} (f : X → HttpConnection C W S) (r : Outcome ErrorKind (Unit {0}) × X)
      (c' : HttpConnection C W S)
      → wrapped f r ≡ (ok tt, c')
      → (r ≡ (ok tt, r.1)) × (c' ≡ f r.1)
  unwrapped_unit f (ok _, x) c' e = (refl, sym (ap (λ o. o.1) e))
  unwrapped_unit f (err y, x) c' e = cc
  unwrapped_unit f (panic, x) c' e = cc

  -- So it is with the connection inside.
  pub flush-IsFlush :
      (reached : C → Bytes) (buffered_reached : W → Bytes) (tls_reached : S → Bytes)
      → IsFlush net.plain_write sent reached
      → IsFlush net.buffered_write accepted buffered_reached
      → IsFlush net.tls_write tls_sent tls_reached
      → (c c' : HttpConnection C W S) → flush net c ≡ (ok tt, c')
      → handed reached buffered_reached tls_reached c' ≡ handed sent accepted tls_sent c'
  unfolding flush
  flush-IsFlush reached buffered_reached tls_reached p q r (HttpConnection.plain c) c' e =
      let (run, same) = unwrapped_unit HttpConnection.plain (net.plain_write.flush c) c' e in
      rw same (p c _ run)
  flush-IsFlush reached buffered_reached tls_reached p q r (HttpConnection.plain_buffered w) c' e =
      let (run, same) =
        unwrapped_unit HttpConnection.plain_buffered (net.buffered_write.flush w) c' e in
      rw same (q w _ run)
  flush-IsFlush reached buffered_reached tls_reached p q r (HttpConnection.tls s) c' e =
      let (run, same) = unwrapped_unit HttpConnection.tls (net.tls_write.flush s) c' e in
      rw same (r s _ run)

  unwrapped_count :
      {X : Type 0} (f : X → HttpConnection C W S) (r : Outcome ErrorKind ℕ × X)
      (c' : HttpConnection C W S) (n : ℕ)
      → wrapped f r ≡ (ok n, c')
      → r ≡ (ok n, r.1)
  unwrapped_count f (ok m, x) c' n e = ap (λ o. (o.0, x)) e
  unwrapped_count f (err y, x) c' n e = ap (λ o. (o.0, x)) e
  unwrapped_count f (panic, x) c' n e = ap (λ o. (o.0, x)) e

  eager :
      (b : ℕ) (bs : Bytes) (c c' : HttpConnection C W S) (n : ℕ)
      → write net (b ∷ bs) c ≡ (ok n, c')
      → 0 < n
  unfolding write
  eager b bs (HttpConnection.plain c) c' n e =
      law.plain_eager b bs c _ n
        (unwrapped_count HttpConnection.plain (net.plain_write.write (b ∷ bs) c) c' n e)
  eager b bs (HttpConnection.plain_buffered w) c' n e =
      law.buffered_eager b bs w _ n
        (unwrapped_count HttpConnection.plain_buffered (net.buffered_write.write (b ∷ bs) w) c' n e)
  eager b bs (HttpConnection.tls s) c' n e =
      law.tls_eager b bs s _ n
        (unwrapped_count HttpConnection.tls (net.tls_write.write (b ∷ bs) s) c' n e)

  -- If the connections of the other crates keep to their interfaces, and the trait's `write_all` is
  -- its documented loop, an `HttpConnection` of any kind keeps to the interface of a writer: each
  -- call hands over exactly the bytes it answers for, and a failed one a front of them.
  pub http_write-IsWrite :
      (own : Provided C W S)
      → IsLoop (write net) own.write_all
      → IsWrite (http_write net own) (handed sent accepted tls_sent)
  http_write-IsWrite own loop = record {
    write_lem = write_lem;
    write_all_lem =
        loop-Handed (write net) own.write_all loop (handed sent accepted tls_sent) write_lem eager;
    flush_lem = flush_lem;
  }
