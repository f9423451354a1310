-- ===== src/Client/Bodies.antt =====
-- client.rs: what `HttpConnection::write_request` sends of a body, for each kind of connection.
use reqwless.Base.{
  ℕ, ◌==◌, ◌≡◌, ◌⊎◌, refl, sym, ap, ◌∙◌, subst, inl, inr, true, false, List, [], ◌∷◌, ◌++◌, Bytes,
  length, length-append, ◌+◌, Bool-cases, ==_iff,
}
use reqwless.Base.{
  Outcome, ok, err, panic, Io, ◌>>=◌, ◌>>◌, pure, and_then, and_then-eq_ok, Ends, Ends-mono,
  ends_ok, ends_err,
}
use reqwless.Base.Words.{Target, IsTarget, IsUsize}
use reqwless.Hex.{Hex, IsHex}
use reqwless.Errors.{Error, ErrorKind, from_kind}
use reqwless.Connection.{Write, IsWrite}
use reqwless.Connection.Calls.{Call, run, AllFit, offered}
use reqwless.BodyWriter.Header.{empty_chunk}
use reqwless.BodyWriter.Body.{IsChunked}
use reqwless.BodyWriter.Fixed.{FixedBodyWriter, written}
use reqwless.BodyWriter.Fixed
use reqwless.BodyWriter.Fixed.Laws.{fixed_write, run_counts}
use reqwless.BodyWriter.Chunked
use reqwless.BodyWriter.Chunked.Laws.{chunked_write, run-IsChunked}
use reqwless.Request.Body.{RequestBody}
use reqwless.Client.Send.{network, check_written, write_fixed, write_chunked}

-- What the calls of a body hand over, where it makes no call of `write`, which may take less.
abbrev pub payload : List Call → Bytes
payload [] = []
payload (Call.write bs ∷ calls) = bs ++ payload calls
payload (Call.write_all bs ∷ calls) = bs ++ payload calls
payload (Call.flush ∷ calls) = payload calls

abbrev pub IsWhole : List Call → Type 0
IsWhole [] = Unit {0}
IsWhole (Call.write bs ∷ calls) = ⊥
IsWhole (Call.write_all bs ∷ calls) = IsWhole calls
IsWhole (Call.flush ∷ calls) = IsWhole calls

offered-payload : (calls : List Call) → IsWhole calls → offered calls ≡ length (payload calls)
offered-payload [] h = refl
offered-payload (Call.write bs ∷ calls) h = absurd h
offered-payload (Call.write_all bs ∷ calls) h =
    ap (λ n. length bs + n) (offered-payload calls h) ∙ sym (length-append bs (payload calls))
offered-payload (Call.flush ∷ calls) h = offered-payload calls h

-- The body makes these calls on whatever writer it is given, and ends with the first that fails.
pub record Makes {B : Type 0} (b : RequestBody B) (body : B) (calls : List Call) : Type 1 where
  pub write_eq : (W : Type 0) (w : Write W) → b.write w body ≡ (run w calls >>= λ _. pure tt)

-- All that the calls hand over is accepted, unless one fails.
abbrev answered : {X : Type 0} (r : Outcome ErrorKind Bytes × X) → Bytes
answered (ok bs, x) = bs
answered (_, x) = []

pub run-payload :
    {W : Type 0} (w : Write W) (calls : List Call) (s s' : W) (accepted : Bytes)
    → IsWhole calls
    → run w calls s ≡ (ok accepted, s')
    → accepted ≡ payload calls
unfolding run
run-payload w [] s s' accepted h e = ap answered (sym e)
run-payload w (Call.write bs ∷ calls) s s' accepted h e = absurd h
run-payload w (Call.write_all bs ∷ calls) s s' accepted h e =
    let (_, t, _, e1) =
      and_then-eq_ok (w.write_all bs s) (λ _. run w calls >>= λ rest. pure (bs ++ rest)) accepted s'
        e in
    let (rest, u, e2, e3) =
      and_then-eq_ok (run w calls t) (λ rest. pure (bs ++ rest)) accepted s' e1 in
    ap answered (sym e3) ∙ ap (λ z. bs ++ z) (run-payload w calls t u rest h e2)
run-payload w (Call.flush ∷ calls) s s' accepted h e =
    let (_, t, _, e1) = and_then-eq_ok (w.flush s) (λ _. run w calls) accepted s' e in
    run-payload w calls t s' accepted h e1

-- The calls of a body and what ends it, as `write_request` makes them: the calls were all accepted
-- where both end well.
module _ {X : Type 0} (r : Io X ErrorKind Bytes) (k : Io X ErrorKind (Unit {0})) (s : X)
    {P : Bytes → X → Type 0} where
  pub Ends-session :
      Ends ((do accepted ← r; k; pure accepted) s) P (λ _ _. Unit {0})
      → Ends
          ((do network (r >>= λ _. pure tt); network k) s)
          (λ _ s'. (accepted : Bytes) × (t : X) × (r s ≡ (ok accepted, t)) × P accepted s')
          (λ _ _. Unit {0})
  Ends-session h = by_run (r s) refl h
    where
      by_end :
          (accepted : Bytes) (t : X) (o : Outcome ErrorKind (Unit {0}) × X)
          → r s ≡ (ok accepted, t)
          → Ends (and_then o (λ _. pure accepted)) P (λ _ _. Unit {0})
          → Ends
              (network (λ _. o) t)
              (λ _ s'. (accepted : Bytes) × (t : X) × (r s ≡ (ok accepted, t)) × P accepted s')
              (λ _ _. Unit {0})
      by_end accepted t (ok _, u) e (ends_ok a s' e' p) =
          ends_ok tt u refl (accepted, t, e, subst (λ r. P (answered r) r.1) (sym e') p)
      by_end accepted t (ok _, u) e (ends_err x s' e' p) = cc
      by_end accepted t (err x, u) e h = ends_err (from_kind x) u refl tt
      by_end accepted t (panic, u) e (ends_ok a s' e' p) = cc
      by_end accepted t (panic, u) e (ends_err x s' e' p) = cc

      by_run :
          (o : Outcome ErrorKind Bytes × X)
          → r s ≡ o
          → Ends (and_then o (λ accepted. k >> pure accepted)) P (λ _ _. Unit {0})
          → Ends
              ((network (λ _. and_then o (λ _. pure tt)) >> network k) s)
              (λ _ s'. (accepted : Bytes) × (t : X) × (r s ≡ (ok accepted, t)) × P accepted s')
              (λ _ _. Unit {0})
      by_run (ok accepted, t) e h = by_end accepted t (k t) e h
      by_run (err x, t) e h = ends_err (from_kind x) t refl tt
      by_run (panic, t) e (ends_ok a s' e' p) = cc
      by_run (panic, t) e (ends_err x s' e' p) = cc

module _ (t : Target) (h : Hex) (wide : IsTarget t) (is_hex : IsHex h) {B : Type 0}
    (b : RequestBody B) (body : B) (calls : List Call) (makes : Makes b body calls)
    (whole : IsWhole calls) where
  -- The fixed writer: the body is sent as it is, and has the length that was announced.
  pub write_fixed_lem :
      {C : Type 0} (conn : Write C) (sent : C → Bytes) (len : ℕ) (c : C)
      → IsWrite conn sent
      → IsUsize t (length (payload calls))
      → Ends
          (write_fixed t conn b body len c)
          (λ _ c'. (sent c' ≡ sent c ++ payload calls) × (length (payload calls) ≡ len))
          (λ _ _. Unit {0})
  unfolding write_fixed
  write_fixed_lem {C} conn sent len c law fits =
      rw (makes.write_eq (FixedBodyWriter C) (fixed_write t conn))
        (elim (run_counts t conn sent law calls c
          (subst (IsUsize t) (sym (offered-payload calls whole)) fits)) [
            | ends_err x w e _ ↦ rw e (ends_err (from_kind x) w.conn refl tt)
            | ends_ok accepted w e (s, n) ↦
                let all = run-payload (fixed_write t conn) calls (Fixed.new c) w accepted whole e in
                rw e (counted w accepted all s n (Bool-cases (written w == len)))
          ])
    where
      counted :
          (w : FixedBodyWriter C) (accepted : Bytes)
          → accepted ≡ payload calls
          → sent w.conn ≡ sent c ++ accepted
          → written w ≡ length accepted
          → ((written w == len) ≡ true) ⊎ ((written w == len) ≡ false)
          → Ends
              (check_written len (ok tt, w))
              (λ _ c'. (sent c' ≡ sent c ++ payload calls) × (length (payload calls) ≡ len))
              (λ _ _. Unit {0})
      counted w accepted all s n (inl same) = rw same (
          ends_ok tt w.conn refl (
            s ∙ ap (λ z. sent c ++ z) all,
            ap length (sym all) ∙ sym n ∙ (==_iff (written w) len).0 same,
          ))
      counted w accepted all s n (inr other) =
          rw other (ends_err Error.incorrect_body_written w.conn refl tt)

  -- The chunked writer.
  pub write_chunked_lem :
      {C : Type 0} (conn : Write C) (sent : C → Bytes) (c : C)
      → IsWrite conn sent
      → AllFit (λ bs. IsUsize t (length bs)) calls
      → Ends
          (write_chunked t h conn b body c)
          (λ _ c'.
            (wire : Bytes) × IsChunked t (payload calls) wire
            × (sent c' ≡ sent c ++ (wire ++ empty_chunk)))
          (λ _ _. Unit {0})
  unfolding write_chunked
  write_chunked_lem {C} conn sent c law fit = rw (makes.write_eq C (chunked_write t h conn)) (
      Ends-mono
        (λ _ c' (accepted, u, e, (wire, chunked, s)). (
          wire,
          subst (λ z. IsChunked t z wire)
              (run-payload (chunked_write t h conn) calls c u accepted whole e) chunked,
          s,
        ))
        (λ _ _ _. tt)
        (Ends-session (run (chunked_write t h conn) calls) (Chunked.terminate t h conn) c
          (run-IsChunked t h wide is_hex conn sent law calls c fit)))
