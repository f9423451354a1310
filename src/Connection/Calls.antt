-- ===== src/Connection/Calls.antt =====
-- The calls that a request body makes on the writer that it is given.
use reqwless.Base.{ℕ, ◌+◌, length, List, [], ◌∷◌, ◌++◌, ◌≡◌, refl, ap, sym, ◌∙◌, append_assoc}
use reqwless.Base.{
  Bytes, take, drop, take-append-drop, Io, ◌>>=◌, ◌>>◌, pure, Ends, ends_ok, ends_err,
}
use reqwless.Errors.{ErrorKind}
use reqwless.Connection.{Write}

pub data Call : Type 0 where
  write : Bytes → Call
  write_all : Bytes → Call
  flush : Call

-- The calls in order, up to the first error; the result is the bytes that the writer accepted.
unfoldable pub run : {W : Type 0} → Write W → List Call → Io W ErrorKind Bytes
run w [] = pure []
run w (Call.write bs ∷ calls) = do n ← w.write bs; rest ← run w calls; pure (take n bs ++ rest)
run w (Call.write_all bs ∷ calls) = do w.write_all bs; rest ← run w calls; pure (bs ++ rest)
run w (Call.flush ∷ calls) = do w.flush; run w calls

-- How many bytes the calls hand over at most.
abbrev pub offered : List Call → ℕ
offered [] = 0
offered (Call.write bs ∷ calls) = length bs + offered calls
offered (Call.write_all bs ∷ calls) = length bs + offered calls
offered (Call.flush ∷ calls) = offered calls

-- A front of `whole`.
abbrev pub IsFront : Bytes → Bytes → Type 0
IsFront front whole = (back : Bytes) × (whole ≡ front ++ back)

pub take-IsFront : (n : ℕ) (bs : Bytes) → IsFront (take n bs) bs
take-IsFront n bs = (drop n bs, sym (take-append-drop n bs))

pub IsFront-append :
    (bs front more : Bytes) → IsFront front more → IsFront (bs ++ front) (bs ++ more)
IsFront-append bs front more (back, e) =
    (back, ap (λ t. bs ++ t) e ∙ sym (append_assoc bs front back))

pub IsFront-extend :
    (front whole more : Bytes) → IsFront front whole → IsFront front (whole ++ more)
IsFront-extend front whole more (back, e) =
    (back ++ more, ap (λ t. t ++ more) e ∙ append_assoc front back more)

-- All slices that the calls hand over are of the kind `Fit`.
abbrev pub AllFit : (Bytes → Type 0) → List Call → Type 0
AllFit Fit [] = Unit {0}
AllFit Fit (Call.write bs ∷ calls) = Fit bs × AllFit Fit calls
AllFit Fit (Call.write_all bs ∷ calls) = Fit bs × AllFit Fit calls
AllFit Fit (Call.flush ∷ calls) = AllFit Fit calls

-- What a writer promises of each call carries over to all the calls of a body: `Inv` holds between
-- calls, and `Sends bs` relates the states around calls that accept `bs`.
pub record Keeps {W : Type 0} (w : Write W) (Fit : Bytes → Type 0) (Inv : W → Type 0)
    (Sends : Bytes → W → W → Type 0) : Type 0 where
  pub sends_nil : (s : W) → Sends [] s s
  pub sends_append :
      (bs cs : Bytes) (s t u : W) → Sends bs s t → Sends cs t u → Sends (bs ++ cs) s u
  pub write_lem :
      (bs : Bytes) (s : W)
      → Fit bs
      → Inv s
      → Ends (w.write bs s) (λ n t. Inv t × Sends (take n bs) s t) (λ _ _. Unit {0})
  pub write_all_lem :
      (bs : Bytes) (s : W)
      → Fit bs
      → Inv s
      → Ends (w.write_all bs s) (λ _ t. Inv t × Sends bs s t) (λ _ _. Unit {0})
  pub flush_lem : (s : W) → Inv s → Ends (w.flush s) (λ _ t. Inv t × Sends [] s t) (λ _ _. Unit {0})

module _ {W : Type 0} (w : Write W) (Fit : Bytes → Type 0) (Inv : W → Type 0)
    (Sends : Bytes → W → W → Type 0) (k : Keeps w Fit Inv Sends) where
  pub run_keeps :
      (calls : List Call) (s : W)
      → AllFit Fit calls
      → Inv s
      → Ends (run w calls s) (λ accepted t. Inv t × Sends accepted s t) (λ _ _. Unit {0})
  unfolding run
  run_keeps [] s fit v = ends_ok [] s refl (v, k.sends_nil s)
  run_keeps (Call.write bs ∷ calls) s fit v = elim (k.write_lem bs s fit.0 v) [
    | ends_ok n t e (vt, h) ↦ elim (run_keeps calls t fit.1 vt) [
      | ends_ok rest u e' (vu, h') ↦
          ends_ok (take n bs ++ rest) u (rw (e, e'))
            (vu, k.sends_append (take n bs) rest s t u h h')
      | ends_err x u e' h' ↦ ends_err x u (rw (e, e')) tt
    ]
    | ends_err x t e h ↦ ends_err x t (rw e) tt
  ]
  run_keeps (Call.write_all bs ∷ calls) s fit v = elim (k.write_all_lem bs s fit.0 v) [
    | ends_ok _ t e (vt, h) ↦ elim (run_keeps calls t fit.1 vt) [
      | ends_ok rest u e' (vu, h') ↦
          ends_ok (bs ++ rest) u (rw (e, e')) (vu, k.sends_append bs rest s t u h h')
      | ends_err x u e' h' ↦ ends_err x u (rw (e, e')) tt
    ]
    | ends_err x t e h ↦ ends_err x t (rw e) tt
  ]
  run_keeps (Call.flush ∷ calls) s fit v = elim (k.flush_lem s v) [
    | ends_ok _ t e (vt, h) ↦ elim (run_keeps calls t fit vt) [
      | ends_ok rest u e' (vu, h') ↦
          ends_ok rest u (rw (e, e')) (vu, k.sends_append [] rest s t u h h')
      | ends_err x u e' h' ↦ ends_err x u (rw (e, e')) tt
    ]
    | ends_err x t e h ↦ ends_err x t (rw e) tt
  ]

pub AllFit-trivial : (calls : List Call) → AllFit (λ _. Unit {0}) calls
AllFit-trivial [] = tt
AllFit-trivial (Call.write bs ∷ calls) = (tt, AllFit-trivial calls)
AllFit-trivial (Call.write_all bs ∷ calls) = (tt, AllFit-trivial calls)
AllFit-trivial (Call.flush ∷ calls) = AllFit-trivial calls
