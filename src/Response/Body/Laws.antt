-- ===== src/Response/Body/Laws.antt =====
-- response/mod.rs: `BodyReader` reads a whole body, or drops it.
use reqwless.Base.{
  ℕ, zero, suc, ◌+◌, ◌-◌, ◌≤◌, ◌<◌, ◌≡◌, refl, sym, ap, ◌∙◌, subst, arith, ◌⊎◌, inl, inr, Bool,
  true, false, [], ◌∷◌, ◌++◌, append_assoc, append-nil, Bytes, length, length-append, is_empty, ltb,
  ltb→lt, some, Bool-cases, if◌then◌else◌,
}
use reqwless.Base.{ok, pure, fail, lift, ◌>>=◌, Ends, Ends-mono, Ends-and_then, ends_ok, ends_err}
use reqwless.Base.Words.{Target, IsUsize, add_usize, add_usize-eq_ok}
use reqwless.Errors.{Error}
use reqwless.Connection.{Read}
use reqwless.Hex.{Hex}
use reqwless.Response.Body.{
  BodyReader, read, is_done, read_until_full, has_more, read_to_end, discard,
}

-- What a body's reader promises of one `read`: `Rest payload r` says that `payload` is still to
-- come.
abbrev pub Reads :
    {B : Type 0} → (Bytes → BodyReader B → Type 0) → Bytes → ℕ → Bytes → BodyReader B → Type 0
Reads Rest payload n bs r' =
    (rest : Bytes) × (payload ≡ bs ++ rest)
    × Rest rest r'
    × (length bs ≤ n)
    × (bs ≡ [] → (n ≡ 0) ⊎ ((payload ≡ []) × (is_done r' ≡ true)))

module _ {B : Type 0} (t : Target) (h : Hex) (io : Read B) (Rest : Bytes → BodyReader B → Type 0)
    (Fails : Error → Type 0)
    (read_lem : (payload : Bytes) (n : ℕ) (r : BodyReader B)
      → Rest payload r
      → Ends (read t h io n r) (Reads Rest payload n) (λ x _. Fails x)) where
  -- A round of `discard`.
  discard_round :
      (fuel len : ℕ) (payload bs : Bytes) (r : BodyReader B)
      → Reads Rest payload 128 bs r
      → length payload < suc fuel
      → IsUsize t (len + length payload)
      → ((rest : Bytes)
          → Rest rest r
          → length rest < fuel
          → IsUsize t (len + length bs + length rest)
          → Ends
              (discard t h io fuel (len + length bs) r)
              (λ o r'. (o ≡ some (len + length bs + length rest)) × Rest [] r')
              (λ x _. Fails x))
      → Ends
          ((if is_empty bs
              then pure (some len)
              else (do total ← lift (add_usize t len (length bs)); discard t h io fuel total))
            r)
          (λ o r'. (o ≡ some (len + length payload)) × Rest [] r')
          (λ x _. Fails x)
  discard_round fuel len payload [] r (rest, e, k, _, stop) le fits ih = elim (stop refl) [
    | inl z ↦ absurd (omega (arith, z))
    | inr (z, _) ↦
        ends_ok (some len) r refl
          (ap some (omega (arith, ap length z)), subst (λ y. Rest y r) (sym e ∙ z) k)
  ]
  discard_round fuel len payload (b ∷ bs) r (rest, e, k, _, _) le fits ih =
      let total : length payload ≡ length (b ∷ bs) + length rest =
        ap length e ∙ length-append (b ∷ bs) rest in
      rw (add_usize-eq_ok {E = Error} t len (length (b ∷ bs)) (omega (arith, fits, total))) (
        Ends-mono (λ o r' (s, k'). (s ∙ ap some (omega (arith, total)), k')) (λ _ _ f. f)
          (ih rest k (omega (arith, total)) (omega (arith, fits, total))))

  -- With more fuel than bytes to come, `discard` ends: unless the connection fails, it has read the
  -- body to its end and answers its length.
  pub discard_all :
      (fuel len : ℕ) (payload : Bytes) (r : BodyReader B)
      → Rest payload r
      → length payload < fuel
      → IsUsize t (len + length payload)
      → Ends
          (discard t h io fuel len r)
          (λ o r'. (o ≡ some (len + length payload)) × Rest [] r')
          (λ x _. Fails x)
  unfolding discard
  discard_all zero len payload r k le fits = absurd (omega arith)
  discard_all (suc fuel) len payload r k le fits =
      Ends-and_then _ (read_lem payload 128 r k)
        (λ bs r' reads.
          discard_round fuel len payload bs r' reads le fits
            (λ rest k' le' fits'. discard_all fuel (len + length bs) rest r' k' le' fits'))
        (λ _ _ f. f)

  -- What the loop of `read_to_end` leaves: the buffer is full, or the body is at its end.
  abbrev Filled : ℕ → Bytes → Bytes → BodyReader B → Type 0
  Filled n all out r' =
      (rest : Bytes) × (all ≡ out ++ rest)
      × Rest rest r'
      × (length out ≤ n)
      × ((length out ≡ n) ⊎ ((rest ≡ []) × (is_done r' ≡ true)))

  full :
      (n : ℕ) (got payload : Bytes) (r : BodyReader B)
      → Rest payload r
      → length got ≡ n
      → Filled n (got ++ payload) got r
  full n got payload r k l = (payload, refl, k, omega (arith, l), inl l)

  fill_round :
      (fuel n : ℕ) (got payload bs : Bytes) (r : BodyReader B)
      → Reads Rest payload (n - length got) bs r
      → length got < n
      → n - length got ≤ suc fuel
      → ((got' payload' : Bytes)
          → Rest payload' r
          → length got' ≤ n
          → n - length got' ≤ fuel
          → Ends
              (read_until_full t h io fuel n got' r)
              (Filled n (got' ++ payload'))
              (λ x _. Fails x))
      → Ends
          ((if is_empty bs then pure got else read_until_full t h io fuel n (got ++ bs)) r)
          (Filled n (got ++ payload))
          (λ x _. Fails x)
  fill_round fuel n got payload [] r (rest, e, k, _, stop) lt le ih = elim (stop refl) [
    | inl z ↦ absurd (omega (arith, z, lt))
    | inr (z, done) ↦
        ends_ok got r refl (rest, ap (λ y. got ++ y) e, k, omega (arith, lt), inr (sym e ∙ z, done))
  ]
  fill_round fuel n got payload (b ∷ bs) r (rest, e, k, fit, _) lt le ih =
      let l : length (got ++ (b ∷ bs)) ≡ length got + length (b ∷ bs) =
        length-append got (b ∷ bs) in
      Ends-mono
        (λ out r' (rest', e', k', fit', at).
          (rest', ap (λ y. got ++ y) e ∙ sym (append_assoc got (b ∷ bs) rest) ∙ e', k', fit', at))
        (λ _ _ f. f)
        (ih (got ++ (b ∷ bs)) rest k (omega (arith, l, fit, lt)) (omega (arith, l, fit, le)))

  read_until_full_lem :
      (fuel n : ℕ) (got payload : Bytes) (r : BodyReader B)
      → Rest payload r
      → length got ≤ n
      → n - length got ≤ fuel
      → Ends (read_until_full t h io fuel n got r) (Filled n (got ++ payload)) (λ x _. Fails x)
  unfolding read_until_full
  read_until_full_lem zero n got payload r k le room =
      ends_ok got r refl (full n got payload r k (omega (arith, le, room)))
  read_until_full_lem (suc fuel) n got payload r k le room =
      elim (Bool-cases (ltb (length got) n)) [
        | inr f ↦ rw f (ends_ok got r refl (full n got payload r k (not_less f)))
        | inl f ↦ rw f (
            Ends-and_then _ (read_lem payload (n - length got) r k)
              (λ bs r' reads.
                fill_round fuel n got payload bs r' reads (ltb→lt (length got) n f) room
                  (λ got' payload' k' le' room'.
                    read_until_full_lem fuel n got' payload' r' k' le' room'))
              (λ _ _ f. f))
      ]
    where
      not_less : ltb (length got) n ≡ false → length got ≡ n
      not_less f = ground (arith, f, le)

  differ : true ≡ false → ⊥
  differ e = cc

  -- The part of `read_to_end` behind its loop.
  end_round :
      (n : ℕ) (payload out : Bytes) (r : BodyReader B)
      → Filled n payload out r
      → ((rest : Bytes) → Rest rest r → is_done r ≡ true → rest ≡ [])
      → ((len : ℕ) → is_done r ≡ false → has_more t h io len n r ≡ (ok true, r))
      → (done : Bool) → is_done r ≡ done
      → Ends
          ((do
            more ← if done then pure false else has_more t h io (length out) n
            if more then fail Error.buffer_too_small else pure out)
            r)
          (λ o r'. (o ≡ payload) × Rest [] r')
          (λ x _. Fails x ⊎ ((x ≡ Error.buffer_too_small) × (n ≤ length payload)))
  end_round n payload out r (rest, e, k, le, at) at_end more true d =
      let over : rest ≡ [] = at_end rest k d in
      ends_ok out r refl
        (sym (append-nil out) ∙ ap (λ y. out ++ y) (sym over) ∙ sym e, subst (λ y. Rest y r) over k)
  end_round n payload out r (rest, e, k, le, inl l) at_end more false d = rw (more (length out) d) (
      ends_err Error.buffer_too_small r refl
        (inr (refl, omega (arith, l, ap length e, length-append out rest))))
  end_round n payload out r (rest, e, k, le, inr (_, done)) at_end more false d =
      absurd (differ (sym done ∙ d))

  -- Let a reader promise that a `read` delivers what comes next of the body, and nothing only at
  -- the end, which `is_done` tells and tells of nothing else, and let no end but its own be probed
  -- for. Then `read_to_end` returns the whole body or fails, either as a `read` does, or because
  -- the body is at least as long as the buffer. It does not panic.
  pub read_to_end_all :
      (n : ℕ) (payload : Bytes) (r : BodyReader B)
      → ((rest : Bytes) (u : BodyReader B) → Rest rest u → is_done u ≡ true → rest ≡ [])
      → ((rest : Bytes) (u : BodyReader B) (len : ℕ)
          → Rest rest u
          → has_more t h io len n u ≡ (ok true, u))
      → Rest payload r
      → Ends
          (read_to_end t h io n r)
          (λ out r'. (out ≡ payload) × Rest [] r')
          (λ x _. Fails x ⊎ ((x ≡ Error.buffer_too_small) × (n ≤ length payload)))
  unfolding read_to_end
  read_to_end_all n payload r at_end more k =
      Ends-and_then _ (read_until_full_lem n n [] payload r k (omega arith) (omega arith))
        (λ out r' (rest, e, k', fit, at).
          end_round n payload out r' (rest, e, k', fit, at) (λ rest k''. at_end rest r' k'')
            (λ len _. more rest r' len k') (is_done r') refl)
        (λ x _ f. inl f)
