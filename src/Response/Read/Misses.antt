-- ===== src/Response/Read/Misses.antt =====
-- response/mod.rs: why `Response::read` fails.
use reqwless.Base.{
  err, ℕ, zero, suc, ◌+◌, ◌-◌, ◌≤◌, ◌<◌, ◌==◌, ◌≡◌, refl, sym, ap, ◌∙◌, arith, ◌⊎◌, inl, inr, Bool,
  true, false, [], ◌∷◌, ◌++◌, append_assoc, append-nil, Bytes, length, length-append, take-append,
  if◌then◌else◌, subst,
}
use reqwless.Base.{
  Outcome, Ends, ends_ok, ends_err, Causes, causes_err, Ends-Causes, Ends-mono, fail,
}
use reqwless.Base.Words.{Target}
use reqwless.Errors.{Error, ErrorKind}
use reqwless.Connection.{Read, IsRead}
use reqwless.Request.{Method}
use reqwless.Response.Read.{Crates, Parse, Found, find_header, after_parse, interpret, read}
use reqwless.Response.Read.Search.{
  IsCrates, round_err, round_end, round_more, patched, find_header_full,
}
use reqwless.Response.Read.Refusals.{interpret-Causes}
use reqwless.Response.Read.Laws.{read_lem}

-- The parser asks for more bytes.
abbrev pub IsPartial : Parse → Type 0
IsPartial (Parse.partial code headers) = Unit {0}
IsPartial _ = ⊥

-- Why the search for a header fails, with `got` read before and a room of so many bytes: the
-- connection failed; it ended before the room was full; the room was filled, and the parser asks
-- for more; or the bytes were refused, once the parser had come to a decision.
pub data Misses {C : Type 0} (crates : Crates) (io : Read C) (unread : C → Bytes) (got : Bytes)
    (room : ℕ) (c : C) : Error → C → Type 0 where
  failed :
      (k : ErrorKind) (n : ℕ) (d c' : C)
      → io.read n d ≡ (err k, c')
      → Misses crates io unread got room c (Error.network k) c'
  ended :
      (c' : C)
      → length (unread c) < room
      → unread c' ≡ []
      → Misses crates io unread got room c Error.connection_aborted c'
  filled :
      (more : Bytes) (c' : C)
      → unread c ≡ more ++ unread c'
      → length more ≡ room
      → (got ++ more ≡ []) ⊎ IsPartial (crates.parse (got ++ more))
      → Misses crates io unread got room c Error.buffer_too_small c'
  refused :
      (more : Bytes) (c' : C)
      → unread c ≡ more ++ unread c'
      → length more ≤ room
      → (IsPartial (crates.parse (got ++ more)) → ⊥)
      → Misses crates io unread got room c Error.codec c'

module _ {C : Type 0} (crates : Crates) (is_crates : IsCrates crates) (io : Read C)
    (Inv : C → Type 0) (unread : C → Bytes) (law : IsRead io Inv unread) where
  -- What the caller of the loop would fail with, if it had to.
  abbrev verdict : Found → Error
  verdict f = if f.header_len == 0 then Error.buffer_too_small else Error.codec

  abbrev Sought : Bytes → ℕ → C → Outcome Error Found × C → Type 0
  Sought got room c r =
      Ends r (λ f c'. Misses crates io unread got room c (verdict f) c')
        (Misses crates io unread got room c)

  -- A round that read `bs`, and what follows it.
  later :
      (got bs : Bytes) (k room : ℕ) (c c' : C) (x : Error) (c'' : C)
      → unread c ≡ bs ++ unread c'
      → length bs + k ≡ room
      → Misses crates io unread (got ++ bs) k c' x c''
      → Misses crates io unread got room c x c''
  later got bs k room c c' x c'' u e (failed kind n d _ f) = failed kind n d c'' f
  later got bs k room c c' x c'' u e (ended _ lt z) =
      ended c'' (omega (arith, ap length u, length-append bs (unread c'))) z
  later got bs k room c c' x c'' u e (filled more _ v l p) =
      filled (bs ++ more) c'' (u ∙ ap (λ z. bs ++ z) v ∙ sym (append_assoc bs more (unread c'')))
        (omega (arith, length-append bs more))
        (subst (λ z. (z ≡ []) ⊎ IsPartial (crates.parse z)) (append_assoc got bs more) p)
  later got bs k room c c' x c'' u e (refused more _ v l p) =
      refused (bs ++ more) c'' (u ∙ ap (λ z. bs ++ z) v ∙ sym (append_assoc bs more (unread c'')))
        (omega (arith, length-append bs more))
        (subst (λ z. IsPartial (crates.parse z) → ⊥) (append_assoc got bs more) p)

  not_zero : (n : ℕ) → (suc n == 0) ≡ false
  not_zero n = ground arith

  -- The parse after a round.
  decided :
      (got : Bytes) (room : ℕ) (buffer : Bytes) (c : C) (again : C → Outcome Error Found × C)
      → (IsPartial (crates.parse got) → Sought got room c (again c))
      → Sought got room c (after_parse (crates.parse got) (length got) buffer again c)
  decided got room buffer c again g = by_parse (crates.parse got) refl
    where
      refuse :
          (p : Parse)
          → crates.parse got ≡ p
          → (IsPartial p → ⊥)
          → Misses crates io unread got room c Error.codec c
      refuse p e decision = refused [] c refl (omega arith) (
          subst (λ z. IsPartial (crates.parse z) → ⊥) (sym (append-nil got))
            (subst (λ z. IsPartial z → ⊥) (sym e) decision))

      by_parse :
          (p : Parse)
          → crates.parse got ≡ p
          → Sought got room c (after_parse p (length got) buffer again c)
      by_parse Parse.invalid e = ends_err Error.codec c refl (refuse Parse.invalid e (λ h. h))
      by_parse (Parse.partial code headers) e = g (subst IsPartial (sym e) tt)
      by_parse (Parse.complete zero code headers) e =
          let (pos, _, _, _, _) = is_crates.complete_lem got 0 code headers e in
          absurd (omega (arith, pos))
      by_parse (Parse.complete (suc n) code headers) e =
          ends_ok _ c refl
            (rw (not_zero n) (refuse (Parse.complete (suc n) code headers) e (λ h. h)))

  abbrev Asks : Bytes → Type 0
  Asks got = (got ≡ []) ⊎ IsPartial (crates.parse got)

  pub find_header-Misses :
      (fuel : ℕ) (got rest : Bytes) (c : C)
      → length rest ≤ fuel
      → Inv c
      → Asks got
      → Sought got (length rest) c (find_header crates io fuel (length got) (got ++ rest) c)
  find_header-Misses fuel got [] c le v asks =
      ends_ok _ c (find_header_full crates is_crates io Inv unread law fuel got c)
        (filled [] c refl refl (subst Asks (sym (append-nil got)) asks))
  find_header-Misses zero got (o ∷ rest) c le v asks = absurd (omega arith)
  find_header-Misses (suc fuel) got (o ∷ rest) c le v asks =
      let room : length got < length (got ++ (o ∷ rest)) =
        omega (arith, length-append got (o ∷ rest)) in
      elim (law.read_lem (length (got ++ (o ∷ rest)) - length got) c v) [
        | ends_err x c' e _ ↦
            ends_err _ c' (round_err crates io fuel (length got) (got ++ (o ∷ rest)) c c' room x e)
              (failed x (length (got ++ (o ∷ rest)) - length got) c c' e)
        | ends_ok [] c' e (_, _, u, over) ↦
            ends_err _ c' (round_end crates io fuel (length got) (got ++ (o ∷ rest)) c c' room e)
              (elim (over refl) [
                | inl z ↦ absurd (omega (arith, z, room))
                | inr z ↦ ended c' (omega (arith, ap length z)) (sym u ∙ z)
              ])
        | ends_ok (b ∷ bs) c' e (v', le', u, _) ↦
            let (old, p, l) =
              patched crates is_crates io Inv unread law got (o ∷ rest) (b ∷ bs)
                (omega (arith, length-append got (o ∷ rest), le')) in
            let here : length got + length (b ∷ bs) ≡ length (got ++ (b ∷ bs)) =
              sym (length-append got (b ∷ bs)) in
            rw (round_more crates io fuel (length got) (got ++ (o ∷ rest)) c c' room b bs e) (
              rw (p, here, take-append (got ++ (b ∷ bs)) old (length (got ++ (b ∷ bs))) refl)
                (Ends-mono
                  (λ f c'' m.
                    later got (b ∷ bs) (length old) (length (o ∷ rest)) c c' (verdict f) c'' u
                      (sym (length-append (b ∷ bs) old) ∙ l) m)
                  (λ x c'' m.
                    later got (b ∷ bs) (length old) (length (o ∷ rest)) c c' x c'' u
                      (sym (length-append (b ∷ bs) old) ∙ l) m)
                  (decided (got ++ (b ∷ bs)) (length old) ((got ++ (b ∷ bs)) ++ old) c' _ (λ asks'.
                    find_header-Misses fuel (got ++ (b ∷ bs)) old c'
                      (omega (arith, length-append (b ∷ bs) old, l)) v' (inr asks')))))
      ]

  judged :
      (t : Target) (method : Method) (room : ℕ) (c : C) (f : Found) (c' : C)
      → (b : Bool)
      → Misses crates io unread [] room c (if b then Error.buffer_too_small else Error.codec) c'
      → Causes
          (Misses crates io unread [] room c)
          ((if b then fail Error.buffer_too_small else interpret crates io t method f) c')
  judged t method room c f c' true m = causes_err _ c' m
  judged t method room c f c' false m = interpret-Causes crates io t method f c' m

  read-Causes :
      (t : Target) (method : Method) (header_buf : Bytes) (c : C)
      → Inv c
      → Causes
          (Misses crates io unread [] (length header_buf) c)
          (read crates io t method header_buf c)
  unfolding read
  read-Causes t method header_buf c v =
      elim (find_header-Misses (length header_buf) [] header_buf c (omega arith) v (inl refl)) [
        | ends_ok f c' e m ↦ rw e (judged t method (length header_buf) c f c' (f.header_len == 0) m)
        | ends_err x c' e m ↦ rw e (causes_err x c' m)
      ]

  -- If a connection and a parser keep to their interfaces, `read` ends, and it fails only so: with
  -- `Network` and the kind with which a read of the connection failed; with `ConnectionAborted` at
  -- an end of the stream that comes before the buffer is full; with `BufferTooSmall` if the buffer
  -- was filled and the parser asks for more, or is empty; or with `Codec`, once the parser has
  -- refused or completed the header of what was read.
  pub read-Misses :
      (t : Target) (method : Method) (header_buf : Bytes) (c : C)
      → Inv c
      → Ends
          (read crates io t method header_buf c)
          (λ _ _. Unit {0})
          (Misses crates io unread [] (length header_buf) c)
  read-Misses t method header_buf c v =
      Ends-Causes _
        (Ends-mono (λ _ _ _. tt) (λ _ _ u. u)
          (read_lem t crates is_crates io Inv unread law method header_buf c v))
        (read-Causes t method header_buf c v)
