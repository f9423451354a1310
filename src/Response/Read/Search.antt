-- ===== src/Response/Read/Search.antt =====
-- response/mod.rs: the loop of `Response::read` that looks for the end of the header.
use reqwless.Base.{
  ℕ, zero, suc, ◌+◌, ◌-◌, ◌≤◌, ◌<◌, ◌≡◌, refl, sym, ap, ◌∙◌, arith, ◌⊎◌, inl, inr, List, [], ◌∷◌,
  ◌++◌, append_assoc, append-nil, Bytes, length, length-append, take, take-append_le, take-append,
  patch, patch-append, split_at, lt→ltb, ge→ltb, Option, some,
}
use reqwless.Base.{Outcome, ok, err, Ends, ends_ok, ends_err, Ends-mono}
use reqwless.Errors.{Error, ErrorKind}
use reqwless.Connection.{Read, IsRead}
use reqwless.Response.Fields.Described.{IsPush}
use reqwless.Response.Read.{Crates, Parse, Found, found, find_header, after_parse}

-- What `httparse` documents: a complete header lies at the front of the bytes and is complete by
-- itself, with the same status code and headers, of which there are 64 at most. `push` of `heapless`
-- appends.
pub record IsCrates (crates : Crates) : Type 0 where
  pub complete_lem :
      (bs : Bytes) (n : ℕ) (code : Option ℕ) (headers : List (Bytes × Bytes))
      → crates.parse bs ≡ Parse.complete n code headers
      → (0 < n)
        × (n ≤ length bs)
        × (crates.parse (take n bs) ≡ Parse.complete n code headers)
        × ((k : ℕ) × (code ≡ some k))
        × (length headers ≤ 64)
  pub push_lem : IsPush crates.push

-- The header is parsed from the front of what was read.
pub data IsHeader (crates : Crates) (f : Found) : Type 0 where
  header :
      (code : ℕ) (headers : List (Bytes × Bytes))
      → 0 < f.header_len
      → f.header_len ≤ f.pos
      → f.pos ≤ length f.buffer
      → length headers ≤ 64
      → crates.parse (take f.header_len f.buffer) ≡ Parse.complete f.header_len (some code) headers
      → IsHeader crates f

module _ {C : Type 0} (crates : Crates) (io : Read C) (fuel pos : ℕ) (buffer : Bytes) (c c' : C)
    (room : pos < length buffer) where
  pub round_err :
      (x : ErrorKind)
      → io.read (length buffer - pos) c ≡ (err x, c')
      → find_header crates io (suc fuel) pos buffer c ≡ (err (Error.network x), c')
  unfolding find_header
  round_err x e = rw (lt→ltb pos (length buffer) room, e) refl

  pub round_end :
      io.read (length buffer - pos) c ≡ (ok [], c')
      → find_header crates io (suc fuel) pos buffer c ≡ (err Error.connection_aborted, c')
  unfolding find_header
  round_end e = rw (lt→ltb pos (length buffer) room, e) refl

  pub round_more :
      (b : ℕ) (bs : Bytes)
      → io.read (length buffer - pos) c ≡ (ok (b ∷ bs), c')
      → find_header crates io (suc fuel) pos buffer c
        ≡ after_parse
            (crates.parse (take (pos + length (b ∷ bs)) (patch buffer pos (b ∷ bs))))
            (pos + length (b ∷ bs))
            (patch buffer pos (b ∷ bs))
            (find_header crates io fuel (pos + length (b ∷ bs)) (patch buffer pos (b ∷ bs)))
            c'
  unfolding find_header
  round_more b bs e = rw (lt→ltb pos (length buffer) room, e) refl

-- What the loop leaves, started with `got` at the front of its buffer: the bytes it read stand
-- behind.
pub record Searched {C : Type 0} (crates : Crates) (Inv : C → Type 0) (unread : C → Bytes)
    (got rest : Bytes) (c : C) (f : Found) (c' : C) : Type 0 where
  pub inv : Inv c'
  pub more : Bytes
  pub old : Bytes
  pub buffer_eq : f.buffer ≡ (got ++ more) ++ old
  pub length_eq : length f.buffer ≡ length (got ++ rest)
  pub pos_eq : f.pos ≡ length (got ++ more)
  pub unread_eq : unread c ≡ more ++ unread c'
  pub result : ((f.header_len ≡ 0) × (old ≡ [])) ⊎ IsHeader crates f

module _ {C : Type 0} (crates : Crates) (is_crates : IsCrates crates) (io : Read C)
    (Inv : C → Type 0) (unread : C → Bytes) (law : IsRead io Inv unread) where
  abbrev Goal : Bytes → Bytes → C → Outcome Error Found × C → Type 0
  Goal got rest c r = Ends r (λ f c'. Searched crates Inv unread got rest c f c') (λ _ _. Unit {0})

  -- A round that read `bs` over `old`, and what follows it.
  prefix_round :
      (got bs old rest : Bytes) (c c' : C) (r : Outcome Error Found × C)
      → length (bs ++ rest) ≡ length old
      → unread c ≡ bs ++ unread c'
      → Goal (got ++ bs) rest c' r
      → Goal got old c r
  prefix_round got bs old rest c c' r l u g =
      Ends-mono
        (λ f c'' (h : Searched crates Inv unread (got ++ bs) rest c' f c''). record {
          inv = h.inv;
          more = bs ++ h.more;
          old = h.old;
          buffer_eq = h.buffer_eq ∙ ap (λ z. z ++ h.old) (append_assoc got bs h.more);
          length_eq =
              h.length_eq
              ∙ omega (
                arith,
                l,
                length-append (got ++ bs) rest,
                length-append got bs,
                length-append got old,
                length-append bs rest,
              );
          pos_eq = h.pos_eq ∙ ap length (append_assoc got bs h.more);
          unread_eq = u ∙ ap (λ z. bs ++ z) h.unread_eq ∙ sym (append_assoc bs h.more (unread c''));
          result = h.result;
        })
        (λ _ _ _. tt) g

  stays :
      (got rest : Bytes) (header_len : ℕ) (c : C)
      → Inv c
      → ((header_len ≡ 0) × (rest ≡ []))
        ⊎ IsHeader crates (found header_len (length got) (got ++ rest))
      → Searched crates Inv unread got rest c (found header_len (length got) (got ++ rest)) c
  stays got rest header_len c v h = record {
    inv = v;
    more = [];
    old = rest;
    buffer_eq = ap (λ z. z ++ rest) (sym (append-nil got));
    length_eq = refl;
    pos_eq = ap length (sym (append-nil got));
    unread_eq = refl;
    result = h;
  }

  -- The parse after a round; `again` is the rest of the loop.
  parse_round :
      (got rest : Bytes) (c : C) (again : C → Outcome Error Found × C)
      → Inv c
      → Goal got rest c (again c)
      → Goal got rest c (after_parse (crates.parse got) (length got) (got ++ rest) again c)
  parse_round got rest c again v g = by_parse (crates.parse got) refl
    where
      is_header :
          (n : ℕ) (code : Option ℕ) (headers : List (Bytes × Bytes))
          → crates.parse got ≡ Parse.complete n code headers
          → IsHeader crates (found n (length got) (got ++ rest))
      is_header n code headers e =
          let (pos, le, again_eq, (k, has_code), few) =
            is_crates.complete_lem got n code headers e in
          header k headers pos le (omega (arith, length-append got rest)) few (
            ap crates.parse (take-append_le got rest n le)
            ∙ again_eq
            ∙ ap (λ o. Parse.complete n o headers) has_code)

      by_parse :
          (p : Parse)
          → crates.parse got ≡ p
          → Goal got rest c (after_parse p (length got) (got ++ rest) again c)
      by_parse Parse.invalid e = ends_err Error.codec c refl tt
      by_parse (Parse.partial code headers) e = g
      by_parse (Parse.complete n code headers) e =
          ends_ok _ c refl (stays got rest n c v (inr (is_header n code headers e)))

  -- `find_header_lem` below, for less fuel.
  abbrev Searches : ℕ → Type 0
  Searches fuel =
      (got rest : Bytes) (c : C)
      → length rest ≤ fuel
      → Inv c
      → Goal got rest c (find_header crates io fuel (length got) (got ++ rest) c)

  -- What was read lies behind `got`, over as many bytes of the room.
  pub patched :
      (got room bs : Bytes)
      → length bs ≤ length room
      → (rest : Bytes) × (patch (got ++ room) (length got) bs ≡ (got ++ bs) ++ rest)
        × (length (bs ++ rest) ≡ length room)
  patched got room bs le =
      let (old, rest, e, l) = split_at (length bs) room le in
      (
        rest,
        ap (λ z. patch (got ++ z) (length got) bs) e
            ∙ patch-append got old rest bs (length got) refl l
            ∙ sym (append_assoc got bs rest),
        omega (arith, ap length e, length-append old rest, length-append bs rest, l),
      )

  more_round :
      (fuel : ℕ) (got room : Bytes) (b : ℕ) (bs : Bytes) (c c' : C)
      → Searches fuel
      → length room ≤ suc fuel
      → Inv c'
      → length (b ∷ bs) ≤ length room
      → unread c ≡ (b ∷ bs) ++ unread c'
      → io.read (length (got ++ room) - length got) c ≡ (ok (b ∷ bs), c')
      → Goal got room c (find_header crates io (suc fuel) (length got) (got ++ room) c)
  more_round fuel got room b bs c c' ih fit v le u e =
      let (rest, p, l) = patched got room (b ∷ bs) le in
      let here : length got + length (b ∷ bs) ≡ length (got ++ (b ∷ bs)) =
        sym (length-append got (b ∷ bs)) in
      rw
        (round_more crates io fuel (length got) (got ++ room) c c'
          (omega (arith, length-append got room)) b bs e)
        (rw (p, here, take-append (got ++ (b ∷ bs)) rest (length (got ++ (b ∷ bs))) refl)
          (prefix_round got (b ∷ bs) room rest c c' _ l u (
            parse_round (got ++ (b ∷ bs)) rest c'
              (find_header crates io fuel (length (got ++ (b ∷ bs))) ((got ++ (b ∷ bs)) ++ rest)) v
              (ih (got ++ (b ∷ bs)) rest c' (omega (arith, length-append (b ∷ bs) rest)) v))))

  pub find_header_full :
      (fuel : ℕ) (got : Bytes) (c : C)
      → find_header crates io fuel (length got) (got ++ []) c
        ≡ (ok (found 0 (length got) (got ++ [])), c)
  unfolding find_header
  find_header_full zero got c = refl
  find_header_full (suc fuel) got c =
      rw (ge→ltb (length got) (length (got ++ [])) (omega (arith, length-append got []))) refl

  -- The loop with fuel for the room that is left: it does not panic.
  pub find_header_lem : (fuel : ℕ) → Searches fuel
  find_header_lem fuel got [] c le v =
      ends_ok _ c (find_header_full fuel got c) (stays got [] 0 c v (inl (refl, refl)))
  find_header_lem zero got (o ∷ rest) c le v = absurd (omega arith)
  find_header_lem (suc fuel) got (o ∷ rest) c le v =
      let room : length got < length (got ++ (o ∷ rest)) =
        omega (arith, length-append got (o ∷ rest)) in
      elim (law.read_lem (length (got ++ (o ∷ rest)) - length got) c v) [
        | ends_err x c' e _ ↦
            ends_err _ c' (round_err crates io fuel (length got) (got ++ (o ∷ rest)) c c' room x e)
              tt
        | ends_ok [] c' e _ ↦
            ends_err _ c' (round_end crates io fuel (length got) (got ++ (o ∷ rest)) c c' room e) tt
        | ends_ok (b ∷ bs) c' e (v', le', u, _) ↦
            more_round fuel got (o ∷ rest) b bs c c' (find_header_lem fuel) le v'
              (omega (arith, length-append got (o ∷ rest), le')) u e
      ]
