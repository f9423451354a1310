-- ===== src/Response/Iterator.antt =====
-- response/mod.rs: `Response::headers` and `HeaderIterator`.
use reqwless.Base.{
  map, append_assoc, append-nil, length-append, length-replicate, ℕ, zero, suc, ◌+◌, ◌-◌, ◌≤◌, ◌≡◌,
  refl, ap, ◌∙◌, sym, arith, List, [], ◌∷◌, ◌++◌, Bytes, length, replicate, take, get_elem?, Option,
  none, some, Outcome, ok, panic, Io, ◌>>=◌, ◌>>◌, pure, lift, gets, modify, leb, le→leb,
  if◌then◌else◌,
}
use reqwless.Base.Words.{Target, IsUsize, add_usize, add_usize-eq_ok}
use reqwless.Response.Parsed.{Response}
use reqwless.Response.Read.{Crates, Parse}

-- The headers stand by name and value.
pub record HeaderIterator : Type 0 where
  pub position : ℕ
  pub headers : List (Bytes × Bytes)

-- `EMPTY_HEADER` of the crate `httparse`
abbrev pub no_header : Bytes × Bytes
no_header = ([], [])

-- The array of 64 headers, of which those parsed come first and the others stay empty.
abbrev array : List (Bytes × Bytes) → List (Bytes × Bytes)
array headers = headers ++ replicate (64 - length headers) no_header

abbrev iterator : {E : Type 0} → Parse → Outcome E HeaderIterator
iterator Parse.invalid = panic
iterator (Parse.partial _ headers) = ok (record { position = 0; headers = array headers })
iterator (Parse.complete _ _ headers) = ok (record { position = 0; headers = array headers })

-- `Response::headers`
unfoldable pub headers : {C E : Type 0} → Crates → Response C → Outcome E HeaderIterator
headers crates self =
    if leb self.header_len (length self.header_buf)
    then iterator (crates.parse (take self.header_len self.header_buf))
    else panic

-- The header at the position, if there is one, and the next position.
unfoldable pub next : {E : Type 0} → Target → Io HeaderIterator E (Option (Bytes × Bytes))
next t = do
  result ← gets (λ self. get_elem? self.headers self.position)
  position ← (λ self. lift (add_usize t self.position 1) self)
  modify (λ self. record self { position = position })
  pure result

-- What the next `n` calls return.
unfoldable pub calls :
    {E : Type 0} → Target → ℕ → Io HeaderIterator E (List (Option (Bytes × Bytes)))
calls t zero = pure []
calls t (suc n) = do header ← next t; rest ← calls t n; pure (header ∷ rest)

get_elem?-beyond : (hs : List (Bytes × Bytes)) (p : ℕ) → length hs ≤ p → get_elem? hs p ≡ none
get_elem?-beyond [] p h = refl
get_elem?-beyond (x ∷ hs) zero h = absurd (omega arith)
get_elem?-beyond (x ∷ hs) (suc p) h = get_elem?-beyond hs p (omega arith)

get_elem?-append :
    (before left : List (Bytes × Bytes)) (h : Bytes × Bytes)
    → get_elem? (before ++ (h ∷ left)) (length before) ≡ some h
get_elem?-append [] left h = refl
get_elem?-append (x ∷ before) left h = get_elem?-append before left h

-- The iterator at that position.
abbrev at : List (Bytes × Bytes) → ℕ → HeaderIterator
at headers position = record { position = position; headers = headers }

next_lem :
    {E : Type 0} (t : Target) (hs : List (Bytes × Bytes)) (p : ℕ)
    → IsUsize t (p + 1)
    → next {E = E} t (at hs p) ≡ (ok (get_elem? hs p), at hs (p + 1))
unfolding next
next_lem {E} t hs p fits = rw (add_usize-eq_ok {E = E} t p 1 fits) refl

beyond :
    {E : Type 0} (t : Target) (k p : ℕ) (hs : List (Bytes × Bytes))
    → length hs ≤ p
    → IsUsize t (p + k)
    → calls {E = E} t k (at hs p) ≡ (ok (replicate k none), at hs (p + k))
unfolding calls
beyond t zero p hs h fits = let e : p + 0 ≡ p = omega arith in rw e refl
beyond {E} t (suc k) p hs h fits =
    let e : p + 1 + k ≡ p + suc k = omega arith in
    rw
      (
        next_lem {E = E} t hs p (omega (arith, fits)),
        get_elem?-beyond hs p h,
        beyond {E = E} t k (p + 1) hs (omega arith) (omega (arith, fits)),
        e,
      )
      refl

-- From a position behind `before`: the headers that are left, and then nothing.
calls_lem :
    {E : Type 0} (t : Target) (before left : List (Bytes × Bytes)) (k : ℕ)
    → IsUsize t (length before + (length left + k))
    → calls {E = E} t (length left + k) (at (before ++ left) (length before)) ≡ (
      ok (map (λ h. some h) left ++ replicate k none),
      at (before ++ left) (length before + (length left + k)),
    )
unfolding calls
calls_lem {E} t before [] k fits =
    let e : 0 + k ≡ k = omega arith in
    rw (e, append-nil before)
      (beyond {E = E} t k (length before) before (omega arith) (omega (arith, fits)))
calls_lem {E} t before (h ∷ left) k fits =
    let e : suc (length left) + k ≡ suc (length left + k) = omega arith in
    let l : length before + 1 ≡ length (before ++ (h ∷ [])) = sym (length-append before (h ∷ [])) in
    let m : length (before ++ (h ∷ [])) + (length left + k)
        ≡ length before + suc (length left + k) =
      omega (arith, l) in
    rw
      (
        e,
        next_lem {E = E} t (before ++ (h ∷ left)) (length before) (omega (arith, fits)),
        get_elem?-append before left h,
        l,
        sym (append_assoc before (h ∷ []) left),
        calls_lem {E = E} t (before ++ (h ∷ [])) left k (omega (arith, fits, m)),
        m,
      )
      refl

-- If the header at the front of the buffer, which lies in it, has at most 64 header fields, `headers`
-- does not panic, and as long as the number of calls is a `usize`, neither does `next`. The first 64
-- calls return the fields in order, and then an empty name with an empty value for every field that is
-- missing to 64; all further calls return nothing.
pub headers-calls :
    {C E : Type 0} (t : Target) (crates : Crates) (self : Response C) (n : ℕ) (code : Option ℕ)
    (hs : List (Bytes × Bytes)) (k : ℕ)
    → self.header_len ≤ length self.header_buf
    → crates.parse (take self.header_len self.header_buf) ≡ Parse.complete n code hs
    → length hs ≤ 64
    → IsUsize t (64 + k)
    → (it it' : HeaderIterator) × (headers {E = E} crates self ≡ ok it)
      × (calls {E = E} t (64 + k) it ≡ (
        ok (map (λ h. some h) (hs ++ replicate (64 - length hs) no_header) ++ replicate k none),
        it',
      ))
unfolding headers
headers-calls {C} {E} t crates self n code hs k within e few fits =
    let l : 64 ≡ length (array hs) = omega (
      arith,
      length-append hs (replicate (64 - length hs) no_header),
      length-replicate (64 - length hs) no_header,
    ) in
    (
      at (array hs) 0,
      at (array hs) (0 + (length (array hs) + k)),
      rw (le→leb self.header_len (length self.header_buf) within, e) refl,
      ap (λ m. calls {E = E} t (m + k) (at (array hs) 0)) l
          ∙ calls_lem {E = E} t [] (array hs) k (omega (arith, fits, l)),
    )
