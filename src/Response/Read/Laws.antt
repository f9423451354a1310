-- ===== src/Response/Read/Laws.antt =====
-- response/mod.rs: what `Response::read` returns.
use reqwless.Base.{
  ◌+◌, ◌≤◌, ◌==◌, ◌≡◌, refl, sym, ap, ◌∙◌, arith, inl, inr, Bool, true, false, [], ◌++◌, Bytes,
  length, take, drop, take-add, take-append, append_assoc, some, if◌then◌else◌,
}
use reqwless.Base.{ok, fail, subst, Ends, ends_err, Ends-and_then, Ends-mono}
use reqwless.Base.Words.{Target}
use reqwless.Errors.{Error}
use reqwless.Connection.{Read, IsRead}
use reqwless.Request.{Method}
use reqwless.Response.Body.{ResponseBody}
use reqwless.Response.Parsed.{Response, body, IsHint, body_lem, reader_hint}
use reqwless.Response.Read.{Crates, Found, interpret, read, has_no_body}
use reqwless.Response.Read.Search.{IsCrates, IsHeader, Searched, find_header_lem}
use reqwless.Response.Read.Interpret.{Says, Settles-no_body, has_no_body-IsBodiless, interpret_lem}

module _ {C : Type 0} (t : Target) (crates : Crates) (is_crates : IsCrates crates) (io : Read C)
    (Inv : C → Type 0) (unread : C → Bytes) (law : IsRead io Inv unread) where
  -- A response that was read into `header_buf`: its buffer starts with the bytes taken from `c`.
  abbrev pub Replied : Method → Bytes → C → Response C → C → Type 0
  Replied method header_buf c r c' =
      Inv c'
      × (r.conn ≡ c')
      × (r.method ≡ method)
      × (length r.header_buf ≡ length header_buf)
      × (unread c ≡ take (r.header_len + r.raw_body_read) r.header_buf ++ unread c')
      × Says t crates r

  found_lem :
      (method : Method) (header_buf : Bytes) (c : C) (f : Found) (c' : C)
      → Searched crates Inv unread [] header_buf c f c'
      → IsHeader crates f
      → Ends (interpret crates io t method f c') (Replied method header_buf c) (λ _ _. Unit {0})
  found_lem method header_buf c f c' s h =
      Ends-mono
        (λ r c'' (same, conn, m, buffer, total, says). (
          subst Inv (sym same) s.inv,
          conn,
          m,
          ap length buffer ∙ s.length_eq,
          s.unread_eq
              ∙ rw (same, buffer, total, s.buffer_eq)
                  (ap (λ z. z ++ unread c') (sym (take-append s.more s.old f.pos s.pos_eq))),
          says,
        ))
        (λ _ _ _. tt) (interpret_lem t crates io method is_crates.push_lem f c' h)

  searched_lem :
      (method : Method) (header_buf : Bytes) (c : C) (f : Found) (c' : C)
      → Searched crates Inv unread [] header_buf c f c'
      → (b : Bool) → (f.header_len == 0) ≡ b
      → Ends
          ((if b then fail Error.buffer_too_small else interpret crates io t method f) c')
          (Replied method header_buf c)
          (λ _ _. Unit {0})
  searched_lem method header_buf c f c' s true e = ends_err _ c' refl tt
  searched_lem method header_buf c f c' s false e = elim s.result [
    | inl (z, _) ↦ absurd (ground (arith, z, e))
    | inr h ↦ found_lem method header_buf c f c' s h
  ]

  -- On a connection, and with a parser, that keep to their interfaces, `read` does not panic. A
  -- response that it returns is what the header at the front of its buffer says: its status; of all
  -- headers, by their names in any case, the last content type, the last length, every transfer
  -- encoding in order and the last keep-alive; the length settled by the status, and no more bytes
  -- read behind the header than that. Its buffer is as long as the one given, and starts with exactly
  -- the bytes that were taken from the connection.
  pub read_lem :
      (method : Method) (header_buf : Bytes) (c : C)
      → Inv c
      → Ends (read crates io t method header_buf c) (Replied method header_buf c) (λ _ _. Unit {0})
  unfolding read
  read_lem method header_buf c v =
      Ends-and_then _
        (find_header_lem crates is_crates io Inv unread law (length header_buf) [] header_buf c
          (omega arith) v)
        (λ f c' s. searched_lem method header_buf c f c' s (f.header_len == 0) refl) (λ _ _ _. tt)

-- With a status that has no body, the length is 0 and nothing was read behind the header.
Says-no_body :
    {C : Type 0} (t : Target) (crates : Crates) (r : Response C)
    → Says t crates r
    → has_no_body r.status ≡ true
    → (r.content_length ≡ some 0) × (r.raw_body_read ≡ 0)
Says-no_body t crates r says h =
    let zero =
      Settles-no_body says.code says.fields.content_length r.content_length says.settles
        (has_no_body-IsBodiless says.code (ap has_no_body (sym says.status_eq) ∙ h)) in
    (zero, omega (arith, says.length_ok 0 zero))

module _ {C : Type 0} (t : Target) (crates : Crates) (is_crates : IsCrates crates) (io : Read C)
    (Inv : C → Type 0) (unread : C → Bytes) (law : IsRead io Inv unread) where
  -- If a connection and a parser keep to their interfaces, a response that `read` returns with an
  -- informational status or 204 has the length 0, and nothing was read behind its header.
  pub read-no_body :
      (method : Method) (header_buf : Bytes) (c : C)
      → Inv c
      → Ends
          (read crates io t method header_buf c)
          (λ r _. has_no_body r.status ≡ true → (r.content_length ≡ some 0) × (r.raw_body_read ≡ 0))
          (λ _ _. Unit {0})
  read-no_body method header_buf c v =
      Ends-mono (λ r c' (_, _, _, _, _, says) h. Says-no_body t crates r says h) (λ _ _ _. tt)
        (read_lem t crates is_crates io Inv unread law method header_buf c v)

  -- `body` after `read`, if the connection and the parser keep to their interfaces: it does not
  -- panic, chooses the reader that the method, the length and the encodings call for, and what was
  -- taken from the connection is the header, then the bytes at the front of the body's buffer; the
  -- connection holds what follows them.
  pub read-body :
      {E : Type 0} (method : Method) (header_buf : Bytes) (c : C)
      → Inv c
      → Ends
          (read crates io t method header_buf c)
          (λ r c'.
            (b : ResponseBody C) × (body {E = E} r ≡ ok b)
            × Inv b.conn
            × (b.reader_hint ≡ reader_hint r)
            × IsHint r b.reader_hint
            × (b.raw_body_read ≤ length b.body_buf)
            × (unread c
                ≡ take r.header_len r.header_buf
                  ++ (take b.raw_body_read b.body_buf ++ unread b.conn)))
          (λ _ _. Unit {0})
  read-body {E} method header_buf c v =
      Ends-mono (λ r c' h. with_body r c' h) (λ _ _ _. tt)
        (read_lem t crates is_crates io Inv unread law method header_buf c v)
    where
      with_body :
          (r : Response C) (c' : C)
          → Replied t crates is_crates io Inv unread law method header_buf c r c'
          → (b : ResponseBody C) × (body {E = E} r ≡ ok b)
            × Inv b.conn
            × (b.reader_hint ≡ reader_hint r)
            × IsHint r b.reader_hint
            × (b.raw_body_read ≤ length b.body_buf)
            × (unread c
                ≡ take r.header_len r.header_buf
                  ++ (take b.raw_body_read b.body_buf ++ unread b.conn))
      with_body r c' (inv, conn, _, _, all, says) =
          let (b, e, bc, bh, is_hint, bn, bl, bb) = body_lem {E = E} r says.fits in
          (
            b,
            e,
            subst Inv (sym conn ∙ sym bc) inv,
            bh,
            is_hint,
            omega (arith, bn, bl, says.fits),
            all
                ∙ ap (λ z. z ++ unread c') (take-add r.header_len r.raw_body_read r.header_buf)
                ∙ append_assoc (take r.header_len r.header_buf)
                    (take r.raw_body_read (drop r.header_len r.header_buf)) (unread c')
                ∙ ap (λ z. take r.header_len r.header_buf ++ z)
                    (ap (λ k. take k (drop r.header_len r.header_buf) ++ unread c') (omega arith)
                      ∙ ap (λ z. z ++ unread c') (sym bb)
                      ∙ ap (λ z. take b.raw_body_read b.body_buf ++ unread z) (sym conn ∙ sym bc)),
          )
