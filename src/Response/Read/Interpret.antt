-- ===== src/Response/Read/Interpret.antt =====
-- response/mod.rs: what `Response::read` makes of the header it found.
use reqwless.Base.{
  ℕ, ◌+◌, ◌-◌, ◌/◌, ◌≤◌, ◌==◌, ==_iff, ◌≡◌, ◌⊎◌, inl, inr, true, false, Bool-cases, subst, sym, ap,
  ◌∙◌, if◌then◌else◌, refl, arith, List, Bytes, length, take, le→leb, ltb, Option, none, some, not,
  unwrap_or,
}
use reqwless.Base.{ok, err, Answers, answers_ok, answers_err, Ends, ends_ok, Ends-lift}
use reqwless.Base.Words.{Target, sub_usize-eq_ok}
use reqwless.Errors.{Error}
use reqwless.Connection.{Read}
use reqwless.Request.{Method}
use reqwless.Response.Status.{StatusCode, from_u16, is_informational, eq_status}
use reqwless.Response.Parsed.{Response}
use reqwless.Response.Fields.{Fields, no_fields, read_fields}
use reqwless.Response.Fields.Laws.{if-Answers, read_fields-Answers}
use reqwless.Response.Fields.Described.{Describes, IsPush}
use reqwless.Response.Fields.Reading.{read_fields-Describes}
use reqwless.Response.Read.{
  Crates, Parse, Found, header_of, settle_length, check_length, interpret, has_no_body,
}
use reqwless.Response.Read.Search.{IsHeader, header}

settle_length-Answers : (status : StatusCode) (o : Option ℕ) → Answers (settle_length status o)
unfolding settle_length
settle_length-Answers status o =
    if-Answers (has_no_body status) _ _
      (if-Answers (not (unwrap_or o 0 == 0)) _ _ (answers_err _ refl) (answers_ok _ refl))
      (answers_ok _ refl)

check_length-Answers : (o : Option ℕ) (n : ℕ) → Answers (check_length o n)
unfolding check_length
check_length-Answers none n = answers_ok _ refl
check_length-Answers (some k) n = if-Answers (ltb k n) _ _ (answers_err _ refl) (answers_ok _ refl)

-- An informational status, or 204.
abbrev pub IsBodiless : ℕ → Type 0
IsBodiless code = (code / 100 ≡ 1) ⊎ (code ≡ 204)

pub has_no_body-IsBodiless : (code : ℕ) → has_no_body (from_u16 code) ≡ true → IsBodiless code
unfolding is_informational eq_status
has_no_body-IsBodiless code e = elim (Bool-cases (code == 204)) [
  | inl is ↦ inr ((==_iff code 204).0 is)
  | inr other ↦ inl (ground (arith, e, other))
]

IsBodiless-no_body : (code : ℕ) → IsBodiless code → has_no_body (from_u16 code) ≡ true
unfolding is_informational eq_status
IsBodiless-no_body code (inl e) = ground (arith, e)
IsBodiless-no_body code (inr e) = rw e

-- The length of the body, from the status code and the length that the header gives: without a body,
-- the header gives none or 0.
pub data Settles (code : ℕ) : Option ℕ → Option ℕ → Type 0 where
  given : (o : Option ℕ) → (IsBodiless code → ⊥) → Settles code o o
  no_body : (o : Option ℕ) → IsBodiless code → (o ≡ none) ⊎ (o ≡ some 0) → Settles code o (some 0)

pub Settles-no_body :
    (code : ℕ) (o o' : Option ℕ) → Settles code o o' → IsBodiless code → o' ≡ some 0
Settles-no_body code o o' (given _ has) b = absurd (has b)
Settles-no_body code o o' (no_body _ _ _) b = refl

none_or_zero : (o : Option ℕ) → (unwrap_or o 0 == 0) ≡ true → (o ≡ none) ⊎ (o ≡ some 0)
none_or_zero none e = inl refl
none_or_zero (some n) e = inr (ap (λ k. some k) ((==_iff n 0).0 e))

settle_length-Settles :
    (code : ℕ) (o o' : Option ℕ) → settle_length (from_u16 code) o ≡ ok o' → Settles code o o'
unfolding settle_length
settle_length-Settles code o o' = elim (Bool-cases (has_no_body (from_u16 code))) [
  | inr has ↦ rw has (λ e.
      let same : o ≡ o' = cc in
      subst (λ z. Settles code o z) same
        (given o (λ b. let h : true ≡ false = sym (IsBodiless-no_body code b) ∙ has in cc)))
  | inl bodiless ↦ rw bodiless (λ e. by_zero e (has_no_body-IsBodiless code bodiless))
]
  where
    by_zero :
        (if not (unwrap_or o 0 == 0) then err Error.codec else ok (some 0)) ≡ ok o'
        → IsBodiless code
        → Settles code o o'
    by_zero = elim (Bool-cases (unwrap_or o 0 == 0)) [
      | inr more ↦ rw more (λ e b. absurd (cc))
      | inl zero ↦ rw zero (λ e b.
          let same : some 0 ≡ o' = cc in
          subst (λ z. Settles code o z) same (no_body o b (none_or_zero o zero)))
    ]

-- The response is what the header at the front of its buffer says: the status, the fields that all
-- headers describe, and the length settled by the status. The buffer holds the header and the bytes
-- read behind it, of which there are no more than the length.
pub record Says {C : Type 0} (t : Target) (crates : Crates) (r : Response C) : Type 0 where
  pub code : ℕ
  pub headers : List (Bytes × Bytes)
  pub fields : Fields
  pub parse_eq :
      crates.parse (take r.header_len r.header_buf)
      ≡ Parse.complete r.header_len (some code) headers
  pub few : length headers ≤ 64
  pub status_eq : r.status ≡ from_u16 code
  pub described : Describes t headers no_fields fields
  pub type_eq : r.content_type ≡ fields.content_type
  pub settles : Settles code fields.content_length r.content_length
  pub encoding_eq : r.transfer_encoding ≡ fields.transfer_encoding
  pub keep_alive_eq : r.keep_alive ≡ fields.keep_alive
  pub fits : r.header_len + r.raw_body_read ≤ length r.header_buf
  pub length_ok : (n : ℕ) → r.content_length ≡ some n → r.raw_body_read ≤ n

check_length-le : (o : Option ℕ) (k n : ℕ) → check_length o k ≡ ok tt → o ≡ some n → k ≤ n
unfolding check_length
check_length-le none k n e at = cc
check_length-le (some m) k n e at = let same : m ≡ n = cc in ground (arith, e, same)

module _ {C : Type 0} (t : Target) (crates : Crates) (io : Read C) (method : Method) where
  -- What is left for `read_lem` once the header is found.
  abbrev pub Interpreted : Found → C → Response C → C → Type 0
  Interpreted f c r c' =
      (c' ≡ c)
      × (r.conn ≡ c')
      × (r.method ≡ method)
      × (r.header_buf ≡ f.buffer)
      × (r.header_len + r.raw_body_read ≡ f.pos)
      × Says t crates r

  header_of_run :
      (f : Found) (code : ℕ) (headers : List (Bytes × Bytes))
      → f.header_len ≤ length f.buffer
      → crates.parse (take f.header_len f.buffer) ≡ Parse.complete f.header_len (some code) headers
      → header_of crates io f ≡ ok (some code, headers)
  header_of_run f code headers le e = rw (le→leb f.header_len (length f.buffer) le, e) refl

  pub interpret_lem :
      IsPush crates.push
      → (f : Found) (c : C) → IsHeader crates f
      → Ends (interpret crates io t method f c) (λ r c'. Interpreted f c r c') (λ _ _. Unit {0})
  unfolding interpret
  interpret_lem is_push f c (header code headers pos le fits few e) =
      rw (header_of_run f code headers (omega arith) e) (
        Ends-lift (read_fields t crates.push headers no_fields) _ c
          (read_fields-Answers t crates.push headers no_fields)
          (λ fields e1.
            Ends-lift (settle_length (from_u16 code) fields.content_length) _ c
              (settle_length-Answers (from_u16 code) fields.content_length)
              (λ content_length e2. rw (sub_usize-eq_ok {E = Error} t f.pos f.header_len le) (
                Ends-lift (check_length content_length (f.pos - f.header_len)) _ c
                  (check_length-Answers content_length (f.pos - f.header_len))
                  (λ _ e3. ends_ok _ c refl (
                    refl,
                    refl,
                    refl,
                    refl,
                    omega arith,
                    record {
                      code = code;
                      headers = headers;
                      fields = fields;
                      parse_eq = e;
                      few = few;
                      status_eq = refl;
                      described =
                          read_fields-Describes t crates.push is_push headers no_fields fields e1;
                      type_eq = refl;
                      settles = settle_length-Settles code fields.content_length content_length e2;
                      encoding_eq = refl;
                      keep_alive_eq = refl;
                      fits = omega arith;
                      length_ok =
                          λ n at. check_length-le content_length (f.pos - f.header_len) n e3 at;
                    },
                  ))
                  (λ _. tt)))
              (λ _. tt))
          (λ _. tt))
