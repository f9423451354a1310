-- ===== src/Response/Parsed.antt =====
-- response/mod.rs: `Response` and its body.
use reqwless.Base.{
  ℕ, ◌+◌, ◌≤◌, ◌≡◌, ◌≢◌, ◌⊎◌, inl, inr, All, refl, sym, ap, ◌∙◌, arith, List, [], ◌∷◌, ◌++◌, Bool,
  true, false, Bytes, length, length-append, take, drop, take-append, length-drop, split_at, slice,
  slice-append, if◌then◌else◌, Option, none, some,
}
use reqwless.Base.{Outcome, ok, panic, copy_within, copy_within-append}
use reqwless.Headers.{ContentType, TransferEncoding}
use reqwless.Headers.KeepAlive.{KeepAlive}
use reqwless.Request.{Method}
use reqwless.Response.Status.{StatusCode}
use reqwless.Response.Body.{ReaderHint, ResponseBody}

pub record Response (C : Type 0) : Type 0 where
  pub conn : C
  pub method : Method
  pub status : StatusCode
  pub content_type : Option ContentType
  pub content_length : Option ℕ
  pub transfer_encoding : List TransferEncoding
  pub keep_alive : Option KeepAlive
  pub header_buf : Bytes
  pub header_len : ℕ
  pub raw_body_read : ℕ

-- `self.method == Method::HEAD`
abbrev is_head : Method → Bool
is_head Method.head = true
is_head method = false

-- `contains(&TransferEncoding::Chunked)`
abbrev contains_chunked : List TransferEncoding → Bool
contains_chunked [] = false
contains_chunked (TransferEncoding.chunked ∷ rest) = true
contains_chunked (_ ∷ rest) = contains_chunked rest

abbrev length_hint : Option ℕ → List TransferEncoding → ReaderHint
length_hint (some content_length) encodings = ReaderHint.fixed_length content_length
length_hint none encodings =
    if contains_chunked encodings then ReaderHint.chunked else ReaderHint.to_end

module _ {C : Type 0} where
  unfoldable pub reader_hint : Response C → ReaderHint
  reader_hint self =
      if is_head self.method
      then ReaderHint.empty
      else length_hint self.content_length self.transfer_encoding

  abbrev with_buffer :
      {E : Type 0} → Response C → Outcome E (Unit {0}) × Bytes → Outcome E (ResponseBody C)
  with_buffer self (ok _, buffer) = ok (record {
    conn = self.conn;
    reader_hint = reader_hint self;
    raw_body_read = self.raw_body_read;
    body_buf = buffer;
  })
  with_buffer self (_, buffer) = panic

  -- The bytes of the body that came with the header move to the front of the buffer.
  unfoldable pub body : {E : Type 0} → Response C → Outcome E (ResponseBody C)
  body self =
      with_buffer self
        (copy_within self.header_len (self.header_len + self.raw_body_read) 0 self.header_buf)

-- Which reader a response calls for: none after HEAD, else one for the length that it gives, else
-- that of a chunked body if `chunked` is among its transfer encodings, else one to the end.
pub data IsHint {C : Type 0} (self : Response C) : ReaderHint → Type 0 where
  to_head : self.method ≡ Method.head → IsHint self ReaderHint.empty
  by_length :
      (n : ℕ)
      → self.method ≢ Method.head
      → self.content_length ≡ some n
      → IsHint self (ReaderHint.fixed_length n)
  by_chunks :
      (before after : List TransferEncoding)
      → self.method ≢ Method.head
      → self.content_length ≡ none
      → self.transfer_encoding ≡ before ++ (TransferEncoding.chunked ∷ after)
      → IsHint self ReaderHint.chunked
  until_end :
      self.method ≢ Method.head
      → self.content_length ≡ none
      → All (λ e. e ≢ TransferEncoding.chunked) self.transfer_encoding
      → IsHint self ReaderHint.to_end

is_head_iff :
    (m : Method)
    → ((is_head m ≡ true) × (m ≡ Method.head)) ⊎ ((is_head m ≡ false) × (m ≢ Method.head))
is_head_iff Method.head = inl (refl, refl)
is_head_iff Method.get = inr (refl, (λ e. cc))
is_head_iff Method.post = inr (refl, (λ e. cc))
is_head_iff Method.put = inr (refl, (λ e. cc))
is_head_iff Method.delete = inr (refl, (λ e. cc))

-- Behind an encoding that is another.
later :
    (e : TransferEncoding) (es : List TransferEncoding)
    → e ≢ TransferEncoding.chunked
    → contains_chunked (e ∷ es) ≡ contains_chunked es
    → ((contains_chunked es ≡ true)
        × ((before after : List TransferEncoding) × (es
              ≡ before ++ (TransferEncoding.chunked ∷ after))))
      ⊎ ((contains_chunked es ≡ false) × All (λ e. e ≢ TransferEncoding.chunked) es)
    → ((contains_chunked (e ∷ es) ≡ true)
        × ((before after : List TransferEncoding) × (e ∷ es
              ≡ before ++ (TransferEncoding.chunked ∷ after))))
      ⊎ ((contains_chunked (e ∷ es) ≡ false) × All (λ e. e ≢ TransferEncoding.chunked) (e ∷ es))
later e es ne same (inl (c, (before, after, at))) =
    inl (same ∙ c, (e ∷ before, after, ap (λ z. e ∷ z) at))
later e es ne same (inr (c, none_of)) = inr (same ∙ c, (ne, none_of))

contains_chunked_iff :
    (es : List TransferEncoding)
    → ((contains_chunked es ≡ true)
        × ((before after : List TransferEncoding) × (es
              ≡ before ++ (TransferEncoding.chunked ∷ after))))
      ⊎ ((contains_chunked es ≡ false) × All (λ e. e ≢ TransferEncoding.chunked) es)
contains_chunked_iff [] = inr (refl, tt)
contains_chunked_iff (TransferEncoding.chunked ∷ es) = inl (refl, ([], es, refl))
contains_chunked_iff (TransferEncoding.compress ∷ es) =
    later TransferEncoding.compress es (λ e. cc) refl (contains_chunked_iff es)
contains_chunked_iff (TransferEncoding.deflate ∷ es) =
    later TransferEncoding.deflate es (λ e. cc) refl (contains_chunked_iff es)
contains_chunked_iff (TransferEncoding.gzip ∷ es) =
    later TransferEncoding.gzip es (λ e. cc) refl (contains_chunked_iff es)

length_hint-IsHint :
    {C : Type 0} (self : Response C) (o : Option ℕ)
    → self.method ≢ Method.head
    → self.content_length ≡ o
    → IsHint self (length_hint o self.transfer_encoding)
length_hint-IsHint self (some n) other e = by_length n other e
length_hint-IsHint self none other e = elim (contains_chunked_iff self.transfer_encoding) [
  | inl (c, (before, after, at)) ↦ rw c (by_chunks before after other e at)
  | inr (c, none_of) ↦ rw c (until_end other e none_of)
]

reader_hint-IsHint : {C : Type 0} (self : Response C) → IsHint self (reader_hint self)
unfolding reader_hint
reader_hint-IsHint self = elim (is_head_iff self.method) [
  | inl (head, e) ↦ rw head (to_head e)
  | inr (other, e) ↦ rw other (length_hint-IsHint self self.content_length e refl)
]

body_run :
    {C E : Type 0} (self : Response C) (head extra rest : Bytes)
    → self.header_buf ≡ head ++ (extra ++ rest)
    → self.header_len ≡ length head
    → self.raw_body_read ≡ length extra
    → body {E = E} self
      ≡ ok (record {
        conn = self.conn;
        reader_hint = reader_hint self;
        raw_body_read = self.raw_body_read;
        body_buf = extra ++ drop (0 + length extra) (head ++ (extra ++ rest));
      })
unfolding body
body_run {C} {E} self head extra rest e l k = rw (
  e,
  copy_within-append {E = E} [] head extra rest self.header_len
      (self.header_len + self.raw_body_read) 0 refl (omega (arith, l))
      (ap (λ n. self.header_len + n) k),
)

-- If the header and the bytes read behind it lie in the buffer, `body` does not panic. It chooses
-- the reader that the method, the length and the encodings call for, and its buffer, of the same length, starts with the bytes that were read of the body.
pub body_lem :
    {C E : Type 0} (self : Response C)
    → self.header_len + self.raw_body_read ≤ length self.header_buf
    → (b : ResponseBody C) × (body {E = E} self ≡ ok b)
      × (b.conn ≡ self.conn)
      × (b.reader_hint ≡ reader_hint self)
      × IsHint self b.reader_hint
      × (b.raw_body_read ≡ self.raw_body_read)
      × (length b.body_buf ≡ length self.header_buf)
      × (take b.raw_body_read b.body_buf
          ≡ slice self.header_buf self.header_len (self.header_len + self.raw_body_read))
body_lem {C} {E} self fits =
    let (head, behind, e, l) = split_at self.header_len self.header_buf (omega arith) in
    let total : length self.header_buf ≡ length head + length behind =
      ap length e ∙ length-append head behind in
    let (extra, rest, e', k) = split_at self.raw_body_read behind (omega (arith, total, l, fits)) in
    let whole : self.header_buf ≡ head ++ (extra ++ rest) = e ∙ ap (λ z. head ++ z) e' in
    let below = drop (0 + length extra) (head ++ (extra ++ rest)) in
    (
      _,
      body_run {E = E} self head extra rest whole (sym l) (sym k),
      refl,
      refl,
      reader_hint-IsHint self,
      refl,
      length-append extra below
          ∙ omega (
            arith,
            length-drop (0 + length extra) (head ++ (extra ++ rest)),
            length-append head (extra ++ rest),
            length-append extra rest,
            ap length whole,
          ),
      take-append extra below self.raw_body_read (sym k)
          ∙ sym (
              ap (λ z. slice z self.header_len (self.header_len + self.raw_body_read)) whole
              ∙ slice-append head extra rest self.header_len (self.header_len + self.raw_body_read)
                  (sym l) (omega (arith, k))),
    )
