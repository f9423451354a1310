-- ===== src/Headers/Laws.antt =====
-- The names of content types and transfer encodings are read back.
use reqwless.Base.{
  ◌≡◌, refl, sym, ap, ◌∙◌, [], ◌∷◌, ◌⊎◌, inl, inr, true, false, ◌&&◌, ◌↔◌, Option, none, some,
}
use reqwless.Base.{Bytes, bytes_eq, ◌==◌, ==_iff, Bool-cases, if◌then◌else◌, unwrap_or}
use reqwless.Headers.{
  text, ContentType, from, content_type_as_str, TransferEncoding, try_from,
  transfer_encoding_as_str,
}

pub bytes_eq-true : (xs ys : Bytes) → bytes_eq xs ys ≡ true → xs ≡ ys
bytes_eq-true [] [] e = refl
bytes_eq-true [] (y ∷ ys) e = cc
bytes_eq-true (x ∷ xs) [] e = cc
bytes_eq-true (x ∷ xs) (y ∷ ys) e = elim (Bool-cases (x == y)) [
  | inl same ↦
      let head : x ≡ y = (==_iff x y).0 same in
      let tail : xs ≡ ys = bytes_eq-true xs ys (sym (ap (λ b. b && bytes_eq xs ys) same) ∙ e) in cc
  | inr other ↦ let f : false ≡ true = sym (ap (λ b. b && bytes_eq xs ys) other) ∙ e in cc
]

-- An arm of a match on a byte string keeps what all its results satisfy.
arm_lem :
    {A : Type 0} (P : A → Type 0) (bs name : Bytes) (a below : A)
    → (bs ≡ name → P a)
    → P below
    → P (if bytes_eq bs name then a else below)
arm_lem P bs name a below here rest = elim (Bool-cases (bytes_eq bs name)) [
  | inl e ↦ rw e (here (bytes_eq-true bs name e))
  | inr e ↦ rw e rest
]

-- Every content type is read back from its name, and a byte string that is not the name of what it
-- is read as is read as `application/octet-stream`.
pub content_type_names :
    (bs : Bytes) (c : ContentType)
    → (from (content_type_as_str c) ≡ c)
      × ((content_type_as_str (from bs) ≡ bs) ⊎ (from bs ≡ ContentType.application_octet_stream))
unfolding from content_type_as_str
content_type_names bs c = (back c, forth)
  where
    back : (c : ContentType) → from (content_type_as_str c) ≡ c
    back ContentType.text_html = refl
    back ContentType.text_plain = refl
    back ContentType.application_json = refl
    back ContentType.application_cbor = refl
    back ContentType.application_octet_stream = refl

    Named : ContentType → Type 0
    Named c = (content_type_as_str c ≡ bs) ⊎ (c ≡ ContentType.application_octet_stream)

    forth : Named (from bs)
    forth =
        arm_lem Named bs (text "application/json") ContentType.application_json _ (λ e. inl (sym e))
          (arm_lem Named bs (text "application/cbor") ContentType.application_cbor _
            (λ e. inl (sym e))
            (arm_lem Named bs (text "text/html") ContentType.text_html _ (λ e. inl (sym e))
              (arm_lem Named bs (text "text/plain") ContentType.text_plain
                ContentType.application_octet_stream (λ e. inl (sym e)) (inr refl))))

-- Every transfer encoding is read back from its name, and nothing else is read as one.
pub transfer_encoding_names :
    (bs : Bytes) (c : TransferEncoding) → (try_from bs ≡ some c) ↔ (bs ≡ transfer_encoding_as_str c)
unfolding try_from transfer_encoding_as_str
transfer_encoding_names bs c = ((λ e. forth c e), (λ e. ap try_from e ∙ back c))
  where
    back : (c : TransferEncoding) → try_from (transfer_encoding_as_str c) ≡ some c
    back TransferEncoding.chunked = refl
    back TransferEncoding.compress = refl
    back TransferEncoding.deflate = refl
    back TransferEncoding.gzip = refl

    Named : Option TransferEncoding → Type 0
    Named o = (c : TransferEncoding) → o ≡ some c → bs ≡ transfer_encoding_as_str c

    here : (d : TransferEncoding) → bs ≡ transfer_encoding_as_str d → Named (some d)
    here d e c q = e ∙ ap (λ o. transfer_encoding_as_str (unwrap_or o d)) q

    forth : Named (try_from bs)
    forth =
        arm_lem Named bs (text "chunked") (some TransferEncoding.chunked) _
          (here TransferEncoding.chunked)
          (arm_lem Named bs (text "compress") (some TransferEncoding.compress) _
            (here TransferEncoding.compress)
            (arm_lem Named bs (text "deflate") (some TransferEncoding.deflate) _
              (here TransferEncoding.deflate)
              (arm_lem Named bs (text "gzip") (some TransferEncoding.gzip) none
                (here TransferEncoding.gzip) (λ c q. cc))))
